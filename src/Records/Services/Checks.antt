-- ===== src/Records/Services/Checks.antt =====
-- The checks of `decide` and `withdraw` in records/services.py: the key of a request, the revision,
-- the active decisions, and the evidence of the group.
use research_desk.Prelude.{
  ℕ, Bool, true, false, not, ◌&&◌, ◌||◌, Option, none, some, List, [], ◌∷◌, ◌==◌, Text,
  if◌then◌else◌, ltb, length, eq_text, codes, any,
}
use research_desk.Json.{Json, get, truthy, eq_json}
use research_desk.Table.{find_where}
use research_desk.Transactions.{◌>>=◌, ◌>>◌, pure, gets, raise_if}
use research_desk.Records.Matching.{is_identical}
use research_desk.Records.Models.{
  Db, Action, accept, reject, defer, SourceRecord, CandidatePair, MatchProposal, ReviewDecision,
  find_pair,
}
use research_desk.Records.Sets.{member, union, set_of}
use research_desk.Records.Services.{
  Tx, invalid_idempotency_key, idempotency_conflict, stale_revision, group_rejection,
  reason_required, group_connected, normalized_of, is_accept, is_reject, is_active, endpoints,
  records_of, record_ids,
}

-- What a request asks for; its hash is an argument of the operations.
pub data Payload : Type 0 where
  decide_payload :
      (pair : ℕ) (action : Action) (reason : Text) (expected_revision : Option ℕ) → Payload
  withdraw_payload : (decision : ℕ) (reason : Text) (expected_revision : Option ℕ) → Payload

-- The word of a request, if it is one of the three.
unfoldable pub choice : Text → Option Action
choice word =
    if eq_text word (codes "accept")
    then some accept
    else (if eq_text word (codes "reject")
        then some reject
        else (if eq_text word (codes "defer") then some defer else none))

abbrev pub has_key : Text → Text → ReviewDecision → Bool
has_key actor key d = eq_text d.actor actor && eq_text d.idempotency_key key

abbrev pub is_no_key : Text → Bool
is_no_key [] = true
is_no_key (c ∷ key) = ltb 128 (length (c ∷ key))

abbrev pub other_hash : Option ReviewDecision → ℕ → Bool
other_hash none digest = false
other_hash (some prior) digest = not (prior.request_hash == digest)

-- `_idempotent(actor, key, payload)`, with the hash of the payload.
unfoldable pub idempotent : Text → Text → ℕ → Tx (Option ReviewDecision)
unfolding find_where
idempotent actor key digest = do
  raise_if (is_no_key key) invalid_idempotency_key
  prior ← gets (λ db. find_where (has_key actor key) db.decisions)
  raise_if (other_hash prior digest) idempotency_conflict
  pure prior

abbrev pub eq_revision : Option ℕ → ℕ → Bool
eq_revision none revision = false
eq_revision (some expected) revision = revision == expected

-- `_check_revision(pair, expected)`.
abbrev pub check_revision : CandidatePair → Option ℕ → Tx (Unit {0})
check_revision pair expected = raise_if (not (eq_revision expected pair.revision)) stale_revision

-- An active decision that accepts or rejects the pair.
abbrev pub controls : List ReviewDecision → ℕ → ReviewDecision → Bool
controls all pair d =
    is_active all d && ((is_accept d.action || is_reject d.action) && d.pair == pair)

-- An active rejection of a pair inside the group.
abbrev pub splits : Db → List ℕ → ReviewDecision → Bool
splits db ids d =
    is_active db.decisions d
    && (is_reject d.action
        && (member (endpoints (find_pair db d.pair)).0 ids
            && member (endpoints (find_pair db d.pair)).1 ids))

unfoldable pub dois_of : List SourceRecord → List Text
dois_of [] = []
dois_of (r ∷ rs) = elim r.doi [ [] ↦ dois_of rs | _ ∷ _ ↦ r.doi ∷ dois_of rs ]

unfoldable pub types_of : Db → List SourceRecord → List Json
unfolding normalized_of
types_of db [] = []
types_of db (r ∷ rs) =
    let kind = get "type" (normalized_of db r) in
    let rest = types_of db rs in if truthy kind then kind ∷ rest else rest

-- `len(set(xs)) > 1`: some element is not the first one.
unfoldable pub several : {A : Type 0} → (A → A → Bool) → List A → Bool
several eq [] = false
several eq (x ∷ xs) = any (λ y. not (eq x y)) xs

abbrev pub is_nil : {A : Type 0} → List A → Bool
is_nil [] = true
is_nil (_ ∷ _) = false

-- The evidence against an acceptance: DOIs or types that differ in the group, or warnings.
unfoldable pub conflicts : Db → List SourceRecord → MatchProposal → Bool
unfolding dois_of types_of several
conflicts db rs proposal =
    several eq_text (dois_of rs)
    || (several eq_json (types_of db rs) || not (is_nil proposal.result.warnings))

abbrev pub blocks_accept : Db → List SourceRecord → Bool
blocks_accept db rs = any (splits db (record_ids rs)) db.decisions

-- The checks of `decide` that depend on the action.
unfoldable pub admit :
    Action → CandidatePair → SourceRecord → SourceRecord → MatchProposal → Text → Tx (Unit {0})
unfolding records_of record_ids conflicts union
admit accept pair left right proposal reason = do
  rs ← gets (λ db. records_of (set_of (left.publication ∷ right.publication ∷ [])) db.records)
  blocked ← gets (λ db. blocks_accept db rs)
  raise_if blocked group_rejection
  conflicting ← gets (λ db. conflicts db rs proposal)
  raise_if (conflicting && is_nil reason) reason_required
admit reject pair left right proposal reason = do
  raise_if (left.publication == right.publication) group_connected
  raise_if (is_identical proposal.result.doi && is_nil reason) reason_required
admit _ pair left right proposal reason = pure tt
