-- ===== src/Records/Services.antt =====
-- The transactions on records and their review (records/services.py). The advisory lock that each of
-- them takes runs them one after another. Here is what they share; `Components` has the groups of
-- linked records, `Projection` and `Regroup` the publications, `Compare`, `Ingest`
-- and `Candidates` the records and their pairs, `Checks`, `Reviews` and `Preview` the decisions. Hashes are numbers that an argument computes.
pub mod Components
pub mod Projection
pub mod Regroup
pub mod Compare
pub mod Ingest
pub mod Candidates
pub mod Checks
pub mod Reviews
pub mod Preview
mod Tests
use research_desk.Prelude.{
  ℕ, ◌+◌, Bool, true, false, not, ◌&&◌, ◌||◌, Option, none, some, List, [], ◌∷◌, ◌==◌, Text,
  if◌then◌else◌, any,
}
use research_desk.Json.{Fields, end}
use research_desk.Records.Normalization.{Problem}
use research_desk.Records.Models.{
  Db, Action, accept, reject, defer, ReviewDecision, SourceRecord, CandidatePair, find_pair,
  find_record, find_version,
}
use research_desk.Records.Sets.{member}
use research_desk.Transactions.{Transaction}

-- A `DomainError` by its code, the `ValueError`s, and Django's `DoesNotExist`.
pub data DomainError : Type 0 where
  missing : DomainError
  invalid_identifier invalid_k : DomainError
  invalid_payload : Problem → DomainError
  invalid_idempotency_key idempotency_conflict stale_revision : DomainError
  invalid_action missing_proposal active_decision group_rejection : DomainError
  reason_required group_connected already_withdrawn : DomainError

abbrev pub Tx : Type 0 → Type 0
Tx A = Transaction Db DomainError A

-- The "normalized" of the current version of a record: `ingest_record` gives each record one.
unfoldable pub normalized_of : Db → SourceRecord → Fields
normalized_of db r = elim (find_version db r.current_version) [ none ↦ end | some v ↦ v.normalized ]

-- `decision.withdrawal`: the decision that withdrew it.
abbrev pub withdraws : ℕ → ReviewDecision → Bool
withdraws pk d = elim d.withdrawal_of [ none ↦ false | some original ↦ original == pk ]

abbrev pub is_withdrawal : Action → Bool
is_withdrawal Action.withdraw = true
is_withdrawal _ = false

abbrev pub is_accept : Action → Bool
is_accept accept = true
is_accept _ = false

abbrev pub is_reject : Action → Bool
is_reject reject = true
is_reject _ = false

abbrev pub is_defer : Action → Bool
is_defer defer = true
is_defer _ = false

-- `_active_decisions()`, as a test among all decisions.
abbrev pub is_active : List ReviewDecision → ReviewDecision → Bool
is_active all d = not (any (withdraws d.id) all) && not (is_withdrawal d.action)

-- The endpoints of the pair of a decision.
abbrev pub endpoints : Option CandidatePair → ℕ × ℕ
endpoints none = (0, 0)
endpoints (some pair) = (pair.left, pair.right)

-- Whether a decision is the one that `exclude(pk=excluded)` leaves out.
abbrev pub is_excluded : Option ℕ → ReviewDecision → Bool
is_excluded none d = false
is_excluded (some pk) d = d.id == pk

-- The links of `_components`: the active decisions "accept", less the excluded one.
unfoldable pub links_among :
    Db → Option ℕ → List ReviewDecision → List ReviewDecision → List (ℕ × ℕ)
links_among db excluded all [] = []
links_among db excluded all (d ∷ ds) =
    let rest = links_among db excluded all ds in
    if is_active all d && is_accept d.action && not (is_excluded excluded d)
    then endpoints (find_pair db d.pair) ∷ rest
    else rest

unfoldable pub links : Db → Option ℕ → List (ℕ × ℕ)
unfolding links_among
links db excluded = links_among db excluded db.decisions db.decisions

-- `filter(publication_id__in=publications)`.
unfoldable pub records_of : List ℕ → List SourceRecord → List SourceRecord
unfolding member
records_of publications [] = []
records_of publications (r ∷ rs) =
    let rest = records_of publications rs in
    if member r.publication publications then r ∷ rest else rest

unfoldable pub record_ids : List SourceRecord → List ℕ
record_ids [] = []
record_ids (r ∷ rs) = r.id ∷ record_ids rs

-- `filter(Q(left_id__in=ids) | Q(right_id__in=ids)).update(revision=F("revision") + 1)`.
unfoldable pub bump_pairs : List ℕ → List CandidatePair → List CandidatePair
unfolding member
bump_pairs ids [] = []
bump_pairs ids (p ∷ ps) =
    (if member p.left ids || member p.right ids then record p { revision = p.revision + 1 } else p)
    ∷ bump_pairs ids ps
