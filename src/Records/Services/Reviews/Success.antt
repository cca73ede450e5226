-- ===== src/Records/Services/Reviews/Success.antt =====
-- What a decision or a withdrawal that succeeded went through.
use mathlib.Core.Path.{subst}
use research_desk.Prelude.{
  ℕ, ◌+◌, ◌≡◌, refl, sym, ◌∙◌, Bool, true, false, not, ◌&&◌, ◌||◌, Option, none, some, [], ◌∷◌,
  Text, ◌==◌, if◌then◌else◌, arith, any, ap,
}
use research_desk.Transactions.{Result, ok, ◌>>◌, bind-eq-ok, check-eq-ok, found-eq-ok, raise_if}
use research_desk.Records.Matching.{is_identical}
use research_desk.Records.Models.{
  Db, Action, accept, reject, defer, CandidatePair, SourceRecord, MatchProposal, ReviewDecision,
  by_decision, by_withdrawal, find_pair, find_record, find_decision, latest_proposal, save_pair,
}
use research_desk.Records.Sets.{set_of}
use research_desk.Records.Services.{
  Tx, DomainError, missing, stale_revision, missing_proposal, active_decision, group_rejection,
  reason_required, group_connected, already_withdrawn, is_accept, is_withdrawal, withdraws,
  records_of,
}
use research_desk.Records.Services.Regroup.{regroup}
use research_desk.Records.Services.Checks.{
  Payload, admit, controls, eq_revision, blocks_accept, conflicts, is_nil,
}
use research_desk.Records.Services.Reviews.{
  store, decide_new, withdraw_new, state_after, state_from, controlling,
}

-- What `admit` asked for.
abbrev pub IsAdmitted :
    Action → CandidatePair → SourceRecord → SourceRecord → MatchProposal → Text → Db → Type 0
IsAdmitted accept pair left right proposal reason db =
    let rs = records_of (set_of (left.publication ∷ right.publication ∷ [])) db.records in
    (blocks_accept db rs ≡ false) × ((conflicts db rs proposal && is_nil reason) ≡ false)
IsAdmitted reject pair left right proposal reason db =
    ((left.publication == right.publication) ≡ false)
    × ((is_identical proposal.result.doi && is_nil reason) ≡ false)
IsAdmitted _ pair left right proposal reason db = Unit

ok-eq-ok :
    {A : Type 0} (a b : A) (s t : Db)
    → ◌≡◌ {A = Result DomainError (A × Db)} (ok (a, s)) (ok (b, t))
    → (a ≡ b) × (s ≡ t)
ok-eq-ok a b s t h = (ground arith, ground arith)

last_check :
    {P : Type 0} (c : Bool) (e : DomainError) (db : Db) {u : Unit {0}} {s : Db}
    → P
    → raise_if c e db ≡ ok (u, s)
    → (P × (c ≡ false)) × (s ≡ db)
last_check true e db p h = cc
last_check false e db p h = ((p, refl), ground (arith, h))

admit-eq-ok :
    (action : Action) (pair : CandidatePair) (left right : SourceRecord) (proposal : MatchProposal)
    (reason : Text) (db : Db) {u : Unit {0}} {s : Db}
    → admit action pair left right proposal reason db ≡ ok (u, s)
    → IsAdmitted action pair left right proposal reason db × (s ≡ db)
unfolding admit
admit-eq-ok accept pair left right proposal reason db h =
    let rs = records_of (set_of (left.publication ∷ right.publication ∷ [])) db.records in
    let (free, k) = check-eq-ok (blocks_accept db rs) group_rejection _ db h in
    last_check (conflicts db rs proposal && is_nil reason) reason_required db free k
admit-eq-ok reject pair left right proposal reason db h =
    let (free, k) = check-eq-ok (left.publication == right.publication) group_connected _ db h in
    last_check (is_identical proposal.result.doi && is_nil reason) reason_required db free k
admit-eq-ok defer pair left right proposal reason db h = (tt, ground (arith, h))
admit-eq-ok Action.withdraw pair left right proposal reason db h = (tt, ground (arith, h))

admit-IsAdmitted :
    {B : Type 0} (action : Action) (pair : CandidatePair) (left right : SourceRecord)
    (proposal : MatchProposal) (reason : Text) (k : Tx B) (db : Db) {b : B} {db' : Db}
    → (admit action pair left right proposal reason >> k) db ≡ ok (b, db')
    → IsAdmitted action pair left right proposal reason db × (k db ≡ ok (b, db'))
admit-IsAdmitted action pair left right proposal reason k db {b} {db'} h =
    let (u, s, p, q) = bind-eq-ok (admit action pair left right proposal reason) (λ _. k) db h in
    let (admitted, same) = admit-eq-ok action pair left right proposal reason db p in
    (admitted, subst (λ (t : Db). k t ≡ ok (b, db')) same q)

-- The state with the decision and the pair, before the publications are made again.
abbrev pub with_decision : ReviewDecision → CandidatePair → Db → Db
with_decision d pair db =
    save_pair pair (record db { decisions = d ∷ db.decisions; next_id = db.next_id + 1 })

module _ (sha256 : Payload → ℕ) (pk : ℕ) (action : Action) (actor reason : Text)
    (expected : Option ℕ) (key : Text) (digest now : ℕ) (db : Db) where
  abbrev pub decision_of : CandidatePair → MatchProposal → ReviewDecision
  decision_of pair proposal = record {
    id = db.next_id;
    pair = pair.id;
    proposal = proposal.id;
    action = action;
    actor = actor;
    reason = reason;
    expected_revision = expected;
    idempotency_key = key;
    request_hash = digest;
    withdrawal_of = none;
  }

  abbrev pub outcome : CandidatePair → SourceRecord → SourceRecord → ReviewDecision → Db
  outcome pair left right d =
      let stored =
        with_decision d (record pair { state = state_after action; revision = pair.revision + 1 })
          db in
      if is_accept action
      then regroup (set_of (left.publication ∷ right.publication ∷ [])) (by_decision d.id) now
          stored
      else stored

  pub record IsDecided (d : ReviewDecision) (db' : Db) : Type 0 where
    pub pair : CandidatePair
    pub left : SourceRecord
    pub right : SourceRecord
    pub proposal : MatchProposal
    pub found : find_pair db pk ≡ some pair
    pub found_left : find_record db pair.left ≡ some left
    pub found_right : find_record db pair.right ≡ some right
    pub current : eq_revision expected pair.revision ≡ true
    pub latest : latest_proposal db pk ≡ some proposal
    pub free : any (controls db.decisions pk) db.decisions ≡ false
    pub admitted : IsAdmitted action pair left right proposal reason db
    pub decision : d ≡ decision_of pair proposal
    pub stored : db' ≡ outcome pair left right d

  pub decide_new-IsDecided :
      {d : ReviewDecision} {db' : Db}
      → decide_new sha256 pk action actor reason expected key digest now db ≡ ok (d, db')
      → IsDecided d db'
  unfolding decide_new store
  decide_new-IsDecided {d} {db'} h =
      let (pair, p, h1) = found-eq-ok (find_pair db pk) missing _ db h in
      let (left, l, h2) = found-eq-ok (find_record db pair.left) missing _ db h1 in
      let (right, r, h3) = found-eq-ok (find_record db pair.right) missing _ db h2 in
      let (fresh, h4) =
        check-eq-ok (not (eq_revision expected pair.revision)) stale_revision _ db h3 in
      let (proposal, q, h5) = found-eq-ok (latest_proposal db pk) missing_proposal _ db h4 in
      let (free, h6) =
        check-eq-ok (any (controls db.decisions pk) db.decisions) active_decision _ db h5 in
      let (admitted, h7) = admit-IsAdmitted action pair left right proposal reason _ db h6 in
      let (e, f) =
        ok-eq-ok (decision_of pair proposal) d (outcome pair left right (decision_of pair proposal))
          db' h7 in
      record {
        pair = pair;
        left = left;
        right = right;
        proposal = proposal;
        found = p;
        found_left = l;
        found_right = r;
        current = ground (arith, fresh);
        latest = q;
        free = free;
        admitted = admitted;
        decision = sym e;
        stored = sym f ∙ ap (outcome pair left right) e;
      }

module _ (sha256 : Payload → ℕ) (pk : ℕ) (actor reason : Text) (expected : Option ℕ) (key : Text)
    (digest now : ℕ) (db : Db) where
  abbrev pub withdrawal_of : CandidatePair → ReviewDecision → ReviewDecision
  withdrawal_of pair original = record {
    id = db.next_id;
    pair = pair.id;
    proposal = original.proposal;
    action = Action.withdraw;
    actor = actor;
    reason = reason;
    expected_revision = expected;
    idempotency_key = key;
    request_hash = digest;
    withdrawal_of = some pk;
  }

  abbrev pub withdrawn :
      CandidatePair → SourceRecord → SourceRecord → ReviewDecision → ReviewDecision → Db
  withdrawn pair left right original d =
      let added = record db { decisions = d ∷ db.decisions; next_id = db.next_id + 1 } in
      let state =
        state_from (controlling added.decisions pair.id) (latest_proposal added pair.id) in
      let stored = save_pair (record pair { state = state; revision = pair.revision + 1 }) added in
      if is_accept original.action
      then regroup (set_of (left.publication ∷ right.publication ∷ [])) (by_withdrawal d.id) now
          stored
      else stored

  pub record IsWithdrawn (d : ReviewDecision) (db' : Db) : Type 0 where
    pub original : ReviewDecision
    pub pair : CandidatePair
    pub left : SourceRecord
    pub right : SourceRecord
    pub given : is_nil reason ≡ false
    pub found : find_decision db pk ≡ some original
    pub found_pair : find_pair db original.pair ≡ some pair
    pub found_left : find_record db pair.left ≡ some left
    pub found_right : find_record db pair.right ≡ some right
    pub current : eq_revision expected pair.revision ≡ true
    pub first : (is_withdrawal original.action || any (withdraws pk) db.decisions) ≡ false
    pub decision : d ≡ withdrawal_of pair original
    pub stored : db' ≡ withdrawn pair left right original d

  pub withdraw_new-IsWithdrawn :
      {d : ReviewDecision} {db' : Db}
      → withdraw_new sha256 pk actor reason expected key digest now db ≡ ok (d, db')
      → IsWithdrawn d db'
  unfolding withdraw_new store
  withdraw_new-IsWithdrawn {d} {db'} h =
      let (given, h0) = check-eq-ok (is_nil reason) reason_required _ db h in
      let (original, o, h1) = found-eq-ok (find_decision db pk) missing _ db h0 in
      let (pair, p, h2) = found-eq-ok (find_pair db original.pair) missing _ db h1 in
      let (left, l, h3) = found-eq-ok (find_record db pair.left) missing _ db h2 in
      let (right, r, h4) = found-eq-ok (find_record db pair.right) missing _ db h3 in
      let (fresh, h5) =
        check-eq-ok (not (eq_revision expected pair.revision)) stale_revision _ db h4 in
      let (first, h6) =
        check-eq-ok (is_withdrawal original.action || any (withdraws pk) db.decisions)
          already_withdrawn _ db h5 in
      let (e, f) =
        ok-eq-ok (withdrawal_of pair original) d
          (withdrawn pair left right original (withdrawal_of pair original)) db' h6 in
      record {
        original = original;
        pair = pair;
        left = left;
        right = right;
        given = given;
        found = o;
        found_pair = p;
        found_left = l;
        found_right = r;
        current = ground (arith, fresh);
        first = first;
        decision = sym e;
        stored = sym f ∙ ap (withdrawn pair left right original) e;
      }
