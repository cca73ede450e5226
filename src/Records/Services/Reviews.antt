-- ===== src/Records/Services/Reviews.antt =====
-- The decisions on pairs: `decide` and `withdraw` of records/services.py.
pub mod Consistent
pub mod Success
pub mod Steps
pub mod Stored
pub mod Pairs
pub mod Decided
pub mod Withdrawn
pub mod Extended
pub mod Adding
pub mod Creating
pub mod Saving
pub mod Ingesting
pub mod Grounded
pub mod Reachable
mod Tests
pub mod Again
pub mod Stale
use research_desk.Prelude.{
  ℕ, ◌+◌, Bool, false, ◌&&◌, ◌||◌, Option, none, some, List, [], ◌∷◌, ◌==◌, Text, if◌then◌else◌,
  strip, any,
}
use research_desk.Table.{find_where}
use research_desk.Transactions.{◌>>=◌, ◌>>◌, pure, gets, modify, raise_if, or_raise}
use research_desk.Records.Models.{
  Action, accept, reject, defer, PairState, accepted, rejected, deferred, needs_reassessment,
  CandidatePair, MatchProposal, ReviewDecision, by_decision, by_withdrawal, find_record, find_pair,
  find_decision, latest_proposal, save_pair,
}
use research_desk.Records.Sets.{union, set_of}
use research_desk.Records.Services.{
  Tx, missing, invalid_action, missing_proposal, active_decision, reason_required,
  already_withdrawn, withdraws, is_withdrawal, is_accept, is_defer, is_active,
}
use research_desk.Records.Services.Regroup.{regroup}
use research_desk.Records.Services.Checks.{
  choice, idempotent, check_revision, controls, is_nil, admit, Payload, decide_payload,
  withdraw_payload,
}

abbrev pub state_after : Action → PairState
state_after accept = accepted
state_after reject = rejected
state_after defer = deferred
state_after Action.withdraw = needs_reassessment

-- What is stored with the decision.
unfoldable pub store :
    CandidatePair → ℕ → Action → Text → Text → Option ℕ → Text → ℕ → Option ℕ → Tx ReviewDecision
store pair proposal action actor reason expected key digest original db =
    let d : ReviewDecision = record {
      id = db.next_id;
      pair = pair.id;
      proposal = proposal;
      action = action;
      actor = actor;
      reason = reason;
      expected_revision = expected;
      idempotency_key = key;
      request_hash = digest;
      withdrawal_of = original;
    } in
    pure d (record db { decisions = d ∷ db.decisions; next_id = db.next_id + 1 })

-- The active decision that accepts or rejects the pair, else the one that defers it.
unfoldable pub controlling : List ReviewDecision → ℕ → Option ReviewDecision
unfolding find_where
controlling all pair = elim (find_where (controls all pair) all) [
  | some d ↦ some d
  | none ↦ find_where (λ d. is_active all d && (is_defer d.action && d.pair == pair)) all
]

abbrev pub eq_proposal : ℕ → Option MatchProposal → Bool
eq_proposal pk none = false
eq_proposal pk (some p) = pk == p.id

-- The state of a pair after a withdrawal.
unfoldable pub state_from : Option ReviewDecision → Option MatchProposal → PairState
state_from none latest = needs_reassessment
state_from (some d) latest =
    if eq_proposal d.proposal latest then state_after d.action else needs_reassessment

-- `if prior: return prior`.
abbrev pub prior_or : Option ReviewDecision → Tx ReviewDecision → Tx ReviewDecision
prior_or none new = new
prior_or (some prior) new = pure prior

module _ (sha256 : Payload → ℕ) where
  -- `decide` of a request that is new.
  unfoldable pub decide_new : ℕ → Action → Text → Text → Option ℕ → Text → ℕ → ℕ → Tx ReviewDecision
  unfolding find_where admit store regroup union
  decide_new pk action actor reason expected key digest now = do
    found ← gets (λ db. find_pair db pk)
    pair ← or_raise found missing
    one ← gets (λ db. find_record db pair.left)
    left ← or_raise one missing
    other ← gets (λ db. find_record db pair.right)
    right ← or_raise other missing
    check_revision pair expected
    latest ← gets (λ db. latest_proposal db pk)
    proposal ← or_raise latest missing_proposal
    decided ← gets (λ db. any (controls db.decisions pk) db.decisions)
    raise_if decided active_decision
    admit action pair left right proposal reason
    d ← store pair proposal.id action actor reason expected key digest none
    modify λ db.
        save_pair (record pair { state = state_after action; revision = pair.revision + 1 }) db
    modify λ db.
        if is_accept action
        then regroup (set_of (left.publication ∷ right.publication ∷ [])) (by_decision d.id) now db
        else db
    pure d

  -- `decide(pair_id, action, actor, reason, expected_revision, idempotency_key)`.
  unfoldable pub decide : ℕ → Text → Text → Text → Option ℕ → Text → ℕ → Tx ReviewDecision
  unfolding choice strip idempotent decide_new
  decide pk word actor given expected key now = do
    let reason = strip given
    action ← or_raise (choice word) invalid_action
    let digest = sha256 (decide_payload pk action reason expected)
    prior ← idempotent actor key digest
    prior_or prior (decide_new pk action actor reason expected key digest now)

  -- `withdraw` of a request that is new.
  unfoldable pub withdraw_new : ℕ → Text → Text → Option ℕ → Text → ℕ → ℕ → Tx ReviewDecision
  unfolding store regroup union controlling state_from find_where
  withdraw_new pk actor reason expected key digest now = do
    raise_if (is_nil reason) reason_required
    found ← gets (λ db. find_decision db pk)
    original ← or_raise found missing
    paired ← gets (λ db. find_pair db original.pair)
    pair ← or_raise paired missing
    one ← gets (λ db. find_record db pair.left)
    left ← or_raise one missing
    other ← gets (λ db. find_record db pair.right)
    right ← or_raise other missing
    check_revision pair expected
    withdrawn ← gets (λ db. is_withdrawal original.action || any (withdraws pk) db.decisions)
    raise_if withdrawn already_withdrawn
    d ← store pair original.proposal Action.withdraw actor reason expected key digest (some pk)
    state ← gets (λ db. state_from (controlling db.decisions pair.id) (latest_proposal db pair.id))
    modify λ db. save_pair (record pair { state = state; revision = pair.revision + 1 }) db
    modify λ db.
        if is_accept original.action
        then regroup (set_of (left.publication ∷ right.publication ∷ [])) (by_withdrawal d.id) now
            db
        else db
    pure d

  -- `withdraw(decision_id, actor, reason, expected_revision, idempotency_key)`.
  unfoldable pub withdraw : ℕ → Text → Text → Option ℕ → Text → ℕ → Tx ReviewDecision
  unfolding strip idempotent withdraw_new
  withdraw pk actor given expected key now = do
    let reason = strip given
    let digest = sha256 (withdraw_payload pk reason expected)
    prior ← idempotent actor key digest
    prior_or prior (withdraw_new pk actor reason expected key digest now)
