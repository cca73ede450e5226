-- ===== src/Records/Services/Reviews/Grounded.antt =====
-- Decisions and withdrawals leave everything in place that decisions refer to.
use mathlib.Core.Path.{subst}
use research_desk.Prelude.{
  ℕ, ◌+◌, ◌≡◌, refl, sym, ◌∙◌, Option, none, some, List, ◌∷◌, Text, strip, arith, Bool-cases, inl,
  inr, All, All-map, ap,
}
use research_desk.Table.{find_row, key-find_row}
use research_desk.Transactions.{ok, bind-eq-ok, found-eq-ok}
use research_desk.Records.Models.{
  Db, Action, CandidatePair, SourceRecord, ReviewDecision, PairState, find_pair, find_record,
  pair_id, latest_proposal,
}
use research_desk.Records.Services.{invalid_action, is_accept}
use research_desk.Records.Services.Checks.{
  Payload, decide_payload, withdraw_payload, choice, idempotent,
}
use research_desk.Records.Services.Reviews.{
  decide, decide_new, withdraw, withdraw_new, prior_or, state_after, state_from, controlling,
}
use research_desk.Records.Services.Regroup.Assigned.{pub_of}
use research_desk.Records.Services.Regroup.Publications.{is_found}
use research_desk.Records.Services.Regroup.Stays.{IsRemade, regroup-IsRemade}
use research_desk.Records.Services.Reviews.Success.{
  with_decision, decide_new-IsDecided, withdraw_new-IsWithdrawn,
}
use research_desk.Records.Services.Reviews.Stored.{pub_of-find_row}
use research_desk.Records.Services.Reviews.Decided.{idempotent-eq-ok}
use research_desk.Records.Services.Reviews.Stale.{find_row-bump_pairs}
use research_desk.Records.Services.Reviews.Extended.{IsGrounded, IsPaired}
use research_desk.Records.Services.Reviews.Adding.{saved_pairs}

remade-IsGrounded : (db db' : Db) → IsRemade db db' → IsGrounded db → IsGrounded db'
remade-IsGrounded db db' k g = record {
  paired =
      subst (λ (ds : List ReviewDecision). All (λ (d : ReviewDecision). IsPaired db' d.pair) ds)
        (sym k.decisions)
        (All-map (λ (d : ReviewDecision). IsPaired db d.pair)
          (λ d h.
            let (q, f, le, l, r) = find_row-bump_pairs k.bumped d.pair db.pairs h.found in
            record {
              pair = q;
              found = ap (find_row pair_id d.pair) k.pairs ∙ f;
              left_found =
                  ap (λ (i : ℕ). is_found (pub_of i db'.records)) l
                  ∙ k.there h.pair.left
                  ∙ h.left_found;
              right_found =
                  ap (λ (i : ℕ). is_found (pub_of i db'.records)) r
                  ∙ k.there h.pair.right
                  ∙ h.right_found;
            })
          db.decisions g.paired);
  known = λ a h. omega (arith, g.known a (sym (k.there a) ∙ h), k.grows);
}

module _ (db : Db) (d : ReviewDecision) (pair : CandidatePair) (left right : SourceRecord) (pk : ℕ)
    (found : find_pair db pk ≡ some pair) (found_left : find_record db pair.left ≡ some left)
    (found_right : find_record db pair.right ≡ some right) (about : d.pair ≡ pair.id)
    (g : IsGrounded db) where
  stored-IsGrounded :
      (state : PairState) (revision : ℕ)
      → IsGrounded (with_decision d (record pair { state = state; revision = revision }) db)
  stored-IsGrounded state revision =
      let saved : CandidatePair = record pair { state = state; revision = revision } in
      let still = λ (x : ReviewDecision) (h : IsPaired db x.pair).
        still_paired saved refl refl refl x.pair h in
      let key = key-find_row pair_id pk db.pairs found in
      let own : IsPaired db d.pair = record {
        pair = pair;
        found = ap (find_pair db) (about ∙ key) ∙ found;
        left_found = ap is_found (pub_of-find_row pair.left db.records found_left);
        right_found = ap is_found (pub_of-find_row pair.right db.records found_right);
      } in
      record {
        paired = (
          still d own,
          All-map (λ (x : ReviewDecision). IsPaired db x.pair) still db.decisions g.paired,
        );
        known = λ a h. omega (arith, g.known a h);
      }
    where
      still_paired :
          (saved : CandidatePair)
          → saved.id ≡ pair.id
          → saved.left ≡ pair.left
          → saved.right ≡ pair.right
          → (j : ℕ) → IsPaired db j
          → IsPaired (with_decision d saved db) j
      still_paired saved i l r j h =
          let (q, f, x, y) = saved_pairs db.pairs pair saved pk j found i l r h.found in
          record {
            pair = q;
            found = f;
            left_found = ap (λ (n : ℕ). is_found (pub_of n db.records)) x ∙ h.left_found;
            right_found = ap (λ (n : ℕ). is_found (pub_of n db.records)) y ∙ h.right_found;
          }

decide_new-IsGrounded :
    (sha256 : Payload → ℕ) (pk : ℕ) (action : Action) (actor reason : Text) (expected : Option ℕ)
    (key : Text) (digest now : ℕ) (db : Db) {d : ReviewDecision} {db' : Db}
    → IsGrounded db
    → decide_new sha256 pk action actor reason expected key digest now db ≡ ok (d, db')
    → IsGrounded db'
decide_new-IsGrounded sha256 pk action actor reason expected key digest now db {d} {db'} g h =
    let s = decide_new-IsDecided sha256 pk action actor reason expected key digest now db h in
    let same_pair = ap (λ (x : ReviewDecision). x.pair) s.decision in
    let stored =
      stored-IsGrounded db d s.pair s.left s.right pk s.found s.found_left s.found_right same_pair g
        (state_after action) (s.pair.revision + 1) in
    subst IsGrounded (sym s.stored) (elim (Bool-cases (is_accept action)) [
      | inl e ↦ rw e (remade-IsGrounded _ _ (regroup-IsRemade _ _ now _) stored)
      | inr e ↦ rw e stored
    ])

withdraw_new-IsGrounded :
    (sha256 : Payload → ℕ) (pk : ℕ) (actor reason : Text) (expected : Option ℕ) (key : Text)
    (digest now : ℕ) (db : Db) {d : ReviewDecision} {db' : Db}
    → IsGrounded db
    → withdraw_new sha256 pk actor reason expected key digest now db ≡ ok (d, db')
    → IsGrounded db'
withdraw_new-IsGrounded sha256 pk actor reason expected key digest now db {d} {db'} g h =
    let s = withdraw_new-IsWithdrawn sha256 pk actor reason expected key digest now db h in
    let same_pair = ap (λ (x : ReviewDecision). x.pair) s.decision in
    let added = record db { decisions = d ∷ db.decisions; next_id = db.next_id + 1 } in
    let state =
      state_from (controlling added.decisions s.pair.id) (latest_proposal added s.pair.id) in
    let stored =
      stored-IsGrounded db d s.pair s.left s.right s.original.pair s.found_pair s.found_left
        s.found_right same_pair g state (s.pair.revision + 1) in
    subst IsGrounded (sym s.stored) (elim (Bool-cases (is_accept s.original.action)) [
      | inl e ↦ rw e (remade-IsGrounded _ _ (regroup-IsRemade _ _ now _) stored)
      | inr e ↦ rw e stored
    ])

pub decide-IsGrounded :
    (sha256 : Payload → ℕ) (pk : ℕ) (word actor reason : Text) (expected : Option ℕ) (key : Text)
    (now : ℕ) (db : Db) {d : ReviewDecision} {db' : Db}
    → IsGrounded db
    → decide sha256 pk word actor reason expected key now db ≡ ok (d, db')
    → IsGrounded db'
unfolding decide
decide-IsGrounded sha256 pk word actor reason expected key now db {d} {db'} g h =
    let (action, w, h1) = found-eq-ok (choice word) invalid_action _ db h in
    let digest = sha256 (decide_payload pk action (strip reason) expected) in
    let (prior, s, p, h2) = bind-eq-ok (idempotent actor key digest) _ db h1 in
    let same = idempotent-eq-ok actor key digest db p in
    from action digest prior (
      subst
        (λ (t : Db).
          prior_or prior (decide_new sha256 pk action actor (strip reason) expected key digest now)
            t
          ≡ ok (d, db'))
        same h2)
  where
    from :
        (action : Action) (digest : ℕ) (prior : Option ReviewDecision)
        → prior_or prior
            (decide_new sha256 pk action actor (strip reason) expected key digest now)
            db
          ≡ ok (d, db')
        → IsGrounded db'
    from action digest none k =
        decide_new-IsGrounded sha256 pk action actor (strip reason) expected key digest now db g k
    from action digest (some x) k =
        let unmoved : db ≡ db' = ground (arith, k) in subst IsGrounded unmoved g

pub withdraw-IsGrounded :
    (sha256 : Payload → ℕ) (pk : ℕ) (actor reason : Text) (expected : Option ℕ) (key : Text)
    (now : ℕ) (db : Db) {d : ReviewDecision} {db' : Db}
    → IsGrounded db
    → withdraw sha256 pk actor reason expected key now db ≡ ok (d, db')
    → IsGrounded db'
unfolding withdraw
withdraw-IsGrounded sha256 pk actor reason expected key now db {d} {db'} g h =
    let digest = sha256 (withdraw_payload pk (strip reason) expected) in
    let (prior, s, p, h1) = bind-eq-ok (idempotent actor key digest) _ db h in
    let same = idempotent-eq-ok actor key digest db p in
    from digest prior (
      subst
        (λ (t : Db).
          prior_or prior (withdraw_new sha256 pk actor (strip reason) expected key digest now) t
          ≡ ok (d, db'))
        same h1)
  where
    from :
        (digest : ℕ) (prior : Option ReviewDecision)
        → prior_or prior (withdraw_new sha256 pk actor (strip reason) expected key digest now) db
          ≡ ok (d, db')
        → IsGrounded db'
    from digest none k =
        withdraw_new-IsGrounded sha256 pk actor (strip reason) expected key digest now db g k
    from digest (some x) k =
        let unmoved : db ≡ db' = ground (arith, k) in subst IsGrounded unmoved g
