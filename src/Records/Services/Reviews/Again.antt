-- ===== src/Records/Services/Reviews/Again.antt =====
-- A request that is sent twice, and a request that was made on an older state.
use mathlib.Core.Path.{subst}
use research_desk.Prelude.{
  ℕ, ◌≡◌, refl, sym, ◌∙◌, true, false, Option, none, some, ◌∷◌, Text, ◌==◌, arith, Bool-cases, inl,
  inr, ap, strip, eq_text_iff,
}
use research_desk.Table.{find_where}
use research_desk.Transactions.{ok, bind-eq-ok, check-eq-ok, found-eq-ok, found-step, bind-step}
use research_desk.Records.Models.{Db, Action, CandidatePair, SourceRecord, ReviewDecision}
use research_desk.Records.Services.{
  invalid_action, invalid_idempotency_key, idempotency_conflict, is_accept,
}
use research_desk.Records.Services.Checks.{
  Payload, decide_payload, choice, idempotent, is_no_key, other_hash, has_key,
}
use research_desk.Records.Services.Reviews.{decide, decide_new, prior_or}
use research_desk.Records.Services.Reviews.Success.{decide_new-IsDecided, outcome}
use research_desk.Records.Services.Regroup.Stays.{regroup-IsRemade}

-- What `_idempotent` found.
pub idempotent-eq-ok :
    (actor key : Text) (digest : ℕ) (db : Db) {prior : Option ReviewDecision} {db' : Db}
    → idempotent actor key digest db ≡ ok (prior, db')
    → (is_no_key key ≡ false)
      × (other_hash (find_where (has_key actor key) db.decisions) digest ≡ false)
      × (prior ≡ find_where (has_key actor key) db.decisions)
      × (db' ≡ db)
unfolding idempotent
idempotent-eq-ok actor key digest db {prior} {db'} h =
    let (valid, h1) = check-eq-ok (is_no_key key) invalid_idempotency_key _ db h in
    let (same, h2) =
      check-eq-ok (other_hash (find_where (has_key actor key) db.decisions) digest)
        idempotency_conflict _ db h1 in
    (valid, same, ground (arith, h2), ground (arith, h2))

-- The key finds the decision that was made with it.
idempotent-prior :
    (actor key : Text) (digest : ℕ) (db : Db) {d : ReviewDecision}
    → is_no_key key ≡ false
    → find_where (has_key actor key) db.decisions ≡ some d
    → (d.request_hash == digest) ≡ true
    → idempotent actor key digest db ≡ ok (some d, db)
unfolding idempotent
idempotent-prior actor key digest db v f e = rw (v, f, e) refl

module _ (sha256 : Payload → ℕ) (pk : ℕ) (action : Action) (actor reason : Text)
    (expected : Option ℕ) (key : Text) (digest now : ℕ) (db : Db) where
  outcome-decisions :
      (pair : CandidatePair) (left right : SourceRecord) (d : ReviewDecision)
      → (outcome sha256 pk action actor reason expected key digest now db pair left right
          d).decisions
        ≡ d ∷ db.decisions
  outcome-decisions pair left right d = elim (Bool-cases (is_accept action)) [
    | inl e ↦ rw e ((regroup-IsRemade _ _ now _).decisions)
    | inr e ↦ rw e refl
  ]

  -- The new decision has the key and the hash of the request.
  decide_new-has_key :
      {d : ReviewDecision} {db' : Db}
      → decide_new sha256 pk action actor reason expected key digest now db ≡ ok (d, db')
      → (find_where (has_key actor key) db'.decisions ≡ some d)
        × ((d.request_hash == digest) ≡ true)
  unfolding find_where
  decide_new-has_key {d} {db'} h =
      let s = decide_new-IsDecided sha256 pk action actor reason expected key digest now db h in
      let listed : db'.decisions ≡ d ∷ db.decisions =
        ap (λ (t : Db). t.decisions) s.stored ∙ outcome-decisions s.pair s.left s.right d in
      let mine : has_key actor key d ≡ true =
        ap (has_key actor key) s.decision
        ∙ ground (arith, (eq_text_iff actor actor).1 refl, (eq_text_iff key key).1 refl) in
      let hash = ap (λ (x : ReviewDecision). x.request_hash) s.decision in
      (rw (listed, mine) refl, ground (arith, hash))

-- A decision that is sent again with its key returns the decision that was made, and changes nothing.
pub decide_twice :
    (sha256 : Payload → ℕ) (pk : ℕ) (word actor reason : Text) (expected : Option ℕ) (key : Text)
    (now later : ℕ) (db : Db) {d : ReviewDecision} {db' : Db}
    → decide sha256 pk word actor reason expected key now db ≡ ok (d, db')
    → decide sha256 pk word actor reason expected key later db' ≡ ok (d, db')
unfolding decide
decide_twice sha256 pk word actor reason expected key now later db {d} {db'} h =
    let (action, w, h1) = found-eq-ok (choice word) invalid_action _ db h in
    let digest = sha256 (decide_payload pk action (strip reason) expected) in
    let (prior, s, p, h2) = bind-eq-ok (idempotent actor key digest) _ db h1 in
    let (valid, same_hash, found, same) = idempotent-eq-ok actor key digest db p in
    let k =
      subst
        (λ (t : Db).
          prior_or prior (decide_new sha256 pk action actor (strip reason) expected key digest now)
            t
          ≡ ok (d, db'))
        same h2 in
    let (x, y) = from action digest prior valid same_hash found k in
    found-step (choice word) invalid_action _ db' w
    ∙ bind-step (idempotent actor key digest) _ db'
        (idempotent-prior actor key digest db' valid x y)
  where
    from :
        (action : Action) (digest : ℕ) (prior : Option ReviewDecision)
        → is_no_key key ≡ false
        → other_hash (find_where (has_key actor key) db.decisions) digest ≡ false
        → prior ≡ find_where (has_key actor key) db.decisions
        → prior_or prior
            (decide_new sha256 pk action actor (strip reason) expected key digest now)
            db
          ≡ ok (d, db')
        → (find_where (has_key actor key) db'.decisions ≡ some d)
          × ((d.request_hash == digest) ≡ true)
    from action digest none v o f k =
        decide_new-has_key sha256 pk action actor (strip reason) expected key digest now db k
    from action digest (some x) v o f k =
        let unmoved : db ≡ db' = ground (arith, k) in
        let one : x ≡ d = ground (arith, k) in
        let there : find_where (has_key actor key) db.decisions ≡ some d = sym f ∙ ap some one in
        (
          subst (λ (t : Db). find_where (has_key actor key) t.decisions ≡ some d) unmoved there,
          ground
              (arith, subst (λ (r : Option ReviewDecision). other_hash r digest ≡ false) there o),
        )
