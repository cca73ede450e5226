-- ===== src/Records/Services/Reviews/Decided.antt =====
-- A decision keeps publications and active decisions in agreement.
use mathlib.Core.Path.{subst}
use research_desk.Prelude.{
  ℕ, ◌+◌, ◌≡◌, refl, sym, ◌∙◌, true, false, ◌&&◌, Option, none, some, List, Text, ◌==◌, arith, inl,
  inr, strip, ap,
}
use research_desk.Table.{find_where}
use research_desk.Transactions.{ok, bind-eq-ok, check-eq-ok, found-eq-ok}
use research_desk.Records.Models.{
  Db, MatchProposal, Action, accept, reject, defer, CandidatePair, SourceRecord, ReviewDecision,
  find_pair, by_decision,
}
use research_desk.Records.Sets.{member, member-set_of}
use research_desk.Records.Services.{
  endpoints, invalid_action, invalid_idempotency_key, idempotency_conflict, withdraws, is_accept,
  is_reject, records_of, record_ids,
}
use research_desk.Records.Services.Regroup.Assigned.{pub_of}
use research_desk.Records.Services.Regroup.Publications.{in_pubs, DistinctIds, member-ids}
use research_desk.Records.Services.Checks.{
  Payload, decide_payload, splits, blocks_accept, choice, idempotent, is_no_key, other_hash,
  has_key,
}
use research_desk.Records.Services.Reviews.{decide, decide_new, state_after, prior_or}
use research_desk.Records.Services.Reviews.Success.{decide_new-IsDecided, IsAdmitted}
use research_desk.Records.Services.Reviews.Consistent.{IsRejected, IsConsistent}
use research_desk.Records.Services.Reviews.Steps.{steady-IsConsistent, made-IsConsistent}
use research_desk.Records.Services.Reviews.Stored.{
  stored, stored-AreUsed, stored-IsDecided, IsDecided-stored,
}
use research_desk.Records.Services.Reviews.Pairs.{
  pubs_of, any-Memᴰ, pubs_of_bounded, pair_pubs, pair_within,
}

-- No active decision rejects two records of the publications, if `decide` found none.
unblocked :
    (pubs : List ℕ) (db : Db)
    → DistinctIds db.records
    → blocks_accept db (records_of pubs db.records) ≡ false
    → (a b : ℕ) → IsRejected db a b
    → (in_pubs pubs (pub_of a db.records) && in_pubs pubs (pub_of b db.records)) ≡ false
unblocked pubs db d free a b h =
    let ids = record_ids (records_of pubs db.records) in
    let no_split = any-Memᴰ (splits db ids) db.decisions free h.listed in
    let first : member (endpoints (find_pair db h.decision.pair)).0 ids
        ≡ in_pubs pubs (pub_of a db.records) =
      ap (λ (e : ℕ × ℕ). member e.0 ids) h.ends ∙ member_of a in
    let second : member (endpoints (find_pair db h.decision.pair)).1 ids
        ≡ in_pubs pubs (pub_of b db.records) =
      ap (λ (e : ℕ × ℕ). member e.1 ids) h.ends ∙ member_of b in
    ground (arith, no_split, h.active, h.kind_of, first, second)
  where
    member_of :
        (i : ℕ)
        → member i (record_ids (records_of pubs db.records)) ≡ in_pubs pubs (pub_of i db.records)
    member_of i =
        sym (member-set_of i (record_ids (records_of pubs db.records)))
        ∙ member-ids i pubs db.records d

admitted_apart :
    (action : Action) (pair : CandidatePair) (left right : SourceRecord) (proposal : MatchProposal)
    (reason : Text) (db : Db)
    → is_reject action ≡ true
    → IsAdmitted action pair left right proposal reason db
    → (left.publication == right.publication) ≡ false
admitted_apart accept pair left right proposal reason db h k = cc
admitted_apart reject pair left right proposal reason db h k = k.0
admitted_apart defer pair left right proposal reason db h k = cc
admitted_apart Action.withdraw pair left right proposal reason db h k = cc

module _ (sha256 : Payload → ℕ) (pk : ℕ) (actor reason : Text) (expected : Option ℕ) (key : Text)
    (digest now : ℕ) (db : Db) (c : IsConsistent db) where
  -- A decision that withdraws none leaves the others active.
  others_stay :
      (action : Action) {d : ReviewDecision} {db' : Db}
      → decide_new sha256 pk action actor reason expected key digest now db ≡ ok (d, db')
      → (i : ℕ) → withdraws i d ≡ false
  others_stay action h i =
      ap (withdraws i)
        (decide_new-IsDecided sha256 pk action actor reason expected key digest now db h).decision

  decide_new-accept :
      {d : ReviewDecision} {db' : Db}
      → decide_new sha256 pk accept actor reason expected key digest now db ≡ ok (d, db')
      → IsConsistent db'
  decide_new-accept {d} {db'} h =
      let s = decide_new-IsDecided sha256 pk accept actor reason expected key digest now db h in
      let pubs = pubs_of s.left s.right in
      let new = stored db d s.pair (state_after accept) (s.pair.revision + 1) pk s.found in
      let same_id = ap (λ (x : ReviewDecision). x.id) s.decision in
      let same_pair = ap (λ (x : ReviewDecision). x.pair) s.decision in
      let kind = ap (λ (x : ReviewDecision). x.action) s.decision in
      subst IsConsistent (sym s.stored) (
        made-IsConsistent db new c refl (omega arith)
          (stored-AreUsed db d s.pair (state_after accept) (s.pair.revision + 1) pk s.found c
            same_id)
          pubs (pubs_of_bounded db pk s.pair s.left s.right c s.found s.found_left s.found_right)
          (by_decision d.id) now
          (λ a b x k.
            IsDecided-stored db d s.pair (state_after accept) (s.pair.revision + 1) pk s.found
              is_accept a b k (others_stay accept h k.decision.id))
          (λ a b k.
            elim (stored-IsDecided db d s.pair (state_after accept) (s.pair.revision + 1) pk s.found
              is_accept a b k) [
                | inr old ↦ inl old
                | inl (x, e) ↦ inr (
                    pair_within db pk s.pair s.left s.right c s.found s.found_left s.found_right a b
                      (ap (λ (i : ℕ). endpoints (find_pair db i)) (sym same_pair) ∙ e))
              ])
          (λ a b k.
            elim (stored-IsDecided db d s.pair (state_after accept) (s.pair.revision + 1) pk s.found
              is_reject a b k) [
                | inr old ↦ (old, unblocked pubs db c.distinct s.admitted.0 a b old)
                | inl (x, e) ↦ let none_such : false ≡ true = sym (ap is_reject kind) ∙ x in cc
              ]))

  decide_new-other :
      (action : Action) {d : ReviewDecision} {db' : Db}
      → is_accept action ≡ false
      → decide_new sha256 pk action actor reason expected key digest now db ≡ ok (d, db')
      → IsConsistent db'
  decide_new-other action {d} {db'} other h =
      let s = decide_new-IsDecided sha256 pk action actor reason expected key digest now db h in
      let new = stored db d s.pair (state_after action) (s.pair.revision + 1) pk s.found in
      let same_id = ap (λ (x : ReviewDecision). x.id) s.decision in
      let same_pair = ap (λ (x : ReviewDecision). x.pair) s.decision in
      let kind = ap (λ (x : ReviewDecision). x.action) s.decision in
      let unmade : db' ≡ new = s.stored ∙ rw other refl in
      subst IsConsistent (sym unmade) (
        steady-IsConsistent db new c refl (omega arith)
          (stored-AreUsed db d s.pair (state_after action) (s.pair.revision + 1) pk s.found c
            same_id)
          (λ a b k.
            elim (stored-IsDecided db d s.pair (state_after action) (s.pair.revision + 1) pk s.found
              is_accept a b k) [
                | inr old ↦ old
                | inl (x, e) ↦
                    let none_such : false ≡ true = sym other ∙ sym (ap is_accept kind) ∙ x in cc
              ])
          (λ a b k.
            IsDecided-stored db d s.pair (state_after action) (s.pair.revision + 1) pk s.found
              is_accept a b k (others_stay action h k.decision.id))
          (λ a b k.
            elim (stored-IsDecided db d s.pair (state_after action) (s.pair.revision + 1) pk s.found
              is_reject a b k) [
                | inr old ↦ c.rejected a b old
                | inl (x, e) ↦
                    let (p, q) =
                      pair_pubs db pk s.pair s.left s.right c s.found s.found_left s.found_right a b
                        (ap (λ (i : ℕ). endpoints (find_pair db i)) (sym same_pair) ∙ e) in
                    let apart =
                      admitted_apart action s.pair s.left s.right s.proposal reason db
                        (sym (ap is_reject kind) ∙ x) s.admitted in
                    λ same. ground (arith, p, q, same, apart)
              ]))

  decide_new-IsConsistent :
      (action : Action) {d : ReviewDecision} {db' : Db}
      → decide_new sha256 pk action actor reason expected key digest now db ≡ ok (d, db')
      → IsConsistent db'
  decide_new-IsConsistent accept h = decide_new-accept h
  decide_new-IsConsistent reject h = decide_new-other reject refl h
  decide_new-IsConsistent defer h = decide_new-other defer refl h
  decide_new-IsConsistent Action.withdraw h = decide_new-other Action.withdraw refl h

pub idempotent-eq-ok :
    (actor key : Text) (digest : ℕ) (db : Db) {prior : Option ReviewDecision} {db' : Db}
    → idempotent actor key digest db ≡ ok (prior, db')
    → db' ≡ db
unfolding idempotent
idempotent-eq-ok actor key digest db {prior} {db'} h =
    let (valid, h1) = check-eq-ok (is_no_key key) invalid_idempotency_key _ db h in
    let (same, h2) =
      check-eq-ok (other_hash (find_where (has_key actor key) db.decisions) digest)
        idempotency_conflict _ db h1 in
    ground (arith, h2)

-- `decide` keeps publications and active decisions in agreement: afterwards too, records that an
-- active decision accepts as one are in one publication, records that one rejects are in two, and
-- the records of a publication are connected by accepted pairs.
pub decide-IsConsistent :
    (sha256 : Payload → ℕ) (pk : ℕ) (word actor reason : Text) (expected : Option ℕ) (key : Text)
    (now : ℕ) (db : Db) {d : ReviewDecision} {db' : Db}
    → IsConsistent db
    → decide sha256 pk word actor reason expected key now db ≡ ok (d, db')
    → IsConsistent db'
unfolding decide
decide-IsConsistent sha256 pk word actor reason expected key now db {d} {db'} c h =
    let (action, w, h1) = found-eq-ok (choice word) invalid_action _ db h in
    let digest = sha256 (decide_payload pk action (strip reason) expected) in
    let (prior, s, p, h2) = bind-eq-ok (idempotent actor key digest) _ db h1 in
    let same = idempotent-eq-ok actor key digest db p in
    from action digest prior (
      subst
        (λ (t : Db).
          prior_or prior (decide_new sha256 pk action actor (strip reason) expected key digest now)
            t
          ≡ ok (d, db'))
        same h2)
  where
    from :
        (action : Action) (digest : ℕ) (prior : Option ReviewDecision)
        → prior_or prior
            (decide_new sha256 pk action actor (strip reason) expected key digest now)
            db
          ≡ ok (d, db')
        → IsConsistent db'
    from action digest none k =
        decide_new-IsConsistent sha256 pk actor (strip reason) expected key digest now db c action k
    from action digest (some x) k =
        let unmoved : db ≡ db' = ground (arith, k) in subst IsConsistent unmoved c
