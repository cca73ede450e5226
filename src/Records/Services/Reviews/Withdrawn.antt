-- ===== src/Records/Services/Reviews/Withdrawn.antt =====
-- A withdrawal keeps publications and active decisions in agreement.
use mathlib.Core.List.{Memᴰ}
use mathlib.Core.Path.{subst}
use research_desk.Prelude.{
  ℕ, ◌+◌, ◌≡◌, refl, sym, ◌∙◌, Bool, true, false, not, ◌&&◌, ◌||◌, Option, none, some, List, [],
  ◌∷◌, Text, ◌==◌, arith, Bool-cases, inl, inr, any, ap, strip,
}
use research_desk.Table.{key-find_row, find_row}
use research_desk.Transactions.{ok, bind-eq-ok}
use research_desk.Records.Models.{
  Db, Action, CandidatePair, SourceRecord, ReviewDecision, PairState, decision_id, pair_id,
  find_pair, find_decision, find_record, by_withdrawal, latest_proposal,
}
use research_desk.Records.Services.{endpoints, is_withdrawal, withdraws, is_accept, is_reject}
use research_desk.Records.Services.Regroup.{regroup}
use research_desk.Records.Services.Regroup.Assigned.{pub_of}
use research_desk.Records.Services.Regroup.Publications.{in_pubs}
use research_desk.Records.Services.Checks.{Payload, withdraw_payload, idempotent}
use research_desk.Records.Services.Reviews.{
  withdraw, withdraw_new, state_from, controlling, prior_or,
}
use research_desk.Records.Services.Reviews.Success.{withdraw_new-IsWithdrawn}
use research_desk.Records.Services.Reviews.Consistent.{
  IsDecided, IsAccepted, IsRejected, IsConsistent,
}
use research_desk.Records.Services.Reviews.Steps.{steady-IsConsistent, made-IsConsistent}
use research_desk.Records.Services.Reviews.Stored.{
  Memᴰ-find_row, stored, stored-AreUsed, stored-IsDecided, IsDecided-stored,
}
use research_desk.Records.Services.Reviews.Decided.{idempotent-eq-ok}
use research_desk.Records.Services.Reviews.Pairs.{
  member-pubs_of, pubs_of, pubs_of_bounded, pair_within, left_pub, right_pub,
}

-- What the withdrawn decision is, among the ones that are active.
same_decision :
    (kind : Action → Bool) (db : Db) (pk a b : ℕ) {original : ReviewDecision}
    → IsConsistent db
    → find_decision db pk ≡ some original
    → (h : IsDecided kind db a b) → h.decision.id ≡ pk
    → h.decision ≡ original
same_decision kind db pk a b {original} c found h e =
    let there = Memᴰ-find_row h.decision db.decisions c.decisions h.listed in
    let two = sym there ∙ ap (λ (i : ℕ). find_decision db i) e ∙ found in ground (arith, two)

find_row-Memᴰ :
    (pk : ℕ) (ds : List ReviewDecision) {d : ReviewDecision}
    → find_row decision_id pk ds ≡ some d
    → Memᴰ d ds
unfolding find_row
find_row-Memᴰ pk [] h = cc
find_row-Memᴰ pk (x ∷ ds) {d} h = elim (Bool-cases (x.id == pk)) [
  | inl e ↦
      let same : ◌≡◌ {A = Option ReviewDecision} (some x) (some d) = rw e at h in
      Memᴰ.head (ground (arith, same))
  | inr e ↦ Memᴰ.tail (find_row-Memᴰ pk ds (rw e at h))
]

older_one :
    (kind : Action → Bool) (db : Db) (d : ReviewDecision) (pair : CandidatePair) (state : PairState)
    (revision pk : ℕ) (found : find_pair db pk ≡ some pair) (a b : ℕ)
    → kind d.action ≡ false
    → IsDecided kind (stored db d pair state revision pk found) a b
    → IsDecided kind db a b
older_one kind db d pair state revision pk found a b out k =
    elim (stored-IsDecided db d pair state revision pk found kind a b k) [
      | inr old ↦ old
      | inl (x, e) ↦ let none_such : false ≡ true = sym out ∙ x in cc
    ]

in_one :
    (left right : SourceRecord) (o : Option ℕ)
    → ◌≡◌ {A = Option ℕ} (some left.publication) (some right.publication)
    → in_pubs (pubs_of left right) o ≡ true
    → o ≡ some left.publication
in_one left right none e h = cc
in_one left right (some p) e h = ground (arith, e, h, member-pubs_of p left right)

module _ (sha256 : Payload → ℕ) (pk : ℕ) (actor reason : Text) (expected : Option ℕ) (key : Text)
    (digest now : ℕ) (db : Db) (c : IsConsistent db) where
  -- A decision with another id is not the one that is withdrawn.
  not_withdrawn :
      (d : ReviewDecision) (i : ℕ)
      → d.withdrawal_of ≡ some pk
      → (i == pk) ≡ false
      → withdraws i d ≡ false
  not_withdrawn d i of h =
      ap (λ (o : Option ℕ). elim o [ none ↦ false | some x ↦ x == i ]) of ∙ ground (arith, h)

  module _ (original d : ReviewDecision) (pair : CandidatePair) (state : PairState) (revision : ℕ)
      (found : find_decision db pk ≡ some original)
      (found_pair : find_pair db original.pair ≡ some pair) (of : d.withdrawal_of ≡ some pk) where
    stays :
        is_accept original.action ≡ false
        → (a b : ℕ) → IsAccepted db a b
        → IsAccepted (stored db d pair state revision original.pair found_pair) a b
    stays e a b k = elim (Bool-cases (k.decision.id == pk)) [
      | inr n ↦
          IsDecided-stored db d pair state revision original.pair found_pair is_accept a b k
            (not_withdrawn d k.decision.id of n)
      | inl y ↦
          let same = same_decision is_accept db pk a b c found k (ground (arith, y)) in
          let none_such : true ≡ false =
            sym k.kind_of ∙ ap (λ (x : ReviewDecision). is_accept x.action) same ∙ e in
          cc
    ]

    module _ (left right : SourceRecord) (found_left : find_record db pair.left ≡ some left)
        (found_right : find_record db pair.right ≡ some right) where
      kept :
          (a b : ℕ)
          → in_pubs (pubs_of left right) (pub_of a db.records) ≡ false
          → IsAccepted db a b
          → IsAccepted (stored db d pair state revision original.pair found_pair) a b
      kept a b x k = elim (Bool-cases (k.decision.id == pk)) [
        | inr n ↦
            IsDecided-stored db d pair state revision original.pair found_pair is_accept a b k
              (not_withdrawn d k.decision.id of n)
        | inl y ↦
            let same = same_decision is_accept db pk a b c found k (ground (arith, y)) in
            let key = key-find_row pair_id original.pair db.pairs found_pair in
            let ends =
              ap (λ (i : ℕ). endpoints (find_pair db i))
                (key ∙ sym (ap (λ (x : ReviewDecision). x.pair) same))
              ∙ k.ends in
            let (inside, other) =
              pair_within db original.pair pair left right c found_pair found_left found_right a b
                ends in
            let none_such : true ≡ false = sym inside ∙ x in cc
      ]

      -- What is withdrawn was active, so the records of the pair are in one publication, in which no
      -- records are rejected.
      split :
          (is_withdrawal original.action || any (withdraws pk) db.decisions) ≡ false
          → is_accept original.action ≡ true
          → (a b : ℕ) → IsRejected db a b
          → (in_pubs (pubs_of left right) (pub_of a db.records)
              && in_pubs (pubs_of left right) (pub_of b db.records))
            ≡ false
      split first e a b k =
          let key = key-find_row decision_id pk db.decisions found in
          let accepted : IsAccepted db pair.left pair.right = record {
            decision = original;
            listed = find_row-Memᴰ pk db.decisions found;
            active =
                subst
                  (λ (i : ℕ).
                    (not (any (withdraws i) db.decisions) && not (is_withdrawal original.action))
                    ≡ true)
                  (sym key) (ground (arith, first));
            kind_of = e;
            ends = ap endpoints found_pair;
          } in
          let one : ◌≡◌ {A = Option ℕ} (some left.publication) (some right.publication) =
            sym (left_pub db original.pair pair left right c found_pair found_left found_right)
            ∙ c.accepted pair.left pair.right accepted
            ∙ right_pub db original.pair pair left right c found_pair found_left found_right in
          elim (Bool-cases (
            in_pubs (pubs_of left right) (pub_of a db.records)
            && in_pubs (pubs_of left right) (pub_of b db.records))) [
              | inr n ↦ n
              | inl y ↦
                  elim (c.rejected a b k (
                    in_one left right (pub_of a db.records) one (ground (arith, y))
                    ∙ sym (in_one left right (pub_of b db.records) one (ground (arith, y))))) [ ]
            ]

  withdraw_new-IsConsistent :
      {d : ReviewDecision} {db' : Db}
      → withdraw_new sha256 pk actor reason expected key digest now db ≡ ok (d, db')
      → IsConsistent db'
  withdraw_new-IsConsistent {d} {db'} h =
      let s = withdraw_new-IsWithdrawn sha256 pk actor reason expected key digest now db h in
      let added = record db { decisions = d ∷ db.decisions; next_id = db.next_id + 1 } in
      let state =
        state_from (controlling added.decisions s.pair.id) (latest_proposal added s.pair.id) in
      let new = stored db d s.pair state (s.pair.revision + 1) s.original.pair s.found_pair in
      let used =
        stored-AreUsed db d s.pair state (s.pair.revision + 1) s.original.pair s.found_pair c
          (ap (λ (x : ReviewDecision). x.id) s.decision) in
      let action = ap (λ (x : ReviewDecision). x.action) s.decision in
      let of = ap (λ (x : ReviewDecision). x.withdrawal_of) s.decision in
      let pubs = pubs_of s.left s.right in
      let older =
        λ (kind : Action → Bool) (out : kind Action.withdraw ≡ false) (a b : ℕ)
            (k : IsDecided kind new a b).
          older_one kind db d s.pair state (s.pair.revision + 1) s.original.pair s.found_pair a b
            (ap kind action ∙ out) k in
      elim (Bool-cases (is_accept s.original.action)) [
        | inl e ↦
            let made : db' ≡ regroup pubs (by_withdrawal d.id) now new = s.stored ∙ rw e refl in
            subst IsConsistent (sym made) (
              made-IsConsistent db new c refl (omega arith) used pubs
                (pubs_of_bounded db s.original.pair s.pair s.left s.right c s.found_pair
                  s.found_left s.found_right)
                (by_withdrawal d.id) now
                (λ a b x k.
                  kept s.original d s.pair state (s.pair.revision + 1) s.found s.found_pair of
                    s.left s.right s.found_left s.found_right a b x k)
                (λ a b k. inl (older is_accept refl a b k))
                (λ a b k. (
                  older is_reject refl a b k,
                  split s.original d s.pair state (s.pair.revision + 1) s.found s.found_pair of
                      s.left s.right s.found_left s.found_right s.first e a b
                      (older is_reject refl a b k),
                )))
        | inr e ↦
            let unmade : db' ≡ new = s.stored ∙ rw e refl in
            subst IsConsistent (sym unmade) (
              steady-IsConsistent db new c refl (omega arith) used (older is_accept refl)
                (λ a b k.
                  stays s.original d s.pair state (s.pair.revision + 1) s.found s.found_pair of e a
                    b k)
                (λ a b k. c.rejected a b (older is_reject refl a b k)))
      ]

-- `withdraw` keeps publications and active decisions in agreement too, since it makes the publications
-- again from the pairs that are still accepted.
pub withdraw-IsConsistent :
    (sha256 : Payload → ℕ) (pk : ℕ) (actor reason : Text) (expected : Option ℕ) (key : Text)
    (now : ℕ) (db : Db) {d : ReviewDecision} {db' : Db}
    → IsConsistent db
    → withdraw sha256 pk actor reason expected key now db ≡ ok (d, db')
    → IsConsistent db'
unfolding withdraw
withdraw-IsConsistent sha256 pk actor reason expected key now db {d} {db'} c h =
    let digest = sha256 (withdraw_payload pk (strip reason) expected) in
    let (prior, s, p, h1) = bind-eq-ok (idempotent actor key digest) _ db h in
    let same = idempotent-eq-ok actor key digest db p in
    from prior (
      subst
        (λ (t : Db).
          prior_or prior (withdraw_new sha256 pk actor (strip reason) expected key digest now) t
          ≡ ok (d, db'))
        same h1)
  where
    from :
        (prior : Option ReviewDecision)
        → prior_or prior
            (withdraw_new sha256 pk actor
              (strip reason)
              expected
              key
              (sha256 (withdraw_payload pk (strip reason) expected))
              now)
            db
          ≡ ok (d, db')
        → IsConsistent db'
    from none k =
        withdraw_new-IsConsistent sha256 pk actor (strip reason) expected key
          (sha256 (withdraw_payload pk (strip reason) expected)) now db c k
    from (some x) k = let unmoved : db ≡ db' = ground (arith, k) in subst IsConsistent unmoved c
