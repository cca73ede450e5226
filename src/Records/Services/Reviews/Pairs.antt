-- ===== src/Records/Services/Reviews/Pairs.antt =====
-- The publications of the pair that a decision is about.
use mathlib.Core.List.{Memᴰ}
use mathlib.Core.Path.{subst}
use research_desk.Prelude.{
  ℕ, ◌+◌, ◌<◌, ◌≡◌, sym, ◌∙◌, Bool, true, false, ◌||◌, some, List, [], ◌∷◌, ◌==◌, arith, any, ap,
}
use research_desk.Table.{key-find_row}
use research_desk.Records.Models.{Db, CandidatePair, SourceRecord, pair_id, find_pair, find_record}
use research_desk.Records.Sets.{member, set_of, union, insert}
use research_desk.Records.Services.{endpoints}
use research_desk.Records.Services.Regroup.Assigned.{pub_of}
use research_desk.Records.Services.Regroup.Publications.{in_pubs}
use research_desk.Records.Services.Reviews.Consistent.{IsConsistent}
use research_desk.Records.Services.Reviews.Stored.{pub_of-find_row}

-- The publications of a pair are the ones of its records.
abbrev pub pubs_of : SourceRecord → SourceRecord → List ℕ
pubs_of left right = set_of (left.publication ∷ right.publication ∷ [])

pub member-pubs_of :
    (p : ℕ) (left right : SourceRecord)
    → member p (pubs_of left right) ≡ (p == left.publication || p == right.publication)
unfolding member union insert
member-pubs_of p left right = ground arith

pub any-Memᴰ :
    {A : Type 0} (p : A → Bool) (xs : List A) {x : A} → any p xs ≡ false → Memᴰ x xs → p x ≡ false
any-Memᴰ p [] h m = elim m [ ]
any-Memᴰ p (y ∷ xs) h (Memᴰ.head e) = ap p e ∙ ground (arith, h)
any-Memᴰ p (y ∷ xs) h (Memᴰ.tail m) = any-Memᴰ p xs (ground (arith, h)) m

module _ (db : Db) (pk : ℕ) (pair : CandidatePair) (left right : SourceRecord) (c : IsConsistent db)
    (found : find_pair db pk ≡ some pair) (found_left : find_record db pair.left ≡ some left)
    (found_right : find_record db pair.right ≡ some right) where
  pub left_pub : pub_of pair.left db.records ≡ some left.publication
  left_pub = pub_of-find_row pair.left db.records found_left

  pub right_pub : pub_of pair.right db.records ≡ some right.publication
  right_pub = pub_of-find_row pair.right db.records found_right

  pub pubs_of_bounded : (p : ℕ) → member p (pubs_of left right) ≡ true → p < db.next_id + 1
  pubs_of_bounded p m =
      let l = c.bounded pair.left left.publication left_pub in
      let r = c.bounded pair.right right.publication right_pub in
      ground (arith, l, r, m, member-pubs_of p left right)

  -- The publications of the records that a decision on the pair is about.
  pub pair_pubs :
      (a b : ℕ)
      → endpoints (find_pair db pair.id) ≡ (a, b)
      → (pub_of a db.records ≡ some left.publication)
        × (pub_of b db.records ≡ some right.publication)
  pair_pubs a b e =
      let key = key-find_row pair_id pk db.pairs found in
      let there : endpoints (find_pair db pair.id) ≡ (pair.left, pair.right) =
        ap (λ (i : ℕ). endpoints (find_pair db i)) key ∙ ap endpoints found in
      let both = sym there ∙ e in
      (
        subst (λ (i : ℕ). pub_of i db.records ≡ some left.publication)
            (ap (λ (x : ℕ × ℕ). x.0) both) left_pub,
        subst (λ (i : ℕ). pub_of i db.records ≡ some right.publication)
            (ap (λ (x : ℕ × ℕ). x.1) both) right_pub,
      )

  -- The records of the pair are in the publications.
  pub pair_within :
      (a b : ℕ)
      → endpoints (find_pair db pair.id) ≡ (a, b)
      → (in_pubs (pubs_of left right) (pub_of a db.records) ≡ true)
        × (in_pubs (pubs_of left right) (pub_of b db.records) ≡ true)
  pair_within a b e =
      let (x, y) = pair_pubs a b e in
      (
        ap (in_pubs (pubs_of left right)) x
            ∙ ground (arith, member-pubs_of left.publication left right),
        ap (in_pubs (pubs_of left right)) y
            ∙ ground (arith, member-pubs_of right.publication left right),
      )
