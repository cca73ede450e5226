-- ===== src/Records/Services/Reviews/Adding.antt =====
-- `ingest_record`, `compare_pair` and `generate_candidates` only add to the database.
use mathlib.Core.Path.{subst}
use research_desk.Prelude.{
  ℕ, ◌+◌, ◌≤◌, ◌≡◌, refl, sym, ◌∙◌, false, Option, none, some, List, [], ◌∷◌, Text, arith,
  Bool-cases, inl, inr, ap, if◌then◌else◌, ◌==◌,
}
use research_desk.Unicode.{Unicode}
use research_desk.Table.{find_row, set_row, key-find_row, find_row-set_self, find_row-set_ne}
use research_desk.Transactions.{Result, ok, bind-eq-ok, found-eq-ok}
use research_desk.Records.Models.{
  Db, CandidatePair, SourceRecord, MatchProposal, find_pair, find_record, pair_id, save_pair,
  latest_proposal,
}
use research_desk.Records.Services.{DomainError, normalized_of, missing}
use research_desk.Records.Services.Compare.{
  compare_found, compare_pair, compare_all, reassess, is_current, new_proposal,
}
use research_desk.Records.Matching.{Recommendation, compare_metadata}
use research_desk.Records.Services.Regroup.Assigned.{pub_of}
use research_desk.Records.Services.Regroup.Publications.{is_found, DistinctIds}
use research_desk.Records.Services.Reviews.Extended.{Extends}

-- The records stay as they are, and so do the endpoints of pairs.
pub record Adds (db db' : Db) : Type 0 where
  pub decisions : db'.decisions ≡ db.decisions
  pub grows : db.next_id ≤ db'.next_id
  pub pubs : (a : ℕ) → pub_of a db'.records ≡ pub_of a db.records
  pub distinct : DistinctIds db.records → DistinctIds db'.records
  pub pairs :
      (pk : ℕ) (pair : CandidatePair)
      → find_pair db pk ≡ some pair
      → (q : CandidatePair) × (find_pair db' pk ≡ some q)
        × (q.left ≡ pair.left)
        × (q.right ≡ pair.right)

absent : {p : ℕ} (o : Option ℕ) → is_found o ≡ false → o ≡ some p → ⊥
absent none h e = cc
absent (some q) h e = cc

pub Adds-Extends : (db db' : Db) → Adds db db' → Extends db db'
Adds-Extends db db' h = record {
  decisions = h.decisions;
  grows = h.grows;
  kept = λ a f. h.pubs a;
  fresh = λ a p n e. elim (absent (pub_of a db.records) n (sym (h.pubs a) ∙ e)) [ ];
  fresh_known = λ a p n e. elim (absent (pub_of a db.records) n (sym (h.pubs a) ∙ e)) [ ];
  alone = λ a b p n m e f. elim (absent (pub_of a db.records) n (sym (h.pubs a) ∙ e)) [ ];
  distinct = h.distinct;
  pairs = h.pairs;
}

pub Adds-refl : (db : Db) → Adds db db
Adds-refl db = record {
  decisions = refl;
  grows = omega arith;
  pubs = λ a. refl;
  distinct = λ d. d;
  pairs = λ pk pair f. (pair, f, refl, refl);
}

pub Adds-trans : (a b c : Db) → Adds a b → Adds b c → Adds a c
Adds-trans a b c h k = record {
  decisions = k.decisions ∙ h.decisions;
  grows = omega (arith, h.grows, k.grows);
  pubs = λ i. k.pubs i ∙ h.pubs i;
  distinct = λ d. k.distinct (h.distinct d);
  pairs = λ pk pair f.
      let (q, g, l, r) = h.pairs pk pair f in
      let (q', g', l', r') = k.pairs pk q g in (q', g', l' ∙ l, r' ∙ r);
}

-- A pair that is saved keeps its records.
pub saved_pairs :
    (ps : List CandidatePair) (pair saved : CandidatePair) (pk j : ℕ) {x : CandidatePair}
    → find_row pair_id pk ps ≡ some pair
    → saved.id ≡ pair.id
    → saved.left ≡ pair.left
    → saved.right ≡ pair.right
    → find_row pair_id j ps ≡ some x
    → (q : CandidatePair) × (find_row pair_id j (set_row pair_id saved ps) ≡ some q)
      × (q.left ≡ x.left)
      × (q.right ≡ x.right)
saved_pairs ps pair saved pk j {x} h i l r f =
    let key = key-find_row pair_id pk ps h in
    elim (Bool-cases (saved.id == j)) [
      | inr n ↦
          (x, find_row-set_ne pair_id j saved ps (λ same. ground (arith, n, same)) ∙ f, refl, refl)
      | inl y ↦
          let same : saved.id ≡ j = ground (arith, y) in
          let there : find_row pair_id j ps ≡ some pair =
            subst (λ (n : ℕ). find_row pair_id n ps ≡ some pair) (sym key ∙ sym i ∙ same) h in
          let one : ◌≡◌ {A = Option CandidatePair} (some pair) (some x) = sym there ∙ f in
          let eq : pair ≡ x = ground (arith, one) in
          (
            saved,
            find_row-set_self pair_id j saved ps f same,
            l ∙ ap (λ (y : CandidatePair). y.left) eq,
            r ∙ ap (λ (y : CandidatePair). y.right) eq,
          )
    ]

saved-Adds :
    (db : Db) (proposals : List MatchProposal) (pair saved : CandidatePair) (pk : ℕ)
    → find_pair db pk ≡ some pair
    → saved.id ≡ pair.id
    → saved.left ≡ pair.left
    → saved.right ≡ pair.right
    → Adds db (save_pair saved (record db { proposals = proposals; next_id = db.next_id + 1 }))
saved-Adds db proposals pair saved pk f i l r = record {
  decisions = refl;
  grows = omega arith;
  pubs = λ a. refl;
  distinct = λ d. d;
  pairs = λ j x g. saved_pairs db.pairs pair saved pk j f i l r g;
}

reassess_same :
    (db : Db) (o : Option MatchProposal) (recommendation : Recommendation) (pair : CandidatePair)
    → ((reassess db o recommendation pair).id ≡ pair.id)
      × ((reassess db o recommendation pair).left ≡ pair.left)
      × ((reassess db o recommendation pair).right ≡ pair.right)
unfolding reassess
reassess_same db none recommendation pair = (refl, refl, refl)
reassess_same db (some x) recommendation pair = (refl, refl, refl)

-- The comparison of a pair.
module _ (u : Unicode) (ratio : Text → Text → ℕ) where
  compare_found-Adds :
      (pair : CandidatePair) (left right : SourceRecord) (db : Db) (pk : ℕ) {p : MatchProposal}
      {db' : Db}
      → find_pair db pk ≡ some pair
      → compare_found u ratio pair left right db ≡ ok (p, db')
      → Adds db db'
  unfolding compare_found
  compare_found-Adds pair left right db pk {p} {db'} f h =
      let latest = latest_proposal db pair.id in
      let result = compare_metadata u ratio (normalized_of db left) (normalized_of db right) in
      let saved = reassess db latest result.recommendation pair in
      let (i, l, r) = reassess_same db latest result.recommendation pair in
      stored_or_old (new_proposal pair left right result db.next_id) latest
        (saved-Adds db (new_proposal pair left right result db.next_id ∷ db.proposals) pair saved pk
          f i l r)
        h
    where
      stored_or_old :
          {fresh : Db} (proposal : MatchProposal) (o : Option MatchProposal)
          → Adds db fresh
          → ◌≡◌ {A = Result DomainError (MatchProposal × Db)}
              (elim o [
                | none ↦ ok (proposal, fresh)
                | some old ↦
                    if is_current left right old then ok (old, db) else ok (proposal, fresh)
              ])
              (ok (p, db'))
          → Adds db db'
      stored_or_old _ none a k = subst (Adds db) (ground (arith, k)) a
      stored_or_old _ (some old) a k = elim (Bool-cases (is_current left right old)) [
        | inl c ↦ let same : db ≡ db' = ground (arith, k, c) in subst (Adds db) same (Adds-refl db)
        | inr c ↦ subst (Adds db) (ground (arith, k, c)) a
      ]

  pub compare_pair-Adds :
      (pk : ℕ) (db : Db) {p : MatchProposal} {db' : Db}
      → compare_pair u ratio pk db ≡ ok (p, db')
      → Adds db db'
  unfolding compare_pair
  compare_pair-Adds pk db h =
      let (pair, f, h1) = found-eq-ok (find_pair db pk) missing _ db h in
      let (left, l, h2) = found-eq-ok (find_record db pair.left) missing _ db h1 in
      let (right, r, h3) = found-eq-ok (find_record db pair.right) missing _ db h2 in
      compare_found-Adds pair left right db pk f h3

  pub compare_all-Adds :
      (pks : List ℕ) (db : Db) {w : Unit {0}} {db' : Db}
      → compare_all u ratio pks db ≡ ok (w, db')
      → Adds db db'
  unfolding compare_all
  compare_all-Adds [] db h = subst (Adds db) (ground (arith, h)) (Adds-refl db)
  compare_all-Adds (pk ∷ pks) db {w} {db'} h =
      let (p, s, h1, h2) = bind-eq-ok (compare_pair u ratio pk) _ db h in
      Adds-trans db s db' (compare_pair-Adds pk db h1) (compare_all-Adds pks s h2)
