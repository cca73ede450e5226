-- ===== src/Records/Services/Reviews/Creating.antt =====
-- A new record of `ingest_record`, in its new publication.
use research_desk.Prelude.{
  ℕ, ◌+◌, ◌≡◌, refl, sym, ◌∙◌, true, false, Option, none, some, List, [], ◌∷◌, ◌++◌, arith,
  Option-cases, inl, inr, ap, if◌then◌else◌, ◌==◌,
}
use research_desk.Records.Models.{Db, CanonicalPublication, Membership, SourceRecord}
use research_desk.Records.Services.Regroup.Assigned.{pub_of}
use research_desk.Records.Services.Regroup.Publications.{is_found, DistinctIds}
use research_desk.Records.Services.Reviews.Extended.{Extends, IsGrounded}

-- A record that is appended to the table.
or_else_pub : Option ℕ → Option ℕ → Option ℕ
or_else_pub none q = q
or_else_pub (some p) q = some p

pub_of-append :
    (r : SourceRecord) (a : ℕ) (rs : List SourceRecord)
    → pub_of a (rs ++ (r ∷ []))
      ≡ or_else_pub (pub_of a rs) (if r.id == a then some r.publication else none)
unfolding pub_of or_else_pub
pub_of-append r a [] = refl
pub_of-append r a (x ∷ rs) = ground (arith, pub_of-append r a rs)

append-DistinctIds :
    (r : SourceRecord) (rs : List SourceRecord)
    → pub_of r.id rs ≡ none
    → DistinctIds rs
    → DistinctIds (rs ++ (r ∷ []))
unfolding pub_of or_else_pub
append-DistinctIds r [] h d = (refl, tt)
append-DistinctIds r (x ∷ rs) h d =
    (ground (arith, h, d, pub_of-append r x.id rs), append-DistinctIds r rs (ground (arith, h)) d.1)

module _ (r : SourceRecord) (db : Db) (g : IsGrounded db) (id : r.id ≡ db.next_id + 1)
    (publication : r.publication ≡ db.next_id) where
  new_id : pub_of r.id db.records ≡ none
  new_id = elim (Option-cases (pub_of r.id db.records)) [
    | inl e ↦ e
    | inr (p, e) ↦
        let no_such : ⊥ = omega (arith, g.known r.id (ap is_found e), id) in elim no_such [ ]
  ]

  -- Among new records, only this one is there.
  is_new :
      (a p : ℕ)
      → is_found (pub_of a db.records) ≡ false
      → pub_of a (db.records ++ (r ∷ [])) ≡ some p
      → (a ≡ r.id) × (p ≡ r.publication)
  unfolding or_else_pub
  is_new a p n e = elim (Option-cases (pub_of a db.records)) [
    | inl x ↦ ground (arith, pub_of-append r a db.records, x, e)
    | inr (q, x) ↦ let no_such : true ≡ false = sym (ap is_found x) ∙ n in cc
  ]

  pub created-Extends :
      (publications : List CanonicalPublication) (memberships : List Membership)
      → Extends db (record db {
        publications = publications;
        records = db.records ++ (r ∷ []);
        memberships = memberships;
        next_id = db.next_id + 2;
      })
  unfolding or_else_pub
  created-Extends publications memberships = record {
    decisions = refl;
    grows = omega arith;
    kept = λ a f. elim (Option-cases (pub_of a db.records)) [
      | inl e ↦ let no_such : false ≡ true = sym (ap is_found e) ∙ f in cc
      | inr (p, e) ↦ ground (arith, e, pub_of-append r a db.records)
    ];
    fresh = λ a p n e.
        let (x, y) = is_new a p n e in
        (omega (arith, y, publication), omega (arith, y, publication));
    fresh_known = λ a p n e. let (x, y) = is_new a p n e in omega (arith, x, id);
    alone = λ a b p n m e f. (is_new a p n e).0 ∙ sym (is_new b p m f).0;
    distinct = λ d. append-DistinctIds r db.records new_id d;
    pairs = λ pk pair f. (pair, f, refl, refl);
  }

  pub created_pub : pub_of r.id (db.records ++ (r ∷ [])) ≡ some r.publication
  unfolding or_else_pub
  created_pub = ground (arith, pub_of-append r r.id db.records, new_id)
