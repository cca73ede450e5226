-- ===== src/Records/Services/Regroup/Publications.antt =====
-- The publications of the records after `_regroup`.
use mathlib.Core.List.{Memᴰ}
use mathlib.Core.Path.{subst}
use research_desk.Prelude.{
  ℕ, ◌<◌, ◌≡◌, refl, sym, ◌∙◌, Bool, true, false, ◌||◌, Option, none, some, List, [], ◌∷◌, ◌==◌,
  if◌then◌else◌, arith, Bool-cases, inl, inr, ap,
}
use research_desk.Records.Models.{Db, SourceRecord, Origin}
use research_desk.Records.Sets.{member, set_of, eq_set, eq_set→eq, member-set_of}
use research_desk.Records.Services.{records_of, record_ids, links}
use research_desk.Records.Services.Components.{Groups, components, has_group}
use research_desk.Records.Services.Components.Lists.{Once, Memᴰ-has_group}
use research_desk.Records.Services.Regroup.{settle, existing, old_groups, bump_all}
use research_desk.Records.Services.Regroup.Assigned.{pub_of, in_any, Disjoint, Fits}
use research_desk.Records.Services.Regroup.Given.{AreOld}

-- Whether a record is in one of the publications.
abbrev pub in_pubs : List ℕ → Option ℕ → Bool
in_pubs pubs none = false
in_pubs pubs (some p) = member p pubs

abbrev pub only_in : List ℕ → Option ℕ → Option ℕ
only_in pubs none = none
only_in pubs (some p) = if member p pubs then some p else none

-- No two records have the same id.
abbrev pub DistinctIds : List SourceRecord → Type 0
DistinctIds [] = Unit
DistinctIds (r ∷ rs) = (pub_of r.id rs ≡ none) × DistinctIds rs

pub_of-records_of :
    (a : ℕ) (pubs : List ℕ) (rs : List SourceRecord)
    → DistinctIds rs
    → pub_of a (records_of pubs rs) ≡ only_in pubs (pub_of a rs)
unfolding pub_of records_of
pub_of-records_of a pubs [] d = refl
pub_of-records_of a pubs (r ∷ rs) d =
    ground (arith, d, pub_of-records_of a pubs rs d.1, ap (only_in pubs) d.0)

abbrev pub is_found : Option ℕ → Bool
is_found none = false
is_found (some _) = true

pub member-record_ids :
    (a : ℕ) (rs : List SourceRecord) → member a (record_ids rs) ≡ is_found (pub_of a rs)
unfolding pub_of member record_ids
member-record_ids a [] = refl
member-record_ids a (r ∷ rs) = ground (arith, member-record_ids a rs)

-- The records of the publications are the ones whose groups are made again.
pub member-ids :
    (a : ℕ) (pubs : List ℕ) (rs : List SourceRecord)
    → DistinctIds rs
    → member a (set_of (record_ids (records_of pubs rs))) ≡ in_pubs pubs (pub_of a rs)
member-ids a pubs rs d =
    rw
      (
        member-set_of a (record_ids (records_of pubs rs)),
        member-record_ids a (records_of pubs rs),
        pub_of-records_of a pubs rs d,
      )
      (found (pub_of a rs))
  where
    found : (o : Option ℕ) → is_found (only_in pubs o) ≡ in_pubs pubs o
    found none = refl
    found (some p) = ground arith

records_of-DistinctIds :
    (pubs : List ℕ) (rs : List SourceRecord) → DistinctIds rs → DistinctIds (records_of pubs rs)
unfolding records_of
records_of-DistinctIds pubs [] d = tt
records_of-DistinctIds pubs (r ∷ rs) d = elim (Bool-cases (member r.publication pubs)) [
  | inl e ↦ rw e (
    pub_of-records_of r.id pubs rs d.1 ∙ ap (only_in pubs) d.0,
    records_of-DistinctIds pubs rs d.1,
  )
  | inr e ↦ rw e (records_of-DistinctIds pubs rs d.1)
]

-- An old group is the set of the records of its publication.
pub existing-old :
    (g : List ℕ) (rs : List SourceRecord) (pubs : List ℕ) (pk : ℕ)
    → existing g (old_groups rs pubs) ≡ some pk
    → (set_of (record_ids (records_of (pk ∷ []) rs)) ≡ g) × (member pk pubs ≡ true)
unfolding existing old_groups member
existing-old g rs [] pk h = cc
existing-old g rs (p ∷ pubs) pk h =
    elim (Bool-cases (eq_set (set_of (record_ids (records_of (p ∷ []) rs))) g)) [
      | inl e ↦
          let same : p ≡ pk = ground (arith, h, e) in
          subst
            (λ (x : ℕ).
              (set_of (record_ids (records_of (x ∷ []) rs)) ≡ g)
              × ((x == p || member x pubs) ≡ true))
            same (eq_set→eq _ g e, ground arith)
      | inr e ↦
          let (x, y) = existing-old g rs pubs pk (ground (arith, h, e)) in (x, ground (arith, y))
    ]

-- The publication of each record is one that has an id already.
abbrev pub Bounded : Db → Type 0
Bounded db = (a p : ℕ) → pub_of a db.records ≡ some p → p < db.next_id

in_pubs-only_in :
    (pubs : List ℕ) (pk : ℕ) (o : Option ℕ)
    → in_pubs (pk ∷ []) (only_in pubs o) ≡ true
    → o ≡ some pk
unfolding member
in_pubs-only_in pubs pk none h = cc
in_pubs-only_in pubs pk (some p) h = ground (arith, h)

module _ (pubs : List ℕ) (db : Db) (d : DistinctIds db.records) where
  abbrev pub affected : List ℕ
  affected = set_of (record_ids (records_of pubs db.records))

  abbrev pub old_of : Groups
  old_of = old_groups (records_of pubs db.records) pubs

  existing-pub_of :
      (g : List ℕ) (pk a : ℕ)
      → existing g old_of ≡ some pk
      → member a g ≡ true
      → pub_of a db.records ≡ some pk
  existing-pub_of g pk a e m =
      let (eq, known) = existing-old g (records_of pubs db.records) pubs pk e in
      let distinct = records_of-DistinctIds pubs db.records d in
      let inside : member a
            (set_of (record_ids (records_of (pk ∷ []) (records_of pubs db.records))))
          ≡ true =
        subst (λ (t : List ℕ). member a t ≡ true) (sym eq) m in
      let narrowed = sym (member-ids a (pk ∷ []) (records_of pubs db.records) distinct) ∙ inside in
      let twice = sym (ap (in_pubs (pk ∷ [])) (pub_of-records_of a pubs db.records d)) ∙ narrowed in
      in_pubs-only_in pubs pk (pub_of a db.records) twice

  pub old_of-AreOld : ((p : ℕ) → member p pubs ≡ true → p < db.next_id) → AreOld old_of db.next_id
  old_of-AreOld b = record {
    below = λ g pk e. b pk (existing-old g (records_of pubs db.records) pubs pk e).1;
    one = λ g h pk x y.
        sym (existing-old g (records_of pubs db.records) pubs pk x).0
        ∙ (existing-old h (records_of pubs db.records) pubs pk y).0;
  }

  pub old_of-Fits : (gs : List (List ℕ)) → Fits old_of db.records gs
  old_of-Fits [] = tt
  old_of-Fits (g ∷ gs) = (λ pk a e m. existing-pub_of g pk a e m, old_of-Fits gs)

  -- The groups that `_regroup` makes, and the tables after its loop over them.
  abbrev pub groups : List (List ℕ)
  groups = components affected (links db none)

  abbrev pub settled : Origin → ℕ → List (ℕ × ℕ) × Db
  settled origin now = settle origin now old_of groups ([], bump_all affected db)

pub Memᴰ-in_any :
    (a : ℕ) (gs : List (List ℕ))
    → in_any a gs ≡ true
    → (g : List ℕ) × Memᴰ g gs × (member a g ≡ true)
Memᴰ-in_any a [] h = cc
Memᴰ-in_any a (g ∷ gs) h = elim (Bool-cases (member a g)) [
  | inl m ↦ (g, Memᴰ.head refl, m)
  | inr m ↦ let (t, i, p) = Memᴰ-in_any a gs (ground (arith, h, m)) in (t, Memᴰ.tail i, p)
]

-- Groups that share no record, of which none stands twice, are disjoint.
pub Disjoint-groups :
    (gs : List (List ℕ))
    → ((s t : List ℕ) (a : ℕ)
        → Memᴰ s gs
        → Memᴰ t gs
        → member a s ≡ true
        → member a t ≡ true
        → s ≡ t)
    → Once gs
    → Disjoint gs
Disjoint-groups [] f o = tt
Disjoint-groups (g ∷ gs) f o = (
  λ a m. elim (Bool-cases (in_any a gs)) [
    | inr e ↦ e
    | inl e ↦
        let (t, i, p) = Memᴰ-in_any a gs e in
        let eq = f g t a (Memᴰ.head refl) (Memᴰ.tail i) m p in
        let again : has_group g gs ≡ true =
          Memᴰ-has_group g gs (subst (λ (x : List ℕ). Memᴰ x gs) (sym eq) i) in
        ground (arith, again, o)
  ],
  Disjoint-groups gs (λ s t a i j. f s t a (Memᴰ.tail i) (Memᴰ.tail j)) o.1,
)
