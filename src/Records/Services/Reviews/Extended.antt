-- ===== src/Records/Services/Reviews/Extended.antt =====
-- Operations that add records, versions, pairs and proposals, and decide nothing.
use mathlib.Core.List.{Memᴰ}
use mathlib.Core.Path.{subst}
use research_desk.Prelude.{
  ℕ, ◌≤◌, ◌<◌, ◌≡◌, refl, sym, ◌∙◌, Bool, true, false, Option, none, some, List, arith, Bool-cases,
  inl, inr, All, All-at, All-map, ap, ◌⊎◌,
}
use research_desk.Records.Models.{Db, Action, CandidatePair, ReviewDecision, find_pair, decision_id}
use research_desk.Table.{Distinct}
use research_desk.Records.Sets.{member}
use research_desk.Records.Services.{endpoints, is_active, is_accept, is_reject, links, record_ids}
use research_desk.Records.Services.Components.Connected.{Linked, self}
use research_desk.Records.Services.Regroup.Assigned.{pub_of}
use research_desk.Records.Services.Regroup.Publications.{
  is_found, DistinctIds, Bounded, member-record_ids,
}
use research_desk.Records.Services.Reviews.Consistent.{
  IsDecided, IsAccepted, IsConsistent, links-IsAccepted, IsAccepted-links,
}
use research_desk.Records.Services.Reviews.Steps.{Linked-weaken}

-- The pair of a decision is there, and so are its records.
pub record IsPaired (db : Db) (pk : ℕ) : Type 0 where
  pub pair : CandidatePair
  pub found : find_pair db pk ≡ some pair
  pub left_found : is_found (pub_of pair.left db.records) ≡ true
  pub right_found : is_found (pub_of pair.right db.records) ≡ true

-- Whatever decisions refer to is there, and records have ids already.
pub record IsGrounded (db : Db) : Type 0 where
  pub paired : All (λ (d : ReviewDecision). IsPaired db d.pair) db.decisions
  pub known : (a : ℕ) → is_found (pub_of a db.records) ≡ true → a < db.next_id

-- What is there stays; a record that is new has a publication of its own, which is new too.
pub record Extends (db db' : Db) : Type 0 where
  pub decisions : db'.decisions ≡ db.decisions
  pub grows : db.next_id ≤ db'.next_id
  pub kept :
      (a : ℕ) → is_found (pub_of a db.records) ≡ true → pub_of a db'.records ≡ pub_of a db.records
  pub fresh :
      (a p : ℕ)
      → is_found (pub_of a db.records) ≡ false
      → pub_of a db'.records ≡ some p
      → (db.next_id ≤ p) × (p < db'.next_id)
  pub fresh_known :
      (a p : ℕ)
      → is_found (pub_of a db.records) ≡ false
      → pub_of a db'.records ≡ some p
      → a < db'.next_id
  pub alone :
      (a b p : ℕ)
      → is_found (pub_of a db.records) ≡ false
      → is_found (pub_of b db.records) ≡ false
      → pub_of a db'.records ≡ some p
      → pub_of b db'.records ≡ some p
      → a ≡ b
  pub distinct : DistinctIds db.records → DistinctIds db'.records
  pub pairs :
      (pk : ℕ) (pair : CandidatePair)
      → find_pair db pk ≡ some pair
      → (q : CandidatePair) × (find_pair db' pk ≡ some q)
        × (q.left ≡ pair.left)
        × (q.right ≡ pair.right)

found_some : (o : Option ℕ) → is_found o ≡ true → (p : ℕ) × (o ≡ some p)
found_some none h = cc
found_some (some p) h = (p, refl)

module _ (a b c : Db) (h : Extends a b) (k : Extends b c) where
  still_found :
      (i : ℕ) → is_found (pub_of i a.records) ≡ true → is_found (pub_of i b.records) ≡ true
  still_found i f = ap is_found (h.kept i f) ∙ f

  -- A record that is new after both was new in one of them.
  new_in :
      (i p : ℕ)
      → is_found (pub_of i a.records) ≡ false
      → pub_of i c.records ≡ some p
      → (pub_of i b.records ≡ some p) ⊎ (is_found (pub_of i b.records) ≡ false)
  new_in i p n e = elim (Bool-cases (is_found (pub_of i b.records))) [
    | inr f ↦ inr f
    | inl f ↦ inl (sym (k.kept i f) ∙ e)
  ]

  pub Extends-trans : Extends a c
  Extends-trans = record {
    decisions = k.decisions ∙ h.decisions;
    grows = omega (arith, h.grows, k.grows);
    kept = λ i f. k.kept i (still_found i f) ∙ h.kept i f;
    fresh = λ i p n e. elim (new_in i p n e) [
      | inl x ↦ let (l, r) = h.fresh i p n x in (l, omega (arith, r, k.grows))
      | inr x ↦ let (l, r) = k.fresh i p x e in (omega (arith, l, h.grows), r)
    ];
    fresh_known = λ i p n e. elim (new_in i p n e) [
      | inl x ↦ omega (arith, h.fresh_known i p n x, k.grows)
      | inr x ↦ k.fresh_known i p x e
    ];
    alone = λ i j p n m e f. elim (new_in i p n e) [
      | inl x ↦ elim (new_in j p m f) [
        | inl y ↦ h.alone i j p n m x y
        | inr y ↦ omega (arith, (h.fresh i p n x).1, (k.fresh j p y f).0)
      ]
      | inr x ↦ elim (new_in j p m f) [
        | inl y ↦ omega (arith, (h.fresh j p m y).1, (k.fresh i p x e).0)
        | inr y ↦ k.alone i j p x y e f
      ]
    ];
    distinct = λ d. k.distinct (h.distinct d);
    pairs = λ pk pair f.
        let (q, g, l, r) = h.pairs pk pair f in
        let (q', g', l', r') = k.pairs pk q g in (q', g', l' ∙ l, r' ∙ r);
  }

module _ (old new : Db) (c : IsConsistent old) (g : IsGrounded old) (x : Extends old new) where
  pub extended-IsGrounded : IsGrounded new
  extended-IsGrounded = record {
    paired =
        subst (λ (ds : List ReviewDecision). All (λ (d : ReviewDecision). IsPaired new d.pair) ds)
          (sym x.decisions)
          (All-map (λ (d : ReviewDecision). IsPaired old d.pair)
            (λ d h.
              let (q, f, l, r) = x.pairs d.pair h.pair h.found in
              record {
                pair = q;
                found = f;
                left_found =
                    ap (λ (i : ℕ). is_found (pub_of i new.records)) l
                    ∙ ap is_found (x.kept h.pair.left h.left_found)
                    ∙ h.left_found;
                right_found =
                    ap (λ (i : ℕ). is_found (pub_of i new.records)) r
                    ∙ ap is_found (x.kept h.pair.right h.right_found)
                    ∙ h.right_found;
              })
            old.decisions g.paired);
    known = λ a h. elim (Bool-cases (is_found (pub_of a old.records))) [
      | inl f ↦ omega (arith, g.known a f, x.grows)
      | inr f ↦ let (p, e) = found_some (pub_of a new.records) h in x.fresh_known a p f e
    ];
  }

  -- A decision is about the records that it was about.
  about :
      (kind : Action → Bool) (a b : ℕ)
      → IsDecided kind new a b
      → IsDecided kind old a b
        × (pub_of a new.records ≡ pub_of a old.records)
        × (pub_of b new.records ≡ pub_of b old.records)
  about kind a b h =
      let listed = subst (λ (ds : List ReviewDecision). Memᴰ h.decision ds) x.decisions h.listed in
      let p = All-at (λ (d : ReviewDecision). IsPaired old d.pair) old.decisions g.paired listed in
      let (q, f, l, r) = x.pairs h.decision.pair p.pair p.found in
      let ends = sym (ap endpoints f) ∙ h.ends in
      let first : p.pair.left ≡ a = sym l ∙ ap (λ (e : ℕ × ℕ). e.0) ends in
      let second : p.pair.right ≡ b = sym r ∙ ap (λ (e : ℕ × ℕ). e.1) ends in
      (
        record {
          decision = h.decision;
          listed = listed;
          active =
              subst (λ (ds : List ReviewDecision). is_active ds h.decision ≡ true) x.decisions
                h.active;
          kind_of = h.kind_of;
          ends = ap endpoints p.found ∙ rw (first, second) refl;
        },
        subst (λ (i : ℕ). pub_of i new.records ≡ pub_of i old.records) first
            (x.kept p.pair.left p.left_found),
        subst (λ (i : ℕ). pub_of i new.records ≡ pub_of i old.records) second
            (x.kept p.pair.right p.right_found),
      )

  accepted_still : (a b : ℕ) → IsAccepted old a b → IsAccepted new a b
  accepted_still a b h =
      let p =
        All-at (λ (d : ReviewDecision). IsPaired old d.pair) old.decisions g.paired h.listed in
      let (q, f, l, r) = x.pairs h.decision.pair p.pair p.found in
      let ends : (p.pair.left, p.pair.right) ≡ (a, b) = sym (ap endpoints p.found) ∙ h.ends in
      record {
        decision = h.decision;
        listed =
            subst (λ (ds : List ReviewDecision). Memᴰ h.decision ds) (sym x.decisions) h.listed;
        active =
            subst (λ (ds : List ReviewDecision). is_active ds h.decision ≡ true) (sym x.decisions)
              h.active;
        kind_of = h.kind_of;
        ends = ap endpoints f ∙ (rw (l, r) refl) ∙ ends;
      }

  id_still :
      (a : ℕ) → member a (record_ids old.records) ≡ true → member a (record_ids new.records) ≡ true
  id_still a m =
      let f = sym (member-record_ids a old.records) ∙ m in
      member-record_ids a new.records ∙ ap is_found (x.kept a f) ∙ f

  -- A record that was there and one that is new are in two publications.
  old_and_new :
      (a b p : ℕ)
      → is_found (pub_of a old.records) ≡ true
      → is_found (pub_of b old.records) ≡ false
      → pub_of a new.records ≡ some p
      → pub_of b new.records ≡ some p
      → ⊥
  old_and_new a b p f n e k =
      omega (arith, c.bounded a p (sym (x.kept a f) ∙ e), (x.fresh b p n k).0)

  extended_connected :
      (a b p : ℕ)
      → pub_of a new.records ≡ some p
      → pub_of b new.records ≡ some p
      → Linked (record_ids new.records) (links new none) a b
  extended_connected a b p e k = elim (Bool-cases (is_found (pub_of a old.records))) [
    | inl f ↦ elim (Bool-cases (is_found (pub_of b old.records))) [
      | inl i ↦
          Linked-weaken (record_ids old.records) (record_ids new.records) (links old none)
            (links new none) id_still
            (λ s t m. IsAccepted-links new s t (accepted_still s t (links-IsAccepted old s t m)))
            (c.connected a b p (sym (x.kept a f) ∙ e) (sym (x.kept b i) ∙ k))
      | inr i ↦ elim (old_and_new a b p f i e k) [ ]
    ]
    | inr f ↦ elim (Bool-cases (is_found (pub_of b old.records))) [
      | inl i ↦ elim (old_and_new b a p i f k e) [ ]
      | inr i ↦
          subst (λ (s : ℕ). Linked (record_ids new.records) (links new none) a s)
            (x.alone a b p f i e k) self
    ]
  ]

  extended_bound : Bounded new
  extended_bound a p e = elim (Bool-cases (is_found (pub_of a old.records))) [
    | inl f ↦ omega (arith, c.bounded a p (sym (x.kept a f) ∙ e), x.grows)
    | inr f ↦ (x.fresh a p f e).1
  ]

  pub extended-IsConsistent : IsConsistent new
  extended-IsConsistent = record {
    distinct = x.distinct c.distinct;
    bounded = extended_bound;
    decisions =
        subst (λ (ds : List ReviewDecision). Distinct decision_id ds) (sym x.decisions) c.decisions;
    decided =
        subst (λ (ds : List ReviewDecision). All (λ (d : ReviewDecision). d.id < new.next_id) ds)
          (sym x.decisions)
          (All-map (λ (d : ReviewDecision). d.id < old.next_id) (λ d h. omega (arith, h, x.grows))
            old.decisions c.decided);
    accepted = λ a b h. let (o, e, f) = about is_accept a b h in e ∙ c.accepted a b o ∙ sym f;
    rejected = λ a b h k. let (o, e, f) = about is_reject a b h in c.rejected a b o (sym e ∙ k ∙ f);
    connected = extended_connected;
  }
