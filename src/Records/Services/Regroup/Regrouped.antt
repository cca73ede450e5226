-- ===== src/Records/Services/Regroup/Regrouped.antt =====
-- What `_regroup` does to the publications of all records.
use research_desk.Prelude.{
  ℕ, ◌≤◌, ◌<◌, ◌≡◌, refl, sym, ◌∙◌, true, false, Option, none, some, List, [], arith, Bool-cases,
  inl, inr, All-at, ap, ◌⊎◌, ◌↔◌,
}
use research_desk.Records.Models.{Db, Origin, CandidatePair, pair_id, find_pair}
use research_desk.Records.Sets.{member}
use research_desk.Table.{find_row}
use research_desk.Records.Services.{records_of, links, endpoints}
use research_desk.Records.Services.Components.Connected.{Linked}
use research_desk.Records.Services.Components.Partition.{AreComponents, components-AreComponents}
use research_desk.Records.Services.Regroup.{regroup, bump_all}
use research_desk.Records.Services.Regroup.Frame.{KeepsAll, retire-KeepsAll, endpoints-bump_pairs}
use research_desk.Records.Services.Regroup.Assigned.{
  pub_of, assigned, moved, in_any, Disjoint, pub_of-settle, assigned-none,
}
use research_desk.Records.Services.Regroup.Given.{assigned-same, assigned-together, assigned-Given}
use research_desk.Records.Services.Regroup.Publications.{
  in_pubs, DistinctIds, Bounded, member-ids, affected, old_of, groups, settled, old_of-AreOld,
  old_of-Fits, Disjoint-groups, existing-old, Memᴰ-in_any,
}
use research_desk.Records.Services.Regroup.Stays.{KeepsAll-Stays, settle-Stays}

-- The records of the publications have one publication exactly if links connect them, other records
-- keep theirs, and a publication that is given is new or one of the publications.
pub record IsRegrouped (pubs : List ℕ) (db db' : Db) (d : DistinctIds db.records) : Type 0 where
  pub inside :
      (a b : ℕ)
      → in_pubs pubs (pub_of a db.records) ≡ true
      → in_pubs pubs (pub_of b db.records) ≡ true
      → (pub_of a db'.records ≡ pub_of b db'.records)
        ↔ Linked (affected pubs db d) (links db none) a b
  pub outside :
      (a : ℕ)
      → in_pubs pubs (pub_of a db.records) ≡ false
      → pub_of a db'.records ≡ pub_of a db.records
  pub given :
      (a : ℕ)
      → in_pubs pubs (pub_of a db.records) ≡ true
      → (q : ℕ) × (pub_of a db'.records ≡ some q) × ((db.next_id ≤ q) ⊎ (member q pubs ≡ true))
  pub decisions : db'.decisions ≡ db.decisions
  pub same_pairs : (pk : ℕ) → endpoints (find_pair db' pk) ≡ endpoints (find_pair db pk)
  pub grows : db.next_id ≤ db'.next_id
  pub distinct : DistinctIds db'.records
  pub bounded : Bounded db → Bounded db'

module _ (pubs : List ℕ) (origin : Origin) (now : ℕ) (db : Db) (d : DistinctIds db.records) where
  components_of : AreComponents (affected pubs db d) (links db none) (groups pubs db d)
  components_of = components-AreComponents (affected pubs db d) (links db none)

  groups-Disjoint : Disjoint (groups pubs db d)
  groups-Disjoint =
      Disjoint-groups (groups pubs db d)
        (λ s t a i j.
          All-at _ (groups pubs db d) (All-at _ (groups pubs db d) components_of.disjoint i) j a)
        components_of.once

  regrouped : Db
  regrouped = regroup pubs origin now db

  regrouped-KeepsAll : KeepsAll (settled pubs db d origin now).1 regrouped
  unfolding regrouped regroup
  regrouped-KeepsAll =
      retire-KeepsAll (settled pubs db d origin now).0 (old_of pubs db d)
        (settled pubs db d origin now).1

  pub_of-regrouped :
      (a : ℕ)
      → pub_of a regrouped.records
        ≡ moved (assigned (old_of pubs db d) (groups pubs db d) db.next_id a) (pub_of a db.records)
  pub_of-regrouped a =
      ap (pub_of a) regrouped-KeepsAll.records
      ∙ pub_of-settle origin now (old_of pubs db d) a (groups pubs db d) []
          (bump_all (affected pubs db d) db) groups-Disjoint
          (old_of-Fits pubs db d (groups pubs db d))

  -- The publication that a record of the publications is given.
  pub_of-assigned :
      (a : ℕ) {q : ℕ}
      → in_pubs pubs (pub_of a db.records) ≡ true
      → assigned (old_of pubs db d) (groups pubs db d) db.next_id a ≡ some q
      → pub_of a regrouped.records ≡ some q
  pub_of-assigned a {q} h e = pub_of-regrouped a ∙ (rw e (some_of (pub_of a db.records) h))
    where
      some_of : (o : Option ℕ) → in_pubs pubs o ≡ true → moved (some q) o ≡ some q
      some_of none h = cc
      some_of (some p) h = refl

  in_affected :
      (a : ℕ) → in_pubs pubs (pub_of a db.records) ≡ true → member a (affected pubs db d) ≡ true
  in_affected a h = member-ids a pubs db.records d ∙ h

  assigned_one :
      (a : ℕ)
      → in_pubs pubs (pub_of a db.records) ≡ true
      → (q : ℕ) × (assigned (old_of pubs db d) (groups pubs db d) db.next_id a ≡ some q)
  assigned_one a h =
      let (g, i, m) = components_of.covered a (in_affected a h) in
      let (q, e, e') =
        assigned-together (old_of pubs db d) (groups pubs db d) db.next_id a a groups-Disjoint i m
          m in
      (q, e)

  linked_after :
      (a b : ℕ)
      → in_pubs pubs (pub_of a db.records) ≡ true
      → in_pubs pubs (pub_of b db.records) ≡ true
      → Linked (affected pubs db d) (links db none) a b
      → pub_of a regrouped.records ≡ pub_of b regrouped.records
  linked_after a b h k l =
      let (g, i, m) = components_of.covered a (in_affected a h) in
      let n = (All-at _ (groups pubs db d) components_of.connected i a b m).1 l in
      let (q, e, e') =
        assigned-together (old_of pubs db d) (groups pubs db d) db.next_id a b groups-Disjoint i m
          n in
      pub_of-assigned a h e ∙ sym (pub_of-assigned b k e')

  outside_after :
      (a : ℕ)
      → in_pubs pubs (pub_of a db.records) ≡ false
      → pub_of a regrouped.records ≡ pub_of a db.records
  outside_after a h = elim (Bool-cases (in_any a (groups pubs db d))) [
    | inr e ↦
        pub_of-regrouped a
        ∙ rw (assigned-none (old_of pubs db d) (groups pubs db d) db.next_id a e) refl
    | inl e ↦
        let (g, i, m) = Memᴰ-in_any a (groups pubs db d) e in
        let known = All-at _ (groups pubs db d) components_of.within i a m in
        let no : true ≡ false = sym known ∙ (member-ids a pubs db.records d ∙ h) in cc
  ]

  given_after :
      (a : ℕ)
      → in_pubs pubs (pub_of a db.records) ≡ true
      → (q : ℕ) × (pub_of a regrouped.records ≡ some q)
        × ((db.next_id ≤ q) ⊎ (member q pubs ≡ true))
  given_after a h =
      let (q, e) = assigned_one a h in
      (
        q,
        pub_of-assigned a h e,
        elim (assigned-Given (old_of pubs db d) (groups pubs db d) db.next_id a q e) [
          | inl le ↦ inl le
          | inr (g, i, m, x) ↦ inr (existing-old g (records_of pubs db.records) pubs q x).1
        ],
      )

  module _ (bounds : (p : ℕ) → member p pubs ≡ true → p < db.next_id) where
    same_after :
        (a b : ℕ)
        → in_pubs pubs (pub_of a db.records) ≡ true
        → in_pubs pubs (pub_of b db.records) ≡ true
        → pub_of a regrouped.records ≡ pub_of b regrouped.records
        → Linked (affected pubs db d) (links db none) a b
    same_after a b h k e =
        let (q, x) = assigned_one a h in
        let (r, y) = assigned_one b k in
        let same : q ≡ r = ground (arith, pub_of-assigned a h x, pub_of-assigned b k y, e) in
        let (g, i, m, n) =
          assigned-same (old_of pubs db d) (groups pubs db d) db.next_id a b q
            (old_of-AreOld pubs db d bounds) x (y ∙ ap some (sym same)) in
        (All-at _ (groups pubs db d) components_of.connected i a b m).0 n

    -- `_regroup` makes the publications of the affected records the connected components of the
    -- active links, and leaves all others.
    pub regroup-IsRegrouped : IsRegrouped pubs db (regroup pubs origin now db) d
    unfolding regrouped
    regroup-IsRegrouped =
        let k = KeepsAll-Stays (settled pubs db d origin now).1 regrouped regrouped-KeepsAll in
        let s =
          settle-Stays origin now (old_of pubs db d) (groups pubs db d) []
            (bump_all (affected pubs db d) db) in
        record {
          inside = λ a b h j. (same_after a b h j, linked_after a b h j);
          outside = λ a h. outside_after a h;
          given = λ a h. given_after a h;
          decisions = k.kept.decisions ∙ s.kept.decisions;
          same_pairs = λ pk.
              ap (λ (ps : List CandidatePair). endpoints (find_row pair_id pk ps))
                (k.kept.pairs ∙ s.kept.pairs)
              ∙ endpoints-bump_pairs (affected pubs db d) pk db.pairs;
          grows = omega (arith, s.grows, k.grows);
          distinct = k.distinct (s.distinct d);
          bounded = λ b. k.bounded (s.bounded b);
        }
