-- ===== src/Records/Services/Components/Partition.antt =====
-- The list of groups that `_components` returns.
use mathlib.Core.List.{Memᴰ}
use mathlib.Core.Path.{subst}
use research_desk.Prelude.{
  ℕ, ◌≡◌, sym, ◌∙◌, ◌↔◌, true, List, [], ◌∷◌, inl, inr, All, All-map, Option-cases,
}
use research_desk.Records.Sets.{
  member, look_up, values, union, assign-Keyed, assign_all-Keyed, Keyed, values-look_up,
  look_up-values,
}
use research_desk.Records.Services.Components.{
  Groups, singletons, group_of, join, join_all, inside, unique, components,
}
use research_desk.Records.Services.Components.Groups.{
  group_of-found, group_of-missing, final, final-IsCoherent,
}
use research_desk.Records.Services.Components.Connected.{
  All-Memᴰ, Linked, final-Sound, together-Linked,
}
use research_desk.Records.Services.Components.Lists.{
  Memᴰ-unique, Memᴰ-sort_groups, unique-All, sort_groups-All, Once, unique-Once, sort_groups-Once,
}

pub singletons-Keyed : (ids : List ℕ) → Keyed (singletons ids)
unfolding singletons
singletons-Keyed [] = tt
singletons-Keyed (pk ∷ ids) = assign-Keyed pk (pk ∷ []) (singletons ids) (singletons-Keyed ids)

join_all-Keyed : (es : List (ℕ × ℕ)) (groups : Groups) → Keyed groups → Keyed (join_all es groups)
unfolding join_all join
join_all-Keyed [] groups h = h
join_all-Keyed ((l, r) ∷ es) groups h =
    let merged = union (group_of l groups) (group_of r groups) in
    join_all-Keyed es (join l r groups) (assign_all-Keyed merged merged groups h)

no_member : (a : ℕ) → member a [] ≡ true → ⊥
unfolding member
no_member a h = cc

-- A group of the list is the group of each of its members, and each record of the set has one.
abbrev IsGroup : List ℕ → List (ℕ × ℕ) → List ℕ → Type 0
IsGroup ids edges s = (a : ℕ) → member a s ≡ true → group_of a (final ids edges) ≡ s

module _ (ids : List ℕ) (edges : List (ℕ × ℕ)) where
  values-IsGroup : All (IsGroup ids edges) (values (final ids edges))
  values-IsGroup =
      All-map (λ s. Memᴰ s (values (final ids edges))) is_group (values (final ids edges))
        (All-Memᴰ (values (final ids edges)))
    where
      is_group : (s : List ℕ) → Memᴰ s (values (final ids edges)) → IsGroup ids edges s
      is_group s m a h =
          let keyed = join_all-Keyed (inside ids edges) (singletons ids) (singletons-Keyed ids) in
          let (k, e) = look_up-values (final ids edges) keyed m in
          let group : group_of k (final ids edges) ≡ s = group_of-found k (final ids edges) e in
          (final-IsCoherent ids edges).same k a (rw group h) ∙ group

  pub components-IsGroup : All (IsGroup ids edges) (components ids edges)
  unfolding components
  components-IsGroup =
      sort_groups-All (IsGroup ids edges) (unique (values (final ids edges)))
        (unique-All (IsGroup ids edges) (values (final ids edges)) values-IsGroup)

  pub group_of-components :
      (a : ℕ) → member a ids ≡ true → Memᴰ (group_of a (final ids edges)) (components ids edges)
  unfolding components
  group_of-components a h = elim (Option-cases (look_up a (final ids edges))) [
    | inl e ↦
        elim (no_member a (
          subst (λ (t : List ℕ). member a t ≡ true) (group_of-missing a (final ids edges) e)
            ((final-IsCoherent ids edges).self a h))) [ ]
    | inr (s, e) ↦ rw (group_of-found a (final ids edges) e) (
        Memᴰ-sort_groups s (unique (values (final ids edges)))
          (Memᴰ-unique s (values (final ids edges)) (values-look_up a (final ids edges) e)))
  ]

  pub components-Once : Once (components ids edges)
  unfolding components
  components-Once =
      sort_groups-Once (unique (values (final ids edges))) (unique-Once (values (final ids edges)))

-- What the groups are meant to be: each record of the set is in a group, a group holds with a record
-- exactly the records that links connect it to, groups that share a record are one, no group stands
-- twice, and only records of the set are in them.
pub record AreComponents (ids : List ℕ) (edges : List (ℕ × ℕ)) (groups : List (List ℕ))
    : Type 0 where
  pub covered : (a : ℕ) → member a ids ≡ true → (s : List ℕ) × Memᴰ s groups × (member a s ≡ true)
  pub connected :
      All (λ s. (a b : ℕ) → member a s ≡ true → (member b s ≡ true) ↔ Linked ids edges a b) groups
  pub disjoint :
      All (λ s. All (λ t. (a : ℕ) → member a s ≡ true → member a t ≡ true → s ≡ t) groups) groups
  pub once : Once groups
  pub within : All (λ s. (a : ℕ) → member a s ≡ true → member a ids ≡ true) groups

-- `_components` refines the abstract view of its links, whichever they are: the groups it returns
-- partition the records of the set, and two records are in one group exactly if links connect them.
pub components-AreComponents :
    (ids : List ℕ) (edges : List (ℕ × ℕ)) → AreComponents ids edges (components ids edges)
components-AreComponents ids edges =
    let c = final-IsCoherent ids edges in
    let groups = components-IsGroup ids edges in
    record {
      covered =
          λ a h. (group_of a (final ids edges), group_of-components ids edges a h, c.self a h);
      connected =
          All-map (IsGroup ids edges)
            (λ s g a b m.
              let e : group_of a (final ids edges) ≡ s = g a m in
              (
                λ k. final-Sound ids edges a b (rw e k),
                λ l.
                    let known = (c.known a a (rw e m)).0 in
                    subst (λ (t : List ℕ). member b t ≡ true) e (together-Linked ids edges l known),
              ))
            (components ids edges) groups;
      disjoint =
          All-map (IsGroup ids edges)
            (λ s g.
              All-map (IsGroup ids edges) (λ t h a m n. sym (g a m) ∙ h a n) (components ids edges)
                groups)
            (components ids edges) groups;
      once = components-Once ids edges;
      within =
          All-map (IsGroup ids edges) (λ s g a m. (c.known a a (rw (g a m) m)).0)
            (components ids edges) groups;
    }
