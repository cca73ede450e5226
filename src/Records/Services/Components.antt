-- ===== src/Records/Services/Components.antt =====
-- The groups of linked records: `_components` of records/services.py.
pub mod Groups
pub mod Connected
pub mod Lists
pub mod Partition
use research_desk.Prelude.{
  ℕ, Bool, true, false, ◌&&◌, Option, none, some, List, [], ◌∷◌, ltb, if◌then◌else◌,
}
use research_desk.Records.Sets.{
  member, union, set_of, eq_set, least, look_up, assign, assign_all, values,
}

abbrev pub Groups : Type 0
Groups = List (ℕ × List ℕ)

-- `{pk: {pk} for pk in record_ids}`.
unfoldable pub singletons : List ℕ → Groups
unfolding assign
singletons [] = []
singletons (pk ∷ ids) = assign pk (pk ∷ []) (singletons ids)

-- `groups[pk]`: every key that is read is there.
unfoldable pub group_of : ℕ → Groups → List ℕ
group_of pk groups = elim (look_up pk groups) [ none ↦ [] | some s ↦ s ]

-- One turn of the loop over the links.
unfoldable pub join : ℕ → ℕ → Groups → Groups
unfolding assign_all union group_of
join left right groups =
    let merged = union (group_of left groups) (group_of right groups) in
    assign_all merged merged groups

unfoldable pub join_all : List (ℕ × ℕ) → Groups → Groups
unfolding join
join_all [] groups = groups
join_all ((left, right) ∷ edges) groups = join_all edges (join left right groups)

unfoldable pub has_group : List ℕ → List (List ℕ) → Bool
unfolding eq_set
has_group s [] = false
has_group s (t ∷ ts) = if eq_set s t then true else has_group s ts

-- `{frozenset(value) for value in groups.values()}`.
unfoldable pub unique : List (List ℕ) → List (List ℕ)
unfolding has_group
unique [] = []
unique (s ∷ ss) = let rest = unique ss in if has_group s rest then rest else s ∷ rest

-- `sorted(unique, key=lambda group: str(min(group)))`.
unfoldable pub insert_group : List ℕ → List (List ℕ) → List (List ℕ)
insert_group s [] = s ∷ []
insert_group s (t ∷ ts) =
    let rest = insert_group s ts in if ltb (least t) (least s) then t ∷ rest else s ∷ t ∷ ts

unfoldable pub sort_groups : List (List ℕ) → List (List ℕ)
unfolding insert_group
sort_groups [] = []
sort_groups (s ∷ ss) = insert_group s (sort_groups ss)

-- The links between records of the set.
unfoldable pub inside : List ℕ → List (ℕ × ℕ) → List (ℕ × ℕ)
unfolding member
inside ids [] = []
inside ids ((left, right) ∷ edges) =
    let rest = inside ids edges in
    if member left ids && member right ids then (left, right) ∷ rest else rest

-- `_components(record_ids)`, with the pairs of the active decisions "accept" as the links.
unfoldable pub components : List ℕ → List (ℕ × ℕ) → List (List ℕ)
unfolding singletons join_all inside unique values sort_groups
components ids edges = sort_groups (unique (values (join_all (inside ids edges) (singletons ids))))
