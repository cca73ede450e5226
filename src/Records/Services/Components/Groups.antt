-- ===== src/Records/Services/Components/Groups.antt =====
-- The dict of `_components` while it runs: a record is in its own group, the members of a group have
-- that group, and they are records of the set.
use mathlib.Core.List.{Memᴰ}
use research_desk.Prelude.{
  ℕ, ◌≡◌, refl, sym, ap, Bool, true, ◌&&◌, ◌||◌, none, some, List, [], ◌∷◌, arith, if◌then◌else◌,
  Bool-cases, inl, inr,
}
use research_desk.Records.Sets.{
  member, union, look_up, member-union, look_up-assign_all, look_up-assign,
}
use research_desk.Records.Services.Components.{Groups, singletons, group_of, join, join_all, inside}

-- `b` is in the group of `a`.
abbrev pub together : Groups → ℕ → ℕ → Bool
together groups a b = member b (group_of a groups)

pub group_of-found :
    (k : ℕ) (groups : Groups) {s : List ℕ} → look_up k groups ≡ some s → group_of k groups ≡ s
unfolding group_of
group_of-found k groups e = rw (group_of, e) refl

pub group_of-missing : (k : ℕ) (groups : Groups) → look_up k groups ≡ none → group_of k groups ≡ []
unfolding group_of
group_of-missing k groups e = rw (group_of, e) refl

pub record IsCoherent (ids : List ℕ) (groups : Groups) : Type 0 where
  pub self : (a : ℕ) → member a ids ≡ true → together groups a a ≡ true
  pub same : (a b : ℕ) → together groups a b ≡ true → group_of b groups ≡ group_of a groups
  pub known : (a b : ℕ) → together groups a b ≡ true → (member a ids ≡ true) × (member b ids ≡ true)

pub group_of-join :
    (l r : ℕ) (groups : Groups) (a : ℕ)
    → group_of a (join l r groups) ≡ (
        if together groups l a || together groups r a
        then union (group_of l groups) (group_of r groups)
        else group_of a groups)
unfolding group_of join
group_of-join l r groups a =
    let merged = union (group_of l groups) (group_of r groups) in
    rw
      (
        group_of,
        join,
        look_up-assign_all a merged merged groups,
        member-union a (group_of l groups) (group_of r groups),
      )
      (ground arith)

pub join-IsCoherent :
    (ids : List ℕ) (l r : ℕ) (groups : Groups)
    → IsCoherent ids groups
    → IsCoherent ids (join l r groups)
join-IsCoherent ids l r groups h = record {
  self = λ a k.
      rw (group_of-join l r groups a)
        (ground (arith, member-union a (group_of l groups) (group_of r groups), h.self a k));
  same = λ a b.
      rw (group_of-join l r groups a, group_of-join l r groups b)
        (ground (
          arith,
          member-union b (group_of l groups) (group_of r groups),
          h.same a b,
          h.same l b,
          h.same r b,
          h.same l a,
          h.same r a,
          h.self a,
          h.known a b,
        ));
  known = λ a b. rw (group_of-join l r groups a) (
      ground (
        arith,
        member-union b (group_of l groups) (group_of r groups),
        h.known a b,
        h.known l b,
        h.known r b,
        h.known l a,
        h.known r a,
      ));
}

pub join-grows :
    (ids : List ℕ) (l r : ℕ) (groups : Groups) (a b : ℕ)
    → IsCoherent ids groups
    → together groups a b ≡ true
    → together (join l r groups) a b ≡ true
join-grows ids l r groups a b h =
    rw (group_of-join l r groups a) (
      ground
        (arith, member-union b (group_of l groups) (group_of r groups), h.same l a, h.same r a))

pub join-links :
    (ids : List ℕ) (l r : ℕ) (groups : Groups)
    → IsCoherent ids groups
    → member l ids ≡ true
    → member r ids ≡ true
    → together (join l r groups) l r ≡ true
join-links ids l r groups h p q =
    rw (group_of-join l r groups l) (
      ground
        (arith, member-union r (group_of l groups) (group_of r groups), h.self l p, h.self r q))

group_of-singletons :
    (ids : List ℕ) (a : ℕ) → group_of a (singletons ids) ≡ (if member a ids then a ∷ [] else [])
unfolding group_of singletons look_up member
group_of-singletons [] a = refl
group_of-singletons (pk ∷ ids) a =
    ground (arith, look_up-assign a pk (pk ∷ []) (singletons ids), group_of-singletons ids a)

pub together-singletons :
    (ids : List ℕ) (a b : ℕ)
    → together (singletons ids) a b ≡ true
    → (a ≡ b) × (member a ids ≡ true)
unfolding member
together-singletons ids a b = rw (group_of-singletons ids a) (ground arith)

pub singletons-IsCoherent : (ids : List ℕ) → IsCoherent ids (singletons ids)
unfolding member
singletons-IsCoherent ids = record {
  self = λ a k. rw (group_of-singletons ids a) (ground (arith, k));
  same =
      λ a b k. ap (λ (i : ℕ). group_of i (singletons ids)) (sym (together-singletons ids a b k).0);
  known = λ a b k. ground (arith, together-singletons ids a b k);
}

module _ (ids : List ℕ) where
  -- Every link is between records of the set.
  abbrev pub Inside : List (ℕ × ℕ) → Type 0
  Inside [] = Unit
  Inside ((l, r) ∷ edges) = (member l ids ≡ true) × (member r ids ≡ true) × Inside edges

  pub inside-Inside : (edges : List (ℕ × ℕ)) → Inside (inside ids edges)
  unfolding inside
  inside-Inside [] = tt
  inside-Inside ((l, r) ∷ edges) = elim (Bool-cases (member l ids && member r ids)) [
    | inl e ↦ rw e (ground (arith, e), ground (arith, e), inside-Inside edges)
    | inr e ↦ rw e (inside-Inside edges)
  ]

  pub join_all-IsCoherent :
      (edges : List (ℕ × ℕ)) (groups : Groups)
      → IsCoherent ids groups
      → IsCoherent ids (join_all edges groups)
  unfolding join_all
  join_all-IsCoherent [] groups h = h
  join_all-IsCoherent ((l, r) ∷ edges) groups h =
      join_all-IsCoherent edges (join l r groups) (join-IsCoherent ids l r groups h)

  pub join_all-grows :
      (edges : List (ℕ × ℕ)) (groups : Groups) (a b : ℕ)
      → IsCoherent ids groups
      → together groups a b ≡ true
      → together (join_all edges groups) a b ≡ true
  unfolding join_all
  join_all-grows [] groups a b h k = k
  join_all-grows ((l, r) ∷ edges) groups a b h k =
      join_all-grows edges (join l r groups) a b (join-IsCoherent ids l r groups h)
        (join-grows ids l r groups a b h k)

  pub join_all-links :
      (edges : List (ℕ × ℕ)) (groups : Groups) (a b : ℕ)
      → IsCoherent ids groups
      → Inside edges
      → Memᴰ (a, b) edges
      → together (join_all edges groups) a b ≡ true
  unfolding join_all
  join_all-links [] groups a b h i m = elim m [ ]
  join_all-links ((l, r) ∷ edges) groups a b h i (Memᴰ.head e) =
      let first : a ≡ l = ap (λ (x : ℕ × ℕ). x.0) e in
      let second : b ≡ r = ap (λ (x : ℕ × ℕ). x.1) e in
      rw (first, second)
        (join_all-grows edges (join l r groups) l r (join-IsCoherent ids l r groups h)
          (join-links ids l r groups h i.0 i.1))
  join_all-links ((l, r) ∷ edges) groups a b h i (Memᴰ.tail m) =
      join_all-links edges (join l r groups) a b (join-IsCoherent ids l r groups h) i.2 m

-- The dict at the end of `_components`.
abbrev pub final : List ℕ → List (ℕ × ℕ) → Groups
final ids edges = join_all (inside ids edges) (singletons ids)

pub final-IsCoherent : (ids : List ℕ) (edges : List (ℕ × ℕ)) → IsCoherent ids (final ids edges)
final-IsCoherent ids edges =
    join_all-IsCoherent ids (inside ids edges) (singletons ids) (singletons-IsCoherent ids)
