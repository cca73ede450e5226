-- ===== src/Records/Services/Components/Connected.antt =====
-- What `_components` promises: its groups are the connected components of the graph of the links.
use mathlib.Core.List.{Memᴰ}
use mathlib.Core.Path.{subst}
use research_desk.Prelude.{
  ℕ, ◌≡◌, refl, sym, ap, ◌∙◌, true, ◌&&◌, List, [], ◌∷◌, arith, Bool-cases, inl, inr, All, All-map,
}
use research_desk.Records.Sets.{member, member-union}
use research_desk.Records.Services.Components.{Groups, singletons, group_of, join, join_all, inside}
use research_desk.Records.Services.Components.Groups.{
  together, final, final-IsCoherent, group_of-join, join_all-links, inside-Inside,
  singletons-IsCoherent, together-singletons,
}

-- The abstract view: links between records of the set, in any direction and any number of steps.
pub data Linked (ids : List ℕ) (edges : List (ℕ × ℕ)) : ℕ → ℕ → Type 0 where
  self : {a : ℕ} → Linked ids edges a a
  link :
      {a b : ℕ}
      → Memᴰ (a, b) edges
      → member a ids ≡ true
      → member b ids ≡ true
      → Linked ids edges a b
  back : {a b : ℕ} → Linked ids edges a b → Linked ids edges b a
  joined : {a b c : ℕ} → Linked ids edges a b → Linked ids edges b c → Linked ids edges a c

pub All-Memᴰ : {A : Type 0} (xs : List A) → All (λ x. Memᴰ x xs) xs
All-Memᴰ [] = tt
All-Memᴰ (x ∷ xs) = (Memᴰ.head refl, All-map (λ y. Memᴰ y xs) (λ y. Memᴰ.tail) xs (All-Memᴰ xs))

module _ (ids : List ℕ) (edges : List (ℕ × ℕ)) where
  -- Groups in which only linked records are together.
  abbrev pub Sound : Groups → Type 0
  Sound groups = (a b : ℕ) → together groups a b ≡ true → Linked ids edges a b

  join-Sound :
      (l r : ℕ) (groups : Groups) → Linked ids edges l r → Sound groups → Sound (join l r groups)
  join-Sound l r groups k h a b =
      rw (group_of-join l r groups a) (elim (Bool-cases (together groups l a)) [
        | inl p ↦ rw p (λ m. elim (Bool-cases (together groups l b)) [
          | inl q ↦ joined (back (h l a p)) (h l b q)
          | inr q ↦ joined (back (h l a p)) (
              joined k (
                h r b
                  (ground (arith, m, q, member-union b (group_of l groups) (group_of r groups)))))
        ])
        | inr p ↦ elim (Bool-cases (together groups r a)) [
          | inl p' ↦
              rw (p, p')
                (λ m. elim (Bool-cases (together groups l b)) [
                  | inl q ↦ joined (back (h r a p')) (joined (back k) (h l b q))
                  | inr q ↦ joined (back (h r a p')) (
                      h r b (
                        ground
                          (arith, m, q, member-union b (group_of l groups) (group_of r groups))))
                ])
          | inr p' ↦ rw (p, p') (h a b)
        ]
      ])

  join_all-Sound :
      (es : List (ℕ × ℕ)) (groups : Groups)
      → All (λ e. Linked ids edges e.0 e.1) es
      → Sound groups
      → Sound (join_all es groups)
  unfolding join_all
  join_all-Sound [] groups k h = h
  join_all-Sound ((l, r) ∷ es) groups k h =
      join_all-Sound es (join l r groups) k.1 (join-Sound l r groups k.0 h)

  inside-Linked :
      (es : List (ℕ × ℕ))
      → All (λ e. Memᴰ e edges) es
      → All (λ e. Linked ids edges e.0 e.1) (inside ids es)
  unfolding inside
  inside-Linked [] k = tt
  inside-Linked ((l, r) ∷ es) k = elim (Bool-cases (member l ids && member r ids)) [
    | inl e ↦ rw e (link k.0 (ground (arith, e)) (ground (arith, e)), inside-Linked es k.1)
    | inr e ↦ rw e (inside-Linked es k.1)
  ]

  singletons-Sound : Sound (singletons ids)
  singletons-Sound a b h =
      subst (λ (x : ℕ). Linked ids edges a x) (together-singletons ids a b h).0 self

  pub final-Sound : Sound (final ids edges)
  final-Sound =
      join_all-Sound (inside ids edges) (singletons ids) (inside-Linked edges (All-Memᴰ edges))
        singletons-Sound

  Memᴰ-inside :
      (es : List (ℕ × ℕ)) (a b : ℕ)
      → Memᴰ (a, b) es
      → member a ids ≡ true
      → member b ids ≡ true
      → Memᴰ (a, b) (inside ids es)
  unfolding inside
  Memᴰ-inside [] a b m p q = elim m [ ]
  Memᴰ-inside ((l, r) ∷ es) a b (Memᴰ.head e) p q =
      let first : a ≡ l = ap (λ (x : ℕ × ℕ). x.0) e in
      let second : b ≡ r = ap (λ (x : ℕ × ℕ). x.1) e in
      let both : (member l ids && member r ids) ≡ true = ground (arith, p, q, first, second) in
      rw both (Memᴰ.head e)
  Memᴰ-inside ((l, r) ∷ es) a b (Memᴰ.tail m) p q =
      elim (Bool-cases (member l ids && member r ids)) [
        | inl e ↦ rw e (Memᴰ.tail (Memᴰ-inside es a b m p q))
        | inr e ↦ rw e (Memᴰ-inside es a b m p q)
      ]

  member-Linked : {a b : ℕ} → Linked ids edges a b → member a ids ≡ member b ids
  member-Linked self = refl
  member-Linked (link m p q) = p ∙ sym q
  member-Linked (back h) = sym (member-Linked h)
  member-Linked (joined h k) = member-Linked h ∙ member-Linked k

  -- Linked records have one group.
  pub group_of-Linked :
      {a b : ℕ}
      → Linked ids edges a b
      → member a ids ≡ true
      → group_of b (final ids edges) ≡ group_of a (final ids edges)
  group_of-Linked self m = refl
  group_of-Linked {a} {b} (link e p q) m =
      let c = final-IsCoherent ids edges in
      c.same a b (
        join_all-links ids (inside ids edges) (singletons ids) a b (singletons-IsCoherent ids)
          (inside-Inside ids edges) (Memᴰ-inside edges a b e p q))
  group_of-Linked (back h) m = sym (group_of-Linked h (member-Linked h ∙ m))
  group_of-Linked (joined h k) m =
      group_of-Linked k (sym (member-Linked h) ∙ m) ∙ group_of-Linked h m

  pub together-Linked :
      {a b : ℕ} → Linked ids edges a b → member a ids ≡ true → together (final ids edges) a b ≡ true
  together-Linked {a} {b} h m =
      let c = final-IsCoherent ids edges in
      subst (λ (s : List ℕ). member b s ≡ true) (group_of-Linked h m)
        (c.self b (sym (member-Linked h) ∙ m))
