-- ===== src/Records/Services/Regroup/Given.antt =====
-- Which records are given one publication.
use mathlib.Core.List.{Memᴰ}
use mathlib.Core.Path.{subst}
use research_desk.Prelude.{
  ℕ, ◌+◌, ◌≤◌, ◌<◌, ◌≡◌, refl, ◌∙◌, true, false, some, List, [], ◌∷◌, arith, Bool-cases,
  Option-cases, inl, inr, ap, ◌⊎◌,
}
use research_desk.Records.Sets.{member}
use research_desk.Records.Services.Components.{Groups}
use research_desk.Records.Services.Regroup.{existing}
use research_desk.Records.Services.Regroup.Assigned.{
  assigned, in_any-Memᴰ, Disjoint, assigned-existing, assigned-new,
}

-- A publication that was given is a new one, or the one of an old group that the record is in.
abbrev pub Given : Groups → List (List ℕ) → ℕ → ℕ → ℕ → Type 0
Given old gs n a q =
    (n ≤ q) ⊎ ((g : List ℕ) × Memᴰ g gs × (member a g ≡ true) × (existing g old ≡ some q))

later :
    (old : Groups) (g : List ℕ) (gs : List (List ℕ)) (n m a q : ℕ)
    → n ≤ m
    → Given old gs m a q
    → Given old (g ∷ gs) n a q
later old g gs n m a q le (inl k) = inl (omega (arith, le, k))
later old g gs n m a q le (inr (h, k, p, e)) = inr (h, Memᴰ.tail k, p, e)

pub assigned-Given :
    (old : Groups) (gs : List (List ℕ)) (n a q : ℕ)
    → assigned old gs n a ≡ some q
    → Given old gs n a q
unfolding assigned
assigned-Given old [] n a q h = cc
assigned-Given old (g ∷ gs) n a q h = elim (Option-cases (existing g old)) [
  | inl e ↦
      let given = assigned-new old g gs n a e in
      elim (Bool-cases (member a g)) [
        | inl m ↦ inl (ground (arith, given, h, m))
        | inr m ↦
            later old g gs n (n + 1) a q (omega arith)
              (assigned-Given old gs (n + 1) a q (ground (arith, given, h, m)))
      ]
  | inr (pk, e) ↦
      let given = assigned-existing old g gs n a pk e in
      elim (Bool-cases (member a g)) [
        | inl m ↦
            let same : pk ≡ q = ground (arith, given, h, m) in
            inr (g, Memᴰ.head refl, m, e ∙ ap some same)
        | inr m ↦
            later old g gs n n a q (omega arith)
              (assigned-Given old gs n a q (ground (arith, given, h, m)))
      ]
]

-- What holds of the old groups: their publications are older than `n`, and each has one group.
pub record AreOld (old : Groups) (n : ℕ) : Type 0 where
  pub below : (g : List ℕ) (pk : ℕ) → existing g old ≡ some pk → pk < n
  pub one : (g h : List ℕ) (pk : ℕ) → existing g old ≡ some pk → existing h old ≡ some pk → g ≡ h

AreOld-step : (old : Groups) (n : ℕ) → AreOld old n → AreOld old (n + 1)
AreOld-step old n h = record { below = λ g pk e. omega (arith, h.below g pk e); one = h.one }

module _ (old : Groups) (g : List ℕ) (gs : List (List ℕ)) (n a b q : ℕ) where
  -- Whoever is given what the first group is given is in it.
  first_only :
      AreOld old n
      → assigned old (g ∷ gs) n a ≡ some q
      → assigned old (g ∷ gs) n b ≡ some q
      → member a g ≡ true
      → member b g ≡ false
      → ⊥
  first_only o h k m c = elim (Option-cases (existing g old)) [
    | inl e ↦
        let same : n ≡ q = ground (arith, assigned-new old g gs n a e, h, m) in
        let rest : assigned old gs (n + 1) b ≡ some q =
          ground (arith, assigned-new old g gs n b e, k, c) in
        elim (assigned-Given old gs (n + 1) b q rest) [
          | inl le ↦ omega (arith, le, same)
          | inr (s, i, p, x) ↦ omega (arith, o.below s q x, same)
        ]
    | inr (pk, e) ↦
        let same : pk ≡ q = ground (arith, assigned-existing old g gs n a pk e, h, m) in
        let rest : assigned old gs n b ≡ some q =
          ground (arith, assigned-existing old g gs n b pk e, k, c) in
        elim (assigned-Given old gs n b q rest) [
          | inl le ↦ omega (arith, le, same, o.below g pk e)
          | inr (s, i, p, x) ↦
              let eq : s ≡ g = o.one s g q x (e ∙ ap some same) in
              let inside : member b g ≡ true = subst (λ (t : List ℕ). member b t ≡ true) eq p in
              ground (arith, inside, c)
        ]
  ]

-- Records with one given publication are in one group.
abbrev Shared : List (List ℕ) → ℕ → ℕ → Type 0
Shared gs a b = (g : List ℕ) × Memᴰ g gs × (member a g ≡ true) × (member b g ≡ true)

Shared-tail : (g : List ℕ) (gs : List (List ℕ)) (a b : ℕ) → Shared gs a b → Shared (g ∷ gs) a b
Shared-tail g gs a b (h, m, p, q) = (h, Memᴰ.tail m, p, q)

pub assigned-same :
    (old : Groups) (gs : List (List ℕ)) (n a b q : ℕ)
    → AreOld old n
    → assigned old gs n a ≡ some q
    → assigned old gs n b ≡ some q
    → (g : List ℕ) × Memᴰ g gs × (member a g ≡ true) × (member b g ≡ true)
unfolding assigned
assigned-same old [] n a b q o h k = cc
assigned-same old (g ∷ gs) n a b q o h k = elim (Bool-cases (member a g)) [
  | inl m ↦ elim (Bool-cases (member b g)) [
    | inl c ↦ (g, Memᴰ.head refl, m, c)
    | inr c ↦ elim (first_only old g gs n a b q o h k m c) [ ]
  ]
  | inr m ↦ elim (Bool-cases (member b g)) [
    | inl c ↦ elim (first_only old g gs n b a q o k h c m) [ ]
    | inr c ↦ Shared-tail g gs a b (elim (Option-cases (existing g old)) [
      | inl e ↦
          assigned-same old gs (n + 1) a b q (AreOld-step old n o)
            (ground (arith, assigned-new old g gs n a e, h, m))
            (ground (arith, assigned-new old g gs n b e, k, c))
      | inr (pk, e) ↦
          assigned-same old gs n a b q o (ground (arith, assigned-existing old g gs n a pk e, h, m))
            (ground (arith, assigned-existing old g gs n b pk e, k, c))
    ])
  ]
]

-- The records of a group are given one publication.
pub assigned-together :
    (old : Groups) (gs : List (List ℕ)) (n a b : ℕ) {g : List ℕ}
    → Disjoint gs
    → Memᴰ g gs
    → member a g ≡ true
    → member b g ≡ true
    → (q : ℕ) × (assigned old gs n a ≡ some q) × (assigned old gs n b ≡ some q)
assigned-together old [] n a b {g} d i p q = elim i [ ]
assigned-together old (h ∷ gs) n a b {g} d (Memᴰ.head e) p q =
    let pa : member a h ≡ true = subst (λ (t : List ℕ). member a t ≡ true) e p in
    let pb : member b h ≡ true = subst (λ (t : List ℕ). member b t ≡ true) e q in
    elim (Option-cases (existing h old)) [
      | inl e ↦ (
        n,
        ground (arith, assigned-new old h gs n a e, pa),
        ground (arith, assigned-new old h gs n b e, pb),
      )
      | inr (pk, e) ↦ (
        pk,
        ground (arith, assigned-existing old h gs n a pk e, pa),
        ground (arith, assigned-existing old h gs n b pk e, pb),
      )
    ]
assigned-together old (h ∷ gs) n a b {g} d (Memᴰ.tail i) p q =
    let na : member a h ≡ false = not_head a p in
    let nb : member b h ≡ false = not_head b q in
    elim (Option-cases (existing h old)) [
      | inl e ↦
          let (r, x, y) = assigned-together old gs (n + 1) a b d.1 i p q in
          (
            r,
            ground (arith, assigned-new old h gs n a e, na, x),
            ground (arith, assigned-new old h gs n b e, nb, y),
          )
      | inr (pk, e) ↦
          let (r, x, y) = assigned-together old gs n a b d.1 i p q in
          (
            r,
            ground (arith, assigned-existing old h gs n a pk e, na, x),
            ground (arith, assigned-existing old h gs n b pk e, nb, y),
          )
    ]
  where
    not_head : (c : ℕ) → member c g ≡ true → member c h ≡ false
    not_head c m = ground (arith, d.0 c, in_any-Memᴰ c gs i m)
