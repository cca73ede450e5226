-- ===== src/Records/Services/Components/Lists.antt =====
-- `unique` and `sort_groups` neither lose nor add a group.
use mathlib.Core.List.{Memᴰ}
use mathlib.Core.Path.{subst}
use research_desk.Prelude.{
  ℕ, ◌≡◌, refl, sym, ap, ◌∙◌, true, false, ◌||◌, List, [], ◌∷◌, arith, Bool-cases, inl, inr, All,
  ltb,
}
use research_desk.Records.Sets.{eq_set, eq_set_self, eq_set→eq}
use research_desk.Records.Services.Components.{has_group, unique, insert_group, least, sort_groups}

pub Memᴰ-has_group : (s : List ℕ) (ss : List (List ℕ)) → Memᴰ s ss → has_group s ss ≡ true
unfolding has_group
Memᴰ-has_group s [] m = elim m [ ]
Memᴰ-has_group s (t ∷ ts) (Memᴰ.head e) = ground (arith, ap (eq_set s) e, eq_set_self s)
Memᴰ-has_group s (t ∷ ts) (Memᴰ.tail m) = ground (arith, Memᴰ-has_group s ts m)

has_group-Memᴰ : (s : List ℕ) (ss : List (List ℕ)) → has_group s ss ≡ true → Memᴰ s ss
unfolding has_group
has_group-Memᴰ s [] h = cc
has_group-Memᴰ s (t ∷ ts) h = elim (Bool-cases (eq_set s t)) [
  | inl e ↦ Memᴰ.head (eq_set→eq s t e)
  | inr e ↦ Memᴰ.tail (has_group-Memᴰ s ts (ground (arith, e, h)))
]

pub Memᴰ-unique : (s : List ℕ) (ss : List (List ℕ)) → Memᴰ s ss → Memᴰ s (unique ss)
unfolding unique
Memᴰ-unique s [] m = elim m [ ]
Memᴰ-unique s (t ∷ ss) (Memᴰ.head e) = elim (Bool-cases (has_group t (unique ss))) [
  | inl h ↦
      rw h (subst (λ (x : List ℕ). Memᴰ x (unique ss)) (sym e) (has_group-Memᴰ t (unique ss) h))
  | inr h ↦ rw h (Memᴰ.head e)
]
Memᴰ-unique s (t ∷ ss) (Memᴰ.tail m) = elim (Bool-cases (has_group t (unique ss))) [
  | inl h ↦ rw h (Memᴰ-unique s ss m)
  | inr h ↦ rw h (Memᴰ.tail (Memᴰ-unique s ss m))
]

Memᴰ-insert_group :
    (s t : List ℕ) (ss : List (List ℕ)) → Memᴰ s (t ∷ ss) → Memᴰ s (insert_group t ss)
unfolding insert_group
Memᴰ-insert_group s t [] m = m
Memᴰ-insert_group s t (x ∷ ss) m = elim (Bool-cases (ltb (least x) (least t))) [
  | inl h ↦ rw h (elim m [
    | Memᴰ.head e ↦ Memᴰ.tail (Memᴰ-insert_group s t ss (Memᴰ.head e))
    | Memᴰ.tail k ↦ elim k [
      | Memᴰ.head e ↦ Memᴰ.head e
      | Memᴰ.tail k ↦ Memᴰ.tail (Memᴰ-insert_group s t ss (Memᴰ.tail k))
    ]
  ])
  | inr h ↦ rw h m
]

pub Memᴰ-sort_groups : (s : List ℕ) (ss : List (List ℕ)) → Memᴰ s ss → Memᴰ s (sort_groups ss)
unfolding sort_groups
Memᴰ-sort_groups s [] m = m
Memᴰ-sort_groups s (t ∷ ss) (Memᴰ.head e) = Memᴰ-insert_group s t (sort_groups ss) (Memᴰ.head e)
Memᴰ-sort_groups s (t ∷ ss) (Memᴰ.tail m) =
    Memᴰ-insert_group s t (sort_groups ss) (Memᴰ.tail (Memᴰ-sort_groups s ss m))

module _ (P : List ℕ → Type 0) where
  pub unique-All : (ss : List (List ℕ)) → All P ss → All P (unique ss)
  unfolding unique
  unique-All [] h = tt
  unique-All (s ∷ ss) h = elim (Bool-cases (has_group s (unique ss))) [
    | inl e ↦ rw e (unique-All ss h.1)
    | inr e ↦ rw e (h.0, unique-All ss h.1)
  ]

  insert_group-All : (s : List ℕ) (ss : List (List ℕ)) → P s → All P ss → All P (insert_group s ss)
  unfolding insert_group
  insert_group-All s [] p h = (p, tt)
  insert_group-All s (t ∷ ss) p h = elim (Bool-cases (ltb (least t) (least s))) [
    | inl e ↦ rw e (h.0, insert_group-All s ss p h.1)
    | inr e ↦ rw e (p, h)
  ]

  pub sort_groups-All : (ss : List (List ℕ)) → All P ss → All P (sort_groups ss)
  unfolding sort_groups
  sort_groups-All [] h = tt
  sort_groups-All (s ∷ ss) h = insert_group-All s (sort_groups ss) h.0 (sort_groups-All ss h.1)

-- No group stands twice in the list.
abbrev pub Once : List (List ℕ) → Type 0
Once [] = Unit
Once (s ∷ ss) = (has_group s ss ≡ false) × Once ss

eq_set-sym : (s t : List ℕ) → eq_set s t ≡ eq_set t s
unfolding eq_set
eq_set-sym [] [] = refl
eq_set-sym [] (b ∷ t) = refl
eq_set-sym (a ∷ s) [] = refl
eq_set-sym (a ∷ s) (b ∷ t) = ground (arith, eq_set-sym s t)

pub unique-Once : (ss : List (List ℕ)) → Once (unique ss)
unfolding unique
unique-Once [] = tt
unique-Once (s ∷ ss) = elim (Bool-cases (has_group s (unique ss))) [
  | inl e ↦ rw e (unique-Once ss)
  | inr e ↦ rw e (e, unique-Once ss)
]

has_group-insert_group :
    (s t : List ℕ) (ss : List (List ℕ))
    → has_group s (insert_group t ss) ≡ (eq_set s t || has_group s ss)
unfolding has_group insert_group
has_group-insert_group s t [] = ground arith
has_group-insert_group s t (x ∷ ss) = ground (arith, has_group-insert_group s t ss)

insert_group-Once :
    (s : List ℕ) (ss : List (List ℕ)) → has_group s ss ≡ false → Once ss → Once (insert_group s ss)
unfolding insert_group has_group
insert_group-Once s [] h o = (refl, tt)
insert_group-Once s (t ∷ ss) h o = elim (Bool-cases (ltb (least t) (least s))) [
  | inl e ↦ rw e (
    ground (arith, h, o, has_group-insert_group t s ss, eq_set-sym s t),
    insert_group-Once s ss (ground (arith, h)) o.1,
  )
  | inr e ↦ rw e (h, o)
]

has_group-sort_groups :
    (s : List ℕ) (ss : List (List ℕ)) → has_group s (sort_groups ss) ≡ has_group s ss
unfolding has_group sort_groups
has_group-sort_groups s [] = refl
has_group-sort_groups s (t ∷ ss) =
    ground (arith, has_group-insert_group s t (sort_groups ss), has_group-sort_groups s ss)

pub sort_groups-Once : (ss : List (List ℕ)) → Once ss → Once (sort_groups ss)
unfolding sort_groups
sort_groups-Once [] h = tt
sort_groups-Once (s ∷ ss) h =
    insert_group-Once s (sort_groups ss) (has_group-sort_groups s ss ∙ h.0)
      (sort_groups-Once ss h.1)
