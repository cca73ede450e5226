-- ===== src/Records/Sets.antt =====
-- Python's sets and dicts of primary keys, as records/services.py uses them: a set is the ascending
-- list of its elements, so equal sets are equal lists, and a dict is an association list.
use mathlib.Core.List.{Memᴰ}
use research_desk.Prelude.{
  ℕ, ◌≡◌, refl, Bool, true, false, ◌&&◌, ◌||◌, Option, none, some, List, [], ◌∷◌, arith, ltb, ◌==◌,
  if◌then◌else◌, Bool-cases, inl, inr,
}

unfoldable pub member : ℕ → List ℕ → Bool
member a [] = false
member a (x ∷ xs) = a == x || member a xs

unfoldable pub insert : ℕ → List ℕ → List ℕ
insert a [] = a ∷ []
insert a (x ∷ xs) =
    let rest = insert a xs in if a == x then x ∷ xs else (if ltb a x then a ∷ x ∷ xs else x ∷ rest)

-- `set(xs)`, and `xs | ys`.
unfoldable pub union : List ℕ → List ℕ → List ℕ
union [] ys = ys
union (x ∷ xs) ys = insert x (union xs ys)

abbrev pub set_of : List ℕ → List ℕ
set_of xs = union xs []

-- `a == b` on sets.
unfoldable pub eq_set : List ℕ → List ℕ → Bool
eq_set [] [] = true
eq_set (a ∷ s) (b ∷ t) = a == b && eq_set s t
eq_set _ _ = false

-- `min(s)` of a set that is not empty.
abbrev pub least : List ℕ → ℕ
least [] = 0
least (x ∷ xs) = x

pub member-insert : (b a : ℕ) (s : List ℕ) → member b (insert a s) ≡ (b == a || member b s)
unfolding member insert
member-insert b a [] = refl
member-insert b a (x ∷ xs) = ground (arith, member-insert b a xs)

pub member-union : (b : ℕ) (s t : List ℕ) → member b (union s t) ≡ (member b s || member b t)
unfolding member union
member-union b [] t = refl
member-union b (x ∷ s) t = ground (arith, member-insert b x (union s t), member-union b s t)

pub member-set_of : (b : ℕ) (s : List ℕ) → member b (set_of s) ≡ member b s
unfolding member
member-set_of b s = ground (arith, member-union b s [])

pub eq_set→eq : (s t : List ℕ) → eq_set s t ≡ true → s ≡ t
unfolding eq_set
eq_set→eq [] [] h = refl
eq_set→eq [] (b ∷ t) h = cc
eq_set→eq (a ∷ s) [] h = cc
eq_set→eq (a ∷ s) (b ∷ t) h = ground (arith, eq_set→eq s t)

pub eq_set_self : (s : List ℕ) → eq_set s s ≡ true
unfolding eq_set
eq_set_self [] = refl
eq_set_self (a ∷ s) = ground (arith, eq_set_self s)

module _ {A : Type 0} where
  unfoldable pub assign : ℕ → A → List (ℕ × A) → List (ℕ × A)
  assign k v [] = (k, v) ∷ []
  assign k v ((j, w) ∷ d) = if j == k then (j, v) ∷ d else (j, w) ∷ assign k v d

  unfoldable pub look_up : ℕ → List (ℕ × A) → Option A
  look_up k [] = none
  look_up k ((j, w) ∷ d) = if j == k then some w else look_up k d

  -- `for k in ks: d[k] = v`.
  unfoldable pub assign_all : List ℕ → A → List (ℕ × A) → List (ℕ × A)
  assign_all [] v d = d
  assign_all (k ∷ ks) v d = assign_all ks v (assign k v d)

  unfoldable pub values : List (ℕ × A) → List A
  values [] = []
  values ((k, v) ∷ d) = v ∷ values d

  pub look_up-assign :
      (j k : ℕ) (v : A) (d : List (ℕ × A))
      → look_up j (assign k v d) ≡ (if j == k then some v else look_up j d)
  unfolding look_up assign
  look_up-assign j k v [] = ground arith
  look_up-assign j k v (x ∷ d) = ground (arith, look_up-assign j k v d)

  pub look_up-assign_all :
      (j : ℕ) (ks : List ℕ) (v : A) (d : List (ℕ × A))
      → look_up j (assign_all ks v d) ≡ (if member j ks then some v else look_up j d)
  unfolding assign_all member
  look_up-assign_all j [] v d = refl
  look_up-assign_all j (k ∷ ks) v d =
      ground (arith, look_up-assign_all j ks v (assign k v d), look_up-assign j k v d)

  -- No key stands twice.
  abbrev pub Keyed : List (ℕ × A) → Type 0
  Keyed [] = Unit
  Keyed ((k, v) ∷ d) = (look_up k d ≡ none) × Keyed d

  pub assign-Keyed : (k : ℕ) (v : A) (d : List (ℕ × A)) → Keyed d → Keyed (assign k v d)
  unfolding assign look_up
  assign-Keyed k v [] h = (refl, tt)
  assign-Keyed k v ((j, w) ∷ d) h = elim (Bool-cases (j == k)) [
    | inl e ↦ rw e (h.0, h.1)
    | inr e ↦ rw e (ground (arith, e, h, look_up-assign j k v d), assign-Keyed k v d h.1)
  ]

  pub assign_all-Keyed :
      (ks : List ℕ) (v : A) (d : List (ℕ × A)) → Keyed d → Keyed (assign_all ks v d)
  unfolding assign_all
  assign_all-Keyed [] v d h = h
  assign_all-Keyed (k ∷ ks) v d h = assign_all-Keyed ks v (assign k v d) (assign-Keyed k v d h)

  pub values-look_up : (k : ℕ) (d : List (ℕ × A)) {v : A} → look_up k d ≡ some v → Memᴰ v (values d)
  unfolding look_up values
  values-look_up k [] h = cc
  values-look_up k ((j, w) ∷ d) {v} h = elim (Bool-cases (j == k)) [
    | inl e ↦ Memᴰ.head (ground (arith, e, h))
    | inr e ↦ Memᴰ.tail (values-look_up k d (ground (arith, e, h)))
  ]

  look_up-later :
      (j k : ℕ) (d : List (ℕ × A)) {v : A}
      → look_up j d ≡ none
      → look_up k d ≡ some v
      → (j == k) ≡ false
  unfolding look_up
  look_up-later j k [] h e = cc
  look_up-later j k ((i, w) ∷ d) {v} h e = ground (arith, look_up-later j k d {v = v})

  pub look_up-values :
      (d : List (ℕ × A)) {v : A} → Keyed d → Memᴰ v (values d) → (k : ℕ) × (look_up k d ≡ some v)
  unfolding look_up values
  look_up-values [] h m = elim m [ ]
  look_up-values ((j, w) ∷ d) {v} h (Memᴰ.head e) = (j, ground (arith, e))
  look_up-values ((j, w) ∷ d) {v} h (Memᴰ.tail m) =
      let (k, e) = look_up-values d h.1 m in (k, rw (look_up-later j k d h.0 e) e)
