-- ===== src/Table.antt =====
-- A table of a database: rows that are known by a key, in the order of their creation.
use mathlib.Core.Path.{subst}
use research_desk.Prelude.{
  ℕ, ◌+◌, ◌≡◌, ◌≢◌, refl, Bool, true, false, Option, none, some, List, [], ◌∷◌, ◌++◌, arith, any,
  Bool-cases, inl, inr, ◌==◌, if◌then◌else◌,
}

module _ {A : Type 0} where
  -- `query.filter(test).first()`, and `.count()`.
  unfoldable pub find_where : (A → Bool) → List A → Option A
  find_where p [] = none
  find_where p (x ∷ xs) = if p x then some x else find_where p xs

  unfoldable pub count_where : (A → Bool) → List A → ℕ
  count_where p [] = 0
  count_where p (x ∷ xs) = (if p x then 1 else 0) + count_where p xs

  pub count_where-append :
      (p : A → Bool) (xs ys : List A)
      → count_where p (xs ++ ys) ≡ count_where p xs + count_where p ys
  unfolding count_where
  count_where-append p [] ys = omega arith
  count_where-append p (x ∷ xs) ys = ground (arith, count_where-append p xs ys)

  pub find_where-holds :
      (p : A → Bool) (xs : List A) {x : A} → find_where p xs ≡ some x → p x ≡ true
  unfolding find_where
  find_where-holds p [] h = cc
  find_where-holds p (y ∷ xs) {x} h = ground (arith, find_where-holds p xs {x = x})

  pub find_where-append_none :
      (p : A → Bool) (xs ys : List A)
      → find_where p xs ≡ none
      → find_where p (xs ++ ys) ≡ find_where p ys
  unfolding find_where
  find_where-append_none p [] ys h = refl
  find_where-append_none p (x ∷ xs) ys h = ground (arith, find_where-append_none p xs ys)

  pub find_where-append_some :
      (p : A → Bool) (xs ys : List A) {x : A}
      → find_where p xs ≡ some x
      → find_where p (xs ++ ys) ≡ some x
  unfolding find_where
  find_where-append_some p [] ys h = cc
  find_where-append_some p (y ∷ xs) ys {x} h =
      ground (arith, find_where-append_some p xs ys {x = x})

module _ {A : Type 0} (key : A → ℕ) where
  -- `query.get(pk=i)`.
  unfoldable pub find_row : ℕ → List A → Option A
  find_row i [] = none
  find_row i (x ∷ xs) = if key x == i then some x else find_row i xs

  -- `row.save()` of a row that was read from the table.
  unfoldable pub set_row : A → List A → List A
  set_row v [] = []
  set_row v (x ∷ xs) = if key x == key v then v ∷ xs else x ∷ set_row v xs

  pub key-find_row : (i : ℕ) (xs : List A) {x : A} → find_row i xs ≡ some x → key x ≡ i
  unfolding find_row
  key-find_row i [] h = cc
  key-find_row i (y ∷ xs) {x} h = ground (arith, key-find_row i xs {x = x})

  pub find_row-set_ne :
      (j : ℕ) (v : A) (xs : List A) → key v ≢ j → find_row j (set_row v xs) ≡ find_row j xs
  unfolding find_row set_row
  find_row-set_ne j v [] h = refl
  find_row-set_ne j v (x ∷ xs) h = ground (arith, find_row-set_ne j v xs)

  pub find_row-set_self :
      (i : ℕ) (v : A) (xs : List A) {x : A}
      → find_row i xs ≡ some x
      → key v ≡ i
      → find_row i (set_row v xs) ≡ some v
  unfolding find_row set_row
  find_row-set_self i v [] h e = cc
  find_row-set_self i v (y ∷ xs) {x} h e = ground (arith, find_row-set_self i v xs {x = x})

  -- No row passes a test that `any` refuses.
  pub any-find_row :
      (p : A → Bool) (i : ℕ) (xs : List A) {x : A}
      → any p xs ≡ false
      → find_row i xs ≡ some x
      → p x ≡ false
  unfolding find_row
  any-find_row p i [] h e = cc
  any-find_row p i (y ∷ xs) {x} h e = ground (arith, any-find_row p i xs {x = x})

  -- A row that is saved counts as it does now, instead of as it did.
  pub count_where-set_row :
      (p : A → Bool) (v : A) (xs : List A) {x : A}
      → find_row (key v) xs ≡ some x
      → count_where p (set_row v xs) + (if p x then 1 else 0)
        ≡ count_where p xs + (if p v then 1 else 0)
  unfolding find_row set_row count_where
  count_where-set_row p v [] h = cc
  count_where-set_row p v (y ∷ xs) {x} h = ground (arith, count_where-set_row p v xs {x = x})

  -- No two rows have the same key.
  abbrev pub Distinct : List A → Type 0
  Distinct [] = Unit
  Distinct (x ∷ xs) = (find_row (key x) xs ≡ none) × Distinct xs

  pub find_row-set_none :
      (j : ℕ) (v : A) (xs : List A) → find_row j xs ≡ none → find_row j (set_row v xs) ≡ none
  unfolding find_row set_row
  find_row-set_none j v [] h = refl
  find_row-set_none j v (x ∷ xs) h = ground (arith, find_row-set_none j v xs)

  pub set_row-Distinct : (v : A) (xs : List A) → Distinct xs → Distinct (set_row v xs)
  unfolding set_row
  set_row-Distinct v [] h = tt
  set_row-Distinct v (x ∷ xs) h = elim (Bool-cases (key x == key v)) [
    | inl e ↦
        let same : key x ≡ key v = ground (arith, e) in
        rw e (subst (λ (i : ℕ). find_row i xs ≡ none) same h.0, h.1)
    | inr e ↦ rw e (find_row-set_none (key x) v xs h.0, set_row-Distinct v xs h.1)
  ]

  none_where :
      (p : A → Bool) (i : ℕ) (xs : List A) {x : A}
      → find_row i xs ≡ none
      → find_where p xs ≡ some x
      → key x ≢ i
  unfolding find_row find_where
  none_where p i [] h e = cc
  none_where p i (y ∷ xs) {x} h e = ground (arith, none_where p i xs {x = x})

  -- A row that a test finds is the row with its key.
  pub find_row-find_where :
      (p : A → Bool) (xs : List A) {x : A}
      → Distinct xs
      → find_where p xs ≡ some x
      → find_row (key x) xs ≡ some x
  unfolding find_row find_where
  find_row-find_where p [] d h = cc
  find_row-find_where p (y ∷ xs) {x} d h =
      ground (arith, d, none_where p (key y) xs {x = x}, find_row-find_where p xs {x = x} d.1)
