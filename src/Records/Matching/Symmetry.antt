-- ===== src/Records/Matching/Symmetry.antt =====
-- The comparison does not depend on which of the two records is on the left, and a record does not
-- conflict with itself.
use research_desk.Prelude.{
  ℕ, ◌≡◌, refl, true, false, Option, some, List, [], ◌∷◌, arith, ap, Text, all, eq_text,
  eq_text_iff, ==_iff,
}
use research_desk.Json.{
  ℤ, pos, negsuc, Json, Fields, null, bool, int, str, arr, obj, get, eq_json, eq_ℤ, int_of_bool,
  text_of, list_of,
}
use research_desk.Unicode.{Unicode, runs, elem}
use research_desk.Records.Matching.{
  Signal, signal, is_different, differ, differ_on, negations, names, digits, title_similarity,
  author_similarity, warnings_for, compare_metadata, one, below_conflict,
}

-- A value that is no list and no object.
abbrev pub IsScalar : Json → Type 0
IsScalar (arr _) = ⊥
IsScalar (obj _) = ⊥
IsScalar _ = Unit

-- The values that the comparison tests for equality are scalars.
pub record IsComparable (m : Fields) : Type 0 where
  pub doi : IsScalar (get "doi" m)
  pub kind : IsScalar (get "type" m)
  pub year : IsScalar (get "year" m)

eq_text-sym : (s t : Text) → eq_text s t ≡ eq_text t s
eq_text-sym s t = ground (arith, eq_text_iff s t, eq_text_iff t s)

eq_ℤ-sym : (a b : ℤ) → eq_ℤ a b ≡ eq_ℤ b a
eq_ℤ-sym a b = ground arith

eq_json-sym : (a b : Json) → IsScalar a → eq_json a b ≡ eq_json b a
unfolding eq_json
eq_json-sym null null h = refl
eq_json-sym null _ h = refl
eq_json-sym (bool a) (bool b) h = eq_ℤ-sym (int_of_bool a) (int_of_bool b)
eq_json-sym (bool a) (int b) h = eq_ℤ-sym (int_of_bool a) b
eq_json-sym (bool a) _ h = refl
eq_json-sym (int a) (bool b) h = eq_ℤ-sym a (int_of_bool b)
eq_json-sym (int a) (int b) h = eq_ℤ-sym a b
eq_json-sym (int a) _ h = refl
eq_json-sym (str a) (str b) h = eq_text-sym a b
eq_json-sym (str a) _ h = refl
eq_json-sym (arr a) b h = absurd h
eq_json-sym (obj a) b h = absurd h

signal-sym : (a b : Json) → IsScalar a → signal a b ≡ signal b a
unfolding signal
signal-sym a b h = ground (arith, eq_json-sym a b h)

differ-sym : (a b : List Text) → differ a b ≡ differ b a
unfolding differ
differ-sym a b = ground arith

differ_on-sym : (ws a b : List Text) → differ_on ws a b ≡ differ_on ws b a
unfolding differ_on
differ_on-sym [] a b = refl
differ_on-sym (w ∷ ws) a b = ground (arith, differ_on-sym ws a b)

module _ (u : Unicode) (ratio : Text → Text → ℕ)
    (ratio_comm : (s t : Text) → ratio s t ≡ ratio t s) where
  title_similarity-sym : (s t : Text) → title_similarity u ratio s t ≡ title_similarity u ratio t s
  unfolding title_similarity
  title_similarity-sym [] [] = refl
  title_similarity-sym [] (d ∷ t) = refl
  title_similarity-sym (c ∷ s) [] = refl
  title_similarity-sym (c ∷ s) (d ∷ t) = ap some (ratio_comm (c ∷ s) (d ∷ t))

  author_similarity-sym :
      (a b : List Json) → author_similarity u ratio a b ≡ author_similarity u ratio b a
  unfolding author_similarity
  author_similarity-sym [] [] = refl
  author_similarity-sym [] (d ∷ t) = refl
  author_similarity-sym (c ∷ s) [] = refl
  author_similarity-sym (c ∷ s) (d ∷ t) =
      ap some (ratio_comm (names u ratio (c ∷ s)) (names u ratio (d ∷ t)))

  warnings_for-sym :
      (doi kind year : Signal) (title : Option ℕ) (lt rt : Text)
      → warnings_for u ratio doi kind year title lt rt
        ≡ warnings_for u ratio doi kind year title rt lt
  unfolding warnings_for
  warnings_for-sym doi kind year title lt rt = rw (
    differ_on-sym negations (runs u.is_word lt) (runs u.is_word rt),
    differ-sym (digits u ratio lt) (digits u ratio rt),
  )

  -- With a similarity that is symmetric, the comparison of two normalized records is the same
  -- whichever of them is on the left: signals, warnings, score and recommendation.
  pub compare_metadata-sym :
      (left right : Fields)
      → IsComparable left
      → compare_metadata u ratio left right ≡ compare_metadata u ratio right left
  unfolding compare_metadata
  compare_metadata-sym l r h = rw (
    signal-sym (get "doi" l) (get "doi" r) h.doi,
    signal-sym (get "type" l) (get "type" r) h.kind,
    signal-sym (get "year" l) (get "year" r) h.year,
    title_similarity-sym (text_of (get "title_key" l)) (text_of (get "title_key" r)),
    author_similarity-sym (list_of (get "authors" l)) (list_of (get "authors" r)),
    warnings_for-sym _ _ _ _ (text_of (get "title_key" l)) (text_of (get "title_key" r)),
  )

eq_json_refl : (a : Json) → IsScalar a → eq_json a a ≡ true
unfolding eq_json
eq_json_refl null h = refl
eq_json_refl (bool true) h = refl
eq_json_refl (bool false) h = refl
eq_json_refl (int (pos n)) h = (==_iff n n).1 refl
eq_json_refl (int (negsuc n)) h = (==_iff n n).1 refl
eq_json_refl (str t) h = (eq_text_iff t t).1 refl
eq_json_refl (arr xs) h = absurd h
eq_json_refl (obj fs) h = absurd h

signal_self : (a : Json) → IsScalar a → is_different (signal a a) ≡ false
unfolding signal
signal_self a h = ground (arith, eq_json_refl a h)

elem-cons : (t s : Text) (ss : List Text) → elem t ss ≡ true → elem t (s ∷ ss) ≡ true
unfolding elem
elem-cons t s ss h = ground arith

elem_head : (t : Text) (ss : List Text) → elem t (t ∷ ss) ≡ true
unfolding elem
elem_head t ss = ground (arith, eq_text_iff t t)

all-elem :
    (xs ys : List Text)
    → ((t : Text) → elem t xs ≡ true → elem t ys ≡ true)
    → all (λ t. elem t ys) xs ≡ true
all-elem [] ys h = refl
all-elem (x ∷ xs) ys h =
    rw (h x (elem_head x xs)) (all-elem xs ys (λ t m. h t (elem-cons t x xs m)))

differ_self : (a : List Text) → differ a a ≡ false
unfolding differ
differ_self a = rw (all-elem a a (λ t m. m))

differ_on_self : (ws a : List Text) → differ_on ws a a ≡ false
unfolding differ_on
differ_on_self [] a = refl
differ_on_self (w ∷ ws) a = ground (arith, differ_on_self ws a)

module _ (u : Unicode) (ratio : Text → Text → ℕ) (ratio_full : (s : Text) → ratio s s ≡ one) where
  title_similarity_self : (t : Text) → below_conflict (title_similarity u ratio t t) ≡ false
  unfolding title_similarity below_conflict
  title_similarity_self [] = refl
  title_similarity_self (c ∷ t) = rw (ratio_full (c ∷ t))

  -- With a similarity that is 1.0 on equal texts, a record that is compared with itself has no
  -- warning at all.
  pub warnings-compare_metadata_self :
      (m : Fields) → IsComparable m → (compare_metadata u ratio m m).warnings ≡ []
  unfolding compare_metadata warnings_for
  warnings-compare_metadata_self m h = ground (
    arith,
    signal_self (get "doi" m) h.doi,
    signal_self (get "type" m) h.kind,
    signal_self (get "year" m) h.year,
    title_similarity_self (text_of (get "title_key" m)),
    differ_self (digits u ratio (text_of (get "title_key" m))),
    differ_on_self negations (runs u.is_word (text_of (get "title_key" m))),
  )
