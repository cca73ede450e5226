-- ===== src/Records/Normalization/Dates/Year.antt =====
-- The year that the dates of an accepted record give has four digits.
use mathlib.Core.Option
use Prim.Native.String.{String}
use research_desk.Prelude.{
  ℕ, ◌≤◌, ◌≡◌, inl, inr, true, List, [], ◌∷◌, arith, Text, Bool-cases, take,
}
use research_desk.Json.{
  pos, negsuc, Json, Fields, null, bool, int, str, arr, obj, end, field, truthy, get, list_of,
}
use research_desk.Unicode.{Unicode}
use research_desk.Records.Normalization.Checked.{>>=-eq-ok, ok}
use research_desk.Records.Normalization.Dates.{
  check_dates, check_date, check_parts, parts_in_range, year_from, year_of_date, year_is_valid,
  int_in, int_from, first,
}

-- A year that was found is a number of at most four digits.
abbrev pub IsYear : Json → Type 0
IsYear null = Unit
IsYear (int (pos n)) = n ≤ 9999
IsYear _ = ⊥

module _ (u : Unicode) where
  IsYear-is_valid→IsYear : (y : Json) → year_is_valid u y ≡ true → IsYear y
  unfolding year_is_valid int_in
  IsYear-is_valid→IsYear null h = tt
  IsYear-is_valid→IsYear (bool b) h = cc
  IsYear-is_valid→IsYear (int (pos n)) h = ground arith
  IsYear-is_valid→IsYear (int (negsuc n)) h = cc
  IsYear-is_valid→IsYear (str t) h = cc
  IsYear-is_valid→IsYear (arr xs) h = cc
  IsYear-is_valid→IsYear (obj fs) h = cc

  int_in→IsYear : (y : Json) → int_in 1 9999 y ≡ true → IsYear y
  unfolding int_in
  int_in→IsYear (int (pos n)) h = ground arith
  int_in→IsYear (int (negsuc n)) h = cc
  int_in→IsYear null h = tt
  int_in→IsYear _ h = cc

  parts_in_range→IsYear : (ns : List Json) → parts_in_range ns ≡ true → IsYear (first ns)
  unfolding parts_in_range first
  parts_in_range→IsYear [] h = tt
  parts_in_range→IsYear (y ∷ []) h = int_in→IsYear y h
  parts_in_range→IsYear (y ∷ m ∷ []) h = int_in→IsYear y (ground arith)
  parts_in_range→IsYear (y ∷ m ∷ d ∷ rest) h = int_in→IsYear y (ground arith)

  -- A decimal digit is worth at most nine.
  abbrev pub HasDecimals : Type 0
  HasDecimals = (c : ℕ) → Option.get_or (u.decimal c) 0 ≤ 9

module _ (u : Unicode) (dec : HasDecimals u) where
  take_year : (t : Text) → int_from u 0 (take 4 t) ≤ 9999
  unfolding int_from
  take_year [] = omega arith
  take_year (a ∷ []) = omega (arith, dec a)
  take_year (a ∷ b ∷ []) = omega (arith, dec a, dec b)
  take_year (a ∷ b ∷ c ∷ []) = omega (arith, dec a, dec b, dec c)
  take_year (a ∷ b ∷ c ∷ d ∷ t) = omega (arith, dec a, dec b, dec c, dec d)

  check_parts→IsYear :
      (key : String) (parts : Json) {w : Unit {0}}
      → check_parts key parts ≡ ok w
      → IsYear (first (list_of (first (list_of parts))))
  unfolding check_parts
  check_parts→IsYear key parts h =
      parts_in_range→IsYear u (list_of (first (list_of parts))) (ground arith)

  check_date→IsYear :
      (key : String) (value : Json) {w : Unit {0}}
      → check_date u key value ≡ ok w
      → IsYear (year_of_date u value)
  unfolding check_date year_of_date
  check_date→IsYear key (obj fs) h =
      ground (arith, check_parts→IsYear key (get "date-parts" fs) {w = tt})
  check_date→IsYear key (str t) h = take_year t
  check_date→IsYear key null h = omega arith
  check_date→IsYear key _ h = omega arith

  pub year_from-IsYear :
      (year : Json) (dates : Fields) {w : Unit {0}}
      → year_is_valid u year ≡ true
      → check_dates u dates ≡ ok w
      → IsYear (year_from u year dates)
  unfolding year_from check_dates
  year_from-IsYear year end v h = IsYear-is_valid→IsYear u year v
  year_from-IsYear year (field key value dates) v h = elim (Bool-cases (truthy year)) [
    | inl t ↦ rw t (IsYear-is_valid→IsYear u year v)
    | inr f ↦ rw f (
        check_date→IsYear key value
          (>>=-eq-ok (check_date u key value) (λ _. check_dates u dates) h).1)
  ]
