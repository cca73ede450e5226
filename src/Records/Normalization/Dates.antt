-- ===== src/Records/Normalization/Dates.antt =====
-- The publication dates of a record, and the year that they give (records/normalization.py).
pub mod Year
use mathlib.Core.Option
use Prim.Native.String.{String}
use text.Mathlib.Text.{◌==◌ as str_eq}
use research_desk.Prelude.{
  ℕ, zero, suc, ◌+◌, ◌*◌, Bool, true, false, ◌&&◌, List, [], ◌∷◌, all, take, length, leb, ◌==◌,
  if◌then◌else◌, Text,
}
use research_desk.Json.{
  pos, Json, Fields, null, int, obj, end, field, truthy, get, is_str, is_obj, is_arr, is_int,
  in_range, text_of, list_of, fields_of,
}
use research_desk.Unicode.{Unicode, is_some}
use research_desk.Records.Normalization.Checked.{
  publication_date_invalid, date_parts_missing, date_parts_invalid, Checked, ok, require, ◌>>◌,
}

date_keys : List String
date_keys = "published-online" ∷ "published-print" ∷ "published" ∷ "publication_date" ∷ []

-- `{key: raw[key] for key in keys if raw.get(key)}`.
pick : List String → Fields → Fields
pick [] raw = end
pick (k ∷ ks) raw = if truthy (get k raw) then field k (get k raw) (pick ks raw) else pick ks raw

unfoldable pub dates_of : Fields → Fields
unfolding date_keys pick
dates_of raw = pick date_keys raw

-- `lo <= value <= hi` of an `int`.
unfoldable pub int_in : ℕ → ℕ → Json → Bool
int_in lo hi (int z) = in_range lo hi z
int_in lo hi _ = false

-- `values[0]`, where the code knows that the list is not empty.
first : List Json → Json
first [] = null
first (x ∷ xs) = x

-- The year, and the month and the day where they are given.
parts_in_range : List Json → Bool
unfolding int_in
parts_in_range [] = false
parts_in_range (y ∷ []) = int_in 1 9999 y
parts_in_range (y ∷ m ∷ []) = int_in 1 9999 y && int_in 1 12 m
parts_in_range (y ∷ m ∷ d ∷ rest) = int_in 1 9999 y && int_in 1 12 m && int_in 1 31 d

-- "date-parts": a list that begins with a list of one to three numbers, in their ranges.
check_parts : String → Json → Checked (Unit {0})
unfolding parts_in_range first
check_parts key parts =
    let numbers = first (list_of parts) in
    require
      (is_arr parts
        && truthy parts
        && is_arr numbers
        && leb 1 (length (list_of numbers))
        && leb (length (list_of numbers)) 3
        && all is_int (list_of numbers))
      (date_parts_missing key)
    >> require (parts_in_range (list_of numbers)) (date_parts_invalid key)

module _ (u : Unicode) where
  pub digits_then : ℕ → (Text → Bool) → Text → Bool
  digits_then zero next t = next t
  digits_then (suc n) next [] = false
  digits_then (suc n) next (c ∷ t) = is_some (u.decimal c) && digits_then n next t

  -- `(?:-\d{2}){0,n}` and the end.
  pub date_parts : ℕ → Text → Bool
  unfolding digits_then
  date_parts n [] = true
  date_parts zero (c ∷ t) = false
  date_parts (suc n) (c ∷ []) = false
  date_parts (suc n) (c ∷ d ∷ []) = false
  date_parts (suc n) (c ∷ d ∷ e ∷ t) =
      c == 45 && is_some (u.decimal d) && is_some (u.decimal e) && date_parts n t

  -- `re.fullmatch(r"\d{4}(?:-\d{2}){0,2}", value)`.
  pub is_iso_date : Text → Bool
  unfolding date_parts
  is_iso_date t = digits_then 4 (date_parts 2) t

  -- The check of one date, by its key.
  check_date : String → Json → Checked (Unit {0})
  unfolding is_iso_date check_parts
  check_date key value =
      if str_eq key "publication_date"
      then require (is_str value && is_iso_date (text_of value)) publication_date_invalid
      else check_parts key (if is_obj value then get "date-parts" (fields_of value) else null)

  unfoldable pub check_dates : Fields → Checked (Unit {0})
  unfolding check_date
  check_dates end = ok tt
  check_dates (field key value dates) = check_date key value >> check_dates dates

  -- `int(text)` of decimal digits, from the value of those before.
  int_from : ℕ → Text → ℕ
  int_from n [] = n
  int_from n (c ∷ t) = int_from (10 * n + Option.get_or (u.decimal c) 0) t

  -- The year of one date: `value["date-parts"][0][0]` of an object, `int(value[:4])` of a text.
  unfoldable pub year_of_date : Json → Json
  unfolding int_from first
  year_of_date (obj fs) = first (list_of (first (list_of (get "date-parts" fs))))
  year_of_date value = int (pos (int_from 0 (take 4 (text_of value))))

  -- `raw.get("year") or raw.get("publication_year")`, and the year of the first date where that is
  -- not there.
  unfoldable pub year_from : Json → Fields → Json
  unfolding year_of_date
  year_from year end = year
  year_from year (field key value dates) = if truthy year then year else year_of_date value

  unfoldable pub year_is_valid : Json → Bool
  unfolding int_in
  year_is_valid null = true
  year_is_valid year = is_int year && int_in 1 9999 year
