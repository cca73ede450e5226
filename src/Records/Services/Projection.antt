-- ===== src/Records/Services/Projection.antt =====
-- The fields that a publication shows: `_project` of records/services.py.
use Prim.Native.String.{String}
use text.Mathlib.Text.{◌==◌ as str_eq}
use research_desk.Prelude.{
  ℕ, ◌+◌, Bool, true, false, Option, none, some, List, [], ◌∷◌, ltb, ◌==◌, Text, codes,
  if◌then◌else◌, eq_text,
}
use research_desk.Json.{get, truthy}
use research_desk.Table.{set_row}
use research_desk.Records.Models.{
  Db, SourceRecord, Projected, CanonicalPublication, publication_id, find_publication,
}
use research_desk.Records.Services.{records_of, normalized_of}

-- `s < t` on texts, by code points.
unfoldable pub text_before : Text → Text → Bool
text_before s [] = false
text_before [] (b ∷ t) = true
text_before (a ∷ s) (b ∷ t) = let rest = text_before s t in if a == b then rest else ltb a b

-- `{"crossref": 0, "openalex": 1}.get(provider, 2)`.
abbrev pub rank : String → ℕ
rank provider =
    if str_eq provider "crossref" then 0 else (if str_eq provider "openalex" then 1 else 2)

-- `<` on the keys of the sort.
unfoldable pub comes_before : SourceRecord → SourceRecord → Bool
unfolding text_before
comes_before r s =
    if rank r.provider == rank s.provider
    then (if eq_text (codes r.provider) (codes s.provider)
        then text_before r.external_id s.external_id
        else text_before (codes r.provider) (codes s.provider))
    else ltb (rank r.provider) (rank s.provider)

unfoldable pub insert_record : SourceRecord → List SourceRecord → List SourceRecord
unfolding comes_before
insert_record r [] = r ∷ []
insert_record r (s ∷ rs) =
    let rest = insert_record r rs in if comes_before s r then s ∷ rest else r ∷ s ∷ rs

unfoldable pub sort_records : List SourceRecord → List SourceRecord
unfolding insert_record
sort_records [] = []
sort_records (r ∷ rs) = insert_record r (sort_records rs)

-- The first record with a value for the field.
unfoldable pub first_value : Db → String → List SourceRecord → Option Projected
unfolding normalized_of
first_value db key [] = none
first_value db key (r ∷ rs) =
    let rest = first_value db key rs in
    let value = get key (normalized_of db r) in
    if truthy value
    then some (record { key = key; value = value; version_id = r.current_version })
    else rest

abbrev pub prepend : {A : Type 0} → Option A → List A → List A
prepend none xs = xs
prepend (some x) xs = x ∷ xs

unfoldable pub project_fields : Db → List SourceRecord → List String → List Projected
unfolding first_value
project_fields db rs [] = []
project_fields db rs (key ∷ keys) = prepend (first_value db key rs) (project_fields db rs keys)

abbrev pub projected_keys : List String
projected_keys = "doi" ∷ "title" ∷ "authors" ∷ "year" ∷ "dates" ∷ "type" ∷ "abstract" ∷ []

unfoldable pub save_projection : List Projected → Option CanonicalPublication → Db → Db
save_projection projection none db = db
save_projection projection (some p) db = record db {
  publications =
      set_row publication_id (record p { projection = projection; revision = p.revision + 1 })
        db.publications;
}

-- `_project(publication)`. The publication that a record names is there.
unfoldable pub project : ℕ → Db → Db
unfolding project_fields sort_records records_of save_projection
project pk db =
    save_projection
      (project_fields db (sort_records (records_of (pk ∷ []) db.records)) projected_keys)
      (find_publication db pk) db
