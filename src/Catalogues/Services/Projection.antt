-- ===== src/Catalogues/Services/Projection.antt =====
-- The values of a record with the entries that are merged into it, and its comparison with another
-- (catalogues/services.py).
use Prim.Native.String.{String}
use text.Mathlib.Text.{◌==◌ as str_eq}
use research_desk.Prelude.{
  ℕ, Bool, false, not, ◌||◌, Option, none, some, List, [], ◌∷◌, ◌++◌, ◌==◌, if◌then◌else◌, Text,
}
use research_desk.Json.{Json, Fields, str, end, field, truthy, get, put, text_of}
use research_desk.Unicode.{Unicode}
use research_desk.Records.Matching.{Comparison, Warning, compare_metadata}
use research_desk.Records.Normalization.{normalize_title}
use research_desk.Catalogues.Model.{Entry, Overrides, Db}
use research_desk.Catalogues.Services.Access.{effective}

-- `merge_target == pk`.
abbrev pub merges_into : ℕ → Option ℕ → Bool
merges_into pk none = false
merges_into pk (some target) = target == pk

abbrev pub is_merged_into : ℕ → Entry → Bool
is_merged_into pk e = merges_into pk e.merge_target

select : {A : Type 0} → (A → Bool) → List A → List A
select p [] = []
select p (x ∷ xs) = if p x then x ∷ select p xs else select p xs

-- `entry.merged_entries.order_by("created_at", "position", "id")`.
unfoldable pub merged_entries : Db → ℕ → List Entry
unfolding select
merged_entries db pk = select (is_merged_into pk) db.entries

unfoldable pub has_override : String → Overrides → Bool
has_override key [] = false
has_override key ((k, detail) ∷ rest) = str_eq k key || has_override key rest

-- Whether a source gives the field: it has a value, or a correction.
unfoldable pub gives : String → Entry → Bool
gives key source = truthy (get key (effective source)) || has_override key source.overrides

-- The first of the sources that gives the field, with its value.
unfoldable pub first_giving : String → List Entry → Option (ℕ × Json)
first_giving key [] = none
first_giving key (source ∷ sources) =
    if gives key source
    then some (source.id, get key (effective source))
    else first_giving key sources

projected_fields : List String
projected_fields = "title" ∷ "doi" ∷ "year" ∷ "type" ∷ "authors" ∷ "journal" ∷ []

add_field : String → Option (ℕ × Json) → Fields → Fields
add_field key none fields = fields
add_field key (some (_, value)) fields = field key value fields

project : List String → List Entry → Fields
unfolding add_field
project [] sources = end
project (key ∷ keys) sources = add_field key (first_giving key sources) (project keys sources)

-- The sources of a record: itself, then what is merged into it.
unfoldable pub sources : Db → Entry → List Entry
sources db entry = entry ∷ merged_entries db entry.id

-- `projection(entry)`, the selected values.
unfoldable pub projection : Db → Entry → Fields
unfolding projected_fields project sources
projection db entry = project projected_fields (sources db entry)

module _ (u : Unicode) (ratio : Text → Text → ℕ) where
  member_warnings : Fields → List Entry → List Warning
  member_warnings incoming [] = []
  member_warnings incoming (m ∷ members) =
      (compare_metadata u ratio incoming (effective m)).warnings ++ member_warnings incoming members

  -- `group_comparison(entry, target)`: the comparison with the projected record.
  unfoldable pub root_comparison : Db → Entry → Entry → Comparison
  root_comparison db entry target =
      let selected = projection db target in
      compare_metadata u ratio (effective entry)
        (put "title_key" (str (normalize_title u (text_of (get "title" selected)))) selected)

  -- Its "warnings", with those of each source of the target but the entry itself. The source sorts
  -- them and drops repetitions; what is used of them is whether there are any.
  unfoldable pub group_warnings : Db → Entry → Entry → List Warning
  unfolding member_warnings root_comparison select
  group_warnings db entry target =
      (root_comparison db entry target).warnings
      ++ member_warnings (effective entry)
          (target ∷ select (λ m. not (m.id == entry.id)) (merged_entries db target.id))
