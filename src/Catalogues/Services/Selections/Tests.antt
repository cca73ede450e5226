-- ===== src/Catalogues/Services/Selections/Tests.antt =====
-- A selection of three rows, one of which is there twice.
use mathlib.Core.Option
use research_desk.Prelude.{
  ℕ, ◌≡◌, refl, ◌≤◌, true, false, none, some, [], ◌∷◌, Text, codes, arith, strip, split,
  join_spaces, is_space, ◌⊎◌,
}
use research_desk.Json.{
  Fields, str, obj, field, end, truthy, get, eq_json, eq_fields, to_items, items, has,
}
use research_desk.Unicode.{ascii}
use research_desk.Table.{find_row, set_row, find_where, count_where}
use research_desk.Records.Normalization.{
  normalize_record, normalize_title, normalize_doi, each, check_dates, dates_of, year_is_valid,
  normalized_fields, year_from, count_digits,
}
use research_desk.Catalogues.Model.{
  pending, incoming, User, Catalogue, Row, Selection, Entry, Db, ok,
}
use research_desk.Catalogues.Services.Access.{get_catalogue, check_revision, bump}
use research_desk.Catalogues.Services.Selections.{
  confirm_selection, confirm_new, unless_consumed, import_rows, import_row, import_found,
  validate_row, is_valid_row, existing_entry, insert_entry, new_entry, has_changed, close_selection,
  import_event, owned_selection, find_selection,
}
use research_desk.Catalogues.Services.Selections.Import.{IsDeduplicated}
use research_desk.Catalogues.Services.Selections.Confirm.{
  Confirmed, Chosen, size, confirm_selection-Confirmed, confirm_selection-IsLimited,
  confirm_selection-IsDeduplicated,
}
use research_desk.Catalogues.Services.Selections.Again.{confirm_selection_again}

abbrev ada : User
ada = record { pk = 1; is_authenticated = true }

abbrev titled : Text → Fields
titled t = field "title" (str t) end

abbrev row_of : Text → Text → Row
row_of external_id title = record {
  provider = str (codes "csv");
  external_id = str external_id;
  local_id = str [];
  raw = obj end;
  normalized = obj (titled title);
}

abbrev selection : Selection
selection = record {
  id = 20;
  catalogue = 10;
  kind = incoming;
  errors = [];
  provenance = end;
  consumed = false;
  summary = none;
  rows =
      row_of (codes "a") (codes "One")
      ∷ row_of (codes "b") (codes "Two")
      ∷ row_of (codes "a") (codes "Uno")
      ∷ [];
}

-- An entry of another catalogue with the same identifier.
abbrev elsewhere : Entry
elsewhere = record {
  id = 90;
  catalogue = 11;
  selection = 19;
  position = 0;
  origin = incoming;
  provider = codes "csv";
  external_id = codes "a";
  local_id = [];
  raw = end;
  normalized = titled (codes "One");
  status = pending;
  merge_target = none;
  overrides = [];
}

abbrev db : Db
db = record {
  catalogues = record { id = 10; owner = 1; name = codes "mine"; revision = 3 } ∷ [];
  selections = selection ∷ [];
  entries = elsewhere ∷ [];
  events = [];
  next_id = 200;
}

abbrev entry_of : ℕ → ℕ → Text → Text → Entry
entry_of pk position external_id title = record {
  id = pk;
  catalogue = 10;
  selection = 20;
  position = position;
  origin = incoming;
  provider = codes "csv";
  external_id = external_id;
  local_id = [];
  raw = end;
  normalized = titled title;
  status = pending;
  merge_target = none;
  overrides = [];
}

abbrev closed : Selection
closed = record selection {
  consumed = true;
  summary = some (record { created = 2; skipped = 1; changed_existing = 1 });
}

abbrev confirmed_db : Db
confirmed_db = record {
  catalogues = record { id = 10; owner = 1; name = codes "mine"; revision = 4 } ∷ [];
  selections = closed ∷ [];
  entries =
      elsewhere
      ∷ entry_of 200 0 (codes "a") (codes "One")
      ∷ entry_of 201 1 (codes "b") (codes "Two")
      ∷ [];
  events =
      import_event ada (record { id = 10; owner = 1; name = codes "mine"; revision = 3 }) selection
        (record { created = 2; skipped = 1; changed_existing = 1 }) 202
      ∷ [];
  next_id = 203;
}

confirm-run : confirm_selection ascii ada 20 3 db ≡ ok (closed, confirmed_db)
unfolding confirm_selection confirm_new unless_consumed import_rows import_row import_found
    validate_row is_valid_row existing_entry insert_entry new_entry has_changed close_selection
    get_catalogue check_revision bump find_row set_row find_where count_where normalize_record
    truthy get eq_json eq_fields each items check_dates dates_of year_is_valid normalized_fields
    normalize_doi normalize_title to_items year_from Option.bind join_spaces is_space split
    count_digits strip has
confirm-run = refl

owned-found : owned_selection ada db (find_selection db 20) ≡ some selection
unfolding find_row owned_selection
owned-found = refl

empty-IsLimited : size 10 db ≤ 1000
unfolding count_where
empty-IsLimited = omega arith

confirm_selection-Confirmed_example :
    (s : Selection) × (c : Catalogue) × Chosen ada 20 db s c
    × (((s.consumed ≡ true) × (closed ≡ s) × (confirmed_db ≡ db))
        ⊎ Confirmed 3 c s db closed confirmed_db)
confirm_selection-Confirmed_example = confirm_selection-Confirmed ascii ada 20 3 db confirm-run

confirm_selection-IsLimited_example : size 10 confirmed_db ≤ 1000
confirm_selection-IsLimited_example =
    confirm_selection-IsLimited ascii ada 20 3 db selection owned-found empty-IsLimited confirm-run

others-IsDeduplicated : IsDeduplicated 10 db.entries
others-IsDeduplicated = (tt, tt)

confirm_selection-IsDeduplicated_example : IsDeduplicated 10 confirmed_db.entries
confirm_selection-IsDeduplicated_example =
    confirm_selection-IsDeduplicated ascii ada 20 3 db selection owned-found refl
      others-IsDeduplicated confirm-run

confirm_selection_again_example :
    confirm_selection ascii ada 20 9 confirmed_db ≡ ok (closed, confirmed_db)
confirm_selection_again_example = confirm_selection_again ascii ada 20 3 9 db confirm-run
