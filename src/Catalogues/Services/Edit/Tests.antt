-- ===== src/Catalogues/Services/Edit/Tests.antt =====
-- A correction of a year.
use mathlib.Core.Option
use research_desk.Prelude.{
  ℕ, ◌≡◌, refl, true, false, none, some, [], ◌∷◌, codes, strip, split, join_spaces, is_space, ◌⊎◌,
}
use research_desk.Json.{
  Json, str, int, pos, obj, field, end, truthy, get, has, put, update, items, to_items, fields_of,
}
use research_desk.Unicode.{ascii}
use research_desk.Table.{find_row, set_row}
use research_desk.Records.Normalization.{
  normalize_record, normalize_title, normalize_doi, each, check_dates, dates_of, year_is_valid,
  normalized_fields, year_from, count_digits,
}
use research_desk.Catalogues.Model.{pending, incoming, corrected, of_entry, User, Entry, Db, ok}
use research_desk.Catalogues.Services.Access.{
  Payload, get_entry, get_catalogue, check_revision, deduplicate, bump, effective, override_values,
  snapshot, find_entry,
}
use research_desk.Catalogues.Services.Decide.{unless_prior}
use research_desk.Catalogues.Services.Edit.{
  edit_fields, edit_new, is_correction, with_journal, put_override, correct_fields, correct_title,
  new_overrides, bad_doi, write_correction, correction,
}
use research_desk.Catalogues.Services.Edit.Corrections.{effective-edit_fields}
use research_desk.Catalogues.Services.Decide.Audit.{Repeated}
use research_desk.Catalogues.Services.Edit.Audit.{Amended, edit_fields-Amended}

abbrev hash : Payload → ℕ
hash p = 7

abbrev ada : User
ada = record { pk = 1; is_authenticated = true }

abbrev entry : Entry
entry = record {
  id = 100;
  catalogue = 10;
  selection = 20;
  position = 0;
  origin = incoming;
  provider = codes "csv";
  external_id = codes "a";
  local_id = [];
  raw = end;
  normalized = field "title" (str (codes "One")) end;
  status = pending;
  merge_target = none;
  overrides = [];
}

abbrev db : Db
db = record {
  catalogues = record { id = 10; owner = 1; name = codes "mine"; revision = 3 } ∷ [];
  selections = [];
  entries = entry ∷ [];
  events = [];
  next_id = 200;
}

abbrev values : Json
values = obj (field "year" (int (pos 2021)) end)

abbrev edited : Entry
edited = record entry {
  overrides = ("year", correction ada (codes "typo") 50 (int (pos 2021))) ∷ [];
}

abbrev edited_db : Db
edited_db = record {
  catalogues = record { id = 10; owner = 1; name = codes "mine"; revision = 4 } ∷ [];
  selections = [];
  entries = edited ∷ [];
  events =
      record {
        id = 200;
        catalogue = 10;
        entry = some 100;
        actor = 1;
        action = corrected;
        reason = codes "typo";
        before = some (snapshot entry);
        after = some (of_entry (snapshot edited));
        idempotency_key = [];
        request_hash = none;
      }
      ∷ [];
  next_id = 201;
}

edit-run : edit_fields ascii hash ada 100 values (codes "typo") 3 50 [] db ≡ ok (edited, edited_db)
unfolding edit_fields edit_new is_correction with_journal put_override correct_fields correct_title
    new_overrides bad_doi write_correction unless_prior get_entry get_catalogue check_revision
    deduplicate bump effective override_values find_row set_row normalize_record truthy get has put
    update items each check_dates dates_of year_is_valid normalized_fields normalize_doi
    normalize_title to_items year_from Option.bind join_spaces is_space split count_digits strip
edit-run = refl

edit_fields-Amended_example :
    Repeated 100 [] 7 db edited edited_db
    ⊎ Amended ascii ada 100 values (codes "typo") 3 50 [] db edited edited_db
edit_fields-Amended_example =
    edit_fields-Amended ascii hash ada 100 values (codes "typo") 3 50 [] db edit-run

find_one : find_entry db 100 ≡ some entry
unfolding find_row
find_one = refl

not_named : has "title" (fields_of values) ≡ false
unfolding has
not_named = refl

effective-edit_fields_example : get "title" (effective edited) ≡ get "title" (effective entry)
effective-edit_fields_example =
    effective-edit_fields ascii hash ada 100 values (codes "typo") 3 50 [] db entry "title" find_one
      not_named refl edit-run
