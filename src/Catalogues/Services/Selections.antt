-- ===== src/Catalogues/Services/Selections.antt =====
-- Catalogues and the selections of rows that become entries (catalogues/services.py).
use Prim.Native.String.{String}
pub mod Import
pub mod Confirm
pub mod Again
mod Tests
use research_desk.Prelude.{
  ℕ, zero, suc, ◌+◌, Bool, true, false, not, ◌&&◌, ◌||◌, Option, none, some, List, [], ◌∷◌, ◌++◌,
  length, ltb, leb, ◌==◌, if◌then◌else◌, Text, codes, eq_text, strip,
}
use research_desk.Json.{
  Json, is_null, end, Fields, null, obj, truthy, get, fields_of, is_obj, eq_fields,
}
use research_desk.Unicode.{Unicode, str_of}
use research_desk.Table.{find_where, count_where, find_row, set_row}
use research_desk.Records.Normalization.{normalize_record, is_accepted}
use research_desk.Catalogues.Model.{
  Status, pending, kept, Kind, baseline, incoming, is_baseline, User, Catalogue, Row, Summary,
  Selection, Entry, imported, AuditEvent, Db, Error, not_found, invalid_name, selection_limit,
  catalogue_limit, invalid_row, null_identifier, of_import, Result, ok, err, Transaction, pure,
  raise, gets, modify, raise_if, or_raise, ◌>>=◌, ◌>>◌,
}
use research_desk.Catalogues.Services.Access.{
  catalogue_id, find_catalogue, get_catalogue, check_revision, bump,
}

abbrev pub max_entries : ℕ
max_entries = 1000

abbrev pub max_selection : ℕ
max_selection = 100

abbrev pub max_baseline : ℕ
max_baseline = 500

abbrev pub selection_id : Selection → ℕ
selection_id s = s.id

-- A new catalogue of the user.
unfoldable pub insert_catalogue : User → Text → Transaction Catalogue
insert_catalogue user name db =
    let c : Catalogue = record { id = db.next_id; owner = user.pk; name = name; revision = 1 } in
    ok (c, record db { catalogues = db.catalogues ++ c ∷ []; next_id = db.next_id + 1 })

abbrev pub is_blank : Text → Bool
is_blank [] = true
is_blank (_ ∷ _) = false

-- `create_catalogue(owner, name)`.
unfoldable pub create_catalogue : User → Text → Transaction Catalogue
unfolding insert_catalogue
create_catalogue user name = do
  raise_if (not user.is_authenticated) not_found
  let stripped = strip name
  raise_if (is_blank stripped || ltb 200 (length stripped)) invalid_name
  insert_catalogue user stripped

-- The tests of `_validate_row(row)`, in their order.
unfoldable pub is_valid_row : Unicode → Row → Bool
is_valid_row u row =
    is_obj row.raw
    && is_obj row.normalized
    && leb (length (str_of u row.provider)) 32
    && leb (length (str_of u row.external_id)) 512
    && leb (length (str_of u row.local_id)) 512
    && is_accepted (normalize_record u "upload" row.normalized)
    && (truthy (get "title" (fields_of row.normalized))
        || truthy (get "doi" (fields_of row.normalized)))

unfoldable pub validate_row : Unicode → Row → Transaction (Unit {0})
unfolding is_valid_row
validate_row u row = raise_if (not (is_valid_row u row)) invalid_row

unfoldable pub validate_rows : Unicode → List Row → Transaction (Unit {0})
unfolding validate_row
validate_rows u [] = pure tt
validate_rows u (row ∷ rows) = validate_row u row >> validate_rows u rows

abbrev pub row_limit : Kind → ℕ
row_limit baseline = max_baseline
row_limit incoming = max_selection

unfoldable pub insert_selection :
    Catalogue → Kind → List Row → List Json → Fields → Transaction Selection
insert_selection c kind rows errors provenance db =
    let s : Selection = record {
      id = db.next_id;
      catalogue = c.id;
      kind = kind;
      rows = rows;
      errors = errors;
      provenance = provenance;
      consumed = false;
      summary = none;
    } in
    ok (s, record db { selections = db.selections ++ s ∷ []; next_id = db.next_id + 1 })

-- `value or []` and `value or {}` of a missing argument.
abbrev pub or_empty {ℓ} : {A : Type ℓ} → Option A → A → A
or_empty none a = a
or_empty (some a) b = a

-- `create_selection(owner, catalogue_id, kind, rows, errors, provenance)`; a kind that is neither is no
-- `Kind`.
unfoldable pub create_selection :
    Unicode
    → User
    → ℕ
    → Kind
    → List Row
    → Option (List Json)
    → Option Fields
    → Transaction Selection
unfolding validate_rows insert_selection
create_selection u user pk kind rows errors provenance = do
  c ← get_catalogue user pk
  raise_if (ltb (row_limit kind) (length rows)) selection_limit
  validate_rows u rows
  insert_selection c kind rows (or_empty errors []) (or_empty provenance end)

abbrev pub in_catalogue : ℕ → Entry → Bool
in_catalogue pk e = e.catalogue == pk

-- `catalogue.entries.filter(provider=provider, external_id=external_id)`: the columns are texts.
abbrev pub same_source : Unicode → ℕ → Row → Entry → Bool
same_source u pk row e =
    e.catalogue == pk
    && (eq_text e.provider (str_of u row.provider)
        && eq_text e.external_id (str_of u row.external_id))

-- The entry of the same record, where the row has an identifier; no entry has a null provider.
unfoldable pub existing_entry : Unicode → ℕ → Row → List Entry → Option Entry
unfolding find_where
existing_entry u pk row entries =
    if truthy row.external_id && not (is_null row.provider)
    then find_where (same_source u pk row) entries
    else none

abbrev pub initial_status : Kind → Status
initial_status baseline = kept
initial_status incoming = pending

unfoldable pub new_entry : Unicode → ℕ → Catalogue → Selection → ℕ → Row → Entry
new_entry u pk c s position row = record {
  id = pk;
  catalogue = c.id;
  selection = s.id;
  position = position;
  origin = s.kind;
  provider = str_of u row.provider;
  external_id = str_of u row.external_id;
  local_id = str_of u row.local_id;
  raw = fields_of row.raw;
  normalized = fields_of row.normalized;
  status = initial_status s.kind;
  merge_target = none;
  overrides = [];
}

unfoldable pub insert_entry : Unicode → Catalogue → Selection → ℕ → Row → Transaction (Unit {0})
unfolding new_entry
insert_entry u c s position row = modify λ db. record db {
  entries = db.entries ++ new_entry u db.next_id c s position row ∷ [];
  next_id = db.next_id + 1;
}

-- `existing.normalized != row["normalized"] or existing.raw != row["raw"]`.
unfoldable pub has_changed : Entry → Row → Bool
has_changed e row =
    not (eq_fields e.normalized (fields_of row.normalized))
    || not (eq_fields e.raw (fields_of row.raw))

abbrev pub count_created : Summary → Summary
count_created t = record t { created = t.created + 1 }

abbrev pub count_skipped : Bool → Summary → Summary
count_skipped changed t = record t {
  skipped = t.skipped + 1;
  changed_existing = t.changed_existing + (if changed then 1 else 0);
}

abbrev pub has_null : Row → Bool
has_null row = is_null row.provider || is_null row.external_id || is_null row.local_id

-- What follows once the entry of the same record was looked for: a row that is new becomes an entry,
-- within the limit of the catalogue.
unfoldable pub import_found :
    Unicode → Catalogue → Selection → ℕ → ℕ → Row → Summary → Option Entry → Transaction Summary
unfolding insert_entry has_changed
import_found u c s existing_count position row t (some e) =
    pure (count_skipped (has_changed e row) t)
import_found u c s existing_count position row t none = do
  let t' = count_created t
  raise_if (ltb max_entries (existing_count + t'.created)) catalogue_limit
  raise_if (has_null row) null_identifier
  insert_entry u c s position row
  pure t'

unfoldable pub import_row :
    Unicode → Catalogue → Selection → ℕ → ℕ → Row → Summary → Transaction Summary
unfolding existing_entry import_found validate_row
import_row u c s existing_count position row t = do
  validate_row u row
  found ← gets (λ db. existing_entry u c.id row db.entries)
  import_found u c s existing_count position row t found

-- The loop over the rows, with the number of entries before it and the counts so far.
unfoldable pub import_rows :
    Unicode → Catalogue → Selection → ℕ → ℕ → List Row → Summary → Transaction Summary
unfolding import_row
import_rows u c s existing_count position [] t = pure t
import_rows u c s existing_count position (row ∷ rows) t = do
  t' ← import_row u c s existing_count position row t
  import_rows u c s existing_count (suc position) rows t'

abbrev pub no_rows : Summary
no_rows = record { created = 0; skipped = 0; changed_existing = 0 }

abbrev pub import_event : User → Catalogue → Selection → Summary → ℕ → AuditEvent
import_event user c s t pk = record {
  id = pk;
  catalogue = c.id;
  entry = none;
  actor = user.pk;
  action = imported;
  reason = [];
  before = none;
  after = some (
      of_import (record {
        selection_id = s.id;
        kind = s.kind;
        rows = length s.rows;
        summary = t;
        provenance = s.provenance;
      }));
  idempotency_key = [];
  request_hash = none;
}

-- The selection is consumed, and an event tells of it.
unfoldable pub close_selection : User → Catalogue → Selection → Summary → Transaction Selection
close_selection user c s t = do
  let s' = record s { consumed = true; summary = some t }
  modify (λ db. record db {
    selections = set_row selection_id s' db.selections;
    events = db.events ++ import_event user c s t db.next_id ∷ [];
    next_id = db.next_id + 1;
  })
  bump c
  pure s'

abbrev pub find_selection : Db → ℕ → Option Selection
find_selection db pk = find_row selection_id pk db.selections

-- `Selection.objects.filter(pk=selection_id, catalogue__owner=owner).first()`.
unfoldable pub owned_selection : User → Db → Option Selection → Option Selection
owned_selection user db none = none
owned_selection user db (some s) = elim (find_catalogue db s.catalogue) [
  | none ↦ none
  | some c ↦ if c.owner == user.pk then some s else none
]

unfoldable pub confirm_new : Unicode → User → Catalogue → Selection → ℕ → Transaction Selection
unfolding import_rows close_selection count_where
confirm_new u user c s expected = do
  check_revision c expected
  existing_count ← gets (λ db. count_where (in_catalogue c.id) db.entries)
  t ← import_rows u c s existing_count 0 s.rows no_rows
  close_selection user c s t

unfoldable pub unless_consumed : Selection → Transaction Selection → Transaction Selection
unless_consumed s m = if s.consumed then pure s else m

-- `confirm_selection(owner, selection_id, expected_revision)`.
unfoldable pub confirm_selection : Unicode → User → ℕ → ℕ → Transaction Selection
unfolding owned_selection confirm_new unless_consumed
confirm_selection u user pk expected = do
  raise_if (not user.is_authenticated) not_found
  found ← gets (λ db. owned_selection user db (find_selection db pk))
  s ← or_raise found not_found
  c ← get_catalogue user s.catalogue
  unless_consumed s (confirm_new u user c s expected)
