-- ===== src/Catalogues/Services/Edit.antt =====
-- Corrections of the fields of an entry (catalogues/services.py).
pub mod Corrections
pub mod Audit
mod Tests
use Prim.Native.String.{String}
use text.Mathlib.Text.{◌==◌ as str_eq}
use research_desk.Prelude.{
  ℕ, ◌+◌, Bool, true, false, not, ◌&&◌, ◌||◌, Option, none, some, List, [], ◌∷◌, ◌++◌,
  if◌then◌else◌, Text, strip, any,
}
use research_desk.Json.{
  Json, Fields, str, obj, end, field, get, has, put, update, truthy, is_str, is_obj, fields_of,
  text_of,
}
use research_desk.Unicode.{Unicode}
use research_desk.Table.{set_row}
use research_desk.Records.Normalization.{
  normalize_record, normalize_doi, normalize_title, accepted_fields,
}
use research_desk.Catalogues.Model.{
  User, Catalogue, Correction, Overrides, Entry, corrected, of_entry, AuditEvent, Db,
  invalid_correction, invalid_doi, Result, ok, err, Transaction, pure, gets, modify, raise_if,
  or_raise, ◌>>=◌, ◌>>◌,
}
use research_desk.Catalogues.Services.Access.{
  entry_id, get_catalogue, get_entry, check_revision, bump, effective, snapshot, Payload,
  edit_payload, deduplicate,
}
use research_desk.Catalogues.Services.Decide.{is_empty, unless_prior}

editable_fields : List String
editable_fields = "title" ∷ "doi" ∷ "year" ∷ "type" ∷ "authors" ∷ "journal" ∷ []

-- `set(values) <= EDITABLE_FIELDS`.
all_editable : Fields → Bool
unfolding editable_fields
all_editable end = true
all_editable (field key value fs) = any (str_eq key) editable_fields && all_editable fs

-- `reason.strip()`, and an object with fields that can be edited, at least one.
unfoldable pub is_correction : Text → Json → Bool
unfolding all_editable
is_correction reason values =
    not (is_empty (strip reason))
    && is_obj values
    && truthy values
    && all_editable (fields_of values)

-- `checked` with the journal, which the normalization does not know.
unfoldable pub with_journal : Fields → Fields → Fields
with_journal values checked =
    if has "journal" values then put "journal" (get "journal" values) checked else checked

-- `overrides[field] = correction`.
unfoldable pub put_override : String → Correction → Overrides → Overrides
put_override key v [] = (key, v) ∷ []
put_override key v ((k, w) ∷ rest) =
    if str_eq k key then (k, v) ∷ rest else (k, w) ∷ put_override key v rest

abbrev pub correction : User → Text → ℕ → Json → Correction
correction user reason now value = record {
  value = value;
  actor_id = user.pk;
  reason = reason;
  at = now;
}

-- The loop over the fields of `values`.
unfoldable pub correct_fields : User → Text → ℕ → Fields → Fields → Overrides → Overrides
unfolding put_override
correct_fields user reason now checked end overrides = overrides
correct_fields user reason now checked (field key value values) overrides =
    correct_fields user reason now checked values
      (put_override key (correction user reason now (get key checked)) overrides)

module _ (u : Unicode) where
  -- The key of the title follows the title.
  unfoldable pub correct_title : User → Text → ℕ → Fields → Fields → Overrides → Overrides
  unfolding put_override
  correct_title user reason now checked values overrides =
      if has "title" values
      then put_override "title_key"
          (correction user reason now (str (normalize_title u (text_of (get "title" checked)))))
          overrides
      else overrides

  unfoldable pub new_overrides : User → Text → ℕ → Fields → Fields → Overrides → Overrides
  unfolding correct_fields correct_title
  new_overrides user reason now checked values overrides =
      correct_title user reason now checked values
        (correct_fields user reason now checked values overrides)

  -- "doi" is a text here, or `None`: the normalization has accepted it.
  unfoldable pub bad_doi : Fields → Bool
  bad_doi values =
      has "doi" values
      && truthy (get "doi" values)
      && is_empty (normalize_doi u (text_of (get "doi" values)))

  -- The entry with its corrections, and the event.
  unfoldable pub write_correction :
      User → Catalogue → Entry → Overrides → Text → Text → Option ℕ → Transaction Entry
  write_correction user c entry overrides reason key digest = do
    let entry' = record entry { overrides = overrides }
    modify (λ db. record db {
      entries = set_row entry_id entry' db.entries;
      events =
          db.events
          ++ record {
            id = db.next_id;
            catalogue = c.id;
            entry = some entry.id;
            actor = user.pk;
            action = corrected;
            reason = reason;
            before = some (snapshot entry);
            after = some (of_entry (snapshot entry'));
            idempotency_key = key;
            request_hash = digest;
          }
            ∷ [];
      next_id = db.next_id + 1;
    })
    bump c
    pure entry'

  unfoldable pub edit_new :
      User → Catalogue → Entry → Json → Text → ℕ → ℕ → Text → Option ℕ → Transaction Entry
  unfolding is_correction with_journal new_overrides write_correction
  edit_new user c entry values reason expected now key digest = do
    check_revision c expected
    raise_if (not (is_correction reason values)) invalid_correction
    let asked = fields_of values
    checked ←
        or_raise
          (accepted_fields (normalize_record u "upload" (obj (update (effective entry) asked))))
          invalid_correction
    raise_if (has "journal" asked && not (is_str (get "journal" asked))) invalid_correction
    raise_if (bad_doi asked) invalid_doi
    write_correction user c entry
        (new_overrides user reason now (with_journal asked checked) asked entry.overrides) reason
        key digest

module _ (u : Unicode) (sha256 : Payload → ℕ) where
  -- `edit_fields(owner, entry_id, values, reason, expected_revision, idempotency_key)`.
  unfoldable pub edit_fields : User → ℕ → Json → Text → ℕ → ℕ → Text → Transaction Entry
  unfolding edit_new
  edit_fields user entry_pk values reason expected now key = do
    entry ← get_entry user entry_pk
    c ← get_catalogue user entry.catalogue
    (prior, digest) ← deduplicate sha256 c key (edit_payload entry_pk values reason expected)
    unless_prior prior entry (edit_new u user c entry values reason expected now key digest)
