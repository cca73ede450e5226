-- ===== src/Catalogues/Services/Access.antt =====
-- Access to a catalogue and its entries, the revision test, and idempotency keys
-- (catalogues/services.py).
pub mod Laws
use research_desk.Prelude.{
  ℕ, ◌+◌, Bool, false, not, ◌&&◌, Option, none, some, [], ◌∷◌, ltb, ◌==◌, if◌then◌else◌, Text,
  eq_text, length,
}
use research_desk.Json.{Json, Fields, end, field, update}
use research_desk.Table.{find_where, find_row, set_row}
use research_desk.Catalogues.Model.{
  User, Catalogue, Entry, Overrides, Snapshot, AuditEvent, Action, Db, not_found, stale_revision,
  invalid_key, idempotency_conflict, Result, ok, err, Transaction, pure, gets, modify, raise_if,
  ◌>>=◌, ◌>>◌,
}

abbrev pub entry_id : Entry → ℕ
entry_id e = e.id

abbrev pub catalogue_id : Catalogue → ℕ
catalogue_id c = c.id

abbrev pub find_entry : Db → ℕ → Option Entry
find_entry db i = find_row entry_id i db.entries

abbrev pub find_catalogue : Db → ℕ → Option Catalogue
find_catalogue db i = find_row catalogue_id i db.catalogues

-- The row, if the catalogue is the user's.
owned : User → Option Catalogue → Result Catalogue
owned user none = err not_found
owned user (some c) = if c.owner == user.pk then ok c else err not_found

-- `_catalogue(owner, pk)`.
unfoldable pub get_catalogue : User → ℕ → Transaction Catalogue
unfolding owned
get_catalogue user pk db =
    if user.is_authenticated
    then (elim (owned user (find_catalogue db pk)) [ ok c ↦ ok (c, db) | err e ↦ err e ])
    else err not_found

-- `_entry(owner, pk)`: the entry, if it stands in a catalogue of the user.
entry_of_owner : User → Db → Option Entry → Result Entry
unfolding owned
entry_of_owner user db none = err not_found
entry_of_owner user db (some e) = elim (owned user (find_catalogue db e.catalogue)) [
  | ok c ↦ ok e
  | err x ↦ err x
]

unfoldable pub get_entry : User → ℕ → Transaction Entry
unfolding entry_of_owner
get_entry user pk db =
    if user.is_authenticated
    then (elim (entry_of_owner user db (find_entry db pk)) [ ok e ↦ ok (e, db) | err x ↦ err x ])
    else err not_found

-- `_revision(catalogue, expected)`.
unfoldable pub check_revision : Catalogue → ℕ → Transaction (Unit {0})
check_revision c expected = raise_if (not (c.revision == expected)) stale_revision

-- `_bump(catalogue)`.
unfoldable pub bump : Catalogue → Transaction (Unit {0})
bump c = modify λ db. record db {
  catalogues = set_row catalogue_id (record c { revision = c.revision + 1 }) db.catalogues;
}

unfoldable pub override_values : Overrides → Fields
override_values [] = end
override_values ((key, detail) ∷ rest) = field key detail.value (override_values rest)

-- `effective(entry)`: the corrections over the normalized fields.
unfoldable pub effective : Entry → Fields
unfolding override_values
effective e = update e.normalized (override_values e.overrides)

-- `_snapshot(entry)`.
unfoldable pub snapshot : Entry → Snapshot
snapshot e = record { status = e.status; merge_target = e.merge_target; overrides = e.overrides }

-- What a request asks for, as far as its hash is made of it.
pub data Payload : Type 0 where
  decide_payload :
      (entry : ℕ) (action : Action) (target : Option ℕ) (reason : Text) (revision : ℕ) → Payload
  edit_payload : (entry : ℕ) (values : Json) (reason : Text) (revision : ℕ) → Payload

-- The event of a catalogue that has a key.
abbrev pub has_key : ℕ → Text → AuditEvent → Bool
has_key catalogue key event = event.catalogue == catalogue && eq_text event.idempotency_key key

abbrev pub eq_hash : Option ℕ → ℕ → Bool
eq_hash none h = false
eq_hash (some g) h = g == h

-- The hash of a payload, `sha256` of its JSON text, is an argument.
module _ (sha256 : Payload → ℕ) where
  conflicting : Option AuditEvent → ℕ → Bool
  conflicting none digest = false
  conflicting (some prior) digest = not (eq_hash prior.request_hash digest)

  -- `_deduplicate(catalogue, key, payload)`: the event that has the key already, and the hash.
  unfoldable pub deduplicate :
      Catalogue → Text → Payload → Transaction (Option AuditEvent × Option ℕ)
  unfolding conflicting
  deduplicate c [] payload = pure (none, none)
  deduplicate c (k ∷ key) payload = do
    raise_if (ltb 128 (length (k ∷ key))) invalid_key
    let digest = sha256 payload
    prior ← gets (λ db. find_where (has_key c.id (k ∷ key)) db.events)
    raise_if (conflicting prior digest) idempotency_conflict
    pure (prior, some digest)
