-- ===== src/Catalogues/Services/Access/Laws.antt =====
-- What the guards of the catalogue workflow have checked when they succeed.
use research_desk.Prelude.{
  ℕ, ◌≡◌, true, false, not, Option, none, some, [], ◌∷◌, arith, ◌==◌, Text, ltb, length,
}
use research_desk.Table.{find_where}
use research_desk.Catalogues.Model.{User, Catalogue, Entry, AuditEvent, Db, ok}
use research_desk.Catalogues.Model.Inversion.{raise_if-eq-ok}
use research_desk.Catalogues.Services.Access.{
  find_entry, find_catalogue, owned, get_catalogue, get_entry, check_revision, Payload, deduplicate,
  has_key, eq_hash,
}

-- The user is signed in, and the catalogue that was found is the user's.
pub record Opened (user : User) (db : Db) (pk : ℕ) (c : Catalogue) : Type 0 where
  pub signed_in : user.is_authenticated ≡ true
  pub found : find_catalogue db pk ≡ some c
  pub owner : c.owner ≡ user.pk

owned-eq-ok :
    (user : User) (o : Option Catalogue) {c : Catalogue}
    → owned user o ≡ ok c
    → (o ≡ some c) × (c.owner ≡ user.pk)
unfolding owned
owned-eq-ok user none h = cc
owned-eq-ok user (some x) h = ground arith

pub get_catalogue-eq-ok :
    (user : User) (pk : ℕ) (db : Db) {c : Catalogue} {db' : Db}
    → get_catalogue user pk db ≡ ok (c, db')
    → Opened user db pk c × (db' ≡ db)
unfolding get_catalogue
get_catalogue-eq-ok user pk db {c} {db'} h =
    (record { signed_in = ground arith; found = ground arith; owner = ground arith }, ground arith)

pub get_entry-eq-ok :
    (user : User) (pk : ℕ) (db : Db) {e : Entry} {db' : Db}
    → get_entry user pk db ≡ ok (e, db')
    → (find_entry db pk ≡ some e) × (db' ≡ db)
unfolding get_entry
get_entry-eq-ok user pk db h = (ground arith, ground arith)

pub check_revision-eq-ok :
    (c : Catalogue) (expected : ℕ) (db : Db) {w : Unit {0}} {db' : Db}
    → check_revision c expected db ≡ ok (w, db')
    → (c.revision ≡ expected) × (db' ≡ db)
unfolding check_revision
check_revision-eq-ok c expected db h =
    let (t, e) = raise_if-eq-ok (not (c.revision == expected)) _ db h in (ground arith, e)

module _ (sha256 : Payload → ℕ) where
  -- An event is found only under the key, and only if it was made of the same payload.
  pub deduplicate-eq-ok :
      (c : Catalogue) (key : Text) (payload : Payload) (db : Db) {prior : Option AuditEvent}
      {digest : Option ℕ} {db' : Db}
      → deduplicate sha256 c key payload db ≡ ok ((prior, digest), db')
      → db' ≡ db
  unfolding deduplicate
  deduplicate-eq-ok c [] payload db h = ground arith
  deduplicate-eq-ok c (k ∷ key) payload db h = ground arith

  -- A key that no event has yet.
  pub deduplicate-eq-none :
      (c : Catalogue) (k : ℕ) (key : Text) (payload : Payload) (db : Db) {digest : Option ℕ}
      {db' : Db}
      → deduplicate sha256 c (k ∷ key) payload db ≡ ok ((none, digest), db')
      → (find_where (has_key c.id (k ∷ key)) db.events ≡ none)
        × (digest ≡ some (sha256 payload))
        × (ltb 128 (length (k ∷ key)) ≡ false)
  unfolding deduplicate
  deduplicate-eq-none c k key payload db h = (ground arith, ground arith, ground arith)

  -- A key that an event with this payload has.
  pub deduplicate-found :
      (c : Catalogue) (k : ℕ) (key : Text) (payload : Payload) (db : Db) (event : AuditEvent)
      → find_where (has_key c.id (k ∷ key)) db.events ≡ some event
      → event.request_hash ≡ some (sha256 payload)
      → ltb 128 (length (k ∷ key)) ≡ false
      → deduplicate sha256 c (k ∷ key) payload db ≡ ok ((some event, some (sha256 payload)), db)
  unfolding deduplicate
  deduplicate-found c k key payload db event f h l = ground (arith)

-- What an opened catalogue and a found entry give back.
pub get_catalogue-Opened :
    (user : User) (pk : ℕ) (db : Db) (c : Catalogue)
    → Opened user db pk c
    → get_catalogue user pk db ≡ ok (c, db)
unfolding get_catalogue
get_catalogue-Opened user pk db c o = ground (arith, o.signed_in, o.found, o.owner)

pub get_entry-Opened :
    (user : User) (pk : ℕ) (db : Db) (e : Entry) (c : Catalogue)
    → find_entry db pk ≡ some e
    → Opened user db e.catalogue c
    → get_entry user pk db ≡ ok (e, db)
unfolding get_entry
get_entry-Opened user pk db e c f o = ground (arith, o.signed_in, o.found, o.owner)

hash_of : (o : Option ℕ) (n : ℕ) → eq_hash o n ≡ true → o ≡ some n
hash_of none n h = cc
hash_of (some m) n h = ground arith

-- A key that an event has already: the event was made of the same payload.
pub deduplicate-eq-some :
    (sha256 : Payload → ℕ) (c : Catalogue) (key : Text) (payload : Payload) (db : Db)
    {event : AuditEvent} {digest : Option ℕ} {db' : Db}
    → deduplicate sha256 c key payload db ≡ ok ((some event, digest), db')
    → (find_where (has_key c.id key) db.events ≡ some event)
      × (event.request_hash ≡ some (sha256 payload))
unfolding deduplicate
deduplicate-eq-some sha256 c [] payload db h = cc
deduplicate-eq-some sha256 c (k ∷ key) payload db {event} {digest} {db'} h =
    (ground arith, ground (arith, hash_of event.request_hash (sha256 payload)))
