-- ===== src/Catalogues/Services/Edit/Audit.antt =====
-- What a correction records, and that a repeated one changes nothing.
use mathlib.Core.Path.{subst}
use research_desk.Prelude.{
  ℕ, ◌+◌, ◌≡◌, refl, sym, ap, ◌∙◌, true, Option, none, some, [], ◌∷◌, ◌++◌, arith, Text, ◌⊎◌, inl,
  inr,
}
use research_desk.Json.{Json, Fields, obj, update, fields_of}
use research_desk.Unicode.{Unicode}
use research_desk.Table.{set_row, find_where, key-find_row, find_row-set_self}
use research_desk.Records.Normalization.{normalize_record, accepted_fields}
use research_desk.Catalogues.Model.{
  User, Catalogue, Entry, Overrides, AuditEvent, Db, corrected, of_entry, ok,
}
use research_desk.Catalogues.Services.Access.{
  entry_id, catalogue_id, find_entry, find_catalogue, snapshot, has_key, Payload, edit_payload,
  effective, deduplicate, bump,
}
use research_desk.Catalogues.Services.Access.Laws.{Opened, deduplicate-eq-none, deduplicate-eq-some}
use research_desk.Catalogues.Services.Decide.Steps.{unless_prior-eq-ok}
use research_desk.Catalogues.Services.Decide.Audit.{Repeated}
use research_desk.Catalogues.Services.Edit.{
  is_correction, with_journal, new_overrides, write_correction, edit_new, edit_fields,
}
use research_desk.Catalogues.Services.Edit.Corrections.{
  Corrected, Edited, edit_fields-Edited, edit_new-wrote, write_correction-Corrected,
}

-- The event of a correction, and the next revision of its catalogue.
pub record Logged (user : User) (pk : ℕ) (c : Catalogue) (before e' : Entry) (reason key : Text)
    (db db' : Db) : Type 0 where
  pub event : AuditEvent
  pub events : db'.events ≡ db.events ++ event ∷ []
  pub actor : event.actor ≡ user.pk
  pub action_is : event.action ≡ corrected
  pub reason_is : event.reason ≡ reason
  pub key_is : event.idempotency_key ≡ key
  pub entry_is : event.entry ≡ some pk
  pub catalogue_is : event.catalogue ≡ c.id
  pub before_is : event.before ≡ some (snapshot before)
  pub after_is : event.after ≡ some (of_entry (snapshot e'))
  pub new_catalogue :
      find_catalogue db' before.catalogue ≡ some (record c { revision = c.revision + 1 })

write_correction-Logged :
    (u : Unicode) (user : User) (pk : ℕ) (c : Catalogue) (e : Entry) (os : Overrides)
    (reason key : Text) (digest : Option ℕ) (db : Db) {e' : Entry} {db' : Db}
    → find_entry db pk ≡ some e
    → Opened user db e.catalogue c
    → write_correction u user c e os reason key digest db ≡ ok (e', db')
    → Logged user pk c e e' reason key db db'
unfolding write_correction bump
write_correction-Logged u user pk c e os reason key digest db {e'} {db'} f opened h =
    let now : Entry = record e { overrides = os } in
    let same : now ≡ e' = ground arith in
    let cs : db'.catalogues
        ≡ set_row catalogue_id (record c { revision = c.revision + 1 }) db.catalogues =
      ground arith in
    let c_is : c.id ≡ e.catalogue =
      key-find_row catalogue_id e.catalogue db.catalogues opened.found in
    record {
      event = record {
        id = db.next_id;
        catalogue = c.id;
        entry = some e.id;
        actor = user.pk;
        action = corrected;
        reason = reason;
        before = some (snapshot e);
        after = some (of_entry (snapshot now));
        idempotency_key = key;
        request_hash = digest;
      };
      events = ground arith;
      actor = refl;
      action_is = refl;
      reason_is = refl;
      key_is = refl;
      entry_is = ap some (key-find_row entry_id pk db.entries f);
      catalogue_is = refl;
      before_is = refl;
      after_is = ap (λ (x : Entry). some (of_entry (snapshot x))) same;
      new_catalogue = rw cs (
          find_row-set_self catalogue_id e.catalogue (record c { revision = c.revision + 1 })
            db.catalogues opened.found c_is);
    }

-- What a new correction leaves behind.
pub record Amended (u : Unicode) (user : User) (pk : ℕ) (values : Json) (reason : Text)
    (expected now : ℕ) (key : Text) (db : Db) (e' : Entry) (db' : Db) : Type 0 where
  pub c : Catalogue
  pub corrected_entry : Corrected pk db e' db'
  -- The catalogue is the user's and was at the expected revision; no event of it had the key.
  pub opened : Opened user db corrected_entry.before.catalogue c
  pub old_revision : c.revision ≡ expected
  pub new_key : (key ≡ []) ⊎ (find_where (has_key c.id key) db.events ≡ none)
  -- The fields can be corrected; with their new values the record is normalized again, and gives the
  -- values of the corrections.
  pub allowed : is_correction reason values ≡ true
  pub checked : Fields
  pub normalized :
      accepted_fields (
        normalize_record u "upload"
          (obj (update (effective corrected_entry.before) (fields_of values))))
      ≡ some checked
  pub overrides_are :
      e'.overrides
      ≡ new_overrides u user reason now
          (with_journal (fields_of values) checked)
          (fields_of values)
          corrected_entry.before.overrides
  pub logged : Logged user pk c corrected_entry.before e' reason key db db'

module _ (u : Unicode) (sha256 : Payload → ℕ) where
  key_is_new :
      (c : Catalogue) (key : Text) (payload : Payload) (db : Db) {digest : Option ℕ} {db' : Db}
      → deduplicate sha256 c key payload db ≡ ok ((none, digest), db')
      → (key ≡ []) ⊎ (find_where (has_key c.id key) db.events ≡ none)
  key_is_new c [] payload db h = inl refl
  key_is_new c (k ∷ key) payload db h = inr ((deduplicate-eq-none sha256 c k key payload db h).0)

  new-Amended :
      (user : User) (pk : ℕ) (values : Json) (reason : Text) (expected now : ℕ) (key : Text)
      (db : Db) {e' : Entry} {db' : Db}
      (o : Edited u sha256 user pk values reason expected now key db e' db')
      → o.prior ≡ none
      → edit_new u user o.c o.entry values reason expected now key o.digest db ≡ ok (e', db')
      → Amended u user pk values reason expected now key db e' db'
  new-Amended user pk values reason expected now key db {e'} {db'} o p m =
      let payload = edit_payload pk values reason expected in
      let (checked, current, allowed, n, wrote) =
        edit_new-wrote u user o.c o.entry values reason expected now key o.digest db m in
      let asked = fields_of values in
      let os =
        new_overrides u user reason now (with_journal asked checked) asked o.entry.overrides in
      let (done, same) =
        write_correction-Corrected u user pk o.c o.entry os reason key o.digest db o.entry_found
          wrote in
      let is_e : o.entry ≡ done.before = ground (arith, o.entry_found, done.found) in
      record {
        c = o.c;
        corrected_entry = done;
        opened = subst (λ (x : Entry). Opened user db x.catalogue o.c) is_e o.opened;
        old_revision = current;
        new_key = key_is_new o.c key payload db (
            subst
              (λ (x : Option AuditEvent).
                deduplicate sha256 o.c key payload db ≡ ok ((x, o.digest), db))
              p o.keyed);
        allowed = allowed;
        checked = checked;
        normalized =
            subst
              (λ (x : Entry).
                accepted_fields (normalize_record u "upload" (obj (update (effective x) asked)))
                ≡ some checked)
              is_e n;
        overrides_are =
            ap (λ (x : Entry). x.overrides) same
            ∙ ap
                (λ (x : Entry).
                  new_overrides u user reason now (with_journal asked checked) asked x.overrides)
                is_e;
        logged =
            subst (λ (x : Entry). Logged user pk o.c x e' reason key db db') is_e
              (write_correction-Logged u user pk o.c o.entry os reason key o.digest db o.entry_found
                o.opened wrote);
      }

  -- A correction that succeeds either found an event with its key and its payload and changed nothing, or
  -- it has no key or one that is new to the catalogue, which was at the expected revision and is at the
  -- next one. Then the entry is stored with the corrections of the fields, which are taken from the record
  -- as it was normalized again; its status, its merge target and what the source said are as they were;
  -- one event tells of it with the entry before and after; and no other entry is touched.
  pub edit_fields-Amended :
      (user : User) (pk : ℕ) (values : Json) (reason : Text) (expected now : ℕ) (key : Text)
      (db : Db) {e' : Entry} {db' : Db}
      → edit_fields u sha256 user pk values reason expected now key db ≡ ok (e', db')
      → Repeated pk key (sha256 (edit_payload pk values reason expected)) db e' db'
        ⊎ Amended u user pk values reason expected now key db e' db'
  edit_fields-Amended user pk values reason expected now key db {e'} {db'} h =
      let o = edit_fields-Edited u sha256 user pk values reason expected now key db h in
      elim (unless_prior-eq-ok o.prior o.entry
        (edit_new u user o.c o.entry values reason expected now key o.digest) db o.rest) [
          | inl (event, p, q, same) ↦
              let payload = edit_payload pk values reason expected in
              let (found, hash) = deduplicate-eq-some sha256 o.c key payload db (
                subst
                  (λ (x : Option AuditEvent).
                    deduplicate sha256 o.c key payload db ≡ ok ((x, o.digest), db))
                  p o.keyed) in
              let id_is : o.c.id ≡ e'.catalogue =
                key-find_row catalogue_id o.entry.catalogue db.catalogues o.opened.found
                ∙ ap (λ (x : Entry). x.catalogue) (sym q) in
              inl (record {
                event = event;
                found =
                    subst (λ (n : ℕ). find_where (has_key n key) db.events ≡ some event) id_is
                      found;
                same_payload = hash;
                entry = o.entry_found ∙ ap some (sym q);
                unchanged = same;
              })
          | inr (p, m) ↦ inr (new-Amended user pk values reason expected now key db o p m)
        ]
