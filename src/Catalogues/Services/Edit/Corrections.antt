-- ===== src/Catalogues/Services/Edit/Corrections.antt =====
-- What a correction changes, and what it leaves.
use Prim.Native.String.{String}
use text.Mathlib.Text.{◌==◌ as str_eq}
use research_desk.Prelude.{
  ℕ, ◌≡◌, ◌≢◌, refl, ap, sym, ◌∙◌, true, false, not, ◌&&◌, Option, some, [], ◌∷◌, Text, arith,
  Bool-cases, inl, inr, ◌⊎◌, ◌==◌,
}
use research_desk.Json.{
  Json, Fields, str, obj, end, field, get, has, put, update, is_str, fields_of, text_of,
}
use research_desk.Json.Laws.{str_eq-true, get-put_ne, get-update_cong}
use research_desk.Unicode.{Unicode}
use research_desk.Table.{set_row, find_row-set_self, find_row-set_ne, key-find_row}
use research_desk.Records.Normalization.{normalize_record, normalize_title, accepted_fields}
use research_desk.Catalogues.Model.{
  User, Catalogue, Correction, Overrides, Entry, AuditEvent, Db, stale_revision, invalid_correction,
  invalid_doi, ok, or_raise,
}
use research_desk.Catalogues.Model.Inversion.{guard-eq-ok, read-eq-ok, or_raise-eq-ok}
use research_desk.Catalogues.Services.Access.{
  entry_id, find_entry, get_catalogue, get_entry, check_revision, bump, effective, override_values,
  Payload, edit_payload, deduplicate,
}
use research_desk.Catalogues.Services.Access.Laws.{
  Opened, get_catalogue-eq-ok, get_entry-eq-ok, deduplicate-eq-ok,
}
use research_desk.Catalogues.Services.Decide.{unless_prior}
use research_desk.Catalogues.Services.Decide.Steps.{unless_prior-eq-ok}
use research_desk.Catalogues.Services.Edit.{
  is_correction, with_journal, put_override, correction, correct_fields, correct_title,
  new_overrides, bad_doi, write_correction, edit_new, edit_fields,
}

-- A correction of another field is not read.
get-put_override :
    (k key : String) (v : Correction) (os : Overrides) (fs : Fields)
    → str_eq key k ≡ false
    → get k (update fs (override_values (put_override key v os)))
      ≡ get k (update fs (override_values os))
unfolding put_override override_values update
get-put_override k key v [] fs h = get-put_ne k key v.value fs h
get-put_override k key v ((i, w) ∷ rest) fs h = elim (Bool-cases (str_eq i key)) [
  | inl e ↦
      let same = str_eq-true i key e in
      let other : str_eq i k ≡ false = rw same h in
      rw e (
        get-update_cong k (put i v.value fs) (put i w.value fs) (override_values rest)
          (get-put_ne k i v.value fs other ∙ sym (get-put_ne k i w.value fs other)))
  | inr e ↦ rw e (get-put_override k key v rest (put i w.value fs) h)
]

get-correct_fields :
    (user : User) (reason : Text) (now : ℕ) (checked values : Fields) (os : Overrides) (k : String)
    (fs : Fields)
    → has k values ≡ false
    → get k (update fs (override_values (correct_fields user reason now checked values os)))
      ≡ get k (update fs (override_values os))
unfolding correct_fields has
get-correct_fields user reason now checked end os k fs h = refl
get-correct_fields user reason now checked (field key value values) os k fs h =
    let v = correction user reason now (get key checked) in
    get-correct_fields user reason now checked values (put_override key v os) k fs
      (ground (arith, h))
    ∙ get-put_override k key v os fs (ground (arith, h))

module _ (u : Unicode) where
  get-new_overrides :
      (user : User) (reason : Text) (now : ℕ) (checked values : Fields) (os : Overrides)
      (k : String) (fs : Fields)
      → has k values ≡ false
      → str_eq "title_key" k ≡ false
      → get k (update fs (override_values (new_overrides u user reason now checked values os)))
        ≡ get k (update fs (override_values os))
  unfolding new_overrides correct_title
  get-new_overrides user reason now checked values os k fs h t =
      let corrected = correct_fields user reason now checked values os in
      let title =
        correction user reason now (str (normalize_title u (text_of (get "title" checked)))) in
      elim (Bool-cases (has "title" values)) [
        | inl e ↦ rw e (
            get-put_override k "title_key" title corrected fs t
            ∙ get-correct_fields user reason now checked values os k fs h)
        | inr e ↦ rw e (get-correct_fields user reason now checked values os k fs h)
      ]

  -- The checks that a new correction passed, and what was written.
  pub edit_new-wrote :
      (user : User) (c : Catalogue) (e : Entry) (values : Json) (reason : Text) (expected now : ℕ)
      (key : Text) (digest : Option ℕ) (db : Db) {e' : Entry} {db' : Db}
      → edit_new u user c e values reason expected now key digest db ≡ ok (e', db')
      → (checked : Fields) × (c.revision ≡ expected)
        × (is_correction reason values ≡ true)
        × (accepted_fields
              (normalize_record u "upload" (obj (update (effective e) (fields_of values))))
            ≡ some checked)
        × (write_correction u user c e
              (new_overrides u user reason now
                (with_journal (fields_of values) checked)
                (fields_of values)
                e.overrides)
              reason
              key
              digest
              db
            ≡ ok (e', db'))
  unfolding edit_new check_revision
  edit_new-wrote user c e values reason expected now key digest db h =
      let asked = fields_of values in
      let o = accepted_fields (normalize_record u "upload" (obj (update (effective e) asked))) in
      let (current, h1) = guard-eq-ok (not (c.revision == expected)) stale_revision _ db h in
      let (allowed, h2) =
        guard-eq-ok (not (is_correction reason values)) invalid_correction _ db h1 in
      let (checked, p, h3) =
        read-eq-ok (or_raise o invalid_correction) _ db
          (λ a d p. (or_raise-eq-ok o invalid_correction db p).1) h2 in
      let (journal, h4) =
        guard-eq-ok (has "journal" asked && not (is_str (get "journal" asked))) invalid_correction _
          db h3 in
      let (doi, h5) = guard-eq-ok (bad_doi u asked) invalid_doi _ db h4 in
      (
        checked,
        ground (arith, current),
        ground (arith, allowed),
        (or_raise-eq-ok o invalid_correction db p).0,
        h5,
      )

-- What a correction leaves behind: the entry is stored, the review and the source stay as they were,
-- and no other entry is touched.
pub record Corrected (pk : ℕ) (db : Db) (e' : Entry) (db' : Db) : Type 0 where
  pub before : Entry
  pub found : find_entry db pk ≡ some before
  pub stored : find_entry db' pk ≡ some e'
  pub same_status : e'.status ≡ before.status
  pub same_target : e'.merge_target ≡ before.merge_target
  pub same_normalized : e'.normalized ≡ before.normalized
  pub same_raw : e'.raw ≡ before.raw
  pub other_entries : (j : ℕ) → j ≢ pk → find_entry db' j ≡ find_entry db j

pub write_correction-Corrected :
    (u : Unicode) (user : User) (pk : ℕ) (c : Catalogue) (e : Entry) (os : Overrides)
    (reason key : Text) (digest : Option ℕ) (db : Db) {e' : Entry} {db' : Db}
    → find_entry db pk ≡ some e
    → write_correction u user c e os reason key digest db ≡ ok (e', db')
    → Corrected pk db e' db' × (e' ≡ record e { overrides = os })
unfolding write_correction bump
write_correction-Corrected u user pk c e os reason key digest db {e'} {db'} f h =
    let now : Entry = record e { overrides = os } in
    let same : now ≡ e' = ground arith in
    let is_pk = key-find_row entry_id pk db.entries f in
    let es : db'.entries ≡ set_row entry_id now db.entries = ground arith in
    (
      record {
        before = e;
        found = f;
        stored = rw es (find_row-set_self entry_id pk now db.entries f is_pk ∙ ap some same);
        same_status = ap (λ (x : Entry). x.status) (sym same);
        same_target = ap (λ (x : Entry). x.merge_target) (sym same);
        same_normalized = ap (λ (x : Entry). x.normalized) (sym same);
        same_raw = ap (λ (x : Entry). x.raw) (sym same);
        other_entries =
            λ j ne. rw es (find_row-set_ne entry_id j now db.entries (λ q. ne (sym q ∙ is_pk)));
      },
      sym same,
    )

module _ (u : Unicode) (sha256 : Payload → ℕ) where
  -- The entry, the catalogue and the event with the key of a correction that succeeded, and what was left
  -- to do.
  pub record Edited (user : User) (pk : ℕ) (values : Json) (reason : Text) (expected now : ℕ)
      (key : Text) (db : Db) (e' : Entry) (db' : Db) : Type 0 where
    pub entry : Entry
    pub c : Catalogue
    pub prior : Option AuditEvent
    pub digest : Option ℕ
    pub entry_found : find_entry db pk ≡ some entry
    pub opened : Opened user db entry.catalogue c
    pub keyed :
        deduplicate sha256 c key (edit_payload pk values reason expected) db
        ≡ ok ((prior, digest), db)
    pub rest :
        unless_prior prior entry (edit_new u user c entry values reason expected now key digest) db
        ≡ ok (e', db')

  pub edit_fields-Edited :
      (user : User) (pk : ℕ) (values : Json) (reason : Text) (expected now : ℕ) (key : Text)
      (db : Db) {e' : Entry} {db' : Db}
      → edit_fields u sha256 user pk values reason expected now key db ≡ ok (e', db')
      → Edited user pk values reason expected now key db e' db'
  unfolding edit_fields
  edit_fields-Edited user pk values reason expected now key db h =
      let (e, p1, h1) =
        read-eq-ok (get_entry user pk) _ db (λ a d p. (get_entry-eq-ok user pk db p).1) h in
      let (c, p2, h2) =
        read-eq-ok (get_catalogue user e.catalogue) _ db
          (λ a d p. (get_catalogue-eq-ok user e.catalogue db p).1) h1 in
      let payload = edit_payload pk values reason expected in
      let (found, p3, h3) =
        read-eq-ok (deduplicate sha256 c key payload) _ db
          (λ a d p. deduplicate-eq-ok sha256 c key payload db p) h2 in
      record {
        entry = e;
        c = c;
        prior = found.0;
        digest = found.1;
        entry_found = (get_entry-eq-ok user pk db p1).0;
        opened = (get_catalogue-eq-ok user e.catalogue db p2).0;
        keyed = p3;
        rest = h3;
      }

  -- The entry, and either nothing was done or its overrides were written.
  edit_fields-cases :
      (user : User) (pk : ℕ) (values : Json) (reason : Text) (expected now : ℕ) (key : Text)
      (db : Db) {e' : Entry} {db' : Db}
      → edit_fields u sha256 user pk values reason expected now key db ≡ ok (e', db')
      → (e : Entry) × (find_entry db pk ≡ some e)
        × ((e' ≡ e)
            ⊎ ((checked : Fields) × (e' ≡ record e {
              overrides = new_overrides u user reason now checked (fields_of values) e.overrides;
            })))
  edit_fields-cases user pk values reason expected now key db h =
      let o = edit_fields-Edited user pk values reason expected now key db h in
      (
        o.entry,
        o.entry_found,
        elim (unless_prior-eq-ok o.prior o.entry
            (edit_new u user o.c o.entry values reason expected now key o.digest) db o.rest) [
              | inl (event, p, q, same) ↦ inl q
              | inr (p, m) ↦
                  let (checked, current, allowed, n, wrote) =
                    edit_new-wrote u user o.c o.entry values reason expected now key o.digest db
                      m in
                  let asked = fields_of values in
                  let journal = with_journal asked checked in
                  let os = new_overrides u user reason now journal asked o.entry.overrides in
                  inr (
                    journal,
                    (write_correction-Corrected u user pk o.c o.entry os reason key o.digest db
                        o.entry_found wrote).1,
                  )
            ],
      )

  -- A correction that succeeds leaves the effective value of every field that it does not name, except
  -- for the key of the title.
  pub effective-edit_fields :
      (user : User) (pk : ℕ) (values : Json) (reason : Text) (expected now : ℕ) (key : Text)
      (db : Db) (e : Entry) (k : String) {e' : Entry} {db' : Db}
      → find_entry db pk ≡ some e
      → has k (fields_of values) ≡ false
      → str_eq "title_key" k ≡ false
      → edit_fields u sha256 user pk values reason expected now key db ≡ ok (e', db')
      → get k (effective e') ≡ get k (effective e)
  unfolding effective
  effective-edit_fields user pk values reason expected now key db e k f other title h =
      let (x, g, outcome) = edit_fields-cases user pk values reason expected now key db h in
      let is_e : x ≡ e = ground (arith, f, g) in
      elim outcome [
        | inl q ↦ ap (λ (y : Entry). get k (effective y)) (q ∙ is_e)
        | inr (checked, q) ↦
            ap (λ (y : Entry). get k (effective y)) q
            ∙ get-new_overrides u user reason now checked (fields_of values) x.overrides k
                x.normalized other title
            ∙ ap (λ (y : Entry). get k (effective y)) is_e
      ]
