-- ===== src/Catalogues/Services/Selections/Confirm.antt =====
-- What a confirmation that succeeds has done.
use mathlib.Core.Path.{subst}
use research_desk.Prelude.{
  ℕ, suc, ◌+◌, ◌≤◌, ◌≡◌, ap, sym, ◌∙◌, true, not, some, List, [], ◌∷◌, ◌++◌, length, ◌==◌, arith,
  Bool-cases, inl, inr, ◌⊎◌, length-append,
}
use research_desk.Unicode.{Unicode}
use research_desk.Table.{set_row, count_where, count_where-append, key-find_row}
use research_desk.Catalogues.Model.{
  User, Catalogue, Summary, Selection, Entry, Db, not_found, stale_revision, ok, Transaction,
  or_raise,
}
use research_desk.Catalogues.Model.Inversion.{>>=-eq-ok, or_raise-eq-ok, guard-eq-ok, read-eq-ok}
use research_desk.Catalogues.Services.Access.{catalogue_id, get_catalogue, check_revision, bump}
use research_desk.Catalogues.Services.Access.Laws.{Opened, get_catalogue-eq-ok}
use research_desk.Catalogues.Services.Selections.{
  import_event, selection_id, find_selection, owned_selection, import_rows, no_rows,
  close_selection, confirm_new, unless_consumed, confirm_selection, in_catalogue,
}
use research_desk.Catalogues.Services.Selections.Import.{
  Imported, have_text_ids, IsDeduplicated, import_rows-Imported,
}

-- The selection and the catalogue of a confirmation that succeeded, and what was left to do.
pub record Checks (u : Unicode) (user : User) (pk expected : ℕ) (db : Db) (s' : Selection)
    (db' : Db) : Type 0 where
  pub selection : Selection
  pub c : Catalogue
  pub signed_in : user.is_authenticated ≡ true
  pub owned : owned_selection user db (find_selection db pk) ≡ some selection
  pub opened : Opened user db selection.catalogue c
  pub rest : unless_consumed selection (confirm_new u user c selection expected) db ≡ ok (s', db')

confirm_selection-Checks :
    (u : Unicode) (user : User) (pk expected : ℕ) (db : Db) {s' : Selection} {db' : Db}
    → confirm_selection u user pk expected db ≡ ok (s', db')
    → Checks u user pk expected db s' db'
unfolding confirm_selection
confirm_selection-Checks u user pk expected db {s'} {db'} h =
    let (signed, h1) = guard-eq-ok (not user.is_authenticated) not_found _ db h in
    let found = owned_selection user db (find_selection db pk) in
    let (s, p, h2) =
      read-eq-ok (or_raise found not_found) _ db (λ a d p. (or_raise-eq-ok found not_found db p).1)
        h1 in
    let (c, p2, h3) =
      read-eq-ok (get_catalogue user s.catalogue) _ db
        (λ a d p. (get_catalogue-eq-ok user s.catalogue db p).1) h2 in
    record {
      selection = s;
      c = c;
      signed_in = ground (arith, signed);
      owned = (or_raise-eq-ok found not_found db p).0;
      opened = (get_catalogue-eq-ok user s.catalogue db p2).0;
      rest = h3;
    }

-- A confirmation of a selection that was new: its counts, the entries that were added after the
-- others, the limit, the event and the revision.
pub record Confirmed (expected : ℕ) (c : Catalogue) (s : Selection) (db : Db) (s' : Selection)
    (db' : Db) : Type 0 where
  pub summary : Summary
  pub closed : s' ≡ record s { consumed = true; summary = some summary }
  pub all_rows : summary.created + summary.skipped ≡ length s.rows
  pub added : List Entry
  pub entries : db'.entries ≡ db.entries ++ added
  pub created : length added ≡ summary.created
  pub current : c.revision ≡ expected
  pub catalogues :
      db'.catalogues ≡ set_row catalogue_id (record c { revision = c.revision + 1 }) db.catalogues
  pub selections : db'.selections ≡ set_row selection_id s' db.selections
  pub one_event : length db'.events ≡ suc (length db.events)

-- The import and what closes the selection, of a confirmation that was new.
record Closed (u : Unicode) (user : User) (c : Catalogue) (s : Selection) (expected : ℕ) (db : Db)
    (s' : Selection) (db' : Db) : Type 0 where
  current : c.revision ≡ expected
  t : Summary
  imported_db : Db
  imported :
      Imported c
        (count_where (in_catalogue c.id) db.entries)
        (length s.rows)
        (have_text_ids s.rows)
        no_rows
        t
        db
        imported_db
  closed : close_selection user c s t imported_db ≡ ok (s', db')
  same_entries : db'.entries ≡ imported_db.entries

confirm_new-Closed :
    (u : Unicode) (user : User) (c : Catalogue) (s : Selection) (expected : ℕ) (db : Db)
    {s' : Selection} {db' : Db}
    → confirm_new u user c s expected db ≡ ok (s', db')
    → Closed u user c s expected db s' db'
unfolding confirm_new check_revision close_selection bump
confirm_new-Closed u user c s expected db {s'} {db'} h =
    let (current, h1) = guard-eq-ok (not (c.revision == expected)) stale_revision _ db h in
    let existing = count_where (in_catalogue c.id) db.entries in
    let (t, db1, imported, closed) =
      >>=-eq-ok (import_rows u c s existing 0 s.rows no_rows) (close_selection user c s) db h1 in
    record {
      current = ground (arith, current);
      t = t;
      imported_db = db1;
      imported = import_rows-Imported u c s existing 0 s.rows no_rows db imported;
      closed = closed;
      same_entries = ground (arith, closed);
    }

close_selection-eq-ok :
    (user : User) (c : Catalogue) (s : Selection) (t : Summary) (db : Db) {s' : Selection}
    {db' : Db}
    → close_selection user c s t db ≡ ok (s', db')
    → (s' ≡ record s { consumed = true; summary = some t })
      × (db'.catalogues
          ≡ set_row catalogue_id (record c { revision = c.revision + 1 }) db.catalogues)
      × (db'.selections ≡ set_row selection_id s' db.selections)
      × (length db'.events ≡ suc (length db.events))
unfolding close_selection bump
close_selection-eq-ok user c s t db {s'} {db'} h =
    let same_s : record s { consumed = true; summary = some t } ≡ s' = ground arith in
    (
      sym same_s,
      ground arith,
      ground (arith, same_s),
      ground (arith, length-append db.events (import_event user c s t db.next_id ∷ [])),
    )

Closed-Confirmed :
    (u : Unicode) (user : User) (c : Catalogue) (s : Selection) (expected : ℕ) (db : Db)
    {s' : Selection} {db' : Db}
    → Closed u user c s expected db s' db'
    → Confirmed expected c s db s' db'
Closed-Confirmed u user c s expected db {s'} {db'} r =
    let (closed, catalogues, selections, events) =
      close_selection-eq-ok user c s r.t r.imported_db r.closed in
    record {
      summary = r.t;
      closed = closed;
      all_rows = omega (arith, r.imported.all_rows);
      added = r.imported.added;
      entries = r.same_entries ∙ r.imported.entries;
      created = omega (arith, r.imported.created);
      current = r.current;
      catalogues = rw (sym r.imported.same_catalogues) catalogues;
      selections = rw (sym r.imported.same_selections) selections;
      one_event = rw (sym r.imported.same_events) events;
    }

unless_consumed-eq-ok :
    (s : Selection) (m : Transaction Selection) (db : Db) {s' : Selection} {db' : Db}
    → unless_consumed s m db ≡ ok (s', db')
    → ((s.consumed ≡ true) × (s' ≡ s) × (db' ≡ db)) ⊎ (m db ≡ ok (s', db'))
unfolding unless_consumed
unless_consumed-eq-ok s m db h = elim (Bool-cases s.consumed) [
  | inl e ↦ inl (e, ground (arith, e), ground (arith, e))
  | inr e ↦ inr (rw e at h)
]

-- The selection and the catalogue are the user's.
pub record Chosen (user : User) (pk : ℕ) (db : Db) (s : Selection) (c : Catalogue) : Type 0 where
  pub owned : owned_selection user db (find_selection db pk) ≡ some s
  pub opened : Opened user db s.catalogue c

-- A confirmation that succeeds, of a selection in a catalogue of the user, either met a consumed
-- selection and changed nothing, or was made for the expected revision, counted every row as created
-- or skipped, added exactly as many entries as it counted as created after those that were there,
-- closed the selection, recorded one event and moved the catalogue to the next revision.
pub confirm_selection-Confirmed :
    (u : Unicode) (user : User) (pk expected : ℕ) (db : Db) {s' : Selection} {db' : Db}
    → confirm_selection u user pk expected db ≡ ok (s', db')
    → (s : Selection) × (c : Catalogue) × Chosen user pk db s c
      × (((s.consumed ≡ true) × (s' ≡ s) × (db' ≡ db)) ⊎ Confirmed expected c s db s' db')
confirm_selection-Confirmed u user pk expected db h =
    let o = confirm_selection-Checks u user pk expected db h in
    (
      o.selection,
      o.c,
      record { owned = o.owned; opened = o.opened },
      elim (unless_consumed-eq-ok o.selection (confirm_new u user o.c o.selection expected) db
          o.rest) [
            | inl same ↦ inl same
            | inr m ↦ inr (
                Closed-Confirmed u user o.c o.selection expected db
                  (confirm_new-Closed u user o.c o.selection expected db m))
          ],
    )

-- The number of entries of a catalogue.
abbrev pub size : ℕ → Db → ℕ
size c db = count_where (in_catalogue c) db.entries

-- A catalogue with at most 1,000 entries has at most 1,000 after its selection was confirmed.
pub confirm_selection-IsLimited :
    (u : Unicode) (user : User) (pk expected : ℕ) (db : Db) (s : Selection) {s' : Selection}
    {db' : Db}
    → owned_selection user db (find_selection db pk) ≡ some s
    → size s.catalogue db ≤ 1000
    → confirm_selection u user pk expected db ≡ ok (s', db')
    → size s.catalogue db' ≤ 1000
confirm_selection-IsLimited u user pk expected db s {s'} {db'} o l h =
    let k = confirm_selection-Checks u user pk expected db h in
    let is_s : k.selection ≡ s = ground (arith, k.owned, o) in
    let is_c : k.c.id ≡ s.catalogue =
      key-find_row catalogue_id k.selection.catalogue db.catalogues k.opened.found
      ∙ ap (λ (x : Selection). x.catalogue) is_s in
    elim (unless_consumed-eq-ok k.selection (confirm_new u user k.c k.selection expected) db
      k.rest) [
        | inl same ↦ rw same.2 l
        | inr m ↦
            let r = confirm_new-Closed u user k.c k.selection expected db m in
            let before : size k.c.id db ≤ 1000 = rw is_c l in
            let limit = r.imported.limited (omega (arith, before)) in
            let all : size k.c.id db'
                ≡ count_where (in_catalogue k.c.id) (db.entries ++ r.imported.added) =
              ap (count_where (in_catalogue k.c.id)) (r.same_entries ∙ r.imported.entries) in
            let after : size k.c.id db' ≤ 1000 = omega (
              arith,
              all,
              count_where-append (in_catalogue k.c.id) db.entries r.imported.added,
              r.imported.of_catalogue,
              r.imported.created,
              limit,
            ) in
            rw (sym is_c) after
      ]

-- Where no two entries of the catalogue have the same provider and the same identifier that is not
-- empty, a confirmation that succeeds of rows whose identifiers are texts keeps it so, also for two rows
-- of one selection.
pub confirm_selection-IsDeduplicated :
    (u : Unicode) (user : User) (pk expected : ℕ) (db : Db) (s : Selection) {s' : Selection}
    {db' : Db}
    → owned_selection user db (find_selection db pk) ≡ some s
    → have_text_ids s.rows ≡ true
    → IsDeduplicated s.catalogue db.entries
    → confirm_selection u user pk expected db ≡ ok (s', db')
    → IsDeduplicated s.catalogue db'.entries
confirm_selection-IsDeduplicated u user pk expected db s {s'} {db'} o texts d h =
    let k = confirm_selection-Checks u user pk expected db h in
    let is_s : k.selection ≡ s = ground (arith, k.owned, o) in
    let is_c : k.c.id ≡ s.catalogue =
      key-find_row catalogue_id k.selection.catalogue db.catalogues k.opened.found
      ∙ ap (λ (x : Selection). x.catalogue) is_s in
    elim (unless_consumed-eq-ok k.selection (confirm_new u user k.c k.selection expected) db
      k.rest) [
        | inl same ↦ rw same.2 d
        | inr m ↦
            let r = confirm_new-Closed u user k.c k.selection expected db m in
            subst (λ (i : ℕ). IsDeduplicated i db'.entries) is_c
              (subst (λ (es : List Entry). IsDeduplicated k.c.id es) (sym r.same_entries)
                (r.imported.deduplicated (ap (λ (x : Selection). have_text_ids x.rows) is_s ∙ texts)
                  (subst (λ (i : ℕ). IsDeduplicated i db.entries) (sym is_c) d)))
      ]
