-- ===== src/Catalogues/Services/Selections/Import.antt =====
-- The import of a selection: its counts, the limit of the catalogue, and no record twice.
use mathlib.Core.Path.{subst}
use research_desk.Prelude.{
  ℕ, suc, ◌+◌, ◌≤◌, ◌≡◌, refl, ap, ◌∙◌, Bool, true, false, not, ◌&&◌, Option, none, some, List, [],
  ◌∷◌, ◌++◌, length, ltb, ◌==◌, eq_text, All, arith, append_assoc, append-nil, length-append,
  All-append,
}
use research_desk.Unicode.{Unicode, str_of}
use research_desk.Json.{Json, null, str, truthy, is_str, is_null}
use research_desk.Table.{find_where, count_where, count_where-append}
use research_desk.Catalogues.Model.{
  Catalogue, Row, Summary, Selection, Entry, Db, catalogue_limit, invalid_row, null_identifier,
  raise_if, ok, pure, gets, ◌>>=◌, ◌>>◌,
}
use research_desk.Catalogues.Model.Inversion.{>>=-eq-ok, guard-eq-ok}
use research_desk.Catalogues.Services.Selections.{
  is_valid_row, validate_row, existing_entry, new_entry, insert_entry, has_changed, has_null,
  count_created, count_skipped, import_found, import_row, import_rows, in_catalogue, is_blank,
  max_entries, is_blank,
}

-- Two entries of a catalogue with the same provider and the same identifier, which is not empty.
abbrev pub clash : ℕ → Entry → Entry → Bool
clash pk a b =
    (a.catalogue == pk
      && (b.catalogue == pk
          && (eq_text a.provider b.provider && eq_text a.external_id b.external_id)))
    && not (is_blank b.external_id)

-- The identifier of each row is a text.
abbrev pub have_text_ids : List Row → Bool
have_text_ids [] = true
have_text_ids (row ∷ rows) = is_str row.external_id && have_text_ids rows

-- No entry clashes with a later one.
abbrev pub IsDeduplicated : ℕ → List Entry → Type 0
IsDeduplicated pk [] = Unit
IsDeduplicated pk (e ∷ es) = All (λ x. clash pk e x ≡ false) es × IsDeduplicated pk es

IsDeduplicated-append_one :
    (pk : ℕ) (es : List Entry) (x : Entry)
    → IsDeduplicated pk es
    → All (λ e. clash pk e x ≡ false) es
    → IsDeduplicated pk (es ++ x ∷ [])
IsDeduplicated-append_one pk [] x d h = (tt, tt)
IsDeduplicated-append_one pk (e ∷ es) x d h = (
  All-append (λ y. clash pk e y ≡ false) es (x ∷ []) d.0 (h.0, tt),
  IsDeduplicated-append_one pk es x d.1 h.1,
)

truthy-str_of : (u : Unicode) (v : Json) → is_str v ≡ true → truthy v ≡ not (is_blank (str_of u v))
unfolding truthy
truthy-str_of u (str []) h = refl
truthy-str_of u (str (c ∷ t)) h = refl
truthy-str_of u null h = cc
truthy-str_of u _ h = cc

new_entry-apart :
    (u : Unicode) (pk : ℕ) (c : Catalogue) (s : Selection) (position : ℕ) (row : Row)
    (es : List Entry)
    → is_str row.external_id ≡ true
    → is_null row.provider ≡ false
    → existing_entry u c.id row es ≡ none
    → All (λ e. clash c.id e (new_entry u pk c s position row) ≡ false) es
unfolding existing_entry new_entry find_where
new_entry-apart u pk c s position row [] texts given h = tt
new_entry-apart u pk c s position row (e ∷ es) texts given h =
    let t = truthy-str_of u row.external_id texts in
    (
      ground (arith, h, t, given),
      new_entry-apart u pk c s position row es texts given (ground (arith, h, given)),
    )

-- What the import of some rows has done.
pub record Imported (c : Catalogue) (existing rows : ℕ) (texts : Bool) (t t' : Summary)
    (db db' : Db) : Type 0 where
  pub added : List Entry
  pub entries : db'.entries ≡ db.entries ++ added
  pub of_catalogue : count_where (in_catalogue c.id) added ≡ length added
  pub created : t'.created ≡ t.created + length added
  pub all_rows : t'.created + t'.skipped ≡ t.created + t.skipped + rows
  pub limited : existing + t.created ≤ max_entries → existing + t'.created ≤ max_entries
  pub deduplicated : texts ≡ true → IsDeduplicated c.id db.entries → IsDeduplicated c.id db'.entries
  pub same_catalogues : db'.catalogues ≡ db.catalogues
  pub same_selections : db'.selections ≡ db.selections
  pub same_events : db'.events ≡ db.events

import_found-Imported :
    (u : Unicode) (c : Catalogue) (s : Selection) (existing position : ℕ) (row : Row) (t : Summary)
    (o : Option Entry) (db : Db) {t' : Summary} {db' : Db}
    → existing_entry u c.id row db.entries ≡ o
    → import_found u c s existing position row t o db ≡ ok (t', db')
    → Imported c existing 1 (is_str row.external_id) t t' db db'
unfolding import_found insert_entry new_entry count_where
import_found-Imported u c s existing position row t (some e) db {t'} {db'} f h =
    let same_t : t' ≡ count_skipped (has_changed e row) t = ground arith in
    let same_db : db' ≡ db = ground arith in
    record {
      added = [];
      entries = rw (same_db, append-nil);
      of_catalogue = refl;
      created = rw same_t (omega arith);
      all_rows = rw same_t (omega arith);
      limited = λ l. rw same_t l;
      deduplicated = λ texts d. rw same_db d;
      same_catalogues = rw same_db;
      same_selections = rw same_db;
      same_events = rw same_db;
    }
import_found-Imported u c s existing position row t none db {t'} {db'} f h =
    let insert = insert_entry u c s position row >> pure (count_created t) in
    let (within, rest) =
      guard-eq-ok (ltb max_entries (existing + (t.created + 1))) catalogue_limit
        (raise_if (has_null row) null_identifier >> insert) db h in
    let (given, wrote) = guard-eq-ok (has_null row) null_identifier insert db rest in
    let same_t : t' ≡ count_created t = ground arith in
    let e' : Entry = new_entry u db.next_id c s position row in
    let same_entries : db'.entries ≡ db.entries ++ e' ∷ [] = ground arith in
    record {
      added = e' ∷ [];
      entries = same_entries;
      of_catalogue = ground arith;
      created = rw same_t (omega arith);
      all_rows = rw same_t (omega arith);
      limited = λ l. rw same_t (ground (arith, within));
      deduplicated = λ texts d. rw same_entries (
          IsDeduplicated-append_one c.id db.entries e' d (
            new_entry-apart u db.next_id c s position row db.entries texts (ground (arith, given))
              f));
      same_catalogues = ground arith;
      same_selections = ground arith;
      same_events = ground arith;
    }

import_row-Imported :
    (u : Unicode) (c : Catalogue) (s : Selection) (existing position : ℕ) (row : Row) (t : Summary)
    (db : Db) {t' : Summary} {db' : Db}
    → import_row u c s existing position row t db ≡ ok (t', db')
    → Imported c existing 1 (is_str row.external_id) t t' db db'
unfolding import_row validate_row
import_row-Imported u c s existing position row t db h =
    let (valid, rest) =
      guard-eq-ok (not (is_valid_row u row)) invalid_row
        (gets (λ (x : Db). existing_entry u c.id row x.entries)
          >>= import_found u c s existing position row t)
        db h in
    import_found-Imported u c s existing position row t (existing_entry u c.id row db.entries) db
      refl rest

Imported-trans :
    (c : Catalogue) (n a b : ℕ) (x y : Bool) (t t' t'' : Summary) (db db' db'' : Db)
    → Imported c n a x t t' db db'
    → Imported c n b y t' t'' db' db''
    → Imported c n (a + b) (x && y) t t'' db db''
unfolding count_where
Imported-trans c n a b x y t t' t'' db db' db'' p q = record {
  added = p.added ++ q.added;
  entries = q.entries ∙ ap (λ (es : List Entry). es ++ q.added) p.entries ∙ rw append_assoc;
  of_catalogue = omega (
    arith,
    count_where-append (in_catalogue c.id) p.added q.added,
    length-append p.added q.added,
    p.of_catalogue,
    q.of_catalogue,
  );
  created = omega (arith, length-append p.added q.added, p.created, q.created);
  all_rows = omega (arith, p.all_rows, q.all_rows);
  limited = λ l. q.limited (p.limited l);
  deduplicated =
      λ both d. q.deduplicated (ground (arith, both)) (p.deduplicated (ground (arith, both)) d);
  same_catalogues = q.same_catalogues ∙ p.same_catalogues;
  same_selections = q.same_selections ∙ p.same_selections;
  same_events = q.same_events ∙ p.same_events;
}

pub import_rows-Imported :
    (u : Unicode) (c : Catalogue) (s : Selection) (existing position : ℕ) (rows : List Row)
    (t : Summary) (db : Db) {t' : Summary} {db' : Db}
    → import_rows u c s existing position rows t db ≡ ok (t', db')
    → Imported c existing (length rows) (have_text_ids rows) t t' db db'
unfolding import_rows count_where
import_rows-Imported u c s existing position [] t db {t'} {db'} h =
    let same_t : t' ≡ t = ground arith in
    let same_db : db' ≡ db = ground arith in
    record {
      added = [];
      entries = rw (same_db, append-nil);
      of_catalogue = refl;
      created = rw same_t (omega arith);
      all_rows = rw same_t (omega arith);
      limited = λ l. rw same_t l;
      deduplicated = λ texts d. rw same_db d;
      same_catalogues = rw same_db;
      same_selections = rw same_db;
      same_events = rw same_db;
    }
import_rows-Imported u c s existing position (row ∷ rows) t db {t'} {db'} h =
    let (t1, db1, first, rest) =
      >>=-eq-ok (import_row u c s existing position row t)
        (import_rows u c s existing (suc position) rows) db h in
    let one_more : 1 + length rows ≡ suc (length rows) = omega arith in
    subst
      (λ (n : ℕ). Imported c existing n (is_str row.external_id && have_text_ids rows) t t' db db')
      one_more
      (Imported-trans c existing 1 (length rows) (is_str row.external_id) (have_text_ids rows) t t1
        t' db db1 db' (import_row-Imported u c s existing position row t db first)
        (import_rows-Imported u c s existing (suc position) rows t1 db1 rest))
