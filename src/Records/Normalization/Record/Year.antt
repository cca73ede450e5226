-- ===== src/Records/Normalization/Record/Year.antt =====
-- What the fields of a record that `normalize_record` accepts look like.
use Prim.Native.String.{String}
use research_desk.Prelude.{◌≡◌, Bool, true, List, [], ◌∷◌, arith, Text}
use research_desk.Json.{Json, Fields, null, obj, or_else, get, text_of, is_str, is_str_or_none}
use research_desk.Unicode.{Unicode}
use research_desk.Records.Normalization.Checked.{
  Problem, title_not_text, not_text, year_invalid, ok, require, each, >>=-eq-ok,
}
use research_desk.Records.Normalization.Dates.{dates_of, check_dates, year_from, year_is_valid}
use research_desk.Records.Normalization.Dates.Year.{IsYear, HasDecimals, year_from-IsYear}
use research_desk.Records.Normalization.Record.{
  title_of, authors_of, check_author, normalized_fields, normalize_fields, normalize_record,
}

module _ (u : Unicode) where
  -- The parts that an accepted record is made of.
  record Accepted (m : Fields) : Type 0 where
    raw : Fields
    title : Text
    authors : List Json
    year : Json
    valid : year_is_valid u year ≡ true
    dated : check_dates u (dates_of raw) ≡ ok tt
    made :
        m ≡ normalized_fields u raw title authors (dates_of raw) (year_from u year (dates_of raw))

require-ok : (b : Bool) (e : Problem) {w : Unit {0}} → require b e ≡ ok w → b ≡ true
require-ok b e h = ground arith

module _ (u : Unicode) where
  normalize_fields-Accepted :
      (provider : String) (raw : Fields) {m : Fields}
      → normalize_fields u provider raw ≡ ok m
      → Accepted u m
  unfolding normalize_fields
  normalize_fields-Accepted provider raw h =
      let (_, _, h1) = >>=-eq-ok (require (is_str (title_of raw)) title_not_text) _ h in
      let (_, _, h2) =
        >>=-eq-ok
          (each (λ key. require (is_str_or_none (get key raw)) (not_text key))
            ("DOI" ∷ "doi" ∷ "type" ∷ "abstract" ∷ []))
          _ h1 in
      let (authors, _, h3) = >>=-eq-ok (authors_of provider raw) _ h2 in
      let (_, _, h4) = >>=-eq-ok (each check_author authors) _ h3 in
      let (_, d, h5) = >>=-eq-ok (check_dates u (dates_of raw)) _ h4 in
      let (_, v, h6) =
        >>=-eq-ok
          (require (year_is_valid u (or_else (get "year" raw) (get "publication_year" raw)))
            year_invalid)
          _ h5 in
      record {
        raw = raw;
        title = text_of (title_of raw);
        authors = authors;
        year = or_else (get "year" raw) (get "publication_year" raw);
        valid = require-ok _ _ v;
        dated = d;
        made = cc (h6);
      }

  normalize_record-Accepted :
      (provider : String) (raw : Json) {m : Fields}
      → normalize_record u provider raw ≡ ok m
      → Accepted u m
  unfolding normalize_record
  normalize_record-Accepted provider (obj raw) h = normalize_fields-Accepted provider raw h
  normalize_record-Accepted provider null h = cc
  normalize_record-Accepted provider _ h = cc

  -- The year of a record that is accepted is missing, or a number of at most four digits, also
  -- where it was read out of one of the dates.
  pub normalize_record-IsYear :
      (provider : String) (raw : Json) {m : Fields}
      → HasDecimals u
      → normalize_record u provider raw ≡ ok m
      → IsYear (get "year" m)
  unfolding normalized_fields get
  normalize_record-IsYear provider raw dec h =
      let a = normalize_record-Accepted provider raw h in
      rw a.made (year_from-IsYear u dec a.year (dates_of a.raw) a.valid a.dated)
