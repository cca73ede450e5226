-- ===== src/Records/Normalization/Record.antt =====
-- The whole of `normalize_record` (records/normalization.py).
pub mod Year
use Prim.Native.String.{String}
use text.Mathlib.Text.{◌==◌ as str_eq}
use research_desk.Prelude.{
  ℕ, Bool, true, false, not, ◌&&◌, ◌||◌, List, [], ◌∷◌, map, any, all, if◌then◌else◌, Text, codes,
  eq_text, join_spaces,
}
use research_desk.Json.{
  Json, Fields, null, str, arr, nil, obj, end, field, truthy, or_else, get, has, to_items, is_str,
  is_str_or_none, is_obj, is_arr, text_of, list_of, fields_of,
}
use research_desk.Unicode.{Unicode}
use research_desk.Records.Normalization.Checked.{
  payload_not_object, title_not_text, authors_not_list, authorships_invalid, author_invalid,
  year_invalid, not_text, author_not_text, Checked, ok, err, require, each, ◌>>=◌, ◌>>◌,
}
use research_desk.Records.Normalization.Doi.{normalize_doi, normalize_title}
use research_desk.Records.Normalization.Dates.{dates_of, check_dates, year_from, year_is_valid}

-- `title[0] if title else ""` of a list.
title_value : Json → Json
title_value (arr xs) = elim (list_of (arr xs)) [ [] ↦ str [] | t ∷ ts ↦ t ]
title_value title = title

title_of : Fields → Json
unfolding title_value
title_of raw = title_value (or_else (get "title" raw) (or_else (get "display_name" raw) (str [])))

-- One of "authorships", as an author: a missing "display_name" reads as an empty text.
from_authorship : Json → Json
from_authorship a =
    let author = fields_of (get "author" (fields_of a)) in
    obj (
      field "name" (if has "display_name" author then get "display_name" author else str [])
        (field "orcid" (get "orcid" author) end))

is_authorship : Json → Bool
is_authorship a = is_obj a && is_obj (get "author" (fields_of a))

from_authorships : Json → Checked (List Json)
unfolding is_authorship from_authorship
from_authorships given = do
  require (is_arr given && all is_authorship (list_of given)) authorships_invalid
  ok (map from_authorship (list_of given))

authors_of : String → Fields → Checked (List Json)
unfolding from_authorships
authors_of provider raw = do
  let authors = or_else (get "authors" raw) (or_else (get "author" raw) (arr nil))
  require (is_arr authors) authors_not_list
  (if str_eq provider "openalex" && has "authorships" raw
      then from_authorships (get "authorships" raw)
      else ok (list_of authors))

check_author : Json → Checked (Unit {0})
check_author (str t) = ok tt
check_author (obj fs) =
    each (λ key. require (is_str_or_none (get key fs)) (author_not_text key))
      ("name" ∷ "given" ∷ "family" ∷ "orcid" ∷ "ORCID" ∷ [])
check_author _ = err author_invalid

-- `" ".join(filter(None, [given, family]))`.
joined_name : Json → Json → Text
joined_name given family = join_spaces (
    if truthy given
    then (if truthy family then text_of given ∷ text_of family ∷ [] else text_of given ∷ [])
    else (if truthy family then text_of family ∷ [] else []))

unfoldable pub normalize_author : Json → Json
unfolding joined_name
normalize_author (obj fs) = obj (
    field "name" (or_else (get "name" fs) (str (joined_name (get "given" fs) (get "family" fs))))
      (field "orcid" (or_else (get "ORCID" fs) (get "orcid" fs)) end))
normalize_author author = obj (field "name" author end)

kind_of : Text → Text
kind_of t =
    if eq_text t (codes "journal-article")
    then codes "article"
    else (if eq_text t (codes "posted-content")
        then codes "preprint"
        else (if eq_text t (codes "proceedings-article")
            then codes "proceedings"
            else (if eq_text t (codes "book-chapter") then codes "chapter" else t)))

module _ (u : Unicode) where
  -- The dictionary that is returned, from its checked parts.
  unfoldable pub normalized_fields : Fields → Text → List Json → Fields → Json → Fields
  unfolding kind_of normalize_author
  normalized_fields raw title authors dates year =
      let source_type = text_of (get "type" raw) in
      field "doi" (str (normalize_doi u (text_of (or_else (get "DOI" raw) (get "doi" raw))))) (
        field "title" (str title) (
          field "title_key" (str (normalize_title u title)) (
            field "authors" (arr (to_items (map normalize_author authors))) (
              field "year" year (
                field "dates" (obj dates) (
                  field "type" (str (kind_of source_type)) (
                    field "source_type" (str source_type)
                      (field "abstract" (str (text_of (get "abstract" raw))) end))))))))

  normalize_fields : String → Fields → Checked Fields
  unfolding title_of authors_of check_author
  normalize_fields provider raw = do
    let title = title_of raw
    require (is_str title) title_not_text
    each (λ key. require (is_str_or_none (get key raw)) (not_text key))
        ("DOI" ∷ "doi" ∷ "type" ∷ "abstract" ∷ [])
    authors ← authors_of provider raw
    each check_author authors
    let dates = dates_of raw
    check_dates u dates
    let year = or_else (get "year" raw) (get "publication_year" raw)
    require (year_is_valid u year) year_invalid
    ok (normalized_fields raw (text_of title) authors dates (year_from u year dates))

  unfoldable pub normalize_record : String → Json → Checked Fields
  unfolding normalize_fields
  normalize_record provider (obj raw) = normalize_fields provider raw
  normalize_record provider _ = err payload_not_object
