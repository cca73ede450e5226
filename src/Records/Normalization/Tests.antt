-- ===== src/Records/Normalization/Tests.antt =====
-- Normalization of small records.
use mathlib.Core.Option
use research_desk.Prelude.{◌≡◌, refl, [], codes, arith, split, join_spaces, is_space}
use research_desk.Json.{
  Fields, str, int, pos, obj, field, end, get, truthy, items, to_items, arr, nil,
}
use research_desk.Unicode.{ascii}
use research_desk.Records.Normalization.Checked.{ok, err, each, date_parts_missing}
use research_desk.Records.Normalization.Dates.{dates_of, check_dates, year_from, year_is_valid}
use research_desk.Records.Normalization.Dates.Year.{HasDecimals, IsYear}
use research_desk.Records.Normalization.Doi.{normalize_doi, normalize_title, count_digits}
use research_desk.Records.Normalization.Record.{normalize_record, normalized_fields}
use research_desk.Records.Normalization.Record.Year.{normalize_record-IsYear}

abbrev sample : Fields
sample = field "title" (str (codes "A  Title")) (
    field "doi" (str (codes "https://doi.org/10.1234/AB"))
      (field "publication_date" (str (codes "1999-05")) end))

abbrev result : Fields
result = field "doi" (str (codes "10.1234/ab")) (
    field "title" (str (codes "A  Title")) (
      field "title_key" (str (codes "a title")) (
        field "authors" (arr nil) (
          field "year" (int (pos 1999)) (
            field "dates" (obj (field "publication_date" (str (codes "1999-05")) end)) (
              field "type" (str [])
                (field "source_type" (str []) (field "abstract" (str []) end))))))))

normalize_run : normalize_record ascii "csv" (obj sample) ≡ ok result
unfolding normalize_record truthy get each items check_dates dates_of year_is_valid
    normalized_fields normalize_doi normalize_title to_items year_from Option.bind join_spaces
    is_space split count_digits
normalize_run = refl

date_parts_run :
    normalize_record ascii "csv" (obj (field "published" (str (codes "1999")) end))
    ≡ err (date_parts_missing "published")
unfolding normalize_record truthy get each items check_dates dates_of
date_parts_run = refl

ascii-HasDecimals : HasDecimals ascii
ascii-HasDecimals c = ground arith

normalize_record-IsYear_example : IsYear (get "year" result)
normalize_record-IsYear_example =
    normalize_record-IsYear ascii "csv" (obj sample) ascii-HasDecimals normalize_run
