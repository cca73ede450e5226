-- ===== src/Records/Services/Reviews/Tests.antt =====
-- Two records with one DOI are ingested and paired, and then accepted as one.
use research_desk.Prelude.{ℕ, Bool, true, false, ◌≡◌, refl, some, Text, codes}
use research_desk.Unicode.{ascii}
use research_desk.Json.{Json, Fields, field, end, str, obj, truthy, get}
use research_desk.Unicode.{elem, runs}
use research_desk.Json.{eq_json}
use research_desk.Records.Matching.{compare_metadata, below_conflict}
use research_desk.Table.{set_row}
use research_desk.Transactions.{Result, ok, err}
use research_desk.Records.Models.{Db, SourceRecord, ReviewDecision}
use research_desk.Records.Services.{DomainError}
use research_desk.Records.Services.Ingest.{ingest_record, Ingested}
use research_desk.Records.Services.Candidates.{generate_candidates}
use research_desk.Records.Services.Checks.{Payload}
use research_desk.Records.Services.Reviews.{decide}
use research_desk.Records.Services.Reviews.Consistent.{IsConsistent}
use research_desk.Records.Services.Reviews.Reachable.{
  empty_db, Reachable, start, ingested, generated, decided, reachable-IsConsistent,
}

abbrev with_doi : Fields
with_doi = field "doi" (str (codes "10.1/x")) end

abbrev no_ratio : Text → Text → ℕ
no_ratio s t = 0

abbrev no_hash : Json → Fields → ℕ
no_hash raw normalized = 0

abbrev hash : Payload → ℕ
hash payload = 0

abbrev db_of : {A : Type 0} → Result DomainError (A × Db) → Db
db_of (ok (a, db)) = db
db_of (err e) = empty_db

abbrev first_source : Result DomainError ((SourceRecord × Ingested) × Db)
first_source =
    ingest_record ascii no_ratio no_hash "crossref" (codes "a") (obj end) (some with_doi) empty_db

abbrev second_source : Result DomainError ((SourceRecord × Ingested) × Db)
second_source =
    ingest_record ascii no_ratio no_hash "openalex" (codes "b") (obj end) (some with_doi)
      (db_of first_source)

abbrev paired : Result DomainError (ℕ × Db)
paired = generate_candidates ascii no_ratio no_ratio 20 (db_of second_source)

abbrev accepted : Result DomainError (ReviewDecision × Db)
accepted =
    decide hash 7 (codes "accept") (codes "ann") (codes "") (some 1) (codes "k") 0 (db_of paired)

abbrev is_ok : {A : Type 0} → Result DomainError (A × Db) → Bool
is_ok (ok x) = true
is_ok (err e) = false

is_ok-db_of :
    {A : Type 0}
    → (r : Result DomainError (A × Db)) → is_ok r ≡ true
    → (x : A) × (r ≡ ok (x, db_of r))
is_ok-db_of (ok (x, db)) h = (x, refl)
is_ok-db_of (err e) h = cc

first_source-ok : is_ok first_source ≡ true
unfolding ingest_record
first_source-ok = refl

second_source-ok : is_ok second_source ≡ true
unfolding ingest_record set_row
second_source-ok = refl

paired-ok : is_ok paired ≡ true
unfolding ingest_record generate_candidates set_row get
paired-ok = refl

accepted-ok : is_ok accepted ≡ true
unfolding ingest_record generate_candidates decide set_row get truthy compare_metadata eq_json
    below_conflict elem runs
accepted-ok = refl

abbrev steps : Reachable ascii no_ratio no_ratio no_hash hash (db_of accepted)
steps =
    decided 7 (codes "accept") (codes "ann") (codes "") (some 1) (codes "k") 0
      (generated 20
        (ingested "openalex" (codes "b") (obj end) (some with_doi)
          (ingested "crossref" (codes "a") (obj end) (some with_doi) start
            (is_ok-db_of first_source first_source-ok).1)
          (is_ok-db_of second_source second_source-ok).1)
        (is_ok-db_of paired paired-ok).1)
      (is_ok-db_of accepted accepted-ok).1

reachable-IsConsistent_example : IsConsistent (db_of accepted)
reachable-IsConsistent_example = reachable-IsConsistent ascii no_ratio no_ratio no_hash hash steps
