-- ===== src/Records/Services/Reviews/Saving.antt =====
-- What `ingest_record` saves: a record, its revision and its versions.
use mathlib.Core.Path.{subst}
use research_desk.Prelude.{
  ℕ, ◌+◌, ◌≡◌, refl, sym, ◌∙◌, Bool, Option, none, some, List, [], ◌∷◌, ◌++◌, arith, Bool-cases,
  inl, inr, ap, if◌then◌else◌, ◌==◌,
}
use research_desk.Json.{Json, Fields}
use research_desk.Table.{find_row, set_row, find_where}
use research_desk.Transactions.{Result, ok}
use research_desk.Records.Models.{Db, SourceRecord, SourceRecordVersion, source_id, pair_id}
use research_desk.Records.Services.{DomainError}
use research_desk.Records.Services.Ingest.{get_version, has_hash}
use research_desk.Records.Services.Regroup.{bump_all}
use research_desk.Records.Services.Regroup.Frame.{KeepsAll}
use research_desk.Records.Services.Regroup.Assigned.{pub_of}
use research_desk.Records.Services.Regroup.Publications.{DistinctIds}
use research_desk.Records.Services.Reviews.Stale.{find_row-bump_pairs}
use research_desk.Records.Services.Reviews.Adding.{Adds, Adds-refl}

-- A record that is saved in its publication.
pub_of-set_row :
    (r : SourceRecord) (a : ℕ) (rs : List SourceRecord)
    → pub_of r.id rs ≡ some r.publication
    → pub_of a (set_row source_id r rs) ≡ pub_of a rs
unfolding pub_of set_row
pub_of-set_row r a [] h = refl
pub_of-set_row r a (x ∷ rs) h = ground (arith, h, pub_of-set_row r a rs)

set_row-DistinctIds :
    (r : SourceRecord) (rs : List SourceRecord)
    → pub_of r.id rs ≡ some r.publication
    → DistinctIds rs
    → DistinctIds (set_row source_id r rs)
unfolding pub_of set_row
set_row-DistinctIds r [] h d = tt
set_row-DistinctIds r (x ∷ rs) h d = elim (Bool-cases (x.id == r.id)) [
  | inl e ↦
      let same : x.id ≡ r.id = ground (arith, e) in
      rw e (subst (λ (i : ℕ). pub_of i rs ≡ none) same d.0, d.1)
  | inr e ↦
      let there : pub_of r.id rs ≡ some r.publication = rw e at h in
      rw e (pub_of-set_row r x.id rs there ∙ d.0, set_row-DistinctIds r rs there d.1)
]

pub find_where-pub_of :
    (p : SourceRecord → Bool) (rs : List SourceRecord) {r : SourceRecord}
    → DistinctIds rs
    → find_where p rs ≡ some r
    → pub_of r.id rs ≡ some r.publication
unfolding find_where pub_of
find_where-pub_of p [] d h = cc
find_where-pub_of p (x ∷ rs) {r} d h = elim (Bool-cases (p x)) [
  | inl e ↦
      let same : ◌≡◌ {A = Option SourceRecord} (some x) (some r) = rw e at h in
      let one : x ≡ r = ground (arith, same) in
      subst
        (λ (y : SourceRecord).
          (if x.id == y.id then some x.publication else pub_of y.id rs) ≡ some y.publication)
        one (ground arith)
  | inr e ↦
      let there = find_where-pub_of p rs d.1 (rw e at h) in
      elim (Bool-cases (x.id == r.id)) [
        | inr n ↦ rw n there
        | inl y ↦
            let same : x.id ≡ r.id = ground (arith, y) in
            let no_such : none ≡ some r.publication =
              sym (subst (λ (i : ℕ). pub_of i rs ≡ none) same d.0) ∙ there in
            cc
      ]
]

pub saved-Adds :
    (db : Db) (r : SourceRecord)
    → pub_of r.id db.records ≡ some r.publication
    → Adds db (record db { records = set_row source_id r db.records })
saved-Adds db r h = record {
  decisions = refl;
  grows = omega arith;
  pubs = λ a. pub_of-set_row r a db.records h;
  distinct = λ d. set_row-DistinctIds r db.records h d;
  pairs = λ pk pair f. (pair, f, refl, refl);
}

pub KeepsAll-Adds : (db db' : Db) → KeepsAll db db' → Adds db db'
KeepsAll-Adds db db' k = record {
  decisions = k.kept.decisions;
  grows = omega (arith, k.next_id);
  pubs = λ a. ap (pub_of a) k.records;
  distinct = subst DistinctIds (sym k.records);
  pairs = λ pk pair f. (pair, ap (find_row pair_id pk) k.kept.pairs ∙ f, refl, refl);
}

pub bump_all-Adds : (ids : List ℕ) (db : Db) → Adds db (bump_all ids db)
bump_all-Adds ids db = record {
  decisions = refl;
  grows = omega arith;
  pubs = λ a. refl;
  distinct = λ d. d;
  pairs = λ pk pair f. let (q, g, le, l, r) = find_row-bump_pairs ids pk db.pairs f in (q, g, l, r);
}

pub get_version-Adds :
    (pk : ℕ) (raw : Json) (normalized : Fields) (hash : ℕ) (db : Db) {v : SourceRecordVersion}
    {db' : Db}
    → get_version pk raw normalized hash db ≡ ok (v, db')
    → Adds db db'
unfolding get_version
get_version-Adds pk raw normalized hash db {v} {db'} h =
    let w : SourceRecordVersion = record {
      id = db.next_id;
      record_id = pk;
      raw = raw;
      normalized = normalized;
      content_hash = hash;
    } in
    found w (db.versions ++ (w ∷ [])) (find_where (has_hash pk hash) db.versions) h
  where
    found :
        (w : SourceRecordVersion) (versions : List SourceRecordVersion)
        (o : Option SourceRecordVersion)
        → ◌≡◌ {A = Result DomainError (SourceRecordVersion × Db)}
            (elim o [
              | some x ↦ ok (x, db)
              | none ↦ ok (w, record db { versions = versions; next_id = db.next_id + 1 })
            ])
            (ok (v, db'))
        → Adds db db'
    found w versions (some x) k =
        let same : db ≡ db' = ground (arith, k) in subst (Adds db) same (Adds-refl db)
    found w versions none k =
        let same : record db { versions = versions; next_id = db.next_id + 1 } ≡ db' =
          ground (arith, k) in
        subst (Adds db) same (record {
          decisions = refl;
          grows = omega arith;
          pubs = λ a. refl;
          distinct = λ d. d;
          pairs = λ j pair f. (pair, f, refl, refl);
        })
