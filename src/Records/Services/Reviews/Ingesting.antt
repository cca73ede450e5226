-- ===== src/Records/Services/Reviews/Ingesting.antt =====
-- `ingest_record` only adds to the database.
use mathlib.Core.Path.{subst}
use Prim.Native.String.{String}
use research_desk.Prelude.{
  ℕ, ◌+◌, ◌≡◌, refl, ◌∙◌, Bool, true, false, not, Option, none, some, [], ◌∷◌, Text, arith,
  if◌then◌else◌,
}
use research_desk.Unicode.{Unicode}
use research_desk.Json.{Json, Fields, get, text_of}
use research_desk.Table.{set_row, find_where}
use research_desk.Transactions.{ok, ◌>>=◌, ◌>>◌, pure, bind-eq-ok, check-eq-ok}
use research_desk.Records.Models.{Db, SourceRecord, SourceRecordVersion, source_id}
use research_desk.Records.Services.{invalid_identifier, record_ids, records_of}
use research_desk.Records.Services.Ingest.{
  create_record, get_version, has_content, pairs_of, adopt, ingest_found, ingest_record,
  has_identifier, normalized_or, is_source, Ingested, created, updated, unchanged,
}
use research_desk.Records.Services.Projection.{project}
use research_desk.Records.Services.Regroup.{bump_all}
use research_desk.Records.Services.Regroup.Frame.{project-KeepsAll}
use research_desk.Records.Services.Regroup.Assigned.{pub_of}
use research_desk.Records.Services.Regroup.Publications.{DistinctIds}
use research_desk.Records.Services.Reviews.Extended.{Extends, Extends-trans, IsGrounded}
use research_desk.Records.Services.Reviews.Adding.{
  Adds, Adds-Extends, Adds-trans, Adds-refl, compare_all-Adds,
}
use research_desk.Records.Services.Reviews.Creating.{created-Extends, created_pub}
use research_desk.Records.Services.Reviews.Saving.{
  find_where-pub_of, saved-Adds, KeepsAll-Adds, bump_all-Adds, get_version-Adds,
}

module _ (u : Unicode) (ratio : Text → Text → ℕ) (hash_content : Json → Fields → ℕ) where
  adopt-Adds :
      (r : SourceRecord) (version : SourceRecordVersion) (normalized : Fields) (db : Db)
      {w : Unit {0}} {db' : Db}
      → pub_of r.id db.records ≡ some r.publication
      → adopt u ratio hash_content r version normalized db ≡ ok (w, db')
      → Adds db db'
  unfolding adopt
  adopt-Adds r version normalized db {w} {db'} f h =
      let r' : SourceRecord = record r {
        current_version = some version.id;
        doi = text_of (get "doi" normalized);
        title_key = text_of (get "title_key" normalized);
      } in
      let db1 : Db = record db { records = set_row source_id r' db.records } in
      let db2 = project r.publication db1 in
      let db3 = bump_all (record_ids (records_of (r.publication ∷ []) db2.records)) db2 in
      let a1 = saved-Adds db r' f in
      let a2 = KeepsAll-Adds db1 db2 (project-KeepsAll r.publication db1) in
      let a3 = bump_all-Adds (record_ids (records_of (r.publication ∷ []) db2.records)) db2 in
      Adds-trans db db3 db' (Adds-trans db db2 db3 (Adds-trans db db1 db2 a1 a2) a3)
        (compare_all-Adds u ratio (pairs_of r.id db3.pairs) db3 h)

  normalized_or-eq-ok :
      (given : Option Fields) (provider : String) (raw : Json) (db : Db) {fs : Fields} {db' : Db}
      → normalized_or u ratio hash_content given provider raw db ≡ ok (fs, db')
      → db' ≡ db
  unfolding normalized_or
  normalized_or-eq-ok (some fs) provider raw db h = ground (arith, h)
  normalized_or-eq-ok none provider raw db h = ground (arith, h)

  -- What follows once the record is there.
  adopted-Adds :
      (r : SourceRecord) (raw : Json) (normalized : Fields) (ingested : Ingested) (db : Db)
      {x : SourceRecord × Ingested} {db' : Db}
      → pub_of r.id db.records ≡ some r.publication
      → (get_version r.id raw normalized (hash_content raw normalized) >>= λ version.
            adopt u ratio hash_content r version normalized >> pure (r, ingested))
          db
        ≡ ok (x, db')
      → Adds db db'
  adopted-Adds r raw normalized ingested db {x} {db'} f h =
      let (v, s, p, q) =
        bind-eq-ok (get_version r.id raw normalized (hash_content raw normalized)) _ db h in
      let (w, t, y, z) = bind-eq-ok (adopt u ratio hash_content r v normalized) _ s q in
      let a = get_version-Adds r.id raw normalized (hash_content raw normalized) db p in
      let b = adopt-Adds r v normalized s (a.pubs r.id ∙ f) y in
      let same : t ≡ db' = ground (arith, z) in subst (Adds db) same (Adds-trans db s t a b)

  ingest_found-Extends :
      (found : Option SourceRecord) (provider : String) (external_id : Text) (raw : Json)
      (normalized : Fields) (db : Db) {x : SourceRecord × Ingested} {db' : Db}
      → IsGrounded db
      → DistinctIds db.records
      → find_where (is_source provider external_id) db.records ≡ found
      → ingest_found u ratio hash_content found provider external_id raw normalized db ≡ ok (x, db')
      → Extends db db'
  unfolding ingest_found create_record
  ingest_found-Extends none provider external_id raw normalized db {x} {db'} g d e h =
      let r : SourceRecord = record {
        id = db.next_id + 1;
        provider = provider;
        external_id = external_id;
        current_version = none;
        publication = db.next_id;
        doi = [];
        title_key = [];
      } in
      let start = created-Extends r db g refl refl _ _ in
      Extends-trans db _ db' start (
        Adds-Extends _ db'
          (adopted-Adds r raw normalized created _ (created_pub r db g refl refl) h))
  ingest_found-Extends (some r) provider external_id raw normalized db {x} {db'} g d e h =
      Adds-Extends db db'
        (either (has_content db (hash_content raw normalized) r.current_version) h)
    where
      either :
          (c : Bool)
          → (if c
                then pure (r, unchanged)
                else (get_version r.id raw normalized (hash_content raw normalized) >>= λ version.
                    adopt u ratio hash_content r version normalized >> pure (r, updated)))
              db
            ≡ ok (x, db')
          → Adds db db'
      either true k = let same : db ≡ db' = ground (arith, k) in subst (Adds db) same (Adds-refl db)
      either false k =
          adopted-Adds r raw normalized updated db
            (find_where-pub_of (is_source provider external_id) db.records d e) k

  pub ingest_record-Extends :
      (provider : String) (external_id : Text) (raw : Json) (given : Option Fields) (db : Db)
      {x : SourceRecord × Ingested} {db' : Db}
      → IsGrounded db
      → DistinctIds db.records
      → ingest_record u ratio hash_content provider external_id raw given db ≡ ok (x, db')
      → Extends db db'
  unfolding ingest_record
  ingest_record-Extends provider external_id raw given db {x} {db'} g d h =
      let (bounded, h1) =
        check-eq-ok (not (has_identifier u ratio hash_content provider external_id))
          invalid_identifier _ db h in
      let (normalized, s, p, h2) =
        bind-eq-ok (normalized_or u ratio hash_content given provider raw) _ db h1 in
      let same = normalized_or-eq-ok given provider raw db p in
      ingest_found-Extends (find_where (is_source provider external_id) db.records) provider
        external_id raw normalized db g d refl
        (subst
          (λ (t : Db).
            ingest_found u ratio hash_content
              (find_where (is_source provider external_id) t.records) provider external_id raw
              normalized t
            ≡ ok (x, db'))
          same h2)
