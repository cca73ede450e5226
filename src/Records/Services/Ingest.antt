-- ===== src/Records/Services/Ingest.antt =====
-- The records of the providers: `ingest_record` of records/services.py.
use Prim.Native.String.{String}
use text.Mathlib.Text.{◌==◌ as str_eq}
use research_desk.Prelude.{
  ℕ, ◌+◌, Bool, true, false, not, ◌&&◌, ◌||◌, Option, none, some, List, [], ◌∷◌, ◌++◌, ◌==◌, Text,
  if◌then◌else◌, leb, length, eq_text, codes,
}
use research_desk.Unicode.{Unicode}
use research_desk.Json.{Json, Fields, get, text_of}
use research_desk.Table.{find_where, set_row, find_row}
use research_desk.Transactions.{err, ◌>>=◌, ◌>>◌, pure, gets, modify, raise_if}
use research_desk.Records.Normalization.{normalize_record, ok as valid, err as invalid}
use research_desk.Records.Models.{
  Db, SourceRecord, SourceRecordVersion, CandidatePair, ingest, source_id,
}
use research_desk.Records.Sets.{insert, union}
use research_desk.Records.Services.{
  Tx, invalid_identifier, invalid_payload, records_of, record_ids, bump_pairs,
}
use research_desk.Records.Services.Projection.{project}
use research_desk.Records.Services.Regroup.{bump_all, new_publication}
use research_desk.Records.Services.Compare.{compare_all}

-- `SourceRecord.objects.filter(provider=provider, external_id=external_id)`.
abbrev pub is_source : String → Text → SourceRecord → Bool
is_source provider external_id r = str_eq r.provider provider && eq_text r.external_id external_id

abbrev pub has_hash : ℕ → ℕ → SourceRecordVersion → Bool
has_hash pk hash v = v.record_id == pk && v.content_hash == hash

-- "created", "updated" or "unchanged".
pub data Ingested : Type 0 where
  created updated unchanged : Ingested

-- `CanonicalPublication`, `SourceRecord` and `Membership` of a new record.
unfoldable pub create_record : String → Text → Tx SourceRecord
create_record provider external_id db =
    let publication = db.next_id in
    let r : SourceRecord = record {
      id = publication + 1;
      provider = provider;
      external_id = external_id;
      current_version = none;
      publication = publication;
      doi = [];
      title_key = [];
    } in
    pure r (record db {
      publications = db.publications ++ (new_publication publication ∷ []);
      records = db.records ++ (r ∷ []);
      memberships =
          db.memberships
          ++ (record {
            publication = publication;
            record_id = publication + 1;
            origin = ingest;
            valid_until = none;
          }
              ∷ []);
      next_id = publication + 2;
    })

-- `get_or_create(record=record, content_hash=content_hash)`.
unfoldable pub get_version : ℕ → Json → Fields → ℕ → Tx SourceRecordVersion
unfolding find_where
get_version pk raw normalized hash db = elim (find_where (has_hash pk hash) db.versions) [
  | some v ↦ pure v db
  | none ↦
      let v : SourceRecordVersion = record {
        id = db.next_id;
        record_id = pk;
        raw = raw;
        normalized = normalized;
        content_hash = hash;
      } in
      pure v (record db { versions = db.versions ++ (v ∷ []); next_id = db.next_id + 1 })
]

-- Whether the current version of a record has the hash.
unfoldable pub has_content : Db → ℕ → Option ℕ → Bool
unfolding find_row
has_content db hash none = false
has_content db hash (some pk) = elim (find_row (λ (v : SourceRecordVersion). v.id) pk db.versions) [
  | none ↦ false
  | some v ↦ v.content_hash == hash
]

-- The ids of the pairs of a record, in their order.
unfoldable pub pairs_of : ℕ → List CandidatePair → List ℕ
unfolding insert
pairs_of pk [] = []
pairs_of pk (p ∷ ps) =
    let rest = pairs_of pk ps in if p.left == pk || p.right == pk then insert p.id rest else rest

abbrev pub is_empty_text : Text → Bool
is_empty_text [] = true
is_empty_text (_ ∷ _) = false

-- The text tables, `rapidfuzz.fuzz.ratio` and the hash of a record's content are arguments.
module _ (u : Unicode) (ratio : Text → Text → ℕ) (hash_content : Json → Fields → ℕ) where
  -- `normalize_record(provider, raw) if normalized is None else normalized`.
  unfoldable pub normalized_or : Option Fields → String → Json → Tx Fields
  unfolding normalize_record
  normalized_or (some fs) provider raw db = pure fs db
  normalized_or none provider raw db = elim (normalize_record u provider raw) [
    | invalid problem ↦ err (invalid_payload problem)
    | valid fs ↦ pure fs db
  ]

  -- The bound of `ingest_record` on its identifiers.
  abbrev pub has_identifier : String → Text → Bool
  has_identifier provider external_id =
      not (is_empty_text (codes provider))
      && (not (is_empty_text external_id) && leb (length external_id) 512)

  -- The last part: the record has its new version, and what depends on it follows.
  unfoldable pub adopt : SourceRecord → SourceRecordVersion → Fields → Tx (Unit {0})
  unfolding project records_of record_ids union bump_pairs pairs_of compare_all
  adopt r version normalized = do
    modify λ db. project r.publication (record db {
      records =
          set_row source_id
            (record r {
              current_version = some version.id;
              doi = text_of (get "doi" normalized);
              title_key = text_of (get "title_key" normalized);
            })
            db.records;
    })
    modify λ db. bump_all (record_ids (records_of (r.publication ∷ []) db.records)) db
    ids ← gets (λ db. pairs_of r.id db.pairs)
    compare_all u ratio ids

  unfoldable pub ingest_found :
      Option SourceRecord → String → Text → Json → Fields → Tx (SourceRecord × Ingested)
  unfolding create_record get_version has_content adopt
  ingest_found none provider external_id raw normalized = do
    r ← create_record provider external_id
    version ← get_version r.id raw normalized (hash_content raw normalized)
    adopt r version normalized
    pure (r, created)
  ingest_found (some r) provider external_id raw normalized = do
    same ← gets (λ db. has_content db (hash_content raw normalized) r.current_version)
    if same then pure (r, unchanged) else (do
      version ← get_version r.id raw normalized (hash_content raw normalized)
      adopt r version normalized
      pure (r, updated))

  -- `ingest_record(provider, external_id, raw, normalized)`. The record that is returned is as it was
  -- found or created.
  unfoldable pub ingest_record : String → Text → Json → Option Fields → Tx (SourceRecord × Ingested)
  unfolding normalized_or ingest_found find_where
  ingest_record provider external_id raw given = do
    raise_if (not (has_identifier provider external_id)) invalid_identifier
    normalized ← normalized_or given provider raw
    found ← gets (λ db. find_where (is_source provider external_id) db.records)
    ingest_found found provider external_id raw normalized
