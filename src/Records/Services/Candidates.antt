-- ===== src/Records/Services/Candidates.antt =====
-- The pairs of records that are worth a comparison: `candidate_ids` and `generate_candidates` of
-- records/services.py.
use research_desk.Prelude.{
  ℕ, ◌+◌, Bool, true, false, not, ◌&&◌, none, some, List, [], ◌∷◌, ◌++◌, ◌==◌, Text, if◌then◌else◌,
  ltb, leb, eq_text, codes, take,
}
use research_desk.Unicode.{Unicode}
use research_desk.Table.{find_where}
use research_desk.Transactions.{◌>>=◌, ◌>>◌, pure, gets, raise_if}
use research_desk.Records.Models.{SourceRecord, CandidatePair, pending}
use research_desk.Records.Sets.{union, set_of}
use research_desk.Records.Services.{Tx, invalid_k, record_ids}
use research_desk.Records.Services.Projection.{text_before}
use research_desk.Records.Services.Compare.{compare_pair}
use research_desk.Records.Services.Ingest.{is_empty_text}

-- The records with the DOI of a record, apart from itself.
unfoldable pub same_doi : SourceRecord → List SourceRecord → List ℕ
same_doi r [] = []
same_doi r (s ∷ rs) =
    let rest = same_doi r rs in
    if not (s.id == r.id) && eq_text s.doi r.doi then s.id ∷ rest else rest

-- The distance of two title keys (`TrigramDistance`) is an argument.
module _ (distance : Text → Text → ℕ) where
  -- `order_by("distance", "provider", "external_id")`.
  unfoldable pub nearer : Text → SourceRecord → SourceRecord → Bool
  unfolding text_before
  nearer title r s =
      if distance r.title_key title == distance s.title_key title
      then (if eq_text (codes r.provider) (codes s.provider)
          then text_before r.external_id s.external_id
          else text_before (codes r.provider) (codes s.provider))
      else ltb (distance r.title_key title) (distance s.title_key title)

  unfoldable pub insert_nearest : Text → SourceRecord → List SourceRecord → List SourceRecord
  unfolding nearer
  insert_nearest title r [] = r ∷ []
  insert_nearest title r (s ∷ rs) =
      let rest = insert_nearest title r rs in if nearer title s r then s ∷ rest else r ∷ s ∷ rs

  -- The others that have a title, the nearest first.
  unfoldable pub by_distance : SourceRecord → List SourceRecord → List SourceRecord
  unfolding insert_nearest
  by_distance r [] = []
  by_distance r (s ∷ rs) =
      let rest = by_distance r rs in
      if not (s.id == r.id) && not (is_empty_text s.title_key)
      then insert_nearest r.title_key s rest
      else rest

  -- `candidate_ids(record, k)` among all records.
  unfoldable pub candidate_ids : SourceRecord → ℕ → Tx (List ℕ)
  unfolding same_doi by_distance record_ids union
  candidate_ids r k = do
    raise_if (not (leb 1 k && leb k 200)) invalid_k
    rs ← gets (λ db. db.records)
    pure (
        set_of (
          (if is_empty_text r.doi then [] else same_doi r rs)
          ++ (if is_empty_text r.title_key then [] else take k (record_ids (by_distance r rs)))))

abbrev pub ordered : ℕ → ℕ → ℕ × ℕ
ordered a b = if ltb a b then (a, b) else (b, a)

-- `get_or_create(left_id=left, right_id=right)`.
unfoldable pub get_pair : ℕ × ℕ → Tx (ℕ × Bool)
unfolding find_where
get_pair (left, right) db =
    elim (find_where (λ (p : CandidatePair). p.left == left && p.right == right) db.pairs) [
      | some p ↦ pure (p.id, false) db
      | none ↦
          pure (db.next_id, true)
            (record db {
              pairs =
                  db.pairs
                  ++ (record {
                    id = db.next_id;
                    left = left;
                    right = right;
                    revision = 1;
                    state = pending;
                  }
                      ∷ []);
              next_id = db.next_id + 1;
            })
    ]

unfoldable pub insert_by_id : SourceRecord → List SourceRecord → List SourceRecord
insert_by_id r [] = r ∷ []
insert_by_id r (s ∷ rs) =
    let rest = insert_by_id r rs in if ltb s.id r.id then s ∷ rest else r ∷ s ∷ rs

unfoldable pub order_by_id : List SourceRecord → List SourceRecord
unfolding insert_by_id
order_by_id [] = []
order_by_id (r ∷ rs) = insert_by_id r (order_by_id rs)

-- The text tables and `rapidfuzz.fuzz.ratio` are arguments.
module _ (u : Unicode) (ratio : Text → Text → ℕ) where
  -- The loop over the candidates of a record: how many pairs are new.
  unfoldable pub pair_with : SourceRecord → List ℕ → Tx ℕ
  unfolding get_pair compare_pair
  pair_with r [] = pure 0
  pair_with r (other ∷ others) = do
    (pk, is_new) ← get_pair (ordered r.id other)
    _ ← compare_pair u ratio pk
    count ← pair_with r others
    pure ((if is_new then 1 else 0) + count)

  unfoldable pub generate_for : (Text → Text → ℕ) → ℕ → List SourceRecord → Tx ℕ
  unfolding candidate_ids pair_with
  generate_for distance k [] = pure 0
  generate_for distance k (r ∷ rs) = do
    others ← candidate_ids distance r k
    first ← pair_with r others
    rest ← generate_for distance k rs
    pure (first + rest)

  -- `generate_candidates(k)`.
  unfoldable pub generate_candidates : (Text → Text → ℕ) → ℕ → Tx ℕ
  unfolding generate_for order_by_id
  generate_candidates distance k = do
    raise_if (not (leb 1 k && leb k 200)) invalid_k
    rs ← gets (λ db. order_by_id db.records)
    generate_for distance k rs
