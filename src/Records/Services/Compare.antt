-- ===== src/Records/Services/Compare.antt =====
-- Proposals on pairs of records: `compare_pair` of records/services.py.
use research_desk.Prelude.{
  ℕ, ◌+◌, Bool, true, false, ◌&&◌, Option, none, some, List, [], ◌∷◌, ◌==◌, Text, if◌then◌else◌,
}
use research_desk.Unicode.{Unicode}
use research_desk.Table.{find_where}
use research_desk.Transactions.{◌>>=◌, pure, gets, or_raise}
use research_desk.Records.Matching.{compare_metadata, Comparison, Recommendation}
use research_desk.Records.Models.{
  Db, SourceRecord, CandidatePair, MatchProposal, PairState, review, insufficient_evidence,
  needs_reassessment, find_record, find_pair, latest_proposal, save_pair, ReviewDecision,
}
use research_desk.Records.Services.{Tx, missing, normalized_of}

-- `CONFIG` of records/matching.py, by its number.
abbrev pub current_config : ℕ
current_config = 1

abbrev pub eq_version : Option ℕ → Option ℕ → Bool
eq_version none none = true
eq_version (some a) (some b) = a == b
eq_version _ _ = false

-- Whether a proposal compares the current versions with the current configuration.
abbrev pub is_current : SourceRecord → SourceRecord → MatchProposal → Bool
is_current left right proposal =
    eq_version proposal.left_version left.current_version
    && (eq_version proposal.right_version right.current_version
        && proposal.config == current_config)

abbrev pub recommended : Recommendation → PairState
recommended Recommendation.review = review
recommended Recommendation.insufficient_evidence = insufficient_evidence

-- `pair.decisions.exists()`.
unfoldable pub has_decision : ℕ → List ReviewDecision → Bool
has_decision pair [] = false
has_decision pair (d ∷ ds) = if d.pair == pair then true else has_decision pair ds

-- The pair after a comparison: the first one only sets its state.
unfoldable pub reassess : Db → Option MatchProposal → Recommendation → CandidatePair → CandidatePair
unfolding has_decision
reassess db none recommendation pair = record pair { state = recommended recommendation }
reassess db (some latest) recommendation pair = record pair {
  revision = pair.revision + 1;
  state =
      if has_decision pair.id db.decisions then needs_reassessment else recommended recommendation;
}

abbrev pub new_proposal :
    CandidatePair → SourceRecord → SourceRecord → Comparison → ℕ → MatchProposal
new_proposal pair left right result pk = record {
  id = pk;
  pair = pair.id;
  left_version = left.current_version;
  right_version = right.current_version;
  config = current_config;
  result = result;
}

-- The text tables and `rapidfuzz.fuzz.ratio` are arguments.
module _ (u : Unicode) (ratio : Text → Text → ℕ) where
  -- What `compare_pair` does with the pair and its records.
  unfoldable pub compare_found : CandidatePair → SourceRecord → SourceRecord → Tx MatchProposal
  unfolding find_where reassess normalized_of
  compare_found pair left right db =
      let latest = latest_proposal db pair.id in
      let result = compare_metadata u ratio (normalized_of db left) (normalized_of db right) in
      let proposal = new_proposal pair left right result db.next_id in
      let fresh =
        save_pair (reassess db latest result.recommendation pair)
          (record db { proposals = proposal ∷ db.proposals; next_id = db.next_id + 1 }) in
      elim latest [
        | none ↦ pure proposal fresh
        | some old ↦ if is_current left right old then pure old db else pure proposal fresh
      ]

  -- `compare_pair(pair_id)`.
  unfoldable pub compare_pair : ℕ → Tx MatchProposal
  unfolding compare_found
  compare_pair pk = do
    found ← gets (λ db. find_pair db pk)
    pair ← or_raise found missing
    one ← gets (λ db. find_record db pair.left)
    left ← or_raise one missing
    other ← gets (λ db. find_record db pair.right)
    right ← or_raise other missing
    compare_found pair left right

  unfoldable pub compare_all : List ℕ → Tx (Unit {0})
  unfolding compare_pair
  compare_all [] = pure tt
  compare_all (pk ∷ pks) = do _ ← compare_pair pk; compare_all pks
