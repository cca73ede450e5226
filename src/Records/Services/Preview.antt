-- ===== src/Records/Services/Preview.antt =====
-- What a withdrawal would leave: `withdrawal_preview` of records/services.py.
use research_desk.Prelude.{ℕ, Bool, not, ◌&&◌, some, List, [], ◌∷◌, if◌then◌else◌, ltb, length}
use research_desk.Transactions.{◌>>=◌, pure, gets, or_raise}
use research_desk.Records.Models.{Db, ReviewDecision, find_record, find_pair, find_decision}
use research_desk.Records.Sets.{member, union, set_of}
use research_desk.Records.Services.{
  Tx, missing, is_accept, is_active, is_excluded, endpoints, links, records_of, record_ids,
}
use research_desk.Records.Services.Components.{components}

-- `withdrawal_preview(decision_id)`.
pub record Preview : Type 0 where
  pub groups : List (List ℕ)
  pub will_split : Bool
  pub remaining_links : List ℕ
  pub expected_revision : ℕ

unfoldable pub remaining_links : Db → List ℕ → ℕ → List ReviewDecision → List ℕ
unfolding member
remaining_links db ids excluded [] = []
remaining_links db ids excluded (d ∷ ds) =
    let rest = remaining_links db ids excluded ds in
    if is_active db.decisions d
      && (is_accept d.action
          && (not (is_excluded (some excluded) d)
              && (member (endpoints (find_pair db d.pair)).0 ids
                  && member (endpoints (find_pair db d.pair)).1 ids)))
    then d.id ∷ rest
    else rest

abbrev pub more_than_one : List (List ℕ) → Bool
more_than_one groups = ltb 1 (length groups)

unfoldable pub withdrawal_preview : ℕ → Tx Preview
unfolding records_of record_ids union components links remaining_links
withdrawal_preview pk = do
  found ← gets (λ db. find_decision db pk)
  d ← or_raise found missing
  paired ← gets (λ db. find_pair db d.pair)
  pair ← or_raise paired missing
  one ← gets (λ db. find_record db pair.left)
  left ← or_raise one missing
  other ← gets (λ db. find_record db pair.right)
  right ← or_raise other missing
  ids ← gets (λ db.
      set_of (record_ids (records_of (left.publication ∷ right.publication ∷ []) db.records)))
  groups ← gets (λ db. components ids (links db (some pk)))
  remaining ← gets (λ db. remaining_links db ids pk db.decisions)
  pure (record {
    groups = groups;
    will_split = is_accept d.action && more_than_one groups;
    remaining_links = remaining;
    expected_revision = pair.revision;
  })
