-- ===== src/Research/Investigation/Evidence.antt =====
-- The evidence that an investigation collects (research/investigation.py) and the passages of a paper
-- (research/retrieval.py).
pub mod Budget
use research_desk.Prelude.{
  ℕ, ◌+◌, ◌-◌, Bool, true, false, not, ◌&&◌, ◌||◌, Option, none, some, List, [], ◌∷◌, ◌++◌, take,
  length, ltb, leb, ◌==◌, if◌then◌else◌, Text, eq_text,
}
use research_desk.Research.Papers.{Passage, Selected}

-- `key in seen`, for the pages and texts that were seen.
pub is_seen : ℕ → Text → List (ℕ × Text) → Bool
is_seen page text [] = false
is_seen page text ((p, t) ∷ seen) = (p == page && eq_text t text) || is_seen page text seen

-- The loop over the passages: each once, within the budget.
unfoldable pub merge_passages : ℕ → List (ℕ × Text) → List Passage → List Passage
unfolding is_seen
merge_passages budget seen [] = []
merge_passages budget seen (p ∷ ps) =
    let text = take budget p.text in
    let skipped = merge_passages budget seen ps in
    let taken = merge_passages (budget - length text) ((p.page, p.text) ∷ seen) ps in
    if is_seen p.page p.text seen || ltb budget 80
    then skipped
    else (record p { text = text } ∷ taken)

-- `merged.get(id, {}).get("_evidence_passages", [])`.
unfoldable pub passages_of : Text → List Selected → List Passage
passages_of id [] = []
passages_of id (s ∷ merged) = if eq_text s.id id then s.passages else passages_of id merged

-- `merged[paper["id"]] = paper`.
unfoldable pub put_selected : Selected → List Selected → List Selected
put_selected v [] = v ∷ []
put_selected v (s ∷ merged) = if eq_text s.id v.id then v ∷ merged else s ∷ put_selected v merged

unfoldable pub by_id : List Selected → List Selected → List Selected
unfolding put_selected
by_id [] merged = merged
by_id (s ∷ previous) merged = by_id previous (put_selected s merged)

unfoldable pub add_latest : List Selected → List Selected → List Selected
unfolding merge_passages passages_of put_selected
add_latest [] merged = merged
add_latest (s ∷ latest) merged = add_latest latest (
    put_selected
      (record s { passages = merge_passages 4000 [] (s.passages ++ passages_of s.id merged) })
      merged)

-- `merge_evidence(previous, latest)`.
unfoldable pub merge_evidence : List Selected → List Selected → List Selected
unfolding by_id add_latest
merge_evidence previous latest = take 20 (add_latest latest (by_id previous []))
