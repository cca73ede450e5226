-- ===== src/Research/Retrieval.antt =====
-- The choice of the passages that a model is given (research/retrieval.py).
pub mod Chunks
pub mod Ranking
pub mod Budget
pub mod Sources
mod Tests
use research_desk.Prelude.{
  ℕ, zero, suc, ◌+◌, ◌-◌, ◌<◌, min, Bool, true, false, not, ◌&&◌, ◌||◌, Option, none, some, List,
  [], ◌∷◌, ◌++◌, take, length, ltb, leb, ◌==◌, if◌then◌else◌, Text, map,
}
use research_desk.Unicode.{Unicode}
use research_desk.Research.Papers.{
  Page, Document, Paper, Passage, Engine, local_keywords, elasticsearch_bm25, unavailable, Selected,
  is_available, pages_of, total,
}
use Ranking.{
  Candidate, Backend, Ranked, rank, engine_of, warning_of, candidates_of, tokens, is_empty_text,
}

abbrev max_papers : ℕ
max_papers = 20

abbrev max_characters : ℕ
max_characters = 80000

abbrev max_paper_characters : ℕ
max_paper_characters = 4000

-- The passage of the abstract, if there is one.
pub abstract_passages : Text → List Passage
abstract_passages [] = []
abstract_passages (c ∷ t) = record { page = 0; text = c ∷ t; score = none } ∷ []

-- The loop over the candidates, within what is left of the budget.
pub take_candidates : ℕ → List Candidate → List Passage
take_candidates budget [] = []
take_candidates budget (c ∷ candidates) =
    let text = take budget c.text in
    let rest = take_candidates (budget - length text) candidates in
    if ltb budget 80
    then []
    else (record { page = c.page; text = text; score = some c.score } ∷ rest)

-- The passages of one paper: its abstract, then the best five candidates.
pub paper_passages : Unicode → List Text → Ranked → ℕ → Paper → List Passage
unfolding abstract_passages take_candidates
paper_passages u query ranked budget paper =
    let abstract = take (min 1000 budget) paper.abstract in
    abstract_passages abstract
    ++ take_candidates (budget - length abstract) (take 5 (candidates_of u query ranked paper))

pub as_selected : Ranked → Paper → List Passage → Selected
as_selected ranked paper passages = record {
  id = paper.id;
  title = paper.title;
  year = paper.year;
  source_url = paper.source_url;
  passages = passages;
  engine = engine_of ranked;
  warning = warning_of ranked;
}

abbrev pub is_none : List Passage → Bool
is_none [] = true
is_none (p ∷ ps) = false

-- The loop over the papers, with `remaining` characters left.
pub select_from : Unicode → List Text → Ranked → ℕ → List Paper → List Selected
unfolding paper_passages as_selected
select_from u query ranked remaining [] = []
select_from u query ranked remaining (paper ∷ papers) =
    let passages = paper_passages u query ranked (min max_paper_characters remaining) paper in
    let left = remaining - total passages in
    let rest = select_from u query ranked left papers in
    let after = if left == 0 then [] else rest in
    if not (is_none passages) || not (is_empty_text (warning_of ranked))
    then as_selected ranked paper passages ∷ after
    else after

-- `select_evidence(question, papers)`; the setting of the search backend is an argument.
unfoldable pub select_evidence : Unicode → Option Backend → Text → List Paper → List Selected
unfolding select_from
select_evidence u backend question papers =
    select_from u (tokens u question) (rank backend question papers) max_characters
      (take max_papers papers)
