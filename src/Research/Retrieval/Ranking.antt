-- ===== src/Research/Retrieval/Ranking.antt =====
-- Keywords, and the candidates among the chunks of a paper in the order of their score
-- (research/retrieval.py). Elasticsearch is an argument.
use research_desk.Prelude.{
  ℕ, zero, suc, ◌+◌, Bool, true, false, ◌&&◌, ◌||◌, Option, none, some, List, [], ◌∷◌, ◌++◌, length,
  ltb, leb, ◌==◌, if◌then◌else◌, Text, codes, eq_text, split,
}
use research_desk.Json.{Json, int, pos}
use research_desk.Unicode.{Unicode, runs, elem}
use research_desk.Research.Papers.{
  Page, Paper, Engine, local_keywords, elasticsearch_bm25, unavailable, is_available, pages_of,
}
use research_desk.Research.Retrieval.Chunks.{chunks}

-- (score, number, index, chunk).
pub record Candidate : Type 0 where
  pub score : ℕ
  pub page : ℕ
  pub index : ℕ
  pub text : Text

pub stop_words : List Text
unfolding split
stop_words = split (
    codes
      "a an the and or in on at for of to with is are how what which compare approaches papers research studies their this that from between using about")

-- The words of `[\w-]{3,}` that are no stop words, each once.
pub keep_words : List Text → List Text
unfolding stop_words elem
keep_words [] = []
keep_words (w ∷ ws) =
    let rest = keep_words ws in
    if ltb (length w) 3 || elem w stop_words || elem w rest then rest else w ∷ rest

-- `_tokens(text)`.
unfoldable pub tokens : Unicode → Text → List Text
unfolding keep_words runs
tokens u text = keep_words (runs (λ c. u.is_word c || c == 45) (u.lower text))

-- `len(query & tokens)`.
pub overlap : List Text → List Text → ℕ
unfolding elem
overlap [] ws = 0
overlap (q ∷ qs) ws = (if elem q ws then 1 else 0) + overlap qs ws

unfoldable pub chunk_candidates : Unicode → List Text → ℕ → ℕ → List Text → List Candidate
unfolding overlap tokens
chunk_candidates u query number index [] = []
chunk_candidates u query number index (chunk ∷ rest) =
    record { score = overlap query (tokens u chunk); page = number; index = index; text = chunk }
    ∷ chunk_candidates u query number (suc index) rest

-- The number of a page, if it is an `int` from 1 on.
unfoldable pub page_number : Json → Option ℕ
page_number (int (pos zero)) = none
page_number (int (pos (suc n))) = some (suc n)
page_number _ = none

unfoldable pub page_candidates : Unicode → List Text → Option ℕ → Text → List Candidate
unfolding chunk_candidates
page_candidates u query none text = []
page_candidates u query (some number) text = chunk_candidates u query number 0 (chunks text)

unfoldable pub all_candidates : Unicode → List Text → List Page → List Candidate
unfolding page_number page_candidates
all_candidates u query [] = []
all_candidates u query (p ∷ pages) =
    page_candidates u query (page_number p.page) p.text ++ all_candidates u query pages

-- The key (-score, number, index).
pub before : Candidate → Candidate → Bool
before a b =
    if a.score == b.score
    then (if a.page == b.page then leb a.index b.index else leb a.page b.page)
    else ltb b.score a.score

unfoldable pub insert_candidate : Candidate → List Candidate → List Candidate
unfolding before
insert_candidate x [] = x ∷ []
insert_candidate x (y ∷ ys) =
    let rest = insert_candidate x ys in if before x y then x ∷ y ∷ ys else y ∷ rest

unfoldable pub sort_candidates : List Candidate → List Candidate
unfolding insert_candidate
sort_candidates [] = []
sort_candidates (x ∷ xs) = insert_candidate x (sort_candidates xs)

-- What Elasticsearch answers: candidates for the id of a paper, or `SearchUnavailable`.
pub data Answer : Type 0 where
  found : (Text → List Candidate) → Answer
  failed : Text → Answer

-- `ranked_passages(question, papers, scope)`.
abbrev pub Backend : Type 0
Backend = Text → List Paper → Text → Answer

-- `engine`, `warning` and `ranked`.
pub data Ranked : Type 0 where
  keywords : Ranked
  by_search : Answer → Ranked

-- Whether all papers have the scope of the first one.
pub same_scope : Text → List Paper → Bool
same_scope scope [] = true
same_scope scope (p ∷ papers) = eq_text p.search_scope scope && same_scope scope papers

pub search_in : Backend → Text → List Paper → Answer
unfolding same_scope
search_in backend question [] = failed (codes "Elasticsearch needs one dossier scope.")
search_in backend question (p ∷ papers) =
    if same_scope p.search_scope papers
    then backend question (p ∷ papers) p.search_scope
    else failed (codes "Elasticsearch needs one dossier scope.")

unfoldable pub rank : Option Backend → Text → List Paper → Ranked
unfolding search_in
rank none question papers = keywords
rank (some backend) question papers = by_search (search_in backend question papers)

abbrev pub engine_of : Ranked → Engine
engine_of keywords = local_keywords
engine_of (by_search (found f)) = elasticsearch_bm25
engine_of (by_search (failed w)) = unavailable

abbrev pub warning_of : Ranked → Text
warning_of (by_search (failed w)) = w
warning_of _ = []

abbrev pub is_empty_text : Text → Bool
is_empty_text [] = true
is_empty_text (c ∷ t) = false

-- The candidates of a paper, best first.
unfoldable pub candidates_of : Unicode → List Text → Ranked → Paper → List Candidate
unfolding sort_candidates all_candidates
candidates_of u query keywords paper =
    if is_available paper.document
    then sort_candidates (all_candidates u query (pages_of paper.document))
    else []
candidates_of u query (by_search (found f)) paper = f paper.id
candidates_of u query (by_search (failed w)) paper = []
