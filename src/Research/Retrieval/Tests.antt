-- ===== src/Research/Retrieval/Tests.antt =====
-- A selection from two small papers.
use research_desk.Prelude.{
  ◌≡◌, refl, none, some, List, [], ◌∷◌, codes, strip, split, length, All, concat, take,
}
use research_desk.Json.{null, int, pos}
use research_desk.Unicode.{ascii, runs, elem}
use research_desk.Research.Papers.{Page, Paper, Selected, local_keywords}
use research_desk.Research.Retrieval.{select_evidence, max_papers}
use research_desk.Research.Retrieval.Budget.{IsWithin, select_evidence-IsWithin}
use research_desk.Research.Retrieval.Chunks.{windows, chunks, concat-windows}
use research_desk.Research.Retrieval.Chunks.Exact.{IsChunk, chunks-IsChunk}
use research_desk.Research.Retrieval.Ranking.{
  rank, tokens, candidates_of, sort_candidates, insert_candidate, all_candidates, page_number,
  page_candidates, chunk_candidates,
}
use research_desk.Research.Retrieval.Sources.{IsFrom, select_evidence-IsFrom}

abbrev page_one : Page
page_one = record { page = int (pos 1); text = codes " the Higgs decays " }

abbrev paper : Paper
paper = record {
  id = codes "17";
  title = codes "Decays";
  year = int (pos 2021);
  source_url = null;
  abstract = codes "Short.";
  references = [];
  search_scope = [];
  acquisition = none;
  document = some (record { status = codes "available"; pages = page_one ∷ []; error = [] });
}

abbrev selection : List Selected
selection =
    record {
      id = codes "17";
      title = codes "Decays";
      year = int (pos 2021);
      source_url = null;
      passages =
          record { page = 0; text = codes "Short."; score = none }
          ∷ record { page = 1; text = codes "the Higgs decays"; score = some 1 }
          ∷ [];
      engine = local_keywords;
      warning = [];
    }
    ∷ []

select_run : select_evidence ascii none (codes "Which Higgs papers?") (paper ∷ []) ≡ selection
unfolding select_evidence rank tokens candidates_of sort_candidates insert_candidate all_candidates
    page_number page_candidates chunk_candidates chunks strip split runs elem
select_run = refl

select_evidence-IsWithin_example :
    IsWithin 80000 20 (select_evidence ascii none (codes "Which Higgs papers?") (paper ∷ []))
select_evidence-IsWithin_example =
    select_evidence-IsWithin ascii none (codes "Which Higgs papers?") (paper ∷ [])

select_evidence-IsFrom_example :
    All
      (IsFrom (take max_papers (paper ∷ [])))
      (select_evidence ascii none (codes "Which Higgs papers?") (paper ∷ []))
select_evidence-IsFrom_example =
    select_evidence-IsFrom ascii (codes "Which Higgs papers?") (paper ∷ [])

concat-windows_example : concat (windows (length page_one.text) page_one.text 0) ≡ page_one.text
concat-windows_example = concat-windows page_one.text

chunks-IsChunk_example : All (IsChunk page_one.text) (chunks page_one.text)
chunks-IsChunk_example = chunks-IsChunk page_one.text
