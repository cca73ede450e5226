-- ===== src/Research/Investigation/Tests.antt =====
-- A decision, a search and a merge of evidence.
use research_desk.Prelude.{
  ◌≡◌, refl, ◌≤◌, none, some, List, [], ◌∷◌, Text, codes, arith, All, length, strip, is_space,
}
use research_desk.Json.{null, int, pos, str, obj, field, end, get}
use research_desk.Unicode.{elem}
use research_desk.Research.Papers.{Document, Paper, Selected, local_keywords}
use research_desk.Research.Investigation.Decisions.{
  Decision, search, validate, checked, fits, is_query,
}
use research_desk.Research.Investigation.Evidence.{merge_evidence}
use research_desk.Research.Investigation.Evidence.Budget.{IsShort, merge_evidence-IsShort}
use research_desk.Research.Investigation.Perform.{
  Inspire, Collection, search_papers, capacity, count_new, to_add, add_found, look_up,
  perform_action, perform,
}
use research_desk.Research.Investigation.Perform.Bounds.{IsModest, perform-IsModest}
use research_desk.Research.Dossiers.Numbers.{decimal, has_control}

abbrev paper_of : Text → Paper
paper_of id = record {
  id = id;
  title = codes "T";
  year = null;
  source_url = null;
  abstract = [];
  document = none;
  references = [];
  search_scope = [];
  acquisition = none;
}

abbrev decision : Decision
decision = record {
  action = search;
  reason = codes "gap";
  query = codes "higgs";
  paper_id = [];
  reference_id = [];
  page = 0;
}

validate_run :
    validate
      (obj (
        field "action" (str (codes "search")) (
          field "reason" (str (codes "gap")) (
            field "query" (str (codes "higgs")) (
              field "paper_id"
                (str [])
                (field "reference_id" (str []) (field "page" (int (pos 0)) end)))))))
      []
    ≡ some decision
unfolding validate checked fits is_query get strip is_space
validate_run = refl

-- An INSPIRE that answers with more than was asked for, and with a known paper.
abbrev inspire : Inspire
inspire query limit = some (paper_of (codes "1") ∷ paper_of (codes "2") ∷ paper_of (codes "3") ∷ [])

abbrev fetch : Paper → Document
fetch p = record { status = codes "failed"; pages = []; error = [] }

abbrev start : Collection
start = record { papers = paper_of (codes "1") ∷ []; selected = codes "1" ∷ [] }

abbrev after : Collection
after = record {
  papers =
      paper_of (codes "1")
      ∷ record (paper_of (codes "2")) {
        acquisition = some (record {
          action = codes "search";
          query = codes "(higgs) and date > 2019";
          parent = [];
        });
      }
      ∷ [];
  selected = codes "1" ∷ codes "2" ∷ [];
}

perform-run :
    perform fetch inspire decision (codes "1" ∷ []) 2020 start
    ≡ some (codes "INSPIRE query: (higgs) and date > 2019. Added 1 papers: 2", after)
unfolding perform perform_action look_up capacity count_new search_papers add_found to_add elem
    decimal strip is_space has_control
perform-run = refl

start-IsModest : IsModest (codes "1" ∷ []) start
unfolding count_new elem
start-IsModest = record { few = omega arith; few_new = omega arith }

perform-IsModest_example : IsModest (codes "1" ∷ []) after
perform-IsModest_example =
    perform-IsModest fetch inspire decision (codes "1" ∷ []) 2020 start start-IsModest perform-run

abbrev evidence : List Selected
evidence =
    record {
      id = codes "1";
      title = codes "T";
      year = null;
      source_url = null;
      engine = local_keywords;
      warning = [];
      passages = record { page = 0; text = codes "Short."; score = none } ∷ [];
    }
    ∷ []

merge_evidence-IsShort_example :
    All IsShort (merge_evidence evidence evidence)
    × (length (merge_evidence evidence evidence) ≤ 20)
merge_evidence-IsShort_example = merge_evidence-IsShort evidence evidence (omega arith, tt)
