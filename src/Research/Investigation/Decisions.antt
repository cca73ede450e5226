-- ===== src/Research/Investigation/Decisions.antt =====
-- The validation of a decision of the model (research/investigator.py).
use Prim.Native.String.{String}
use research_desk.Prelude.{
  ℕ, Bool, true, false, not, ◌&&◌, ◌||◌, Option, none, some, List, [], ◌∷◌, any, take, length, ltb,
  leb, if◌then◌else◌, Text, codes, eq_text, strip,
}
use research_desk.Json.{Json, Fields, int, obj, pos, is_str, get, text_of, eq_json}
use research_desk.Unicode.{elem}
use research_desk.Research.Papers.{Page, Paper, pages_of}

pub data Action : Type 0 where
  search reference citations read_pdf read_page passages finish : Action

pub record Decision : Type 0 where
  pub action : Action
  pub reason : Text
  pub query : Text
  pub paper_id : Text
  pub reference_id : Text
  pub page : ℕ

-- The action of its name, if it is one of `ACTIONS`.
pub action_of : Text → Option Action
action_of name =
    if eq_text name (codes "search")
    then some search
    else (if eq_text name (codes "reference")
        then some reference
        else (if eq_text name (codes "citations")
            then some citations
            else (if eq_text name (codes "read_pdf")
                then some read_pdf
                else (if eq_text name (codes "read_page")
                    then some read_page
                    else (if eq_text name (codes "passages")
                        then some passages
                        else (if eq_text name (codes "finish") then some finish else none))))))

-- The number of a page from 0 to 40, if the value is an `int`.
pub page_of : Json → Option ℕ
page_of (int (pos n)) = if leb n 40 then some n else none
page_of _ = none

-- `next((p for p in papers if p["id"] == paper_id), None)`.
unfoldable pub find_paper : Text → List Paper → Option Paper
find_paper id [] = none
find_paper id (p ∷ papers) = if eq_text p.id id then some p else find_paper id papers

-- The text of a search: 1 to 400 characters, none of them a control character.
unfoldable pub is_query : Text → Bool
is_query query =
    leb 1 (length (strip query))
    && leb (length (strip query)) 400
    && not (any (λ c. ltb c 32) query)

unfoldable pub has_page : ℕ → List Page → Bool
has_page n [] = false
has_page n (p ∷ pages) = eq_json p.page (int (pos n)) || has_page n pages

-- What an action asks of the paper that it names.
unfoldable pub fits_paper : Decision → Action → Option Paper → Bool
unfolding has_page elem
fits_paper d _ none = false
fits_paper d reference (some p) = elem d.reference_id (take 50 p.references)
fits_paper d read_page (some p) = has_page d.page (pages_of p.document)
fits_paper d _ (some p) = true

-- The tests that depend on the action.
unfoldable pub fits : List Paper → Decision → Action → Bool
unfolding is_query fits_paper
fits papers d search = is_query d.query
fits papers d passages = is_query d.query
fits papers d reference = fits_paper d reference (find_paper d.paper_id papers)
fits papers d citations = fits_paper d citations (find_paper d.paper_id papers)
fits papers d read_pdf = fits_paper d read_pdf (find_paper d.paper_id papers)
fits papers d read_page = fits_paper d read_page (find_paper d.paper_id papers)
fits papers d finish = true

abbrev pub text_fields : List String
text_fields = "action" ∷ "reason" ∷ "query" ∷ "paper_id" ∷ "reference_id" ∷ []

pub all_texts : List String → Fields → Bool
all_texts [] fs = true
all_texts (key ∷ keys) fs = is_str (get key fs) && all_texts keys fs

unfoldable pub checked : List Paper → Fields → Option ℕ → Option Action → Option Decision
unfolding all_texts
checked papers fs (some page) (some action) =
    let d : Decision = record {
      action = action;
      reason = text_of (get "reason" fs);
      query = text_of (get "query" fs);
      paper_id = text_of (get "paper_id" fs);
      reference_id = text_of (get "reference_id" fs);
      page = page;
    } in
    if all_texts text_fields fs
      && (leb 1 (length d.reason) && leb (length d.reason) 600)
      && fits papers d action
    then some d
    else none
checked papers fs _ _ = none

-- `validate(decision, papers)`: the decision as it is read after it, none for an `AIError`.
unfoldable pub validate : Json → List Paper → Option Decision
unfolding action_of page_of
validate (obj fs) papers =
    checked papers fs (page_of (get "page" fs)) (action_of (text_of (get "action" fs)))
validate _ papers = none
