-- ===== src/Research/Investigation/Perform.antt =====
-- One action of an investigation on the papers of the dossier (research/investigation.py), and what
-- a search of INSPIRE gives back (research/inspire.py). The request itself and the PDF reader are
-- arguments.
pub mod Bounds
use research_desk.Prelude.{
  ℕ, zero, suc, ◌+◌, ◌-◌, min, Bool, true, false, not, ◌&&◌, ◌||◌, Option, none, some, List, [],
  ◌∷◌, ◌++◌, any, take, length, ltb, leb, ◌==◌, if◌then◌else◌, Text, codes, eq_text, strip,
}
use research_desk.Unicode.{elem}
use research_desk.Research.Papers.{Document, Paper, Acquisition, ids}
use research_desk.Research.Dossiers.Numbers.{decimal, has_control}
use research_desk.Research.Investigation.Decisions.{
  Action, search, reference, citations, read_pdf, read_page, passages, finish, Decision, find_paper,
}

-- `papers.setdefault(paper["id"], paper)` over the hits, with the ids before.
pub each_once : List Text → List Paper → List Paper
unfolding elem
each_once seen [] = []
each_once seen (p ∷ hits) =
    let again = each_once seen hits in
    let more = each_once (p.id ∷ seen) hits in if elem p.id seen then again else p ∷ more

-- `not query.strip() or len(query) > 500 or any(ord(char) < 32 ...)`, negated.
pub is_printable : Text → Bool
unfolding has_control
is_printable query =
    leb 1 (length (strip query)) && leb (length query) 500 && not (has_control query)

-- The request for a query: the papers of the hits, none for a `SearchError`.
abbrev pub Inspire : Type 0
Inspire = Text → ℕ → Option (List Paper)

pub first_hits : ℕ → Option (List Paper) → Option (List Paper)
unfolding each_once
first_hits limit none = none
first_hits limit (some hits) = some (each_once [] (take limit hits))

-- `inspire.search(query, limit)`.
unfoldable pub search_papers : Inspire → Text → ℕ → Option (List Paper)
unfolding is_printable first_hits
search_papers inspire query limit =
    if is_printable query && (leb 1 limit && leb limit 20)
    then first_hits limit (inspire query limit)
    else none

-- The papers and the selection of an investigation.
pub record Collection : Type 0 where
  pub papers : List Paper
  pub selected : List Text

-- `len({p["id"] for p in papers} - initial_ids)`.
unfoldable pub count_new : List Text → List Paper → ℕ
unfolding elem
count_new initial [] = 0
count_new initial (p ∷ papers) =
    (if elem p.id initial || elem p.id (ids papers) then 0 else 1) + count_new initial papers

unfoldable pub capacity : List Text → List Paper → ℕ
unfolding count_new
capacity initial papers = min (20 - length papers) (6 - count_new initial papers)

-- The text of `year_from - 1`.
pub year_before : ℕ → Text
year_before zero = codes "-1"
year_before (suc n) = codes (decimal n)

abbrev pub action_name : Action → Text
action_name search = codes "search"
action_name reference = codes "reference"
action_name citations = codes "citations"
action_name read_pdf = codes "read_pdf"
action_name read_page = codes "read_page"
action_name passages = codes "passages"
action_name finish = codes "finish"

abbrev dated : Text → ℕ → Text
dated query year_from = codes "(" ++ query ++ codes ") and date > " ++ year_before year_from

-- The query that is sent.
pub query_of : Decision → Action → ℕ → Text
unfolding year_before
query_of d reference year_from = codes "recid:" ++ d.reference_id
query_of d citations year_from = dated (codes "refersto:recid:" ++ d.paper_id) year_from
query_of d _ year_from = dated d.query year_from

abbrev pub is_reference : Action → Bool
is_reference reference = true
is_reference _ = false

-- The papers that are found and not known, in order; for a reference, only the one that was asked for.
unfoldable pub to_add : Decision → Text → List Text → List Paper → List Paper
unfolding elem
to_add d query known [] = []
to_add d query known (p ∷ found) =
    let skipped = to_add d query known found in
    let added = to_add d query (p.id ∷ known) found in
    if (is_reference d.action && not (eq_text p.id d.reference_id)) || elem p.id known
    then skipped
    else (record p {
      acquisition =
          some (record { action = action_name d.action; query = query; parent = d.paper_id });
    }
        ∷ added)

pub join_commas : List Text → Text
join_commas [] = []
join_commas (t ∷ []) = t
join_commas (t ∷ s ∷ ts) = t ++ codes ", " ++ join_commas (s ∷ ts)

pub listed : List Text → Text
unfolding join_commas
listed [] = codes "."
listed (t ∷ ts) = codes ": " ++ join_commas (t ∷ ts)

unfoldable pub add_found :
    Decision → Text → Collection → Option (List Paper) → Option (Text × Collection)
unfolding to_add listed
add_found d query c none = none
add_found d query c (some found) =
    let added = to_add d query (ids c.papers) found in
    some (
      codes "INSPIRE query: "
          ++ query
          ++ codes ". Added "
          ++ codes (decimal (length added))
          ++ codes " papers"
          ++ listed (ids added),
      record { papers = c.papers ++ added; selected = c.selected ++ ids added },
    )

-- `paper["document"] = document`, of the paper with the id.
unfoldable pub set_document : Text → Document → List Paper → List Paper
set_document id document [] = []
set_document id document (p ∷ papers) =
    if eq_text p.id id
    then record p { document = some document } ∷ papers
    else p ∷ set_document id document papers

abbrev pub pdf_message : Document → Text
pdf_message doc =
    codes "PDF "
    ++ doc.status
    ++ codes ": "
    ++ codes (decimal (length doc.pages))
    ++ codes " pages. "
    ++ doc.error

-- The PDF of a paper, unless it was tried. There is no such paper only where the decision was not
-- validated.
unfoldable pub attach : (Paper → Document) → Collection → Option Paper → Option (Text × Collection)
unfolding set_document
attach fetch c none = none
attach fetch c (some p) = elim p.document [
  | some doc ↦ some (codes "PDF already attempted; existing evidence retained.", c)
  | none ↦
      let doc = fetch p in
      some (pdf_message doc, record c { papers = set_document p.id doc c.papers })
]

unfoldable pub look_up :
    Inspire → Decision → List Text → ℕ → Collection → Option (Text × Collection)
unfolding capacity query_of search_papers add_found
look_up inspire d initial year_from c =
    let query = query_of d d.action year_from in
    if capacity initial c.papers == 0
    then some (codes "Paper limit reached; no external search performed.", c)
    else add_found d query c (search_papers inspire query (min 2 (capacity initial c.papers)))

unfoldable pub perform_action :
    (Paper → Document)
    → Inspire
    → Decision
    → Action
    → List Text
    → ℕ
    → Collection
    → Option (Text × Collection)
unfolding attach look_up
perform_action fetch inspire d passages initial year_from c =
    some (codes "Searched selected source passages for: " ++ d.query, c)
perform_action fetch inspire d read_pdf initial year_from c =
    attach fetch c (find_paper d.paper_id c.papers)
perform_action fetch inspire d _ initial year_from c = look_up inspire d initial year_from c

-- `perform(decision, papers, selected, initial_ids, dossier)`, none for a `SearchError`.
unfoldable pub perform :
    (Paper → Document)
    → Inspire
    → Decision
    → List Text
    → ℕ
    → Collection
    → Option (Text × Collection)
unfolding perform_action
perform fetch inspire d initial year_from c =
    perform_action fetch inspire d d.action initial year_from c
