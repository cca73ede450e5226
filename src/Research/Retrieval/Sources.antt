-- ===== src/Research/Retrieval/Sources.antt =====
-- What is selected by keywords stands in the papers, unchanged.
use mathlib.Core.List.{Memᴰ}
use research_desk.Prelude.{
  ℕ, zero, suc, ◌-◌, ◌≤◌, ◌≡◌, refl, min, Bool, true, false, not, ◌||◌, none, List, [], ◌∷◌, take,
  length, ltb, ◌==◌, if◌then◌else◌, Text, All, All-append, All-take, All-map, arith, IsPart,
  IsPart-trans, take-IsPart, Bool-cases, inl, inr, ◌⊎◌,
}
use research_desk.Json.{Json, null, bool, int, str, arr, obj, pos, negsuc}
use research_desk.Unicode.{Unicode}
use research_desk.Research.Papers.{Page, Paper, Passage, Selected, total, pages_of, is_available}
use research_desk.Research.Retrieval.{
  abstract_passages, take_candidates, paper_passages, as_selected, select_from, select_evidence,
  max_papers, max_characters, max_paper_characters, is_none,
}
use research_desk.Research.Retrieval.Chunks.{chunks}
use research_desk.Research.Retrieval.Chunks.Exact.{IsChunk, chunks-IsChunk}
use research_desk.Research.Retrieval.Ranking.{
  Candidate, keywords, candidates_of, rank, tokens, warning_of, is_empty_text, chunk_candidates,
  page_number, page_candidates, all_candidates, insert_candidate, sort_candidates,
}

-- The text stands on a page of the document with this number.
pub record OnPage (pages : List Page) (number : ℕ) (text : Text) : Type 0 where
  pub page : Page
  pub listed : Memᴰ page pages
  pub numbered : page.page ≡ int (pos number)
  pub part : IsPart page.text text

-- The passage is a part of the abstract, or of the page that it names, from 1 on.
abbrev pub IsQuoted : Paper → Passage → Type 0
IsQuoted p q =
    ((q.page ≡ 0) × IsPart p.abstract q.text)
    ⊎ ((1 ≤ q.page) × OnPage (pages_of p.document) q.page q.text)

abbrev Stands : List Page → Candidate → Type 0
Stands pages c = (1 ≤ c.page) × OnPage pages c.page c.text

chunk_candidates-Stands :
    (u : Unicode) (query : List Text) (page : Page) (pages : List Page) (number index : ℕ)
    (cs : List Text)
    → Memᴰ page pages
    → page.page ≡ int (pos number)
    → 1 ≤ number
    → All (IsChunk page.text) cs
    → All (Stands pages) (chunk_candidates u query number index cs)
unfolding chunk_candidates
chunk_candidates-Stands u query page pages number index [] m e l h = tt
chunk_candidates-Stands u query page pages number index (c ∷ cs) m e l h = (
  (l, record { page = page; listed = m; numbered = e; part = h.0.part }),
  chunk_candidates-Stands u query page pages number (suc index) cs m e l h.1,
)

page_candidates-Stands :
    (u : Unicode) (query : List Text) (page : Page) (pages : List Page) (j : Json)
    → Memᴰ page pages
    → page.page ≡ j
    → All (Stands pages) (page_candidates u query (page_number j) page.text)
unfolding page_candidates page_number
page_candidates-Stands u query page pages (int (pos zero)) m e = tt
page_candidates-Stands u query page pages (int (pos (suc n))) m e =
    chunk_candidates-Stands u query page pages (suc n) 0 (chunks page.text) m e (omega arith)
      (chunks-IsChunk page.text)
page_candidates-Stands u query page pages (int (negsuc n)) m e = tt
page_candidates-Stands u query page pages null m e = tt
page_candidates-Stands u query page pages (bool b) m e = tt
page_candidates-Stands u query page pages (str s) m e = tt
page_candidates-Stands u query page pages (arr s) m e = tt
page_candidates-Stands u query page pages (obj s) m e = tt

Stands-grow : (p : Page) (ps : List Page) (c : Candidate) → Stands ps c → Stands (p ∷ ps) c
Stands-grow p ps c h = (
  h.0,
  record {
    page = h.1.page;
    listed = Memᴰ.tail h.1.listed;
    numbered = h.1.numbered;
    part = h.1.part;
  },
)

all_candidates-Stands :
    (u : Unicode) (query : List Text) (pages : List Page)
    → All (Stands pages) (all_candidates u query pages)
unfolding all_candidates
all_candidates-Stands u query [] = tt
all_candidates-Stands u query (p ∷ ps) =
    All-append (Stands (p ∷ ps)) (page_candidates u query (page_number p.page) p.text)
      (all_candidates u query ps)
      (page_candidates-Stands u query p (p ∷ ps) p.page (Memᴰ.head refl) refl)
      (All-map (Stands ps) (Stands-grow p ps) (all_candidates u query ps)
        (all_candidates-Stands u query ps))

module _ (P : Candidate → Type 0) where
  insert_candidate-All :
      (x : Candidate) (ys : List Candidate) → P x → All P ys → All P (insert_candidate x ys)
  unfolding insert_candidate
  insert_candidate-All x [] p h = (p, tt)
  insert_candidate-All x (y ∷ ys) p h = ground (arith, insert_candidate-All x ys p h.1)

  sort_candidates-All : (xs : List Candidate) → All P xs → All P (sort_candidates xs)
  unfolding sort_candidates
  sort_candidates-All [] h = tt
  sort_candidates-All (x ∷ xs) h =
      insert_candidate-All x (sort_candidates xs) h.0 (sort_candidates-All xs h.1)

candidates_of-Stands :
    (u : Unicode) (query : List Text) (p : Paper)
    → All (Stands (pages_of p.document)) (candidates_of u query keywords p)
unfolding candidates_of
candidates_of-Stands u query p = elim (Bool-cases (is_available p.document)) [
  | inl e ↦ rw e (
      sort_candidates-All (Stands (pages_of p.document))
        (all_candidates u query (pages_of p.document))
        (all_candidates-Stands u query (pages_of p.document)))
  | inr e ↦ rw e tt
]

take_candidates-IsQuoted :
    (p : Paper) (budget : ℕ) (cs : List Candidate)
    → All (Stands (pages_of p.document)) cs
    → All (IsQuoted p) (take_candidates budget cs)
unfolding take_candidates
take_candidates-IsQuoted p budget [] h = tt
take_candidates-IsQuoted p budget (c ∷ cs) h =
    let rest = take_candidates-IsQuoted p (budget - length (take budget c.text)) cs h.1 in
    elim (Bool-cases (ltb budget 80)) [
      | inl e ↦ rw e tt
      | inr e ↦ rw e (
        inr (
          h.0.0,
          record {
            page = h.0.1.page;
            listed = h.0.1.listed;
            numbered = h.0.1.numbered;
            part =
                IsPart-trans h.0.1.page.text c.text (take budget c.text) h.0.1.part
                  (take-IsPart budget c.text);
          },
        ),
        rest,
      )
    ]

abstract_passages-IsQuoted :
    (p : Paper) (t : Text) → IsPart p.abstract t → All (IsQuoted p) (abstract_passages t)
unfolding abstract_passages
abstract_passages-IsQuoted p [] h = tt
abstract_passages-IsQuoted p (c ∷ t) h = (inl (refl, h), tt)

-- A selected paper is one of the papers, by its id, and its passages are quoted from it.
pub record IsFrom (papers : List Paper) (s : Selected) : Type 0 where
  pub paper : Paper
  pub listed : Memᴰ paper papers
  pub same_id : s.id ≡ paper.id
  pub quoted : All (IsQuoted paper) s.passages

more-IsFrom :
    (ps : List Paper) (keep stop : Bool) (s : Selected) (rest : List Selected)
    → IsFrom ps s
    → All (IsFrom ps) rest
    → All
        (IsFrom ps)
        (if keep then s ∷ (if stop then [] else rest) else (if stop then [] else rest))
more-IsFrom ps true true s rest p q = (p, tt)
more-IsFrom ps true false s rest p q = (p, q)
more-IsFrom ps false true s rest p q = tt
more-IsFrom ps false false s rest p q = q

IsFrom-grow : (p : Paper) (ps : List Paper) (s : Selected) → IsFrom ps s → IsFrom (p ∷ ps) s
IsFrom-grow p ps s h = record {
  paper = h.paper;
  listed = Memᴰ.tail h.listed;
  same_id = h.same_id;
  quoted = h.quoted;
}

paper_passages-IsQuoted :
    (u : Unicode) (query : List Text) (budget : ℕ) (p : Paper)
    → All (IsQuoted p) (paper_passages u query keywords budget p)
unfolding paper_passages
paper_passages-IsQuoted u query budget p =
    let abstract = take (min 1000 budget) p.abstract in
    let best = take 5 (candidates_of u query keywords p) in
    All-append (IsQuoted p) (abstract_passages abstract)
      (take_candidates (budget - length abstract) best)
      (abstract_passages-IsQuoted p abstract (take-IsPart (min 1000 budget) p.abstract))
      (take_candidates-IsQuoted p (budget - length abstract) best (
        All-take (Stands (pages_of p.document)) 5 (candidates_of u query keywords p)
          (candidates_of-Stands u query p)))

select_from-IsFrom :
    (u : Unicode) (query : List Text) (remaining : ℕ) (ps : List Paper)
    → All (IsFrom ps) (select_from u query keywords remaining ps)
unfolding select_from as_selected
select_from-IsFrom u query remaining [] = tt
select_from-IsFrom u query remaining (p ∷ ps) =
    let passages = paper_passages u query keywords (min max_paper_characters remaining) p in
    let left = remaining - total passages in
    let rest = select_from u query keywords left ps in
    more-IsFrom (p ∷ ps) (not (is_none passages) || not (is_empty_text (warning_of keywords)))
      (left == 0) (as_selected keywords p passages) rest
      (record {
        paper = p;
        listed = Memᴰ.head refl;
        same_id = refl;
        quoted = paper_passages-IsQuoted u query (min max_paper_characters remaining) p;
      })
      (All-map (IsFrom ps) (IsFrom-grow p ps) rest (select_from-IsFrom u query left ps))

-- With the local search, every passage that is selected stands unchanged in the paper of its id:
-- page 0 is a part of its abstract, and page n a part of a page of its document with that number.
pub select_evidence-IsFrom :
    (u : Unicode) (question : Text) (papers : List Paper)
    → All (IsFrom (take max_papers papers)) (select_evidence u none question papers)
unfolding select_evidence rank
select_evidence-IsFrom u question papers =
    select_from-IsFrom u (tokens u question) max_characters (take max_papers papers)
