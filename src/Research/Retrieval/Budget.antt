-- ===== src/Research/Retrieval/Budget.antt =====
-- The bounds of what is selected: characters, papers and passages.
use research_desk.Prelude.{
  ℕ, suc, ◌+◌, ◌-◌, ◌≤◌, ◌≡◌, min, Bool, true, false, not, ◌||◌, Option, List, [], ◌∷◌, ◌++◌, take,
  length, ◌==◌, if◌then◌else◌, Text, All, arith, length-take,
}
use research_desk.Unicode.{Unicode}
use research_desk.Research.Papers.{Paper, Passage, Selected, total}
use research_desk.Research.Retrieval.{
  abstract_passages, take_candidates, paper_passages, as_selected, select_from, select_evidence,
  max_papers, max_characters, max_paper_characters, is_none,
}
use research_desk.Research.Retrieval.Ranking.{
  Candidate, Backend, Ranked, candidates_of, rank, tokens, warning_of, is_empty_text,
}

-- The number of characters in all that is selected.
abbrev pub characters : List Selected → ℕ
characters [] = 0
characters (s ∷ ss) = total s.passages + characters ss

-- What one paper may give.
pub record IsSmall (s : Selected) : Type 0 where
  pub short : total s.passages ≤ max_paper_characters
  pub few : length s.passages ≤ 6

total-append : (ps qs : List Passage) → total (ps ++ qs) ≡ total ps + total qs
total-append [] qs = omega arith
total-append (p ∷ ps) qs = omega (arith, total-append ps qs)

length-append-passages : (ps qs : List Passage) → length (ps ++ qs) ≡ length ps + length qs
length-append-passages [] qs = omega arith
length-append-passages (p ∷ ps) qs = omega (arith, length-append-passages ps qs)

take_candidates-bounds :
    (budget : ℕ) (cs : List Candidate)
    → (total (take_candidates budget cs) ≤ budget)
      × (length (take_candidates budget cs) ≤ length cs)
unfolding take_candidates
take_candidates-bounds budget [] = omega arith
take_candidates-bounds budget (c ∷ cs) =
    let cut = length-take budget c.text in
    ground (arith, cut, take_candidates-bounds (budget - length (take budget c.text)) cs)

abstract_passages-bounds :
    (t : Text) → (total (abstract_passages t) ≡ length t) × (length (abstract_passages t) ≤ 1)
unfolding abstract_passages
abstract_passages-bounds [] = omega arith
abstract_passages-bounds (c ∷ t) = omega arith

paper_passages-bounds :
    (u : Unicode) (query : List Text) (ranked : Ranked) (budget : ℕ) (p : Paper)
    → (total (paper_passages u query ranked budget p) ≤ budget)
      × (length (paper_passages u query ranked budget p) ≤ 6)
unfolding paper_passages
paper_passages-bounds u query ranked budget p =
    let abstract = take (min 1000 budget) p.abstract in
    let best = take 5 (candidates_of u query ranked p) in
    let taken = take_candidates (budget - length abstract) best in
    omega (
      arith,
      total-append (abstract_passages abstract) taken,
      length-append-passages (abstract_passages abstract) taken,
      abstract_passages-bounds abstract,
      take_candidates-bounds (budget - length abstract) best,
      length-take (min 1000 budget) p.abstract,
      length-take 5 (candidates_of u query ranked p),
    )

-- The bounds of a selection within a number of characters and of papers.
pub record IsWithin (characters_left papers_left : ℕ) (ss : List Selected) : Type 0 where
  pub all_short : characters ss ≤ characters_left
  pub few : length ss ≤ papers_left
  pub each_small : All IsSmall ss

-- One more paper, or none.
more-IsWithin :
    (keep : Bool) (left papers_left : ℕ) (s : Selected) (after : List Selected)
    → total s.passages ≤ min max_paper_characters left
    → length s.passages ≤ 6
    → IsWithin (left - total s.passages) papers_left after
    → IsWithin left (suc papers_left) (if keep then s ∷ after else after)
more-IsWithin true left papers_left s after short few w = record {
  all_short = omega (arith, short, w.all_short);
  few = omega (arith, w.few);
  each_small = (record { short = omega (arith, short); few = few }, w.each_small);
}
more-IsWithin false left papers_left s after short few w = record {
  all_short = omega (arith, w.all_short);
  few = omega (arith, w.few);
  each_small = w.each_small;
}

stop-IsWithin :
    (stop : Bool) (left papers_left : ℕ) (after : List Selected)
    → IsWithin left papers_left after
    → IsWithin left papers_left (if stop then [] else after)
stop-IsWithin true left papers_left after w = record {
  all_short = omega arith;
  few = omega arith;
  each_small = tt;
}
stop-IsWithin false left papers_left after w = w

select_from-IsWithin :
    (u : Unicode) (query : List Text) (ranked : Ranked) (remaining : ℕ) (ps : List Paper)
    → IsWithin remaining (length ps) (select_from u query ranked remaining ps)
unfolding select_from as_selected
select_from-IsWithin u query ranked remaining [] = record {
  all_short = omega arith;
  few = omega arith;
  each_small = tt;
}
select_from-IsWithin u query ranked remaining (p ∷ ps) =
    let passages = paper_passages u query ranked (min max_paper_characters remaining) p in
    let left = remaining - total passages in
    let rest = select_from u query ranked left ps in
    let (short, few) =
      paper_passages-bounds u query ranked (min max_paper_characters remaining) p in
    more-IsWithin (not (is_none passages) || not (is_empty_text (warning_of ranked))) remaining
      (length ps) (as_selected ranked p passages) (if left == 0 then [] else rest) short few
      (stop-IsWithin (left == 0) left (length ps) rest
        (select_from-IsWithin u query ranked left ps))

-- Whatever the question, the papers and the search backend: at most 20 papers are selected, with at
-- most 80,000 characters together, and each has at most six passages and 4,000 characters.
pub select_evidence-IsWithin :
    (u : Unicode) (backend : Option Backend) (question : Text) (papers : List Paper)
    → IsWithin 80000 20 (select_evidence u backend question papers)
unfolding select_evidence
select_evidence-IsWithin u backend question papers =
    let w =
      select_from-IsWithin u (tokens u question) (rank backend question papers) max_characters
        (take max_papers papers) in
    record {
      all_short = w.all_short;
      few = omega (arith, w.few, length-take max_papers papers);
      each_small = w.each_small;
    }
