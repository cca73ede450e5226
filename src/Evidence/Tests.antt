-- ===== src/Evidence/Tests.antt =====
-- Runs of `passages` on small inputs.
use research_desk.Prelude.{
  ◌≡◌, refl, none, some, List, [], ◌∷◌, true, false, codes, find, split, join_spaces, ℕ, concat,
  get_elem?, arith, length,
}
use research_desk.Evidence.{all_spans, merge, sort_spans}
use research_desk.Evidence.Spans.{covered, Apart}
use research_desk.Evidence.Highlight.{
  texts, marks, concat-passages, marks-passages, all_spans-Apart,
}
use research_desk.Evidence.Quoted.{Quoted, passages-Quoted}
use research_desk.Evidence.{Report, Source, passages}

abbrev cite : List Source
cite =
    record { paper_id = some 7; page = none; quote = some (codes "bc  de") }
    ∷ record { paper_id = some 7; page = some 0; quote = some (codes "ab") }
    ∷ record { paper_id = some 8; page = some 0; quote = some (codes "x") }
    ∷ []

abbrev report : Report
report = record { findings = record { evidence = cite } ∷ []; comparison = [] }

passages_run :
    passages (codes "ab bc dex") report 7 0
    ≡ record { text = []; quoted = false }
      ∷ record { text = codes "ab"; quoted = true }
      ∷ record { text = codes " "; quoted = false }
      ∷ record { text = codes "bc de"; quoted = true }
      ∷ record { text = codes "x"; quoted = false }
      ∷ []
unfolding passages split join_spaces find
passages_run = refl

abbrev abstract : List ℕ
abstract = codes "ab bc dex"

concat-passages_example : concat (texts (passages abstract report 7 0)) ≡ abstract
concat-passages_example = concat-passages abstract report 7 0

marks-passages_example :
    get_elem? (marks (passages abstract report 7 0)) 4
    ≡ some (covered 4 (all_spans abstract report 7 0))
marks-passages_example = marks-passages abstract report 7 0 4 (omega arith)

fourth_is_marked : get_elem? (marks (passages abstract report 7 0)) 4 ≡ some true
unfolding passages split join_spaces find
fourth_is_marked = refl

passages-Quoted_example : Quoted abstract report 7 0 4
passages-Quoted_example = passages-Quoted abstract report 7 0 4 (omega arith) fourth_is_marked

all_spans-Apart_example :
    Apart 0 (length abstract) (merge (sort_spans (all_spans abstract report 7 0)))
all_spans-Apart_example = all_spans-Apart abstract report 7 0
