-- ===== src/Evidence/Quoted.antt =====
-- What is highlighted of a text: characters of quotes that the report gives, and nothing else.
use research_desk.Prelude.{
  ℕ, ◌≤◌, ◌<◌, ◌≡◌, ◌∙◌, sym, true, some, List, [], ◌∷◌, ◌++◌, arith, length, get_elem?, All, Text,
  Bool-cases, inl, inr, ltb, leb, ◌&&◌,
}
use research_desk.Evidence.{Report, Span, passages, all_spans}
use research_desk.Evidence.Spans.{covered}
use research_desk.Evidence.Highlight.{marks, marks-passages}
use research_desk.Evidence.Citations.{Cites, cited, all_spans-Cites}

-- A span of a quote with the character in it.
pub record Quoted (t : Text) (report : Report) (paper_id page i : ℕ) : Type 0 where
  pub span : Span
  pub cites : Cites t paper_id page (cited (report.findings ++ report.comparison)) span
  pub starts : span.0 ≤ i
  pub ends : i < span.1

covered-Quoted :
    (t : Text) (report : Report) (paper_id page i : ℕ) (xs : List Span)
    → All (Cites t paper_id page (cited (report.findings ++ report.comparison))) xs
    → covered i xs ≡ true
    → Quoted t report paper_id page i
covered-Quoted t report p page i [] h k = cc
covered-Quoted t report p page i ((a, b) ∷ xs) h k = elim (Bool-cases (leb a i && ltb i b)) [
  | inl e ↦ record {
    span = (a, b);
    cites = h.0;
    starts = ground (arith, e);
    ends = ground (arith, e);
  }
  | inr e ↦ covered-Quoted t report p page i xs h.1 (ground (arith, e, k))
]

-- A character that is highlighted for a paper and a page stands in a part of the text that is, up to
-- white space in the quote, the quote of a source that some row of the report gives for that paper and
-- page: what is highlighted is put together of cited quotes only.
pub passages-Quoted :
    (abstract : Text) (report : Report) (paper_id page i : ℕ)
    → i < length abstract
    → get_elem? (marks (passages abstract report paper_id page)) i ≡ some true
    → Quoted abstract report paper_id page i
passages-Quoted t report p page i l h =
    let same : some (covered i (all_spans t report p page)) ≡ some true =
      sym (marks-passages t report p page i l) ∙ h in
    covered-Quoted t report p page i (all_spans t report p page) (all_spans-Cites t report p page)
      (ground (arith, same))
