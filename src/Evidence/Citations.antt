-- ===== src/Evidence/Citations.antt =====
-- Every span of `passages` spells the quote of a source that the report cites for this paper and page.
use mathlib.Core.List.{Memᴰ}
use research_desk.Prelude.{
  ℕ, ◌+◌, ◌-◌, ◌≡◌, refl, true, Option, none, some, List, [], ◌∷◌, ◌++◌, arith, length, slice, All,
  Text, find, Bool-cases, Option-cases, inl, inr, sym, ap, ◌∙◌,
}
use research_desk.Evidence.{
  Source, Row, Report, Span, concerns, normalized_quote, locate, push_span, source_spans, row_spans,
  all_spans,
}
use research_desk.Evidence.Find.{find-StandsAt}

-- The sources of all rows, in order.
abbrev pub cited : List Row → List Source
cited [] = []
cited (row ∷ rows) = row.evidence ++ cited rows

-- A span is the text of the quote of one of the sources, which names the paper and the page.
pub record Cites (t : Text) (paper_id page : ℕ) (sources : List Source) (span : Span) : Type 0 where
  pub source : Source
  pub listed : Memᴰ source sources
  pub relevant : concerns paper_id page source ≡ true
  pub verbatim : slice t span.0 span.1 ≡ normalized_quote source

module _ (t : Text) (i page : ℕ) where
  Cites-grow :
      (s : Source) (ss : List Source) (span : Span)
      → Cites t i page ss span
      → Cites t i page (s ∷ ss) span
  Cites-grow s ss span c = record {
    source = c.source;
    listed = Memᴰ.tail c.listed;
    relevant = c.relevant;
    verbatim = c.verbatim;
  }

  Cites-grow-All :
      (s : Source) (ss : List Source) (xs : List Span)
      → All (Cites t i page ss) xs
      → All (Cites t i page (s ∷ ss)) xs
  Cites-grow-All s ss [] h = tt
  Cites-grow-All s ss (x ∷ xs) h = (Cites-grow s ss x h.0, Cites-grow-All s ss xs h.1)

  push_span-Cites :
      (ss : List Source) (s : Source) (q : Text) (xs : List Span)
      → Memᴰ s ss
      → concerns i page s ≡ true
      → q ≡ normalized_quote s
      → All (Cites t i page ss) xs
      → All (Cites t i page ss) (push_span (locate t q) xs)
  unfolding locate push_span
  push_span-Cites ss s [] xs m r e h = h
  push_span-Cites ss s (c ∷ q) xs m r e h = elim (Option-cases (find t (c ∷ q))) [
    | inl f ↦ rw (f, push_span) h
    | inr (k, f) ↦
        let width : k + length (c ∷ q) - k ≡ length (c ∷ q) = omega arith in
        rw (f, push_span)
          (
            record {
              source = s;
              listed = m;
              relevant = r;
              verbatim = rw width (rw ((find-StandsAt t (c ∷ q) k f).0) e);
            },
            h,
          )
  ]

  source_spans-Cites : (ss : List Source) → All (Cites t i page ss) (source_spans t i page ss)
  unfolding source_spans
  source_spans-Cites [] = tt
  source_spans-Cites (s ∷ ss) =
      let rest = Cites-grow-All s ss (source_spans t i page ss) (source_spans-Cites ss) in
      elim (Bool-cases (concerns i page s)) [
        | inl e ↦ rw e (
            push_span-Cites (s ∷ ss) s (normalized_quote s) (source_spans t i page ss)
              (Memᴰ.head refl) e refl rest)
        | inr e ↦ rw e rest
      ]

push_span-append :
    (o : Option Span) (xs ys : List Span) → push_span o xs ++ ys ≡ push_span o (xs ++ ys)
unfolding push_span
push_span-append none xs ys = refl
push_span-append (some x) xs ys = refl

source_spans-append :
    (t : Text) (i page : ℕ) (ss rest : List Source)
    → source_spans t i page (ss ++ rest) ≡ source_spans t i page ss ++ source_spans t i page rest
unfolding source_spans
source_spans-append t i page [] rest = refl
source_spans-append t i page (s ∷ ss) rest = ground (
  arith,
  source_spans-append t i page ss rest,
  push_span-append (locate t (normalized_quote s)) (source_spans t i page ss)
      (source_spans t i page rest),
)

row_spans-cited :
    (t : Text) (i page : ℕ) (rows : List Row)
    → row_spans t i page rows ≡ source_spans t i page (cited rows)
unfolding row_spans source_spans
row_spans-cited t i page [] = refl
row_spans-cited t i page (r ∷ rows) =
    ap (λ (x : List Span). source_spans t i page r.evidence ++ x) (row_spans-cited t i page rows)
    ∙ sym (source_spans-append t i page r.evidence (cited rows))

-- Every span that is collected for a paper and a page, before the spans are merged, is the verbatim text,
-- up to white space in the quote, of a quote that some row of the report gives for them.
pub all_spans-Cites :
    (abstract : Text) (report : Report) (paper_id page : ℕ)
    → All
        (Cites abstract paper_id page (cited (report.findings ++ report.comparison)))
        (all_spans abstract report paper_id page)
unfolding all_spans
all_spans-Cites t report i page =
    rw (row_spans-cited t i page (report.findings ++ report.comparison))
      (source_spans-Cites t i page (cited (report.findings ++ report.comparison)))
