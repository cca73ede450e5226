-- ===== src/Evidence/Highlight.antt =====
-- The result of `passages`: its texts give back the abstract, and a character is quoted exactly if a
-- span covers it.
use research_desk.Prelude.{
  ℕ, zero, suc, ◌+◌, ◌-◌, ◌≤◌, ◌<◌, ◌≡◌, refl, ap, ◌∙◌, Bool, true, false, some, List, [], ◌∷◌,
  ◌++◌, arith, length, drop, slice, concat, replicate, get_elem?, Text, ltb, find,
  slice-append-drop, length-take, length-drop, get_elem?-replicate, Bool-cases, Option-cases, inl,
  inr, ◌≡⟨◌⟩◌, ◌∎, append-nil, if◌then◌else◌,
}
use research_desk.Evidence.{
  Source, Row, Report, Span, Piece, concerns, normalized_quote, locate, push_span, source_spans,
  row_spans, all_spans, sort_spans, merge, cut, passages,
}
use research_desk.Evidence.Find.{find-StandsAt}
use research_desk.Evidence.Spans.{covered, Apart, InBounds, merge-Apart, covered-merge}

abbrev pub texts : List Piece → List Text
texts [] = []
texts (p ∷ ps) = p.text ∷ texts ps

-- For each character of the result, whether it is quoted.
abbrev pub marks : List Piece → List Bool
marks [] = []
marks (p ∷ ps) = replicate (length p.text) p.quoted ++ marks ps

concat-cut :
    (t : Text) (cursor lo : ℕ) (xs : List Span)
    → cursor ≤ lo
    → Apart lo (length t) xs
    → concat (texts (cut t cursor xs)) ≡ drop cursor t
unfolding cut
concat-cut t cursor lo [] l h = rw append-nil
concat-cut t cursor lo ((a, b) ∷ xs) l h =
    concat (texts (cut t cursor ((a, b) ∷ xs)))
    ≡⟨ ap (λ (r : Text). slice t cursor a ++ (slice t a b ++ r))
        (concat-cut t b (suc b) xs (omega arith) h.3) ⟩
      slice t cursor a ++ (slice t a b ++ drop b t)
    ≡⟨ ap (λ (r : Text). slice t cursor a ++ r) (slice-append-drop a b t (omega arith)) ⟩
      slice t cursor a ++ drop a t
    ≡⟨ slice-append-drop cursor a t (omega arith) ⟩ drop cursor t ∎

length-slice : (t : Text) (a b : ℕ) → a ≤ b → b ≤ length t → length (slice t a b) ≡ b - a
length-slice t a b h k = omega (arith, length-take (b - a) (drop a t), length-drop a t)

-- One more step of `get_elem?` into a run of equal marks.
get_elem?-run :
    (n : ℕ) (a : Bool) (ys : List Bool) (i : ℕ)
    → get_elem? (replicate n a ++ ys) i ≡ (if ltb i n then some a else get_elem? ys (i - n))
get_elem?-run zero a ys i = ground arith
get_elem?-run (suc n) a ys zero = ground arith
get_elem?-run (suc n) a ys (suc i) = ground (arith, get_elem?-run n a ys i)

covered_below : (k lo n : ℕ) (xs : List Span) → k < lo → Apart lo n xs → covered k xs ≡ false
covered_below k lo n [] l h = refl
covered_below k lo n ((a, b) ∷ xs) l h =
    ground (arith, covered_below k (suc b) n xs (omega arith) h.3)

marks-cut :
    (t : Text) (cursor lo : ℕ) (xs : List Span) (i : ℕ)
    → cursor ≤ lo
    → Apart lo (length t) xs
    → cursor + i < length t
    → get_elem? (marks (cut t cursor xs)) i ≡ some (covered (cursor + i) xs)
unfolding cut
marks-cut t cursor lo [] i l h k =
    rw append-nil
      (get_elem?-replicate (length (drop cursor t)) i false (omega (arith, length-drop cursor t)))
marks-cut t cursor lo ((a, b) ∷ xs) i l h k =
    let later : b ≤ cursor + i
        → get_elem? (marks (cut t b xs)) (i - (a - cursor) - (b - a))
          ≡ some (covered (cursor + i) xs) =
      λ q.
        let e : b + (i - (a - cursor) - (b - a)) ≡ cursor + i = omega arith in
        rw e at
          (marks-cut t b (suc b) xs (i - (a - cursor) - (b - a)) (omega arith) h.3 (omega arith)) in
    let earlier : cursor + i < suc b → covered (cursor + i) xs ≡ false =
      λ q. covered_below (cursor + i) (suc b) (length t) xs q h.3 in
    rw (length-slice t cursor a (omega arith) (omega arith), length-slice t a b (omega arith) h.2)
      (rw (get_elem?-run (a - cursor) false) (rw (get_elem?-run (b - a) true) (ground arith)))

locate-InBounds :
    (t quote : Text) (xs : List Span)
    → InBounds (length t) xs
    → InBounds (length t) (push_span (locate t quote) xs)
unfolding locate push_span
locate-InBounds t [] xs h = h
locate-InBounds t (c ∷ quote) xs h = elim (Option-cases (find t (c ∷ quote))) [
  | inl e ↦ rw (e, push_span) h
  | inr (k, e) ↦ rw (e, push_span) (omega arith, (find-StandsAt t (c ∷ quote) k e).1, h)
]

source_spans-InBounds :
    (t : Text) (i page : ℕ) (ss : List Source) → InBounds (length t) (source_spans t i page ss)
unfolding source_spans
source_spans-InBounds t i page [] = tt
source_spans-InBounds t i page (s ∷ ss) = elim (Bool-cases (concerns i page s)) [
  | inl e ↦ rw e (
      locate-InBounds t (normalized_quote s) (source_spans t i page ss)
        (source_spans-InBounds t i page ss))
  | inr e ↦ rw e (source_spans-InBounds t i page ss)
]

InBounds-append :
    (n : ℕ) (xs ys : List Span) → InBounds n xs → InBounds n ys → InBounds n (xs ++ ys)
InBounds-append n [] ys h k = k
InBounds-append n (x ∷ xs) ys h k = (h.0, h.1, InBounds-append n xs ys h.2 k)

row_spans-InBounds :
    (t : Text) (i page : ℕ) (rows : List Row) → InBounds (length t) (row_spans t i page rows)
unfolding row_spans
row_spans-InBounds t i page [] = tt
row_spans-InBounds t i page (r ∷ rows) =
    InBounds-append (length t) (source_spans t i page r.evidence) (row_spans t i page rows)
      (source_spans-InBounds t i page r.evidence) (row_spans-InBounds t i page rows)

-- The spans that are highlighted are in the text, not empty, in order, and each begins strictly after
-- the one before ends: no two quoted parts touch.
pub all_spans-Apart :
    (t : Text) (report : Report) (i page : ℕ)
    → Apart 0 (length t) (merge (sort_spans (all_spans t report i page)))
unfolding all_spans
all_spans-Apart t report i page =
    merge-Apart (length t) (all_spans t report i page)
      (row_spans-InBounds t i page (report.findings ++ report.comparison))

-- The texts of the parts, put together in order, are the abstract: nothing is lost, doubled or
-- moved, whatever the report cites.
pub concat-passages :
    (abstract : Text) (report : Report) (paper_id page : ℕ)
    → concat (texts (passages abstract report paper_id page)) ≡ abstract
unfolding passages
concat-passages [] report i page = refl
concat-passages (c ∷ t) report i page =
    concat-cut (c ∷ t) 0 0 (merge (sort_spans (all_spans (c ∷ t) report i page))) (omega arith)
      (all_spans-Apart (c ∷ t) report i page)

-- A character is marked as quoted exactly if one of the spans of the cited quotes covers it, so
-- sorting, merging and cutting neither lose nor add a highlighted character.
pub marks-passages :
    (abstract : Text) (report : Report) (paper_id page i : ℕ)
    → i < length abstract
    → get_elem? (marks (passages abstract report paper_id page)) i
      ≡ some (covered i (all_spans abstract report paper_id page))
unfolding passages
marks-passages [] report p page i h = elim h [ ]
marks-passages (c ∷ t) report p page i h =
    let spans = all_spans (c ∷ t) report p page in
    let e : 0 + i ≡ i = omega arith in
    (rw e at (
      marks-cut (c ∷ t) 0 0 (merge (sort_spans spans)) i (omega arith)
        (all_spans-Apart (c ∷ t) report p page) (omega arith)))
    ∙ ap some (covered-merge i spans)
