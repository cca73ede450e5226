-- ===== src/Evidence.antt =====
-- Highlighting of cited passages in an abstract or a page (research/evidence.py).
-- A report is read through the lists of its rows, each with its list of sources.
pub mod Find
pub mod Spans
pub mod Highlight
pub mod Citations
pub mod Quoted
mod Tests
use mathlib.Core.Option
use research_desk.Prelude.{
  ℕ, ◌+◌, Bool, true, false, ◌&&◌, Option, none, some, List, [], ◌∷◌, ◌++◌, length, slice, drop,
  max, ltb, leb, ◌==◌, if◌then◌else◌, Text, split, join_spaces, find,
}

-- One item of a row's "evidence"; a missing key is `none`.
pub record Source : Type 0 where
  pub paper_id : Option ℕ
  pub page : Option ℕ
  pub quote : Option Text

-- A row of "findings" or of "comparison", by its "evidence".
pub record Row : Type 0 where
  pub evidence : List Source

pub record Report : Type 0 where
  pub findings : List Row
  pub comparison : List Row

-- Half-open ranges of positions in the text, `start` then `end`.
abbrev pub Span : Type 0
Span = ℕ × ℕ

-- A part of the result: its "text" and whether it is "quoted".
pub record Piece : Type 0 where
  pub text : Text
  pub quoted : Bool

abbrev or_default {ℓ} : {A : Type ℓ} → Option A → A → A
or_default none d = d
or_default (some a) d = a

-- `source.get("paper_id") != paper_id or source.get("page", 0) != page`, negated.
pub concerns : ℕ → ℕ → Source → Bool
concerns paper_id page source =
    elim source.paper_id [ none ↦ false | some i ↦ i == paper_id ]
    && or_default source.page 0 == page

-- `" ".join(source.get("quote", "").split())`.
pub normalized_quote : Source → Text
normalized_quote source = join_spaces (split (or_default source.quote []))

-- The span of one source: where its quote first stands, if it is not empty and stands there.
pub locate : Text → Text → Option Span
locate abstract [] = none
locate abstract (c ∷ quote) =
    Option.map (λ start. (start, start + length (c ∷ quote))) (find abstract (c ∷ quote))

pub push_span : Option Span → List Span → List Span
push_span none spans = spans
push_span (some span) spans = span ∷ spans

pub source_spans : Text → ℕ → ℕ → List Source → List Span
unfolding concerns normalized_quote locate push_span
source_spans abstract paper_id page [] = []
source_spans abstract paper_id page (source ∷ sources) =
    let rest = source_spans abstract paper_id page sources in
    if concerns paper_id page source
    then push_span (locate abstract (normalized_quote source)) rest
    else rest

pub row_spans : Text → ℕ → ℕ → List Row → List Span
row_spans abstract paper_id page [] = []
row_spans abstract paper_id page (row ∷ rows) =
    source_spans abstract paper_id page row.evidence ++ row_spans abstract paper_id page rows

-- `sorted(spans)`: tuples are compared by their first parts, then by their second.
pub le_span : Span → Span → Bool
le_span (a, b) (c, d) = if a == c then leb b d else leb a c

pub insert_span : Span → List Span → List Span
unfolding le_span
insert_span x [] = x ∷ []
insert_span x (y ∷ ys) = let rest = insert_span x ys in if le_span x y then x ∷ y ∷ ys else y ∷ rest

pub sort_spans : List Span → List Span
unfolding insert_span
sort_spans [] = []
sort_spans (x ∷ xs) = insert_span x (sort_spans xs)

-- The loop that builds `merged`: `last` is `merged[-1]`, which a span that begins at or before its
-- end extends.
pub merge_from : Span → List Span → List Span
merge_from last [] = last ∷ []
merge_from (a, b) ((start, end) ∷ rest) =
    let extended = merge_from (a, max end b) rest in
    let appended = (a, b) ∷ merge_from (start, end) rest in
    if leb start b then extended else appended

pub merge : List Span → List Span
unfolding merge_from
merge [] = []
merge (x ∷ xs) = merge_from x xs

-- The loop that cuts the text, from `cursor` on.
pub cut : Text → ℕ → List Span → List Piece
cut abstract cursor [] = record { text = drop cursor abstract; quoted = false } ∷ []
cut abstract cursor ((start, end) ∷ rest) =
    record { text = slice abstract cursor start; quoted = false }
    ∷ record { text = slice abstract start end; quoted = true }
    ∷ cut abstract end rest

pub all_spans : Text → Report → ℕ → ℕ → List Span
unfolding row_spans source_spans
all_spans abstract report paper_id page =
    row_spans abstract paper_id page (report.findings ++ report.comparison)

pub passages : Text → Report → ℕ → ℕ → List Piece
unfolding all_spans sort_spans merge cut
passages [] report paper_id page = []
passages (c ∷ abstract) report paper_id page =
    cut (c ∷ abstract) 0 (merge (sort_spans (all_spans (c ∷ abstract) report paper_id page)))
