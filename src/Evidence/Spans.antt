-- ===== src/Evidence/Spans.antt =====
-- The spans that the highlighting merges: sorting and merging keep the positions that are covered,
-- and the merged spans are in order and apart.
use research_desk.Prelude.{
  ℕ, suc, ◌≤◌, ◌<◌, ◌≡◌, refl, Bool, false, ◌&&◌, ◌||◌, List, [], ◌∷◌, arith, max, ltb, leb,
  Bool-cases, inl, inr, ◌∙◌,
}
use research_desk.Evidence.{Span, insert_span, sort_spans, merge_from, merge}

-- Whether a position lies in a span, and in one of a list of spans.
abbrev pub within : ℕ → Span → Bool
within i (start, end) = leb start i && ltb i end

abbrev pub covered : ℕ → List Span → Bool
covered i [] = false
covered i (x ∷ xs) = within i x || covered i xs

pub covered-insert_span :
    (i : ℕ) (x : Span) (xs : List Span) → covered i (insert_span x xs) ≡ covered i (x ∷ xs)
unfolding insert_span
covered-insert_span i x [] = refl
covered-insert_span i x (y ∷ ys) = ground (arith, covered-insert_span i x ys)

pub covered-sort_spans : (i : ℕ) (xs : List Span) → covered i (sort_spans xs) ≡ covered i xs
unfolding sort_spans
covered-sort_spans i [] = refl
covered-sort_spans i (x ∷ xs) =
    ground (arith, covered-insert_span i x (sort_spans xs), covered-sort_spans i xs)

-- In the order of their starts, from a lower bound on.
abbrev pub StartsSorted : ℕ → List Span → Type 0
StartsSorted lo [] = Unit
StartsSorted lo ((a, b) ∷ xs) = (lo ≤ a) × StartsSorted a xs

StartsSorted-le :
    (lo lo' : ℕ) (xs : List Span) → lo' ≤ lo → StartsSorted lo xs → StartsSorted lo' xs
StartsSorted-le lo lo' [] h s = tt
StartsSorted-le lo lo' (x ∷ xs) h s = (omega arith, s.1)

insert_span-StartsSorted :
    (lo : ℕ) (x : Span) (xs : List Span)
    → lo ≤ x.0
    → StartsSorted lo xs
    → StartsSorted lo (insert_span x xs)
unfolding insert_span
insert_span-StartsSorted lo x [] h s = (h, tt)
insert_span-StartsSorted lo x (y ∷ ys) h s = ground (arith, insert_span-StartsSorted y.0 x ys)

sort_spans-StartsSorted : (xs : List Span) → StartsSorted 0 (sort_spans xs)
unfolding sort_spans
sort_spans-StartsSorted [] = tt
sort_spans-StartsSorted (x ∷ xs) =
    insert_span-StartsSorted 0 x (sort_spans xs) (omega arith) (sort_spans-StartsSorted xs)

-- A merged span covers what its two parts cover, if the second begins inside or next to the first.
within-extended :
    (i a b start end : ℕ)
    → a ≤ start
    → start ≤ b
    → within i (a, max end b) ≡ within i (a, b) || within i (start, end)
within-extended i a b start end h k = ground arith

covered-merge_from :
    (i : ℕ) (x : Span) (xs : List Span)
    → StartsSorted x.0 xs
    → covered i (merge_from x xs) ≡ covered i (x ∷ xs)
unfolding merge_from
covered-merge_from i x [] s = refl
covered-merge_from i x (y ∷ ys) s = ground (
  arith,
  within-extended i x.0 x.1 y.0 y.1,
  covered-merge_from i (x.0, max y.1 x.1) ys,
  covered-merge_from i y ys,
  StartsSorted-le y.0 x.0 ys,
)

covered-merge_of_sorted :
    (i : ℕ) (xs : List Span) → StartsSorted 0 xs → covered i (merge xs) ≡ covered i xs
unfolding merge
covered-merge_of_sorted i [] s = refl
covered-merge_of_sorted i (x ∷ xs) s = covered-merge_from i x xs s.1

pub covered-merge : (i : ℕ) (xs : List Span) → covered i (merge (sort_spans xs)) ≡ covered i xs
covered-merge i xs =
    covered-merge_of_sorted i (sort_spans xs) (sort_spans-StartsSorted xs) ∙ covered-sort_spans i xs

-- Non-empty, in bounds, and each strictly after the end of the one before: `fits lo n` starts at
-- `lo` or later, and ends at `n` or before.
abbrev pub Apart : ℕ → ℕ → List Span → Type 0
Apart lo n [] = Unit
Apart lo n ((a, b) ∷ xs) = (lo ≤ a) × (a < b) × (b ≤ n) × Apart (suc b) n xs

abbrev pub InBounds : ℕ → List Span → Type 0
InBounds n [] = Unit
InBounds n ((a, b) ∷ xs) = (a < b) × (b ≤ n) × InBounds n xs

insert_span-InBounds :
    (n : ℕ) (x : Span) (xs : List Span) → InBounds n (x ∷ xs) → InBounds n (insert_span x xs)
unfolding insert_span
insert_span-InBounds n x [] h = h
insert_span-InBounds n x (y ∷ ys) h = ground (arith, insert_span-InBounds n x ys)

sort_spans-InBounds : (n : ℕ) (xs : List Span) → InBounds n xs → InBounds n (sort_spans xs)
unfolding sort_spans
sort_spans-InBounds n [] h = tt
sort_spans-InBounds n (x ∷ xs) h =
    insert_span-InBounds n x (sort_spans xs) (h.0, h.1, sort_spans-InBounds n xs h.2)

merge_from-Apart :
    (lo n : ℕ) (x : Span) (xs : List Span)
    → lo ≤ x.0
    → StartsSorted x.0 xs
    → InBounds n (x ∷ xs)
    → Apart lo n (merge_from x xs)
unfolding merge_from
merge_from-Apart lo n x [] l s h = (l, h.0, h.1, tt)
merge_from-Apart lo n (a, b) ((start, end) ∷ ys) l s h = elim (Bool-cases (leb start b)) [
  | inl joined ↦ rw joined (
      merge_from-Apart lo n (a, max end b) ys l (StartsSorted-le start a ys s.0 s.1)
        (omega arith, omega arith, h.2.2))
  | inr apart ↦
      rw apart (l, h.0, h.1, merge_from-Apart (suc b) n (start, end) ys (ground arith) s.1 h.2)
]

merge-Apart_of_sorted :
    (n : ℕ) (xs : List Span) → StartsSorted 0 xs → InBounds n xs → Apart 0 n (merge xs)
unfolding merge
merge-Apart_of_sorted n [] s h = tt
merge-Apart_of_sorted n (x ∷ xs) s h = merge_from-Apart 0 n x xs s.0 s.1 h

pub merge-Apart : (n : ℕ) (xs : List Span) → InBounds n xs → Apart 0 n (merge (sort_spans xs))
merge-Apart n xs h =
    merge-Apart_of_sorted n (sort_spans xs) (sort_spans-StartsSorted xs)
      (sort_spans-InBounds n xs h)
