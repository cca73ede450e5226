-- ===== src/Research/Retrieval/Chunks.antt =====
-- Chunks of a page, which are exact parts of it and end at spaces where they can
-- (research/retrieval.py).
pub mod Exact
use research_desk.Prelude.{
  ℕ, zero, suc, ◌+◌, ◌-◌, ◌≤◌, ◌<◌, ◌/◌, min, ◌≡◌, refl, ◌∙◌, sym, ap, Bool, true, false, Option,
  none, some, List, [], ◌∷◌, ◌++◌, ltb, leb, ◌==◌, if◌then◌else◌, Text, slice, drop, take, length,
  strip, concat, All, arith, slice-append-drop, length-drop, length-take, drop-length, Bool-cases,
  Option-cases, inl, inr,
}

abbrev pub chunk_characters : ℕ
chunk_characters = 1200

-- The last place at which a character stands.
pub last_index : ℕ → Text → Option ℕ
last_index c [] = none
last_index c (x ∷ t) = elim (last_index c t) [
  | some i ↦ some (suc i)
  | none ↦ if x == c then some 0 else none
]

-- `text.rfind(" ", lo, hi)`, and the end that it gives in place of `hi`.
pub boundary : Text → ℕ → ℕ → ℕ → ℕ
unfolding last_index
boundary text start lo hi = elim (last_index 32 (slice text lo hi)) [
  | none ↦ hi
  | some i ↦ if ltb start (lo + i) then lo + i else hi
]

-- The end of the chunk that begins at `start`.
pub chunk_end : Text → ℕ → ℕ
unfolding boundary
chunk_end text start =
    let end = min (start + chunk_characters) (length text) in
    if ltb end (length text) then boundary text start (start + chunk_characters / 2) end else end

-- The parts of the text from `start` on, before they are stripped; each begins where the one before
-- ends. The fuel is the number of characters left, and a part has at least one.
pub windows : ℕ → Text → ℕ → List Text
unfolding chunk_end
windows zero text start = []
windows (suc fuel) text start =
    let end = chunk_end text start in
    let rest = windows fuel text end in
    if ltb start (length text) then slice text start end ∷ rest else []

pub push_chunk : Text → List Text → List Text
push_chunk [] chunks = chunks
push_chunk (c ∷ t) chunks = (c ∷ t) ∷ chunks

pub strip_all : List Text → List Text
unfolding push_chunk
strip_all [] = []
strip_all (w ∷ ws) = push_chunk (strip w) (strip_all ws)

-- `_chunks(text)`.
unfoldable pub chunks : Text → List Text
unfolding windows strip_all
chunks text = strip_all (windows (length text) text 0)

last_index-lt-length : (c : ℕ) (t : Text) {i : ℕ} → last_index c t ≡ some i → i < length t
unfolding last_index
last_index-lt-length c [] h = cc
last_index-lt-length c (x ∷ t) {i} h = elim (Option-cases (last_index c t)) [
  | inl e ↦ ground (arith, e)
  | inr (j, e) ↦ ground (arith, e, last_index-lt-length c t {i = j} e)
]

-- A chunk that begins in the text ends after its beginning, in the text, and is not too long.
pub chunk_end-bounds :
    (t : Text) (start : ℕ)
    → start < length t
    → (start < chunk_end t start)
      × (chunk_end t start ≤ length t)
      × (chunk_end t start ≤ start + chunk_characters)
unfolding chunk_end boundary
chunk_end-bounds t start h =
    let end = min (start + chunk_characters) (length t) in
    elim (Option-cases (last_index 32 (slice t (start + chunk_characters / 2) end))) [
      | inl e ↦ ground (arith, e)
      | inr (i, e) ↦ ground (
        arith,
        e,
        last_index-lt-length 32 (slice t (start + chunk_characters / 2) end) e,
        length-take (end - (start + chunk_characters / 2)) (drop (start + chunk_characters / 2) t),
      )
    ]

drop-all : (n : ℕ) (t : Text) → length t ≤ n → drop n t ≡ []
drop-all zero [] h = refl
drop-all zero (x ∷ t) h = elim h [ ]
drop-all (suc n) [] h = refl
drop-all (suc n) (x ∷ t) h = drop-all n t (omega arith)

-- With fuel for the characters that are left, the parts are the whole rest of the text.
concat-windows_from :
    (fuel : ℕ) (t : Text) (start : ℕ)
    → length t - start ≤ fuel
    → concat (windows fuel t start) ≡ drop start t
unfolding windows
concat-windows_from zero t start h = rw (drop-all start t (omega arith))
concat-windows_from (suc fuel) t start h = elim (Bool-cases (ltb start (length t))) [
  | inl e ↦
      let (more, within, short) = chunk_end-bounds t start (ground arith) in
      (rw (
        e,
        concat-windows_from fuel t (chunk_end t start) (omega arith),
        slice-append-drop start (chunk_end t start) t (omega arith),
      ))
  | inr e ↦ rw (e, drop-all start t (ground arith))
]

-- The parts that a page is cut into are together the whole page: the loop ends, and it loses and
-- doubles no character.
pub concat-windows : (t : Text) → concat (windows (length t) t 0) ≡ t
concat-windows t = concat-windows_from (length t) t 0 (omega arith)
