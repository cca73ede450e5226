-- ===== src/Research/Retrieval/Chunks/Exact.antt =====
-- Each chunk of a page is an exact part of it, of bounded length.
use research_desk.Prelude.{
  ℕ, zero, suc, ◌-◌, ◌≤◌, List, [], ◌∷◌, ltb, Text, drop, length, strip, All, arith, length-take,
  IsPart, IsPart-trans, slice-IsPart, strip-IsPart, length-IsPart, Bool-cases, inl, inr,
}
use research_desk.Research.Retrieval.Chunks.{
  chunk_end, chunk_end-bounds, windows, push_chunk, strip_all, chunks, chunk_characters,
}

-- A part of the text, not empty and not too long.
pub record IsChunk (t c : Text) : Type 0 where
  pub part : IsPart t c
  pub some_text : 1 ≤ length c
  pub short : length c ≤ chunk_characters

pub record IsWindow (t w : Text) : Type 0 where
  pub part : IsPart t w
  pub short : length w ≤ chunk_characters

windows-IsWindow : (fuel : ℕ) (t : Text) (start : ℕ) → All (IsWindow t) (windows fuel t start)
unfolding windows
windows-IsWindow zero t start = tt
windows-IsWindow (suc fuel) t start =
    let end = chunk_end t start in
    elim (Bool-cases (ltb start (length t))) [
      | inl e ↦
          let bounds = chunk_end-bounds t start (ground arith) in
          rw e (
            record {
              part = slice-IsPart t start end;
              short = omega (arith, bounds, length-take (end - start) (drop start t));
            },
            windows-IsWindow fuel t end,
          )
      | inr e ↦ rw e tt
    ]

strip_all-IsChunk :
    (t : Text) (ws : List Text) → All (IsWindow t) ws → All (IsChunk t) (strip_all ws)
unfolding strip_all push_chunk
strip_all-IsChunk t [] h = tt
strip_all-IsChunk t (w ∷ ws) h =
    push (strip_all-IsChunk t ws h.1) (strip w)
      (IsPart-trans t w (strip w) h.0.part (strip-IsPart w))
      (length-IsPart w (strip w) (strip-IsPart w))
  where
    push :
        All (IsChunk t) (strip_all ws)
        → (c : Text) → IsPart t c
        → length c ≤ length w
        → All (IsChunk t) (push_chunk c (strip_all ws))
    push rest [] p l = rest
    push rest (c ∷ s) p l =
        (record { part = p; some_text = omega arith; short = omega (arith, l, h.0.short) }, rest)

-- Every chunk of a page is a part of it, unchanged, with at least one and at most 1,200 characters.
pub chunks-IsChunk : (t : Text) → All (IsChunk t) (chunks t)
unfolding chunks
chunks-IsChunk t = strip_all-IsChunk t (windows (length t) t 0) (windows-IsWindow (length t) t 0)
