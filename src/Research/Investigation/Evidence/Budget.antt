-- ===== src/Research/Investigation/Evidence/Budget.antt =====
-- The bounds of the evidence: papers, and characters of each.
use research_desk.Prelude.{
  ℕ, ◌-◌, ◌≤◌, List, [], ◌∷◌, ◌++◌, take, length, length-take, Text, eq_text, All, All-take, arith,
  Bool-cases, inl, inr,
}
use research_desk.Research.Papers.{Passage, Selected, total}
use research_desk.Research.Investigation.Evidence.{
  merge_passages, passages_of, put_selected, by_id, add_latest, merge_evidence,
}

total-merge_passages :
    (budget : ℕ) (seen : List (ℕ × Text)) (ps : List Passage)
    → total (merge_passages budget seen ps) ≤ budget
unfolding merge_passages
total-merge_passages budget seen [] = omega arith
total-merge_passages budget seen (p ∷ ps) = ground (
  arith,
  length-take budget p.text,
  total-merge_passages budget seen ps,
  total-merge_passages (budget - length (take budget p.text)) ((p.page, p.text) ∷ seen) ps,
)

-- At most 4,000 characters.
abbrev pub IsShort : Selected → Type 0
IsShort s = total s.passages ≤ 4000

put_selected-All :
    (v : Selected) (ss : List Selected)
    → IsShort v
    → All IsShort ss
    → All IsShort (put_selected v ss)
unfolding put_selected
put_selected-All v [] h p = (h, tt)
put_selected-All v (s ∷ ss) h p = elim (Bool-cases (eq_text s.id v.id)) [
  | inl e ↦ rw e (h, p.1)
  | inr e ↦ rw e (p.0, put_selected-All v ss h p.1)
]

by_id-All :
    (ss merged : List Selected)
    → All IsShort ss
    → All IsShort merged
    → All IsShort (by_id ss merged)
unfolding by_id
by_id-All [] merged p q = q
by_id-All (s ∷ ss) merged p q =
    by_id-All ss (put_selected s merged) p.1 (put_selected-All s merged p.0 q)

add_latest-All :
    (ss merged : List Selected) → All IsShort merged → All IsShort (add_latest ss merged)
unfolding add_latest
add_latest-All [] merged q = q
add_latest-All (s ∷ ss) merged q =
    let merged_one : Selected = record s {
      passages = merge_passages 4000 [] (s.passages ++ passages_of s.id merged);
    } in
    add_latest-All ss (put_selected merged_one merged) (
      put_selected-All merged_one merged
        (total-merge_passages 4000 [] (s.passages ++ passages_of s.id merged)) q)

-- Where each paper of the evidence has at most 4,000 characters, so has each after new evidence of any
-- size was merged into it, and there are at most 20 papers.
pub merge_evidence-IsShort :
    (previous latest : List Selected)
    → All IsShort previous
    → All IsShort (merge_evidence previous latest) × (length (merge_evidence previous latest) ≤ 20)
unfolding merge_evidence
merge_evidence-IsShort previous latest p =
    let merged = add_latest latest (by_id previous []) in
    (
      All-take IsShort 20 merged
          (add_latest-All latest (by_id previous []) (by_id-All previous [] p tt)),
      omega (arith, length-take 20 merged),
    )
