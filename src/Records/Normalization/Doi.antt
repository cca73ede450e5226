-- ===== src/Records/Normalization/Doi.antt =====
-- DOIs and titles (records/normalization.py).
use mathlib.Core.Option
use research_desk.Prelude.{
  ℕ, suc, ◌+◌, Bool, false, not, ◌&&◌, ◌||◌, Option, none, some, [], ◌∷◌, all, drop, length, leb,
  ◌==◌, if◌then◌else◌, Text, codes, split, strip, join_spaces, is_space,
}
use research_desk.Unicode.{Unicode, is_some}

-- A letter as `re.I` compares it with the ASCII letters of the pattern.
fold_case : ℕ → ℕ
fold_case c =
    if leb 65 c && leb c 90
    then c + 32
    else (if c == 383
        then 115
        else (if c == 304 || c == 305 then 105 else (if c == 8490 then 107 else c)))

-- The rest of a text after a literal of the pattern.
pub after : Text → Text → Option Text
unfolding fold_case
after [] t = some t
after (p ∷ ps) [] = none
after (p ∷ ps) (c ∷ t) = let rest = after ps t in if fold_case c == p then rest else none

-- `x?` in the pattern, which is never given up here: what follows does not begin with `x`.
pub optional : Text → Text → Text
optional p t = Option.get_or (after p t) t

pub skip_spaces : Text → Text
skip_spaces [] = []
skip_spaces (c ∷ t) = let rest = skip_spaces t in if is_space c then rest else c ∷ t

-- `https?://(?:dx\.)?doi\.org/`.
pub after_resolver : Text → Option Text
unfolding after optional
after_resolver t = Option.bind (after (codes "http") t) (λ r.
    Option.bind (after (codes "://") (optional (codes "s") r))
      (λ r'. after (codes "doi.org/") (optional (codes "dx.") r')))

-- `doi\s*:\s*`.
pub after_label : Text → Option Text
unfolding after skip_spaces
after_label t =
    Option.bind (after (codes "doi") t)
      (λ r. Option.map skip_spaces (after (codes ":") (skip_spaces r)))

-- `re.sub(r"^(?:…|…)", "", value, flags=re.I)`.
pub without_prefix : Text → Text
unfolding after_resolver after_label
without_prefix t = elim (after_resolver t) [
  | some rest ↦ rest
  | none ↦ Option.get_or (after_label t) t
]

-- `"" if not value`; of a value that is there, the code knows that it is a text.
module _ (u : Unicode) where
  -- The number of digits that a text begins with, and the rest.
  unfoldable pub count_digits : Text → ℕ
  count_digits [] = 0
  count_digits (c ∷ t) = let rest = count_digits t in if is_some (u.decimal c) then suc rest else 0

  -- `\d{4,9}/\S+` and the end.
  pub is_doi_suffix : Text → Bool
  is_doi_suffix t =
      let n = count_digits t in
      leb 4 n && leb n 9 && elim (drop n t) [
        | [] ↦ false
        | c ∷ name ↦ c == 47 && leb 1 (length name) && all (λ d. not (is_space d)) name
      ]

  -- `re.fullmatch(r"10\.\d{4,9}/\S+", value)`.
  pub is_doi : Text → Bool
  unfolding is_doi_suffix
  is_doi (a ∷ b ∷ c ∷ t) = a == 49 && b == 48 && c == 46 && is_doi_suffix t
  is_doi _ = false

  unfoldable pub normalize_doi : Text → Text
  unfolding is_doi without_prefix strip
  normalize_doi [] = []
  normalize_doi (c ∷ t) =
      let value = u.lower (without_prefix (strip (u.unquote (c ∷ t)))) in
      if is_doi value then value else []

  unfoldable pub normalize_title : Text → Text
  normalize_title t = join_spaces (split (u.casefold (u.nfkc t)))
