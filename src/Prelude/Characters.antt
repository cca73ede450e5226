-- ===== src/Prelude/Characters.antt =====
-- Texts as lists of code points, with the methods of Python's `str` that the program uses.
use Prim.Native.Nat.{ℕ, suc}
use Prim.Native.Char.{code}
use Prim.Native.String.{String}
use mathlib.Core.Path.{◌≡◌, refl}
use mathlib.Core.Logic.{◌↔◌}
use mathlib.Core.Bool.{Bool, true, false, ◌&&◌, ◌||◌}
use mathlib.Core.Option.{Option, none, some}
use mathlib.Core.Option
use mathlib.Core.List.{List, [], ◌∷◌, ◌++◌, reverse}
use native.Mathlib.Omega.{arith}
use research_desk.Prelude.Tests.{leb, ◌==◌, if◌then◌else◌}

abbrev pub Text : Type 0
Text = List ℕ

-- The code points of a literal.
abbrev pub codes : String → Text
codes String.[] = []
codes (String.◌∷◌ c s) = code c ∷ codes s

-- `a == b` on texts.
abbrev pub eq_text : Text → Text → Bool
eq_text [] [] = true
eq_text (a ∷ s) (b ∷ t) = a == b && eq_text s t
eq_text _ _ = false

pub eq_text_iff : (s t : Text) → (eq_text s t ≡ true) ↔ (s ≡ t)
eq_text_iff [] [] = (λ _. refl, λ _. refl)
eq_text_iff [] (b ∷ t) = (λ h. cc, λ h. cc)
eq_text_iff (a ∷ s) [] = (λ h. cc, λ h. cc)
eq_text_iff (a ∷ s) (b ∷ t) =
    (λ h. ground (arith, eq_text_iff s t), λ h. ground (arith, eq_text_iff s t))

-- `c.isspace()` for one code point: the 29 white space characters of Unicode that Python splits at.
unfoldable pub is_space : ℕ → Bool
is_space c =
    (leb 9 c && leb c 13)
    || (leb 28 c && leb c 32)
    || c == 133
    || c == 160
    || c == 5760
    || (leb 8192 c && leb c 8202)
    || c == 8232
    || c == 8233
    || c == 8239
    || c == 8287
    || c == 12288

-- `s.lstrip()`, `s.rstrip()` and `s.strip()`.
unfoldable pub lstrip : Text → Text
lstrip [] = []
lstrip (c ∷ s) = if is_space c then lstrip s else c ∷ s

unfoldable pub rstrip : Text → Text
rstrip [] = []
rstrip (c ∷ s) =
    let rest = rstrip s in elim rest [ [] ↦ if is_space c then [] else c ∷ [] | d ∷ r ↦ c ∷ d ∷ r ]

unfoldable pub strip : Text → Text
unfolding lstrip rstrip
strip s = rstrip (lstrip s)

-- A finished word, kept backwards, stands before the words after it, unless it is empty.
emit : Text → List Text → List Text
emit [] words = words
emit (c ∷ word) words = reverse (c ∷ word) ∷ words

-- `s.split()`, with the word that is being read.
split_from : Text → Text → List Text
unfolding emit is_space
split_from word [] = emit word []
split_from word (c ∷ s) =
    let after = emit word (split_from [] s) in
    let within = split_from (c ∷ word) s in if is_space c then after else within

unfoldable pub split : Text → List Text
unfolding split_from
split s = split_from [] s

-- `" ".join(words)`.
unfoldable pub join_spaces : List Text → Text
join_spaces [] = []
join_spaces (w ∷ []) = w
join_spaces (w ∷ v ∷ ws) = w ++ 32 ∷ join_spaces (v ∷ ws)

-- `s.startswith(p)`.
abbrev pub starts_with : Text → Text → Bool
starts_with s [] = true
starts_with [] (b ∷ p) = false
starts_with (a ∷ s) (b ∷ p) = a == b && starts_with s p

-- `s.find(p)`: the first position at which `p` stands.
unfoldable pub find : Text → Text → Option ℕ
find [] p = if starts_with [] p then some 0 else none
find (c ∷ s) p =
    let later = find s p in if starts_with (c ∷ s) p then some 0 else Option.map suc later
