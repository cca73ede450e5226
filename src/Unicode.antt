-- ===== src/Unicode.antt =====
-- The tables and decoders of Python's text functions, which the source calls and does not hold.
use research_desk.Prelude.{
  ℕ, Bool, true, false, Option, none, some, List, [], ◌∷◌, ◌-◌, ◌&&◌, ◌||◌, leb, ◌==◌,
  if◌then◌else◌, Text, codes, map, eq_text, ◌+◌,
}
use mathlib.Core.List.{reverse}
use research_desk.Json.{Json, null, bool, str}

-- Functions that every part of the program takes as an argument.
pub record Unicode : Type 0 where
  -- `str.lower`, `str.casefold`, `unicodedata.normalize("NFKC", ·)`, `urllib.parse.unquote`.
  pub lower : Text → Text
  pub casefold : Text → Text
  pub nfkc : Text → Text
  pub unquote : Text → Text
  -- The value of a decimal digit, as `\d` and `int` read it, and the characters of `\w`.
  pub decimal : ℕ → Option ℕ
  pub is_word : ℕ → Bool
  -- `str` of a value that is no text.
  pub show : Json → Text

-- `str(value)`.
abbrev pub str_of : Unicode → Json → Text
str_of u (str t) = t
str_of u v = u.show v

abbrev pub is_some {ℓ} : {A : Type ℓ} → Option A → Bool
is_some none = false
is_some (some a) = true

-- The same on ASCII, for tests and witnesses.
abbrev pub ascii_lower : ℕ → ℕ
ascii_lower c = if leb 65 c && leb c 90 then c + 32 else c

abbrev pub ascii_digit : ℕ → Option ℕ
ascii_digit c = if leb 48 c && leb c 57 then some (c - 48) else none

abbrev pub ascii_word : ℕ → Bool
ascii_word c =
    (leb 48 c && leb c 57) || (leb 65 c && leb c 90) || (leb 97 c && leb c 122) || c == 95

-- For the values that have one text only.
abbrev pub ascii_show : Json → Text
ascii_show null = codes "None"
ascii_show (bool true) = codes "True"
ascii_show (bool false) = codes "False"
ascii_show v = []

abbrev pub ascii : Unicode
ascii = record {
  lower = map ascii_lower;
  casefold = map ascii_lower;
  nfkc = λ t. t;
  unquote = λ t. t;
  decimal = ascii_digit;
  is_word = ascii_word;
  show = ascii_show;
}

-- `re.findall` of a class of characters and `+`: the longest runs, from the left.
emit_run : Text → List Text → List Text
emit_run [] runs = runs
emit_run (c ∷ run) runs = reverse (c ∷ run) ∷ runs

runs_from : (ℕ → Bool) → Text → Text → List Text
unfolding emit_run
runs_from p run [] = emit_run run []
runs_from p run (c ∷ t) =
    let within = runs_from p (c ∷ run) t in
    let after = emit_run run (runs_from p [] t) in if p c then within else after

unfoldable pub runs : (ℕ → Bool) → Text → List Text
unfolding runs_from
runs p t = runs_from p [] t

-- `text in texts`.
unfoldable pub elem : Text → List Text → Bool
elem t [] = false
elem t (s ∷ ss) = eq_text s t || elem t ss
