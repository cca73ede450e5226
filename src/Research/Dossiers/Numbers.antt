-- ===== src/Research/Dossiers/Numbers.antt =====
-- Numbers as texts, and the lines of a text, as the commands read them (research/commands.py).
use Prim.Native.Char.{Char}
use Prim.Native.String.{String}
use research_desk.Prelude.{
  ℕ, zero, suc, ◌+◌, ◌*◌, ◌/◌, ◌%◌, Bool, true, false, not, ◌&&◌, ◌||◌, Option, none, some, List,
  [], ◌∷◌, any, ltb, leb, ◌==◌, if◌then◌else◌, Text, strip,
}
use research_desk.Json.{ℤ, pos, negsuc}
use research_desk.Unicode.{Unicode, runs}

char_at : ℕ → String → Char
char_at n String.[] = "0"
char_at zero (String.◌∷◌ c s) = c
char_at (suc n) (String.◌∷◌ c s) = char_at n s

digit : ℕ → Char
unfolding char_at
digit n = char_at n "0123456789"

digits_before : ℕ → ℕ → String → String
unfolding digit
digits_before zero n s = s
digits_before (suc fuel) n s =
    let last = String.◌∷◌ (digit (n % 10)) s in
    let more = digits_before fuel (n / 10) last in if ltb n 10 then last else more

-- `str(n)` of a number that is not negative: it has at most n + 1 digits.
unfoldable pub decimal : ℕ → String
unfolding digits_before
decimal n = digits_before (suc n) n String.[]

-- The digits of `int(text)`, one underscore between two of them at most.
digits_after : Unicode → ℕ → Bool → Text → Option ℕ
digits_after u n after_digit [] = if after_digit then some n else none
digits_after u n after_digit (c ∷ t) =
    let rest = digits_after u n false t in
    elim (u.decimal c) [
      | some d ↦ digits_after u (10 * n + d) true t
      | none ↦ if c == 95 && after_digit then rest else none
    ]

negative : Option ℕ → Option ℤ
negative none = none
negative (some zero) = some (pos zero)
negative (some (suc n)) = some (negsuc n)

positive : Option ℕ → Option ℤ
positive none = none
positive (some n) = some (pos n)

signed : Unicode → Text → Option ℤ
unfolding digits_after negative positive
signed u [] = none
signed u (c ∷ t) =
    if c == 45
    then negative (digits_after u 0 false t)
    else (if c == 43
        then positive (digits_after u 0 false t)
        else positive (digits_after u 0 false (c ∷ t)))

-- `int(text)`, none for a `ValueError`.
unfoldable pub parse_int : Unicode → Text → Option ℤ
unfolding signed
parse_int u text = signed u (strip text)

-- The characters at which `splitlines` ends a line.
is_line_end : ℕ → Bool
is_line_end c =
    (leb 10 c && leb c 13) || (leb 28 c && leb c 30) || c == 133 || c == 8232 || c == 8233

keep_lines : List Text → List Text
keep_lines [] = []
keep_lines (line ∷ lines) = elim (strip line) [
  | [] ↦ keep_lines lines
  | c ∷ q ↦ (c ∷ q) ∷ keep_lines lines
]

-- `[q.strip() for q in text.splitlines() if q.strip()]`: lines that are empty are left out anyway, so
-- the runs of other characters are enough.
unfoldable pub queries_of : Text → List Text
unfolding is_line_end keep_lines runs
queries_of text = keep_lines (runs (λ c. not (is_line_end c)) text)

-- `any(ord(c) < 32 for c in q)`.
unfoldable pub has_control : Text → Bool
has_control q = any (λ c. ltb c 32) q
