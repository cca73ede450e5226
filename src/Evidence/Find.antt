-- ===== src/Evidence/Find.antt =====
-- What `str.find` returns, and that each collected span spells a quote of a source of the page.
use research_desk.Prelude.{
  ℕ, zero, suc, ◌+◌, ◌≤◌, ◌≡◌, refl, true, some, [], ◌∷◌, arith, length, take, drop, Text,
  starts_with, find,
}

starts_with-take : (s p : Text) → starts_with s p ≡ true → take (length p) s ≡ p
starts_with-take s [] h = refl
starts_with-take [] (b ∷ p) h = cc
starts_with-take (a ∷ s) (b ∷ p) h = ground (arith, starts_with-take s p)

starts_with-length : (s p : Text) → starts_with s p ≡ true → length p ≤ length s
starts_with-length s [] h = omega arith
starts_with-length [] (b ∷ p) h = cc
starts_with-length (a ∷ s) (b ∷ p) h = ground (arith, starts_with-length s p)

-- What a position is where `p` stands in `s`.
abbrev pub StandsAt : Text → Text → ℕ → Type 0
StandsAt s p k = (take (length p) (drop k s) ≡ p) × (k + length p ≤ length s)

StandsAt-zero : (s p : Text) → starts_with s p ≡ true → StandsAt s p 0
StandsAt-zero s p h = (starts_with-take s p h, omega (arith, starts_with-length s p h))

StandsAt-suc : (c : ℕ) (s p : Text) (k : ℕ) → StandsAt s p k → StandsAt (c ∷ s) p (suc k)
StandsAt-suc c s p k h = (h.0, omega arith)

pub find-StandsAt : (s p : Text) (k : ℕ) → find s p ≡ some k → StandsAt s p k
unfolding find
find-StandsAt [] p k h = ground (arith, StandsAt-zero [] p)
find-StandsAt (c ∷ s) p zero h = ground (arith, StandsAt-zero (c ∷ s) p)
find-StandsAt (c ∷ s) p (suc k) h = ground (arith, StandsAt-suc c s p k, find-StandsAt s p k)
