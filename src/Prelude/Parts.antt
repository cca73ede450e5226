-- ===== src/Prelude/Parts.antt =====
-- Parts of a text: what stands in it somewhere, unchanged.
use Prim.Native.Nat.{ℕ, ◌-◌, ◌≤◌}
use mathlib.Core.Path.{◌≡◌, refl, ap, ◌∙◌}
use mathlib.Core.Logic.{inl, inr}
use mathlib.Core.List.{[], ◌∷◌, ◌++◌, append-nil, append_assoc}
use native.Mathlib.Omega.{arith}
use research_desk.Prelude.Tests.{if◌then◌else◌, Bool-cases}
use research_desk.Prelude.Lists.{length, take, drop, slice, take-append-drop, length-append}
use research_desk.Prelude.Characters.{Text, is_space, strip, lstrip, rstrip}

-- `s in t`, with what stands before and after it.
pub record IsPart (t s : Text) : Type 0 where
  pub before : Text
  pub after : Text
  pub whole : t ≡ before ++ (s ++ after)

pub IsPart-trans : (t s r : Text) → IsPart t s → IsPart s r → IsPart t r
IsPart-trans t s r p q = record {
  before = p.before ++ q.before;
  after = q.after ++ p.after;
  whole = p.whole ∙ ap (λ x. p.before ++ (x ++ p.after)) q.whole ∙ simp append_assoc;
}

pub take-IsPart : (n : ℕ) (t : Text) → IsPart t (take n t)
take-IsPart n t = record { before = []; after = drop n t; whole = rw (take-append-drop n t) }

pub drop-IsPart : (n : ℕ) (t : Text) → IsPart t (drop n t)
drop-IsPart n t = record {
  before = take n t;
  after = [];
  whole = rw (append-nil, take-append-drop n t);
}

pub slice-IsPart : (t : Text) (a b : ℕ) → IsPart t (slice t a b)
slice-IsPart t a b =
    IsPart-trans t (drop a t) (slice t a b) (drop-IsPart a t) (take-IsPart (b - a) (drop a t))

lstrip-IsPart : (t : Text) → IsPart t (lstrip t)
unfolding lstrip
lstrip-IsPart [] = record { before = []; after = []; whole = refl }
lstrip-IsPart (c ∷ t) =
    let rest = lstrip-IsPart t in
    elim (Bool-cases (is_space c)) [
      | inl e ↦ rw e (record {
        before = c ∷ rest.before;
        after = rest.after;
        whole = ap (λ (x : Text). c ∷ x) rest.whole;
      })
      | inr e ↦ rw e (record { before = []; after = []; whole = rw append-nil })
    ]

rstrip-prefix : (t : Text) → (after : Text) × (t ≡ rstrip t ++ after)
unfolding rstrip
rstrip-prefix [] = ([], refl)
rstrip-prefix (c ∷ t) = let (after, e) = rstrip-prefix t in grow (rstrip t) after e
  where
    grow :
        (r after : Text)
        → t ≡ r ++ after
        → (a : Text) × (c ∷ t
            ≡ elim r [ [] ↦ if is_space c then [] else c ∷ [] | d ∷ s ↦ c ∷ d ∷ s ] ++ a)
    grow [] after e = elim (Bool-cases (is_space c)) [
      | inl space ↦ rw space (c ∷ after, ap (λ (x : Text). c ∷ x) e)
      | inr other ↦ rw other (after, ap (λ (x : Text). c ∷ x) e)
    ]
    grow (d ∷ r) after e = (after, ap (λ (x : Text). c ∷ x) e)

rstrip-IsPart : (t : Text) → IsPart t (rstrip t)
unfolding rstrip
rstrip-IsPart [] = record { before = []; after = []; whole = refl }
rstrip-IsPart (c ∷ t) =
    let rest = rstrip-prefix (c ∷ t) in record { before = []; after = rest.0; whole = rest.1 }

pub strip-IsPart : (t : Text) → IsPart t (strip t)
unfolding strip
strip-IsPart t = IsPart-trans t (lstrip t) (strip t) (lstrip-IsPart t) (rstrip-IsPart (lstrip t))

pub length-IsPart : (t s : Text) → IsPart t s → length s ≤ length t
length-IsPart t s p =
    let e : length t ≡ length (p.before ++ (s ++ p.after)) = ap length p.whole in
    omega (arith, e, length-append p.before (s ++ p.after), length-append s p.after)
