-- ===== src/Records/Normalization/Checked.antt =====
-- Results of the validation (records/normalization.py): a `ValueError` is a `Problem`, which names
-- its message.
use Prim.Native.String.{String}
use research_desk.Prelude.{◌≡◌, refl, Bool, true, false, Option, none, some, List, [], ◌∷◌}

pub data Problem : Type 0 where
  payload_not_object title_not_text authors_not_list authorships_invalid author_invalid : Problem
  publication_date_invalid year_invalid : Problem
  not_text : String → Problem
  author_not_text : String → Problem
  date_parts_missing : String → Problem
  date_parts_invalid : String → Problem

-- The message of the error, or what was checked.
pub data Checked (A : Type 0) : Type 0 where
  err : Problem → Checked A
  ok : A → Checked A

-- What follows a check is left out once one has failed.
infixl 5 ◌>>=◌
abbrev pub ◌>>=◌ : {A B : Type 0} → Checked A → (A → Checked B) → Checked B
checked >>= next = elim checked [ err problem ↦ err problem | ok a ↦ next a ]

infixl 5 ◌>>◌
abbrev pub ◌>>◌ : {B : Type 0} → Checked (Unit {0}) → Checked B → Checked B
checked >> next = checked >>= λ _. next

-- `if not test: raise`.
abbrev pub require : Bool → Problem → Checked (Unit {0})
require true e = ok tt
require false e = err e

-- The first failure over a list, as a loop that raises.
unfoldable pub each : {A : Type 0} → (A → Checked (Unit {0})) → List A → Checked (Unit {0})
each f [] = ok tt
each f (x ∷ xs) = do f x; each f xs

-- What a check that passed went through.
pub >>=-eq-ok :
    {A B : Type 0} (checked : Checked A) (next : A → Checked B) {b : B}
    → (checked >>= next) ≡ ok b
    → (a : A) × (checked ≡ ok a) × (next a ≡ ok b)
>>=-eq-ok (err problem) next h = cc
>>=-eq-ok (ok a) next h = (a, refl, h)

-- Whether no `ValueError` was raised.
abbrev pub is_accepted : {A : Type 0} → Checked A → Bool
is_accepted (err problem) = false
is_accepted (ok a) = true

-- What was accepted, none for a `ValueError`.
abbrev pub accepted_fields : {A : Type 0} → Checked A → Option A
accepted_fields (err problem) = none
accepted_fields (ok a) = some a
