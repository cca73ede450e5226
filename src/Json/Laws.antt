-- ===== src/Json/Laws.antt =====
-- Reading the fields of an object after writing them.
use Prim.Native.String.{String}
use text.Mathlib.Text.{◌==◌ as str_eq}
use text.Mathlib.TextEquality.{eq_iff}
use research_desk.Prelude.{◌≡◌, refl, sym, ◌∙◌, true, false, Bool-cases, inl, inr}
use research_desk.Json.{Json, Fields, end, field, get, put, update}

-- Equal keys are the same key.
pub str_eq-true : (a b : String) → str_eq a b ≡ true → a ≡ b
str_eq-true a b h = (eq_iff a b).0 h

pub get-put_ne :
    (k j : String) (v : Json) (fs : Fields) → str_eq j k ≡ false → get k (put j v fs) ≡ get k fs
unfolding get put
get-put_ne k j v end h = rw (h, get)
get-put_ne k j v (field i w fs) h = elim (Bool-cases (str_eq i j)) [
  | inl e ↦
      let same = str_eq-true i j e in
      let other : str_eq i k ≡ false = rw same h in rw (e, get, other)
  | inr e ↦ rw (e, get, get-put_ne k j v fs h)
]

pub get-put_self : (k : String) (v : Json) (fs : Fields) → get k (put k v fs) ≡ v
unfolding get put
get-put_self k v end = let e : str_eq k k ≡ true = (eq_iff k k).1 refl in rw (e, get)
get-put_self k v (field i w fs) = elim (Bool-cases (str_eq i k)) [
  | inl e ↦ rw (e, get, e)
  | inr e ↦ rw (e, get, e, get-put_self k v fs)
]

-- What is read after an update depends on what was read before.
pub get-update_cong :
    (k : String) (fs gs later : Fields)
    → get k fs ≡ get k gs
    → get k (update fs later) ≡ get k (update gs later)
unfolding update
get-update_cong k fs gs end h = h
get-update_cong k fs gs (field j v later) h =
    get-update_cong k (put j v fs) (put j v gs) later (elim (Bool-cases (str_eq j k)) [
      | inl e ↦
          let same = str_eq-true j k e in rw same (get-put_self k v fs ∙ sym (get-put_self k v gs))
      | inr e ↦ get-put_ne k j v fs e ∙ h ∙ sym (get-put_ne k j v gs e)
    ])
