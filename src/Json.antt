-- ===== src/Json.antt =====
-- JSON values as Python reads them, with the tests and look-ups that the program makes on them.
-- Numbers with a fraction do not occur in what is modelled, and are left out.
pub mod Laws
use text.Mathlib.Text.{◌==◌ as str_eq}
use Prim.Native.String.{String}
use research_desk.Prelude.{
  ℕ, zero, suc, Bool, true, false, ◌&&◌, ◌||◌, List, [], ◌∷◌, if◌then◌else◌, ◌==◌, leb, Text,
  eq_text,
}

-- A Python `int`; `negsuc n` is -(n + 1).
pub data ℤ : Type 0 where
  pos : ℕ → ℤ
  negsuc : ℕ → ℤ

abbrev pub eq_ℤ : ℤ → ℤ → Bool
eq_ℤ (pos a) (pos b) = a == b
eq_ℤ (negsuc a) (negsuc b) = a == b
eq_ℤ _ _ = false

-- `lo <= z <= hi`, for bounds that are not negative.
abbrev pub in_range : ℕ → ℕ → ℤ → Bool
in_range lo hi (pos n) = leb lo n && leb n hi
in_range lo hi (negsuc n) = false

mutual
  pub data Json : Type 0 where
    null : Json
    bool : Bool → Json
    int : ℤ → Json
    str : Text → Json
    arr : Items → Json
    obj : Fields → Json

  pub data Items : Type 0 where
    nil : Items
    cons : Json → Items → Items

  -- The keys and values of an object, in order.
  pub data Fields : Type 0 where
    end : Fields
    field : String → Json → Fields → Fields

-- `bool(value)`.
unfoldable pub truthy : Json → Bool
truthy null = false
truthy (bool b) = b
truthy (int (pos zero)) = false
truthy (int _) = true
truthy (str []) = false
truthy (str (c ∷ t)) = true
truthy (arr nil) = false
truthy (arr (cons _ _)) = true
truthy (obj end) = false
truthy (obj (field _ _ _)) = true

-- `a or b`.
abbrev pub or_else : Json → Json → Json
or_else a b = if truthy a then a else b

-- `fields.get(key)`: a missing key reads as `None`.
unfoldable pub get : String → Fields → Json
get k end = null
get k (field j v fs) = if str_eq j k then v else get k fs

-- `key in fields`.
unfoldable pub has : String → Fields → Bool
has k end = false
has k (field j v fs) = str_eq j k || has k fs

-- `fields[key] = value`: a key that is there keeps its place.
unfoldable pub put : String → Json → Fields → Fields
put k v end = field k v end
put k v (field j w fs) = if str_eq j k then field j v fs else field j w (put k v fs)

-- `{**fields, **later}`.
unfoldable pub update : Fields → Fields → Fields
update fs end = fs
update fs (field k v later) = update (put k v fs) later

unfoldable pub items : Items → List Json
items nil = []
items (cons x xs) = x ∷ items xs

unfoldable pub to_items : List Json → Items
to_items [] = nil
to_items (x ∷ xs) = cons x (to_items xs)

unfoldable pub keys : Fields → List String
keys end = []
keys (field k v fs) = k ∷ keys fs

abbrev pub is_null : Json → Bool
is_null null = true
is_null _ = false

abbrev pub is_str : Json → Bool
is_str (str _) = true
is_str _ = false

-- `value is not None and not isinstance(value, str)`, negated.
abbrev pub is_str_or_none : Json → Bool
is_str_or_none null = true
is_str_or_none (str _) = true
is_str_or_none _ = false

abbrev pub is_obj : Json → Bool
is_obj (obj _) = true
is_obj _ = false

abbrev pub is_arr : Json → Bool
is_arr (arr _) = true
is_arr _ = false

-- `type(value) is int`: a bool is not meant.
abbrev pub is_int : Json → Bool
is_int (int _) = true
is_int _ = false

-- The text of a value, where the code knows it to be a text or `None`.
abbrev pub text_of : Json → Text
text_of (str t) = t
text_of _ = []

-- The elements of a value, where the code knows it to be a list.
abbrev pub list_of : Json → List Json
list_of (arr xs) = items xs
list_of _ = []

-- The fields of a value, where the code knows it to be an object.
abbrev pub fields_of : Json → Fields
fields_of (obj fs) = fs
fields_of _ = end

abbrev pub int_of_bool : Bool → ℤ
int_of_bool true = pos 1
int_of_bool false = pos 0

size : Fields → ℕ
size end = 0
size (field k v fs) = suc (size fs)

-- `a == b`: objects are compared without order, and `True` is the number 1.
unfoldable mutual
  unfolding size

  pub eq_json : Json → Json → Bool
  eq_json null null = true
  eq_json (bool a) (bool b) = eq_ℤ (int_of_bool a) (int_of_bool b)
  eq_json (bool a) (int z) = eq_ℤ (int_of_bool a) z
  eq_json (int z) (bool b) = eq_ℤ z (int_of_bool b)
  eq_json (int a) (int b) = eq_ℤ a b
  eq_json (str s) (str t) = eq_text s t
  eq_json (arr xs) (arr ys) = eq_items xs ys
  eq_json (obj fs) (obj gs) = size fs == size gs && sub_fields fs gs
  eq_json _ _ = false

  eq_items : Items → Items → Bool
  eq_items nil nil = true
  eq_items (cons x xs) (cons y ys) = eq_json x y && eq_items xs ys
  eq_items _ _ = false

  -- Each field stands in the other object with an equal value.
  sub_fields : Fields → Fields → Bool
  sub_fields end gs = true
  sub_fields (field k v fs) gs = has k gs && eq_json v (get k gs) && sub_fields fs gs

-- `fields == fields`.
unfoldable pub eq_fields : Fields → Fields → Bool
unfolding eq_json sub_fields size
eq_fields fs gs = size fs == size gs && sub_fields fs gs
