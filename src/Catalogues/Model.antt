-- ===== src/Catalogues/Model.antt =====
-- The tables of the catalogues (catalogues/models.py) and the transactions on them.
-- A row is known by its primary key, a number here. The lists are in the order of creation, which is
-- the order `created_at`, `position`, `id` of the entries; the times of creation are left out.
pub mod Inversion
use Prim.Native.String.{String}
use text.Mathlib.Text.{◌==◌ as str_eq}
use research_desk.Prelude.{
  ℕ, ◌+◌, Bool, true, false, Option, none, some, List, [], ◌∷◌, ◌++◌, ◌&&◌, ◌==◌, if◌then◌else◌,
  ◌≡◌, refl, Text,
}
use research_desk.Json.{Json, Fields, end, field, put, has, get}
use research_desk.Records.Normalization.{Problem}

pub data Status : Type 0 where
  pending kept merged excluded deferred : Status

pub Status-discrete : Discrete Status
Status-discrete = hlevel

abbrev pub is_kept : Status → Bool
is_kept kept = true
is_kept _ = false

-- "origin" of an entry, and "kind" of a selection.
pub data Kind : Type 0 where
  baseline incoming : Kind

abbrev pub is_baseline : Kind → Bool
is_baseline baseline = true
is_baseline incoming = false

-- `request.user`.
pub record User : Type 0 where
  pub pk : ℕ
  pub is_authenticated : Bool

pub record Catalogue : Type 0 where
  pub id : ℕ
  pub owner : ℕ
  pub name : Text
  pub revision : ℕ

-- A previewed row, whose values are any JSON: `row.get("provider", row.get("source", "upload"))`, its
-- identifiers (the empty text where they are missing), "raw" and "normalized". A row that is no object
-- has `null` for both of these.
pub record Row : Type 0 where
  pub provider : Json
  pub external_id : Json
  pub local_id : Json
  pub raw : Json
  pub normalized : Json

pub record Summary : Type 0 where
  pub created : ℕ
  pub skipped : ℕ
  pub changed_existing : ℕ

pub record Selection : Type 0 where
  pub id : ℕ
  pub catalogue : ℕ
  pub kind : Kind
  pub rows : List Row
  pub errors : List Json
  pub provenance : Fields
  pub consumed : Bool
  pub summary : Option Summary

-- The correction of a field: its "value", "actor_id", "reason" and "at".
pub record Correction : Type 0 where
  pub value : Json
  pub actor_id : ℕ
  pub reason : Text
  pub at : ℕ

abbrev pub Overrides : Type 0
Overrides = List (String × Correction)

pub record Entry : Type 0 where
  pub id : ℕ
  pub catalogue : ℕ
  pub selection : ℕ
  pub position : ℕ
  pub origin : Kind
  pub provider : Text
  pub external_id : Text
  pub local_id : Text
  pub raw : Fields
  pub normalized : Fields
  pub status : Status
  pub merge_target : Option ℕ
  pub overrides : Overrides

-- What `decide` may be asked to do; any other word is `unknown`.
pub data Action : Type 0 where
  keep merge exclude defer reset : Action
  unknown : Text → Action

-- "action" of an event.
pub data EventKind : Type 0 where
  imported corrected : EventKind
  decided : Action → EventKind

-- `_snapshot(entry)`.
pub record Snapshot : Type 0 where
  pub status : Status
  pub merge_target : Option ℕ
  pub overrides : Overrides

-- "after" of the event of an import.
pub record ImportDetails : Type 0 where
  pub selection_id : ℕ
  pub kind : Kind
  pub rows : ℕ
  pub summary : Summary
  pub provenance : Fields

-- "after" of an event: an entry as it is now, or what an import did.
pub data After : Type 0 where
  of_entry : Snapshot → After
  of_import : ImportDetails → After

pub record AuditEvent : Type 0 where
  pub id : ℕ
  pub catalogue : ℕ
  pub entry : Option ℕ
  pub actor : ℕ
  pub action : EventKind
  pub reason : Text
  pub before : Option Snapshot
  pub after : Option After
  pub idempotency_key : Text
  pub request_hash : Option ℕ

pub record Db : Type 0 where
  pub catalogues : List Catalogue
  pub selections : List Selection
  pub entries : List Entry
  pub events : List AuditEvent
  -- The next primary key: `uuid4` gives one that no row has.
  pub next_id : ℕ

-- A `DomainError` by its code; `not_found` is Django's `Http404`.
pub data Error : Type 0 where
  not_found : Error
  stale_revision invalid_name invalid_kind selection_limit catalogue_limit : Error
  invalid_key idempotency_conflict invalid_action dependent_merges invalid_target : Error
  reason_required invalid_correction invalid_doi invalid_row : Error
  -- Django's `IntegrityError`: the column takes no null.
  null_identifier : Error

pub data Result {ℓ} (A : Type ℓ) : Type ℓ where
  ok : A → Result A
  err : Error → Result A

-- An operation in `transaction.atomic`: an error gives no new state, since the transaction is rolled
-- back.
abbrev pub Transaction : Type 0 → Type 0
Transaction A = Db → Result (A × Db)

abbrev pub pure : {A : Type 0} → A → Transaction A
pure a db = ok (a, db)

abbrev pub raise : {A : Type 0} → Error → Transaction A
raise e db = err e

infixl 5 ◌>>=◌ ◌>>◌
abbrev pub ◌>>=◌ : {A B : Type 0} → Transaction A → (A → Transaction B) → Transaction B
◌>>=◌ m f db = elim (m db) [ ok (a, db') ↦ f a db' | err e ↦ err e ]

abbrev pub ◌>>◌ : {B : Type 0} → Transaction (Unit {0}) → Transaction B → Transaction B
m >> k = m >>= λ _. k

abbrev pub gets : {A : Type 0} → (Db → A) → Transaction A
gets f db = ok (f db, db)

abbrev pub modify : (Db → Db) → Transaction (Unit {0})
modify f db = ok (tt, f db)

-- `if test: raise`.
abbrev pub raise_if : Bool → Error → Transaction (Unit {0})
raise_if true e db = err e
raise_if false e db = ok (tt, db)

abbrev pub or_raise : {A : Type 0} → Option A → Error → Transaction A
or_raise none e db = err e
or_raise (some a) e db = ok (a, db)
