-- ===== src/Research/Dossiers/Model.antt =====
-- The tables of the research: dossiers, their runs and the buckets of the rate limits
-- (research/models.py, research/states.py). Times are seconds; primary keys are numbers.
use research_desk.Prelude.{
  ℕ, ◌≡◌, refl, Bool, true, false, Option, none, some, List, [], ◌∷◌, ◌++◌, Text, last_n,
}
use research_desk.Json.{Fields}
use research_desk.Research.Papers.{Paper}
use research_desk.Table.{find_row, set_row}

pub data Status : Type 0 where
  draft queued running ready failed cancelled : Status

pub data Stage : Type 0 where
  plan search fulltext synthesize investigate : Stage

-- `status in {"queued", "running"}`.
abbrev pub is_active : Status → Bool
is_active queued = true
is_active running = true
is_active _ = false

abbrev pub is_running : Status → Bool
is_running running = true
is_running _ = false

abbrev pub is_queued : Status → Bool
is_queued queued = true
is_queued _ = false

abbrev pub is_investigate : Stage → Bool
is_investigate investigate = true
is_investigate _ = false

abbrev pub is_search : Stage → Bool
is_search search = true
is_search _ = false

-- "message" and "at".
pub record Event : Type 0 where
  pub message : Text
  pub at : ℕ

-- "scope" and "queries" of a plan; the empty plan has neither.
pub record Plan : Type 0 where
  pub scope : Text
  pub queries : List Text

-- A report that was replaced; "at" is there where `publish_report` replaced it.
pub record Version : Type 0 where
  pub report : Fields
  pub focus : Text
  pub papers : List Paper
  pub selected : List Text
  pub at : Option ℕ

pub record Dossier : Type 0 where
  pub id : ℕ
  pub owner : ℕ
  pub question : Text
  pub year_from : ℕ
  pub limit : ℕ
  pub status : Status
  pub focus : Text
  pub report_focus : Text
  pub use_fulltext : Bool
  pub stage : Stage
  pub plan : Plan
  pub papers : List Paper
  pub selected : List Text
  pub report : Fields
  pub report_papers : List Paper
  pub report_selected : List Text
  pub versions : List Version
  pub investigation : Fields
  pub events : List Event
  pub error : Text
  pub run_id : ℕ
  pub updated_at : ℕ

-- A run as the worker records it; "status" is none while it runs.
pub record Run : Type 0 where
  pub id : ℕ
  pub dossier : ℕ
  pub stage : Stage
  pub focus : Text
  pub status : Option Status
  pub error : Text
  pub finished_at : Option ℕ

pub record Bucket : Type 0 where
  pub key : ℕ
  pub started_at : ℕ
  pub count : ℕ

-- The dossiers in the order of creation.
pub record Db : Type 0 where
  pub dossiers : List Dossier
  pub runs : List Run
  pub buckets : List Bucket
  -- The next identity of a run: `uuid4` gives one that no dossier has.
  pub next_run : ℕ

-- The exceptions by their messages: `CommandError`, `LimitExceeded`, `Cancelled` and Django's
-- `DoesNotExist`.
pub data Error : Type 0 where
  missing other_owner already_running unknown_paper report_changed invalid_finding : Error
  invalid_assessment invalid_queries select_first invalid_focus include_first unknown_action : Error
  incapable : Text → Error
  user_limit queue_full stopped : Error
  too_many_requests : (retry_after : ℕ) → Error

pub data Outcome (A : Type 0) : Type 0 where
  done : A → Outcome A
  refused : Error → Outcome A

infixl 5 ◌>>=◌
abbrev pub ◌>>=◌ : {A B : Type 0} → Outcome A → (A → Outcome B) → Outcome B
o >>= next = elim o [ refused e ↦ refused e | done a ↦ next a ]

infixl 5 ◌>>◌
abbrev pub ◌>>◌ : {B : Type 0} → Outcome (Unit {0}) → Outcome B → Outcome B
o >> next = o >>= λ _. next

-- `if test: raise`.
abbrev pub refuse_if : Bool → Error → Outcome (Unit {0})
refuse_if true e = refused e
refuse_if false e = done tt

abbrev pub or_refuse : {A : Type 0} → Option A → Error → Outcome A
or_refuse none e = refused e
or_refuse (some a) e = done a

abbrev pub dossier_id : Dossier → ℕ
dossier_id d = d.id

abbrev pub find_dossier : Db → ℕ → Option Dossier
find_dossier db i = find_row dossier_id i db.dossiers

-- `dossier.save()`, with the time of the change.
abbrev pub save_dossier : ℕ → Dossier → Db → Db
save_dossier now d db = record db {
  dossiers = set_row dossier_id (record d { updated_at = now }) db.dossiers;
}

-- `[*events, event(message)][-100:]`.
abbrev pub log : Text → ℕ → List Event → List Event
log message now events = last_n 100 (events ++ record { message = message; at = now } ∷ [])

-- What a step of the operation that succeeded was.
pub >>=-eq-done :
    {A B : Type 0} (o : Outcome A) (next : A → Outcome B) {b : B}
    → (o >>= next) ≡ done b
    → (a : A) × (o ≡ done a) × (next a ≡ done b)
>>=-eq-done (done a) next h = (a, refl, h)
>>=-eq-done (refused e) next h = cc

pub refuse_if-eq-done :
    {B : Type 0} (test : Bool) (e : Error) (next : Outcome B) {b : B}
    → (refuse_if test e >> next) ≡ done b
    → (test ≡ false) × (next ≡ done b)
refuse_if-eq-done true e next h = cc
refuse_if-eq-done false e next h = (refl, h)
