-- ===== src/Records/Imports.antt =====
-- Import runs and their leases (records/ingestion.py). Times are seconds; the clock is an argument.
pub mod Leases
mod Tests
use research_desk.Prelude.{
  ℕ, ◌+◌, ◌<◌, Bool, true, false, not, ◌&&◌, ◌||◌, Option, none, some, List, [], ◌∷◌, ◌++◌, ltb,
  leb, ◌==◌, if◌then◌else◌, Text, eq_text, length,
}
use research_desk.Json.{Fields}
use research_desk.Table.{find_row, find_where, set_row}

pub data Status : Type 0 where
  queued running succeeded failed partially_failed : Status

abbrev pub is_queued : Status → Bool
is_queued queued = true
is_queued _ = false

abbrev pub is_running : Status → Bool
is_running running = true
is_running _ = false

abbrev pub has_failed : Status → Bool
has_failed failed = true
has_failed partially_failed = true
has_failed _ = false

-- "not_before" is the only part of the cursor that the leases read; an empty lease owner is none.
pub record ImportRun : Type 0 where
  pub id : ℕ
  pub provider : Text
  pub profile : Fields
  pub status : Status
  pub not_before : Option ℕ
  pub lease_owner : Option ℕ
  pub lease_expires_at : Option ℕ
  pub started_at : Option ℕ
  pub finished_at : Option ℕ
  pub idempotency_key : Option Text
  pub request_hash : ℕ

-- A failure without an external id is one of the network.
pub record ImportFailure : Type 0 where
  pub run : ℕ
  pub external_id : Text
  pub resolved : Bool

pub record Db : Type 0 where
  pub runs : List ImportRun
  pub failures : List ImportFailure
  -- The next primary key or lease owner: `uuid4` gives one that is not in use.
  pub next_id : ℕ

pub data Error : Type 0 where
  missing lease_lost invalid_key import_conflict not_failed retry_later : Error

pub data Outcome (A : Type 0) : Type 0 where
  done : A → Outcome A
  refused : Error → Outcome A

abbrev pub run_id : ImportRun → ℕ
run_id r = r.id

abbrev pub find_run : Db → ℕ → Option ImportRun
find_run db pk = find_row run_id pk db.runs

abbrev pub save_run : ImportRun → Db → Db
save_run r db = record db { runs = set_row run_id r db.runs }

abbrev pub lease_seconds : ℕ
lease_seconds = 120

-- `value is None or value <= now`, and `value < now` of a value that is there.
abbrev pub is_due : ℕ → Option ℕ → Bool
is_due now none = true
is_due now (some t) = leb t now

abbrev pub is_past : ℕ → Option ℕ → Bool
is_past now none = false
is_past now (some t) = ltb t now

abbrev pub matches : Option ℕ → ImportRun → Bool
matches none r = true
matches (some pk) r = r.id == pk

-- The filters of `claim_run`.
unfoldable pub claimable : Option ℕ → ℕ → ImportRun → Bool
claimable pk now r =
    (is_queued r.status || (is_running r.status && is_past now r.lease_expires_at))
    && is_due now r.not_before
    && matches pk r

abbrev pub or_now : Option ℕ → ℕ → ℕ
or_now none now = now
or_now (some t) now = t

unfoldable pub take_run : ℕ → Option ImportRun → Db → Option ImportRun × Db
take_run now none db = (none, db)
take_run now (some r) db =
    let r' = record r {
      status = running;
      lease_owner = some db.next_id;
      lease_expires_at = some (now + lease_seconds);
      started_at = some (or_now r.started_at now);
    } in
    (some r', record (save_run r' db) { next_id = db.next_id + 1 })

-- `claim_run(run_id)`.
unfoldable pub claim_run : Option ℕ → ℕ → Db → Option ImportRun × Db
unfolding claimable take_run find_where
claim_run pk now db = take_run now (find_where (claimable pk now) db.runs) db

abbrev pub eq_owner : Option ℕ → ℕ → Bool
eq_owner none owner = false
eq_owner (some o) owner = o == owner

abbrev pub is_later : ℕ → Option ℕ → Bool
is_later now none = false
is_later now (some t) = ltb now t

-- The tests of `_locked`, negated: running, of this owner, with a lease that is not over.
abbrev pub holds : ℕ → ℕ → ImportRun → Bool
holds owner now r =
    is_running r.status && eq_owner r.lease_owner owner && is_later now r.lease_expires_at

unfoldable pub locked_run : ℕ → ℕ → Option ImportRun → Outcome ImportRun
locked_run owner now none = refused missing
locked_run owner now (some r) = if holds owner now r then done r else refused lease_lost

-- `_locked(run_id, owner)`.
unfoldable pub locked : ℕ → ℕ → ℕ → Db → Outcome ImportRun
unfolding locked_run
locked pk owner now db = locked_run owner now (find_run db pk)

-- `heartbeat(run_id, owner)`.
unfoldable pub heartbeat : ℕ → ℕ → ℕ → Db → Outcome Db
unfolding locked
heartbeat pk owner now db = elim (locked pk owner now db) [
  | refused e ↦ refused e
  | done r ↦ done (save_run (record r { lease_expires_at = some (now + lease_seconds) }) db)
]

abbrev pub is_blank : Text → Bool
is_blank [] = true
is_blank (_ ∷ _) = false

-- The failures of the network are resolved.
unfoldable pub resolve : ℕ → List ImportFailure → List ImportFailure
resolve pk [] = []
resolve pk (f ∷ failures) =
    (if f.run == pk && is_blank f.external_id then record f { resolved = true } else f)
    ∷ resolve pk failures

unfoldable pub requeue : ℕ → ImportRun → Db → Outcome (ImportRun × Db)
unfolding resolve
requeue now r db =
    let r' = record r {
      status = queued;
      finished_at = none;
      lease_owner = none;
      lease_expires_at = none;
    } in
    if not (has_failed r.status)
    then refused not_failed
    else (if is_later now r.not_before
        then refused retry_later
        else done (r', save_run r' (record db { failures = resolve r.id db.failures })))

unfoldable pub retry_found : ℕ → Option ImportRun → Db → Outcome (ImportRun × Db)
unfolding requeue
retry_found now none db = refused missing
retry_found now (some r) db =
    if is_queued r.status || is_running r.status then done (r, db) else requeue now r db

-- `retry_run(run_id)`.
unfoldable pub retry_run : ℕ → ℕ → Db → Outcome (ImportRun × Db)
unfolding retry_found
retry_run pk now db = retry_found now (find_run db pk) db
