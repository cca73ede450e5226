-- ===== src/Research/Dossiers/Jobs.antt =====
-- What a worker does to a dossier: progress, the claim of a job, the lease and the publication of a
-- report (research/jobs.py, research/runs.py, research/heartbeat.py).
pub mod Fencing
pub mod Writing
pub mod Progress
pub mod Claim
pub mod Later
use research_desk.Prelude.{
  ℕ, ◌+◌, ◌<◌, Bool, true, false, not, ◌&&◌, ◌||◌, Option, none, some, List, [], ◌∷◌, ◌++◌, take,
  last_n, ltb, leb, ◌==◌, if◌then◌else◌, Text, codes,
}
use research_desk.Json.{Fields}
use research_desk.Table.{find_row, find_where, set_row}
use research_desk.Research.Papers.{Paper}
use research_desk.Research.Dossiers.Model.{
  Status, running, ready, failed, Stage, is_running, is_queued, Plan, Version, Dossier, Run, Db,
  stopped, Outcome, done, refused, dossier_id, find_dossier, save_dossier, log,
}
use research_desk.Research.Dossiers.Commands.{archive}

-- `changes` of `save_progress`: a field and its new value.
pub data Change : Type 0 where
  set_status : Status → Change
  set_stage : Stage → Change
  set_plan : Plan → Change
  set_papers set_report_papers : List Paper → Change
  set_selected set_report_selected : List Text → Change
  set_report set_investigation : Fields → Change
  set_report_focus set_error : Text → Change
  set_versions : List Version → Change

unfoldable pub set_field : Change → Dossier → Dossier
set_field (set_status v) d = record d { status = v }
set_field (set_stage v) d = record d { stage = v }
set_field (set_plan v) d = record d { plan = v }
set_field (set_papers v) d = record d { papers = v }
set_field (set_report_papers v) d = record d { report_papers = v }
set_field (set_selected v) d = record d { selected = v }
set_field (set_report_selected v) d = record d { report_selected = v }
set_field (set_report v) d = record d { report = v }
set_field (set_investigation v) d = record d { investigation = v }
set_field (set_report_focus v) d = record d { report_focus = v }
set_field (set_error v) d = record d { error = v }
set_field (set_versions v) d = record d { versions = v }

unfoldable pub set_fields : List Change → Dossier → Dossier
unfolding set_field
set_fields [] d = d
set_fields (change ∷ changes) d = set_fields changes (set_field change d)

-- `dossier is None or dossier.run_id != run_id or dossier.status != "running"`, negated.
abbrev pub owns : ℕ → Dossier → Bool
owns run_id d = d.run_id == run_id && is_running d.status

unfoldable pub progress : ℕ → Text → List Change → ℕ → Option Dossier → Db → Outcome Db
unfolding set_fields
progress run_id message changes now none db = refused stopped
progress run_id message changes now (some d) db =
    let d' = set_fields changes d in
    if owns run_id d
    then done (save_dossier now (record d' { events = log message now d'.events }) db)
    else refused stopped

-- `save_progress(pk, run_id, message, **changes)`.
unfoldable pub save_progress : ℕ → ℕ → Text → List Change → ℕ → Db → Outcome Db
unfolding progress
save_progress pk run_id message changes now db =
    progress run_id message changes now (find_dossier db pk) db

abbrev pub run_key : Run → ℕ
run_key r = r.id

-- `finish(run_id, status, error)`: the run with the identity, if there is one.
unfoldable pub finish_run : ℕ → Status → Text → ℕ → List Run → List Run
finish_run run_id status error now [] = []
finish_run run_id status error now (r ∷ runs) =
    let r' = record r { status = some status; error = take 500 error; finished_at = some now } in
    if r.id == run_id then r' ∷ runs else r ∷ finish_run run_id status error now runs

unfoldable pub finish : ℕ → Status → Text → ℕ → Db → Db
unfolding finish_run
finish run_id status error now db = record db { runs = finish_run run_id status error now db.runs }

-- A dossier that runs and has not been saved for ten minutes.
abbrev pub is_stale : ℕ → Dossier → Bool
is_stale now d = is_running d.status && ltb (d.updated_at + 600) now

abbrev pub expire : ℕ → Dossier → Db → Db
expire now d db =
    let db' =
      save_dossier now
        (record d {
          status = failed;
          error =
              codes "The worker stopped responding. Saved results are retained; retry to continue.";
          run_id = db.next_run;
        })
        (finish d.run_id failed (codes "Worker stopped responding.") now db) in
    record db' { next_run = db.next_run + 1 }

-- The loop over the dossiers that expired.
unfoldable pub expire_all : ℕ → List Dossier → Db → Db
unfolding finish
expire_all now [] db = db
expire_all now (d ∷ ds) db =
    let expired = expire_all now ds (expire now d db) in
    let kept = expire_all now ds db in if is_stale now d then expired else kept

-- `get_or_create` of the run of a dossier.
unfoldable pub open_run : Dossier → Option Run → List Run → List Run
open_run d (some r) runs = runs
open_run d none runs =
    runs
    ++ record {
      id = d.run_id;
      dossier = d.id;
      stage = d.stage;
      focus = d.focus;
      status = none;
      error = [];
      finished_at = none;
    }
      ∷ []

abbrev pub is_waiting : Dossier → Bool
is_waiting d = is_queued d.status

unfoldable pub take_job : ℕ → Option Dossier → Db → Option Dossier × Db
unfolding open_run find_row
take_job now none db = (none, db)
take_job now (some d) db =
    let d' = record d { status = running; updated_at = now } in
    let db' = save_dossier now d' db in
    (some d', record db' { runs = open_run d' (find_row run_key d'.run_id db.runs) db.runs })

-- `claim()`.
unfoldable pub claim : ℕ → Db → Option Dossier × Db
unfolding expire_all take_job find_where
claim now db =
    let db' = expire_all now db.dossiers db in take_job now (find_where is_waiting db'.dossiers) db'

-- `refresh(pk, run_id)`: whether the lease was renewed.
unfoldable pub renew_lease : ℕ → ℕ → Option Dossier → Db → Bool × Db
renew_lease run_id now none db = (false, db)
renew_lease run_id now (some d) db =
    if owns run_id d then (true, save_dossier now d db) else (false, db)

unfoldable pub refresh : ℕ → ℕ → ℕ → Db → Bool × Db
unfolding renew_lease
refresh pk run_id now db = renew_lease run_id now (find_dossier db pk) db

abbrev pub report_message : Text
report_message = codes "Report ready. Check the cited passages before using its conclusions."

unfoldable pub report_changes :
    Dossier → Fields → List Paper → List Text → List Paper → ℕ → List Change
unfolding archive
report_changes d report papers selected previous_papers now =
    set_report report
    ∷ set_report_selected selected
    ∷ set_report_papers papers
    ∷ set_report_focus d.focus
    ∷ set_versions (archive (some now) previous_papers d)
    ∷ set_status ready
    ∷ set_error []
    ∷ []

-- `publish_report(dossier, report, papers, selected, previous_papers)`, for the dossier as the worker
-- read it.
unfoldable pub publish_report :
    Dossier → Fields → List Paper → List Text → List Paper → ℕ → Db → Outcome Db
unfolding save_progress report_changes
publish_report d report papers selected previous_papers now =
    save_progress d.id d.run_id report_message
      (report_changes d report papers selected previous_papers now) now
