-- ===== src/Research/Dossiers/Commands.antt =====
-- The commands of a user on a dossier (research/commands.py).
pub mod Moves
pub mod Admission
use research_desk.Prelude.{
  ℕ, ◌+◌, ◌<◌, Bool, true, false, not, ◌&&◌, ◌||◌, Option, none, some, List, [], ◌∷◌, ◌++◌, length,
  take, last_n, any, ltb, leb, ◌==◌, if◌then◌else◌, Text, codes, eq_text, strip,
}
use research_desk.Json.{
  Json, Fields, ℤ, pos, negsuc, str, int, obj, arr, end, field, get, has, put, items, to_items,
  list_of, fields_of, text_of,
}
use research_desk.Unicode.{Unicode, elem}
use research_desk.Table.{find_row, set_row, count_where}
use research_desk.Research.Papers.{Paper, ids}
use research_desk.Research.Dossiers.Model.{
  Status, draft, queued, running, ready, failed, cancelled, Stage, plan, search, fulltext,
  synthesize, investigate, is_active, is_investigate, is_search, Event, Plan, Version, Dossier, Db,
  Error, missing, other_owner, already_running, unknown_paper, report_changed, invalid_finding,
  invalid_assessment, invalid_queries, select_first, invalid_focus, include_first, unknown_action,
  incapable, Outcome, done, refused, ◌>>=◌, ◌>>◌, refuse_if, or_refuse, dossier_id, find_dossier,
  save_dossier, log,
}
use research_desk.Research.Dossiers.Limits.{Settings, admit_job}
use research_desk.Research.Dossiers.Numbers.{decimal, parse_int, queries_of, has_control}

-- `request.user`, with its name.
pub record User : Type 0 where
  pub pk : ℕ
  pub username : Text

-- The commands that queue a run, with what they read of the data: "start", "retry", "regenerate",
-- "fulltext", "followup" and "investigate".
pub data Launch : Type 0 where
  start : (queries : Text) (scope : Option Text) → Launch
  retry regenerate with_fulltext : Launch
  followup with_investigation : (focus : Text) → Launch

-- The "action", with what it reads of the data.
pub data Command : Type 0 where
  stop unknown : Command
  select : (paper_id : Text) (selected : Bool) → Command
  review : (report_token : ℕ) (finding verdict note : Text) → Command
  launch : Launch → Command

-- What is called and is not part of the repository or of this model: the hash of a report without
-- its reviews, the test whether a model can be used (its message, if not), the hash of the key of
-- the daily limit.
pub record Outside : Type 0 where
  pub fingerprint : Fields → ℕ
  pub capability : ℕ → Option Text
  pub daily_key : ℕ → ℕ

-- A step that runs is cancelled.
pub cancel_step : Json → Json
cancel_step (obj step) =
    if eq_text (text_of (get "status" step)) (codes "running")
    then obj (put "status" (str (codes "cancelled")) step)
    else obj step
cancel_step step = step

pub cancel_steps : List Json → List Json
unfolding cancel_step
cancel_steps [] = []
cancel_steps (step ∷ steps) = cancel_step step ∷ cancel_steps steps

pub stop_investigation : Fields → Fields
unfolding cancel_steps
stop_investigation investigation =
    let stopped = put "stop_reason" (str (codes "Stopped by you.")) investigation in
    if has "steps" stopped
    then put "steps" (arr (to_items (cancel_steps (list_of (get "steps" stopped))))) stopped
    else stopped

unfoldable pub stop_dossier : ℕ → ℕ → Dossier → Dossier
unfolding stop_investigation
stop_dossier run_id now d = record d {
  run_id = run_id;
  status = cancelled;
  investigation =
      if is_investigate d.stage then stop_investigation d.investigation else d.investigation;
  events =
      log
        (codes
          "Stopped by you. Any in-flight model request may finish, but its result will not be published.")
        now d.events;
}

-- `[p["id"] for p in papers if p["id"] in selected]`, after the id is put in or taken out.
pub selected_ids : Text → Bool → List Text → List Paper → List Text
selected_ids paper_id add selected [] = []
selected_ids paper_id add selected (p ∷ papers) =
    let rest = selected_ids paper_id add selected papers in
    if (if eq_text p.id paper_id then add else elem p.id selected) then p.id ∷ rest else rest

unfoldable pub select_paper : Text → Bool → Dossier → Outcome Dossier
unfolding selected_ids
select_paper paper_id add d = do
  refuse_if (not (elem paper_id (ids d.papers))) unknown_paper
  done (record d {
    selected = selected_ids paper_id add d.selected d.papers;
    events = last_n 100 d.events;
  })

abbrev pub verdicts : List Text
verdicts = codes "supported" ∷ codes "unsupported" ∷ codes "uncertain" ∷ []

-- `index < 0 or index >= len(findings) or verdict not in {...}`, negated.
unfoldable pub is_assessment : ℤ → ℕ → Text → Bool
is_assessment (negsuc n) findings verdict = false
is_assessment (pos index) findings verdict = ltb index findings && elem verdict verdicts

abbrev pub index_of : ℤ → ℕ
index_of (pos n) = n
index_of (negsuc n) = 0

-- The launch commands set the stage and what they ask for. Each gives the dossier before it is queued.
abbrev pub is_nil {ℓ} : {A : Type ℓ} → List A → Bool
is_nil [] = true
is_nil (_ ∷ _) = false

abbrev pub is_end : Fields → Bool
is_end end = true
is_end (field _ _ _) = false

abbrev pub or_papers : List Paper → List Paper → List Paper
or_papers [] papers = papers
or_papers (p ∷ ps) papers = p ∷ ps

-- The report, if there is one, goes into the versions, of which the last ten stay.
unfoldable pub archive : Option ℕ → List Paper → Dossier → List Version
archive at papers d =
    if is_end d.report
    then d.versions
    else last_n 10 (
        d.versions
        ++ record {
          report = d.report;
          focus = d.report_focus;
          papers = papers;
          selected = d.report_selected;
          at = at;
        }
          ∷ [])

pub too_long : Text → Bool
unfolding has_control
too_long q = ltb 400 (length q) || has_control q

abbrev pub scope_or : Option Text → Text → Text
scope_or none question = question
scope_or (some scope) question = scope

unfoldable pub start_search : Unicode → Text → Option Text → Dossier → Outcome Dossier
unfolding archive too_long
start_search u queries scope d = do
  let qs = queries_of queries
  refuse_if (not (leb 1 (length qs) && leb (length qs) 3) || any too_long qs) invalid_queries
  done (record d {
    plan = record { scope = take 2000 (scope_or scope d.question); queries = qs };
    versions = archive none (or_papers d.report_papers d.papers) d;
    report = end;
    report_selected = [];
    report_papers = [];
    papers = [];
    selected = [];
    focus = [];
    report_focus = [];
    stage = search;
  })

-- "followup" and "investigate" ask for a focus of 10 to 1,500 characters.
unfoldable pub focus_on : Text → Dossier → Outcome Dossier
focus_on text d = do
  let focus = strip text
  refuse_if (not (leb 10 (length focus) && leb (length focus) 1500)) invalid_focus
  done (record d { focus = focus })

abbrev pub read_stage : Bool → Stage
read_stage use_fulltext = if use_fulltext then fulltext else synthesize

abbrev pub retry_stage : Dossier → Stage
retry_stage d =
    if is_investigate d.stage
    then investigate
    else (if not (is_nil d.papers)
        then synthesize
        else (if not (is_nil d.plan.queries) then search else plan))

unfoldable pub prepare : Unicode → Launch → Dossier → Outcome Dossier
unfolding start_search focus_on
prepare u (start queries scope) d = start_search u queries scope d
prepare u with_fulltext d = do
  refuse_if (is_nil d.selected) select_first
  done (record d { use_fulltext = true; stage = fulltext })
prepare u (followup text) d = do
  refuse_if (is_nil d.selected) select_first
  d' ← focus_on text d
  done (record d' { stage = read_stage d'.use_fulltext })
prepare u (with_investigation text) d = do
  refuse_if (is_nil d.selected) select_first
  d' ← focus_on text d
  done (record d' { stage = investigate; investigation = end })
prepare u regenerate d = do
  refuse_if (is_nil d.selected) include_first
  done (record d { stage = synthesize })
prepare u retry d = done (record d { stage = retry_stage d })

abbrev pub stage_name : Stage → Text
stage_name plan = codes "plan"
stage_name search = codes "search"
stage_name fulltext = codes "fulltext"
stage_name synthesize = codes "synthesize"
stage_name investigate = codes "investigate"

-- The message of the capability test, unless the stage asks for no model.
abbrev pub incapability : Outside → ℕ → Stage → Option Text
incapability outside owner stage = if is_search stage then none else outside.capability owner

abbrev pub refuse_some : Option Text → Outcome (Unit {0})
refuse_some none = done tt
refuse_some (some message) = refused (incapable message)

abbrev pub enqueue : ℕ → ℕ → Dossier → Dossier
enqueue run_id now d = record d {
  status = queued;
  error = [];
  run_id = run_id;
  events = log (codes "Queued for " ++ stage_name d.stage ++ codes ".") now d.events;
}

-- A new identity of a run is taken.
abbrev pub save_run : ℕ → Dossier → Db → Db
save_run now d db = record (save_dossier now d db) { next_run = db.next_run + 1 }

module _ (u : Unicode) (outside : Outside) (settings : Settings) where
  unfoldable pub launch_run : ℕ → Launch → ℕ → Dossier → Db → Outcome Db
  unfolding prepare
  launch_run owner command now d db = do
    d' ← prepare u command d
    refuse_some (incapability outside owner d'.stage)
    db' ← admit_job settings outside.daily_key now owner db
    done (save_run now (enqueue db.next_run now d') db')

  unfoldable pub review_finding : User → ℕ → Text → Text → Text → ℕ → Dossier → Outcome Dossier
  unfolding is_assessment decimal parse_int
  review_finding user report_token finding verdict note now d = do
    refuse_if (not (report_token == outside.fingerprint d.report)) report_changed
    index ← or_refuse (parse_int u finding) invalid_finding
    refuse_if (not (is_assessment index (length (list_of (get "findings" d.report))) verdict))
        invalid_assessment
    let assessment = field "verdict" (str verdict) (
        field "note" (str (take 1000 note))
          (field "actor" (str user.username) (field "at" (int (pos now)) end)))
    let reviews =
        put (decimal (index_of index)) (obj assessment) (fields_of (get "reviews" d.report))
    done (record d { report = put "reviews" (obj reviews) d.report; events = last_n 100 d.events })

  -- What the command does to the dossier as it is stored, `running` first.
  unfoldable pub apply_active : Command → ℕ → Dossier → Db → Outcome Db
  apply_active stop now d db = done (save_run now (stop_dossier db.next_run now d) db)
  apply_active _ now d db = refused already_running

  unfoldable pub apply_idle : User → Command → ℕ → Dossier → Db → Outcome Db
  unfolding select_paper review_finding launch_run
  apply_idle user (select paper_id add) now d db = do
    d' ← select_paper paper_id add d
    done (save_dossier now d' db)
  apply_idle user (review token finding verdict note) now d db = do
    d' ← review_finding user token finding verdict note now d
    done (save_dossier now d' db)
  apply_idle user (launch command) now d db = launch_run user.pk command now d db
  apply_idle user stop now d db = refused unknown_action
  apply_idle user unknown now d db = refused unknown_action

  abbrev pub owned_by : ℕ → Option Dossier → Outcome Dossier
  owned_by owner none = refused missing
  owned_by owner (some d) = if d.owner == owner then done d else refused missing

  unfoldable pub apply_stored : User → Command → ℕ → Dossier → Db → Outcome Db
  unfolding apply_active apply_idle
  apply_stored user command now d db =
      if is_active d.status then apply_active command now d db else apply_idle user command now d db

  -- `apply_command(dossier, user, data, capability)`, for the dossier as the caller read it.
  unfoldable pub apply_command : Dossier → User → Command → ℕ → Db → Outcome Db
  unfolding apply_stored
  apply_command given user command now db = do
    refuse_if (not (given.owner == user.pk)) other_owner
    d ← owned_by user.pk (find_dossier db given.id)
    apply_stored user command now d db
