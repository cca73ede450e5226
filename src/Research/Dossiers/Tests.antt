-- ===== src/Research/Dossiers/Tests.antt =====
-- Commands and jobs on two small dossiers.
use research_desk.Prelude.{true, ◌≡◌, refl, ◌≤◌, ◌+◌, false, none, some, [], ◌∷◌, codes, arith}
use research_desk.Json.{Fields, end, field, str}
use research_desk.Unicode.{ascii}
use research_desk.Table.{find_row, set_row, count_where, find_where, Distinct}
use research_desk.Research.Dossiers.Model.{
  queued, running, ready, failed, synthesize, Dossier, Bucket, Db, Outcome, done, refused, stopped,
  find_dossier, dossier_id,
}
use research_desk.Research.Dossiers.Limits.{
  Settings, consume, admit_job, renew, put_bucket, bucket_key,
}
use research_desk.Research.Dossiers.Limits.Windows.{let_through, let_through-le}
use research_desk.Research.Dossiers.Commands.{
  User, regenerate, launch, Outside, apply_command, prepare, launch_run, apply_idle, apply_stored,
  archive,
}
use research_desk.Research.Dossiers.Commands.Moves.{Applied, apply_command-Applied}
use research_desk.Research.Dossiers.Commands.Admission.{IsAdmitted, apply_command-IsAdmitted}
use research_desk.Research.Dossiers.Jobs.{
  owns, save_progress, progress, set_fields, set_field, claim, take_job, expire_all, finish,
  open_run, publish_report, report_changes, report_message,
}
use research_desk.Research.Dossiers.Jobs.Fencing.{Fenced}
use research_desk.Research.Dossiers.Jobs.Later.{at_once, claimed, Retired, apply_command-Fenced}
use research_desk.Research.Dossiers.Jobs.Progress.{
  Progressed, Published, save_progress-Progressed, publish_report-Published,
}
use research_desk.Research.Dossiers.Jobs.Claim.{Held, claim-Fenced, claim-Held}

abbrev ada : User
ada = record { pk = 1; username = codes "ada" }

abbrev outside : Outside
outside = record { fingerprint = λ r. 0; capability = λ u. none; daily_key = λ owner. owner }

abbrev settings : Settings
settings = record { per_user = 2; global = 50; daily = 30 }

-- A dossier with a report, ready to be regenerated.
abbrev dossier : Dossier
dossier = record {
  id = 5;
  owner = 1;
  question = codes "Which?";
  year_from = 2020;
  limit = 12;
  status = ready;
  focus = [];
  report_focus = [];
  use_fulltext = false;
  stage = synthesize;
  plan = record { scope = []; queries = codes "higgs" ∷ [] };
  papers = [];
  selected = codes "17" ∷ [];
  report = field "summary" (str (codes "old")) end;
  report_papers = [];
  report_selected = codes "17" ∷ [];
  versions = [];
  investigation = end;
  events = [];
  error = [];
  run_id = 70;
  updated_at = 100;
}

-- A dossier that runs.
abbrev busy : Dossier
busy = record dossier { id = 6; status = running; run_id = 71; updated_at = 100 }

abbrev db : Db
db = record { dossiers = dossier ∷ busy ∷ []; runs = []; buckets = []; next_run = 80 }

abbrev queued_dossier : Dossier
queued_dossier = record dossier {
  status = queued;
  run_id = 80;
  updated_at = 200;
  events = record { message = codes "Queued for synthesize."; at = 200 } ∷ [];
}

abbrev queued_db : Db
queued_db = record {
  dossiers = queued_dossier ∷ busy ∷ [];
  runs = [];
  buckets = record { key = 1; started_at = 200; count = 1 } ∷ [];
  next_run = 81;
}

regenerate-run :
    apply_command ascii outside settings dossier ada (launch regenerate) 200 db ≡ done queued_db
unfolding apply_command apply_stored apply_idle launch_run prepare admit_job consume renew
    put_bucket find_row set_row count_where
regenerate-run = refl

apply_command-Applied_example : Applied settings ada 5 db queued_db
apply_command-Applied_example =
    apply_command-Applied ascii outside settings dossier ada (launch regenerate) 200 db
      regenerate-run

db-IsAdmitted : IsAdmitted settings db
unfolding count_where
db-IsAdmitted = record { own = λ owner. ground arith; whole = ground arith }

apply_command-IsAdmitted_example : IsAdmitted settings queued_db
apply_command-IsAdmitted_example =
    apply_command-IsAdmitted ascii outside settings dossier ada (launch regenerate) 200 db
      db-IsAdmitted regenerate-run

-- The worker of the other dossier publishes a report, and then is too late.
abbrev new_report : Fields
new_report = field "summary" (str (codes "new")) end

publish : Db → Outcome Db
unfolding publish_report save_progress progress report_changes set_fields set_field archive find_row
    set_row
publish = publish_report busy new_report [] (codes "17" ∷ []) [] 300

abbrev published_db : Db
published_db = record {
  dossiers =
      dossier
      ∷ record busy {
        status = ready;
        report = new_report;
        updated_at = 300;
        versions =
            record {
              report = busy.report;
              focus = [];
              papers = [];
              selected = codes "17" ∷ [];
              at = some 300;
            }
            ∷ [];
        events = record { message = report_message; at = 300 } ∷ [];
      }
      ∷ [];
  runs = [];
  buckets = [];
  next_run = 80;
}

publish-run : publish_report busy new_report [] (codes "17" ∷ []) [] 300 db ≡ done published_db
unfolding publish
publish-run = refl

publish_again-run :
    publish_report busy new_report [] (codes "17" ∷ []) [] 300 published_db ≡ refused stopped
unfolding publish
publish_again-run = refl

publish_report-Published_example :
    (old : Dossier) × (find_dossier db 6 ≡ some old)
    × (owns 71 old ≡ true)
    × ((new : Dossier) × (find_dossier published_db 6 ≡ some new)
        × Published busy new_report [] [] 300 new)
publish_report-Published_example =
    publish_report-Published busy new_report [] (codes "17" ∷ []) [] 300 db (omega arith)
      publish-run

save_progress-Progressed_example :
    Progressed 6 71 report_message
      (report_changes busy new_report [] (codes "17" ∷ []) [] 300)
      300
      db
      published_db
unfolding publish_report
save_progress-Progressed_example =
    save_progress-Progressed 6 71 report_message
      (report_changes busy new_report [] (codes "17" ∷ []) [] 300) 300 db publish-run

-- A claim ten minutes later: the dossier that ran expires, the queued one is taken.
queued_db-Distinct : Distinct dossier_id queued_db.dossiers
unfolding find_row
queued_db-Distinct = (refl, (refl, tt))

find_busy : find_dossier queued_db 6 ≡ some busy
unfolding find_row
find_busy = refl

claim-Fenced_example : Fenced 6 71 (claim 900 queued_db).1
claim-Fenced_example =
    claim-Fenced 900 6 queued_db busy queued_db-Distinct find_busy refl (omega arith)

abbrev taken : Dossier
taken = record queued_dossier { status = running; updated_at = 900 }

abbrev claimed_db : Db
claimed_db = record {
  dossiers =
      taken
      ∷ record busy {
        status = failed;
        run_id = 81;
        updated_at = 900;
        error =
            codes "The worker stopped responding. Saved results are retained; retry to continue.";
      }
      ∷ [];
  runs =
      record {
        id = 80;
        dossier = 5;
        stage = synthesize;
        focus = [];
        status = none;
        error = [];
        finished_at = none;
      }
      ∷ [];
  buckets = record { key = 1; started_at = 200; count = 1 } ∷ [];
  next_run = 82;
}

claim-run : claim 900 queued_db ≡ (some taken, claimed_db)
unfolding claim expire_all take_job finish open_run find_where find_row set_row
claim-run = refl

claim-Held_example : Held taken claimed_db
claim-Held_example = claim-Held 900 queued_db queued_db-Distinct claim-run

-- The old worker of the dossier is still locked out when the new run of the dossier is worked on.
db-Distinct : Distinct dossier_id db.dossiers
unfolding find_row
db-Distinct = (refl, (refl, tt))

apply_command-Fenced_example : Retired 5 70 db queued_db × Fenced 5 70 (claim 900 queued_db).1
apply_command-Fenced_example =
    apply_command-Fenced ascii outside settings dossier ada (launch regenerate) 200 70 db
      db-Distinct (omega arith) regenerate-run (claimed 900 at_once)

-- Four requests in a window of a bucket that has one request left.
abbrev bucket : Bucket
bucket = record { key = 1; started_at = 200; count = 29 }

find_bucket : find_row bucket_key 1 (bucket ∷ []) ≡ some bucket
unfolding find_row
find_bucket = refl

let_through-le_example : let_through 1 30 86400 (201 ∷ 202 ∷ 203 ∷ 204 ∷ []) (bucket ∷ []) + 29 ≤ 30
let_through-le_example =
    let_through-le 1 30 86400 (201 ∷ 202 ∷ 203 ∷ 204 ∷ []) (bucket ∷ []) bucket find_bucket
      (omega arith, (omega arith, (omega arith, (omega arith, tt)))) (omega arith)
