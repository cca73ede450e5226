-- ===== src/Records/Imports/Tests.antt =====
-- Two workers and one queued import.
use research_desk.Prelude.{◌≡◌, ◌≢◌, refl, none, some, [], ◌∷◌, codes, arith}
use research_desk.Json.{end}
use research_desk.Table.{find_row, set_row, find_where, Distinct}
use research_desk.Records.Imports.{
  queued, running, ImportRun, Db, lease_lost, done, refused, run_id, claim_run, claimable, take_run,
  heartbeat,
}
use research_desk.Records.Imports.Leases.{
  heartbeat-claim_run, heartbeat-lease_lost, claim_run-claim_run_ne,
}

abbrev import_run : ImportRun
import_run = record {
  id = 4;
  provider = codes "crossref";
  profile = end;
  status = queued;
  not_before = none;
  lease_owner = none;
  lease_expires_at = none;
  started_at = none;
  finished_at = none;
  idempotency_key = none;
  request_hash = 9;
}

abbrev second : ImportRun
second = record import_run { id = 5 }

abbrev db : Db
db = record { runs = import_run ∷ second ∷ []; failures = []; next_id = 30 }

abbrev leased : ImportRun
leased = record import_run {
  status = running;
  lease_owner = some 30;
  lease_expires_at = some 220;
  started_at = some 100;
}

abbrev leased_db : Db
leased_db = record { runs = leased ∷ second ∷ []; failures = []; next_id = 31 }

claim-run : claim_run none 100 db ≡ (some leased, leased_db)
unfolding claim_run claimable take_run find_where set_row
claim-run = refl

db-Distinct : Distinct run_id db.runs
unfolding find_row
db-Distinct = (refl, (refl, tt))

heartbeat-claim_run_example : (db'' : Db) × (heartbeat 4 30 150 leased_db ≡ done db'')
heartbeat-claim_run_example =
    heartbeat-claim_run none 100 150 db db-Distinct claim-run (omega arith)

heartbeat-lease_lost_example : heartbeat 4 29 150 leased_db ≡ refused lease_lost
heartbeat-lease_lost_example =
    heartbeat-lease_lost none 100 150 29 db db-Distinct (omega arith) claim-run

abbrev second_leased : ImportRun
second_leased = record second {
  status = running;
  lease_owner = some 31;
  lease_expires_at = some 320;
  started_at = some 200;
}

second-run : claim_run none 200 leased_db ≡ (
  some second_leased,
  record { runs = leased ∷ second_leased ∷ []; failures = []; next_id = 32 },
)
unfolding claim_run claimable take_run find_where set_row
second-run = refl

claim_run-claim_run_ne_example : second_leased.id ≢ leased.id
claim_run-claim_run_ne_example =
    claim_run-claim_run_ne none none 100 200 db db-Distinct claim-run (omega arith) second-run
