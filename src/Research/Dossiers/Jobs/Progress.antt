-- ===== src/Research/Dossiers/Jobs/Progress.antt =====
-- What `save_progress` and `publish_report` write.
use research_desk.Prelude.{
  ℕ, ◌≤◌, ◌≡◌, ◌≢◌, refl, ap, sym, ◌∙◌, true, Option, none, some, List, [], ◌∷◌, ◌++◌, length,
  length-last_n, Text, arith, inl, inr, Bool-cases,
}
use research_desk.Json.{Fields}
use research_desk.Table.{find_row-set_self, find_row-set_ne, key-find_row}
use research_desk.Research.Papers.{Paper}
use research_desk.Research.Dossiers.Model.{
  ready, Dossier, Db, done, dossier_id, find_dossier, save_dossier, log,
}
use research_desk.Research.Dossiers.Commands.{archive}
use research_desk.Research.Dossiers.Jobs.{
  Change, set_field, set_fields, owns, progress, save_progress, publish_report, report_message,
  report_changes,
}
use research_desk.Research.Dossiers.Jobs.Writing.{set_fields-Same}

-- The dossier before and after a worker wrote to it.
pub record Progressed (pk run_id : ℕ) (message : Text) (changes : List Change) (now : ℕ)
    (db db' : Db) : Type 0 where
  pub old : Dossier
  pub found : find_dossier db pk ≡ some old
  pub owned : owns run_id old ≡ true
  pub stored :
      find_dossier db' pk
      ≡ some (record (set_fields changes old) {
        events = log message now old.events;
        updated_at = now;
      })
  pub others : (j : ℕ) → j ≢ pk → find_dossier db' j ≡ find_dossier db j
  pub bounded : length (log message now old.events) ≤ 100

pub progress-eq-done :
    (run_id : ℕ) (message : Text) (changes : List Change) (now : ℕ) (o : Option Dossier) (db : Db)
    {db' : Db}
    → progress run_id message changes now o db ≡ done db'
    → (d : Dossier) × (o ≡ some d)
      × (owns run_id d ≡ true)
      × (db'
          ≡ save_dossier now
              (record (set_fields changes d) {
                events = log message now (set_fields changes d).events;
              })
              db)
unfolding progress
progress-eq-done run_id message changes now none db h = cc
progress-eq-done run_id message changes now (some d) db h = elim (Bool-cases (owns run_id d)) [
  | inl e ↦ (d, refl, e, ground (arith, e))
  | inr e ↦ absurd (ground (arith, e))
]

-- A worker's write that succeeds met the dossier running under its own run. It sets the fields that it
-- names, adds its event to the last 100 at most, and touches no other dossier.
pub save_progress-Progressed :
    (pk run_id : ℕ) (message : Text) (changes : List Change) (now : ℕ) (db : Db) {db' : Db}
    → save_progress pk run_id message changes now db ≡ done db'
    → Progressed pk run_id message changes now db db'
unfolding save_progress
save_progress-Progressed pk run_id message changes now db {db'} h =
    let (d, f, own, e) = progress-eq-done run_id message changes now (find_dossier db pk) db h in
    let same = set_fields-Same changes d in
    let is_pk : (set_fields changes d).id ≡ pk =
      same.id ∙ key-find_row dossier_id pk db.dossiers f in
    record {
      old = d;
      found = f;
      owned = own;
      stored =
          ap (λ (x : Db). find_dossier x pk) e
          ∙ find_row-set_self dossier_id pk
              (record (set_fields changes d) {
                events = log message now (set_fields changes d).events;
                updated_at = now;
              })
              db.dossiers f is_pk
          ∙ rw same.events;
      others = λ j ne.
          ap (λ (x : Db). find_dossier x j) e
          ∙ find_row-set_ne dossier_id j
              (record (set_fields changes d) {
                events = log message now (set_fields changes d).events;
                updated_at = now;
              })
              db.dossiers (λ h. ne (sym h ∙ is_pk));
      bounded = length-last_n 100 (d.events ++ record { message = message; at = now } ∷ []);
    }

-- What the dossier is after its report was published.
pub record Published (d : Dossier) (report : Fields) (papers previous_papers : List Paper) (now : ℕ)
    (new : Dossier) : Type 0 where
  pub ready_now : new.status ≡ ready
  pub reported : new.report ≡ report
  pub from_papers : new.report_papers ≡ papers
  pub archived : new.versions ≡ archive (some now) previous_papers d
  pub few : length new.versions ≤ 10
  pub no_error : new.error ≡ []

archive-le :
    (at : Option ℕ) (papers : List Paper) (d : Dossier)
    → length d.versions ≤ 10
    → length (archive at papers d) ≤ 10
unfolding archive
archive-le at papers d h = ground (
  arith,
  h,
  length-last_n 10 (
      d.versions
      ++ record {
        report = d.report;
        focus = d.report_focus;
        papers = papers;
        selected = d.report_selected;
        at = at;
      }
        ∷ []),
)

-- A publication that succeeds met the dossier running under the worker's run. Then the dossier is ready
-- with the report and its papers, its versions are those that the worker read and, if there was one, the
-- report that it read, with the time, and there are at most ten if the worker read at most ten.
pub publish_report-Published :
    (d : Dossier) (report : Fields) (papers : List Paper) (selected : List Text)
    (previous_papers : List Paper) (now : ℕ) (db : Db) {db' : Db}
    → length d.versions ≤ 10
    → publish_report d report papers selected previous_papers now db ≡ done db'
    → (old : Dossier) × (find_dossier db d.id ≡ some old)
      × (owns d.run_id old ≡ true)
      × ((new : Dossier) × (find_dossier db' d.id ≡ some new)
          × Published d report papers previous_papers now new)
unfolding publish_report set_fields set_field report_changes
publish_report-Published d report papers selected previous_papers now db short h =
    let p =
      save_progress-Progressed d.id d.run_id report_message
        (report_changes d report papers selected previous_papers now) now db h in
    (
      p.old,
      p.found,
      p.owned,
      (
        _,
        p.stored,
        record {
          ready_now = refl;
          reported = refl;
          from_papers = refl;
          archived = refl;
          few = archive-le (some now) previous_papers d short;
          no_error = refl;
        },
      ),
    )
