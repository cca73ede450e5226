-- ===== src/Research/Dossiers/Jobs/Fencing.antt =====
-- A worker whose run was stopped, replaced or expired writes nothing any more.
use research_desk.Prelude.{ℕ, ◌≡◌, ◌∙◌, false, some, List, Text}
use research_desk.Table.{find_row-set_self, key-find_row}
use research_desk.Research.Dossiers.Model.{Dossier, Db, stopped, refused, dossier_id, find_dossier}
use research_desk.Research.Dossiers.Limits.{Settings}
use research_desk.Research.Dossiers.Commands.{User}
use research_desk.Research.Dossiers.Commands.Moves.{Applied}
use research_desk.Research.Dossiers.Jobs.{
  Change, owns, progress, save_progress, renew_lease, refresh,
}

-- A worker with another run than the dossier has is refused, and does not renew its lease.
pub record Fenced (pk run_id : ℕ) (db : Db) : Type 0 where
  pub no_progress :
      (message : Text) (changes : List Change) (now : ℕ)
      → save_progress pk run_id message changes now db ≡ refused stopped
  pub no_lease : (now : ℕ) → refresh pk run_id now db ≡ (false, db)

pub not_owner-Fenced :
    (pk run_id : ℕ) (db : Db) (d : Dossier)
    → find_dossier db pk ≡ some d
    → owns run_id d ≡ false
    → Fenced pk run_id db
unfolding save_progress progress refresh renew_lease
not_owner-Fenced pk run_id db d f e = record {
  no_progress = λ message changes now. rw (f, e);
  no_lease = λ now. rw (f, e);
}

pub find-saved :
    (settings : Settings) (user : User) (pk : ℕ) (db db' : Db) (a : Applied settings user pk db db')
    → find_dossier db' pk ≡ some a.new
find-saved settings user pk db db' a = rw a.saved (
    find_row-set_self dossier_id pk a.new db.dossiers a.found
      (a.same_id ∙ key-find_row dossier_id pk db.dossiers a.found))
