-- ===== src/Research/Dossiers/Commands/Admission.antt =====
-- No command takes a user or the queue over the limits of active jobs.
use research_desk.Prelude.{ℕ, ◌+◌, ◌≤◌, ◌≡◌, ap, ◌∙◌, Bool, some, if◌then◌else◌, arith, inl, inr}
use research_desk.Unicode.{Unicode}
use research_desk.Table.{find_row, count_where, count_where-set_row, key-find_row}
use research_desk.Research.Dossiers.Model.{Dossier, Db, done, dossier_id}
use research_desk.Research.Dossiers.Limits.{Settings, active, active_of}
use research_desk.Research.Dossiers.Commands.{User, Command, Outside, apply_command}
use research_desk.Research.Dossiers.Commands.Moves.{Applied, apply_command-Applied}

-- The limits hold for each user and for the whole queue.
pub record IsAdmitted (settings : Settings) (db : Db) : Type 0 where
  pub own : (owner : ℕ) → count_where (active_of owner) db.dossiers ≤ settings.per_user
  pub whole : count_where active db.dossiers ≤ settings.global

Applied-IsAdmitted :
    (settings : Settings) (user : User) (pk : ℕ) (db db' : Db)
    → IsAdmitted settings db
    → Applied settings user pk db db'
    → IsAdmitted settings db'
Applied-IsAdmitted settings user pk db db' ok a =
    let found : find_row dossier_id a.new.id db.dossiers ≡ some a.old =
      ap (λ i. find_row dossier_id i db.dossiers)
        (a.same_id ∙ key-find_row dossier_id pk db.dossiers a.found)
      ∙ a.found in
    let counted : (p : Dossier → Bool)
        → count_where p db'.dossiers + (if p a.old then 1 else 0)
          ≡ count_where p db.dossiers + (if p a.new then 1 else 0) =
      λ p. rw a.saved (count_where-set_row dossier_id p a.new db.dossiers found) in
    elim a.move [
      | inl s ↦ record {
        own = λ owner. ground (arith, counted (active_of owner), ok.own owner, s.now_cancelled);
        whole = ground (arith, counted active, ok.whole, s.now_cancelled);
      }
      | inr (inl l) ↦ record {
        own = λ owner.
            ground (
              arith,
              counted (active_of owner),
              ok.own owner,
              l.own_room,
              l.was_idle,
              a.same_owner,
            );
        whole = ground (arith, counted active, l.room, l.was_idle);
      }
      | inr (inr e) ↦ record {
        own = λ owner.
            ground (arith, counted (active_of owner), ok.own owner, e.same_status, a.same_owner);
        whole = ground (arith, counted active, ok.whole, e.same_status);
      }
    ]

-- Where no user has more active jobs than the limit of a user and all together no more than the
-- global limit, a command that succeeds keeps it so.
pub apply_command-IsAdmitted :
    (u : Unicode) (outside : Outside) (settings : Settings) (given : Dossier) (user : User)
    (command : Command) (now : ℕ) (db : Db) {db' : Db}
    → IsAdmitted settings db
    → apply_command u outside settings given user command now db ≡ done db'
    → IsAdmitted settings db'
apply_command-IsAdmitted u outside settings given user command now db {db'} ok h =
    Applied-IsAdmitted settings user given.id db db' ok
      (apply_command-Applied u outside settings given user command now db h)
