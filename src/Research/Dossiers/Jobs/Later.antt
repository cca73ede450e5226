-- ===== src/Research/Dossiers/Jobs/Later.antt =====
-- A worker whose run was stopped or replaced stays locked out, whatever happens to the dossiers later.
use mathlib.Core.Path.{subst}
use research_desk.Prelude.{
  ℕ, ◌≤◌, ◌<◌, ◌≡◌, ◌∙◌, refl, sym, ap, false, some, List, [], ◌∷◌, Text, arith, inl, inr, ◌⊎◌,
  Bool-cases, Option-cases, ◌==◌,
}
use research_desk.Unicode.{Unicode}
use research_desk.Table.{
  set_row, find_where, find_row-set_self, find_row-set_ne, key-find_row, Distinct, set_row-Distinct,
  find_row-find_where, find_where-holds,
}
use research_desk.Research.Dossiers.Model.{
  Dossier, Db, running, done, is_active, dossier_id, find_dossier, log,
}
use research_desk.Research.Dossiers.Limits.{Settings}
use research_desk.Research.Dossiers.Commands.{User, Command, Outside, apply_command}
use research_desk.Research.Dossiers.Commands.Moves.{Applied, apply_command-Applied}
use research_desk.Research.Dossiers.Jobs.{
  Change, owns, set_fields, save_progress, refresh, renew_lease, expire, expire_all, is_stale,
  take_job, is_waiting, claim,
}
use research_desk.Research.Dossiers.Jobs.Writing.{set_fields-Same}
use research_desk.Research.Dossiers.Jobs.Progress.{progress-eq-done}
use research_desk.Research.Dossiers.Jobs.Fencing.{Fenced, not_owner-Fenced, find-saved}

-- The dossier has a later run, or is idle: it becomes active under a later run only.
abbrev IsApart : ℕ → Dossier → Type 0
IsApart run_id d = (run_id < d.run_id) ⊎ (is_active d.status ≡ false)

record IsShut (pk run_id : ℕ) (db : Db) : Type 0 where
  distinct : Distinct dossier_id db.dossiers
  given_out : run_id < db.next_run
  dossier : Dossier
  found : find_dossier db pk ≡ some dossier
  apart : IsApart run_id dossier

-- A dossier is saved.
saved-IsShut :
    (pk run_id : ℕ) (db db' : Db) (v : Dossier)
    → IsShut pk run_id db
    → db'.dossiers ≡ set_row dossier_id v db.dossiers
    → db.next_run ≤ db'.next_run
    → (v.id ≡ pk → IsApart run_id v)
    → IsShut pk run_id db'
saved-IsShut pk run_id db db' v s e l apart =
    let distinct =
      subst (Distinct dossier_id) (sym e) (set_row-Distinct dossier_id v db.dossiers s.distinct) in
    let given_out : run_id < db'.next_run = omega (arith, s.given_out, l) in
    elim (Bool-cases (v.id == pk)) [
      | inl same ↦
          let is_pk : v.id ≡ pk = ground (arith, same) in
          record {
            distinct = distinct;
            given_out = given_out;
            dossier = v;
            found = rw e (find_row-set_self dossier_id pk v db.dossiers s.found is_pk);
            apart = apart is_pk;
          }
      | inr other ↦ record {
        distinct = distinct;
        given_out = given_out;
        dossier = s.dossier;
        found =
            rw e (
              find_row-set_ne dossier_id pk v db.dossiers (λ q. ground (arith, other, q))
              ∙ s.found);
        apart = s.apart;
      }
    ]

-- A row of the table with the key of the dossier is the dossier.
the_dossier :
    (pk run_id : ℕ) (db : Db) (s : IsShut pk run_id db) (i : ℕ) (d : Dossier)
    → find_dossier db i ≡ some d
    → d.id ≡ pk
    → IsApart run_id d
the_dossier pk run_id db s i d f e =
    let is_pk : i ≡ pk = sym (key-find_row dossier_id i db.dossiers f) ∙ e in
    let here : find_dossier db pk ≡ some d =
      subst (λ (j : ℕ). find_dossier db j ≡ some d) is_pk f in
    let same : s.dossier ≡ d = ground (arith, s.found, here) in subst (IsApart run_id) same s.apart

applied-IsApart :
    (settings : Settings) (user : User) (pk run_id : ℕ) (db db' : Db)
    (a : Applied settings user pk db db')
    → run_id < db.next_run
    → (db.next_run ≤ db'.next_run) × IsApart run_id a.new
applied-IsApart settings user pk run_id db db' a l = elim a.move [
  | inl s ↦ (omega (arith, s.next), inl (omega (arith, s.fresh, l)))
  | inr (inl q) ↦ (omega (arith, q.next), inl (omega (arith, q.fresh, l)))
  | inr (inr e) ↦ (omega (arith, e.next), inr (ground (arith, e.same_status, e.was_idle)))
]

save_progress-IsShut :
    (pk run_id i r : ℕ) (message : Text) (changes : List Change) (now : ℕ) (db : Db) {db' : Db}
    → IsShut pk run_id db
    → save_progress i r message changes now db ≡ done db'
    → IsShut pk run_id db'
unfolding save_progress
save_progress-IsShut pk run_id i r message changes now db {db'} s h =
    let (d, f, own, e) = progress-eq-done r message changes now (find_dossier db i) db h in
    let same = set_fields-Same changes d in
    let v : Dossier = record (set_fields changes d) {
      events = log message now (set_fields changes d).events;
      updated_at = now;
    } in
    saved-IsShut pk run_id db db' v s (ap (λ (x : Db). x.dossiers) e)
      (omega (arith, ap (λ (x : Db). x.next_run) e))
      (λ q. elim (the_dossier pk run_id db s i d f (sym same.id ∙ q)) [
        | inl later ↦ inl (omega (arith, later, same.run_id))
        | inr idle ↦ absurd (ground (arith, own, idle))
      ])

refresh-IsShut :
    (pk run_id i r now : ℕ) (db : Db)
    → IsShut pk run_id db
    → IsShut pk run_id (refresh i r now db).1
unfolding refresh renew_lease
refresh-IsShut pk run_id i r now db s = elim (Option-cases (find_dossier db i)) [
  | inl e ↦ rw e s
  | inr (d, e) ↦ rw e (elim (Bool-cases (owns r d)) [
    | inl own ↦ rw own (
        saved-IsShut pk run_id db _ (record d { updated_at = now }) s refl (omega arith)
          (the_dossier pk run_id db s i d e))
    | inr own ↦ rw own s
  ])
]

expire_all-IsShut :
    (pk run_id now : ℕ) (ds : List Dossier) (db : Db)
    → IsShut pk run_id db
    → IsShut pk run_id (expire_all now ds db)
unfolding expire_all
expire_all-IsShut pk run_id now [] db s = s
expire_all-IsShut pk run_id now (d ∷ ds) db s = elim (Bool-cases (is_stale now d)) [
  | inl e ↦ rw e (
      expire_all-IsShut pk run_id now ds (expire now d db)
        (saved-IsShut pk run_id db (expire now d db) _ s refl (omega arith) (λ q. inr refl)))
  | inr e ↦ rw e (expire_all-IsShut pk run_id now ds db s)
]

take_job-IsShut :
    (pk run_id now : ℕ) (db : Db)
    → IsShut pk run_id db
    → IsShut pk run_id (take_job now (find_where is_waiting db.dossiers) db).1
unfolding take_job
take_job-IsShut pk run_id now db s = elim (Option-cases (find_where is_waiting db.dossiers)) [
  | inl e ↦ rw e s
  | inr (x, e) ↦
      let at_x = find_row-find_where dossier_id is_waiting db.dossiers s.distinct e in
      let waiting = find_where-holds is_waiting db.dossiers e in
      rw e (
        saved-IsShut pk run_id db _ (record x { status = running; updated_at = now }) s refl
          (omega arith)
          (λ q. elim (the_dossier pk run_id db s x.id x at_x q) [
            | inl later ↦ inl later
            | inr idle ↦ absurd (ground (arith, waiting, idle))
          ]))
]

-- The dossier before and after the command: it has a later run, or was and is idle.
pub record Retired (pk run_id : ℕ) (db db' : Db) : Type 0 where
  pub old : Dossier
  pub new : Dossier
  pub old_found : find_dossier db pk ≡ some old
  pub new_found : find_dossier db' pk ≡ some new
  pub moved_on :
      (run_id < new.run_id) ⊎ ((is_active old.status ≡ false) × (is_active new.status ≡ false))

module _ (u : Unicode) (outside : Outside) (settings : Settings) where
  -- What any sequence of commands, claims, writes and renewals of leases makes of a database. An operation
  -- that is refused changes nothing.
  pub data Later (db : Db) : Db → Type 0 where
    at_once : Later db db
    commanded :
        (given : Dossier) (user : User) (command : Command) (now : ℕ) {db1 db2 : Db}
        → Later db db1
        → apply_command u outside settings given user command now db1 ≡ done db2
        → Later db db2
    claimed : (now : ℕ) {db1 : Db} → Later db db1 → Later db (claim now db1).1
    written :
        (pk run_id : ℕ) (message : Text) (changes : List Change) (now : ℕ) {db1 db2 : Db}
        → Later db db1
        → save_progress pk run_id message changes now db1 ≡ done db2
        → Later db db2
    renewed : (pk run_id now : ℕ) {db1 : Db} → Later db db1 → Later db (refresh pk run_id now db1).1

  Later-IsShut :
      (pk run_id : ℕ) (db : Db) {later : Db}
      → IsShut pk run_id db
      → Later db later
      → IsShut pk run_id later
  unfolding claim
  Later-IsShut pk run_id db s at_once = s
  Later-IsShut pk run_id db {later} s (commanded given user command now {db1} {db2} l h) =
      let k = Later-IsShut pk run_id db s l in
      let a = apply_command-Applied u outside settings given user command now db1 h in
      let (grows, apart) = applied-IsApart settings user given.id run_id db1 db2 a k.given_out in
      saved-IsShut pk run_id db1 db2 a.new k a.saved grows (λ q. apart)
  Later-IsShut pk run_id db {later} s (claimed now {db1} l) =
      take_job-IsShut pk run_id now (expire_all now db1.dossiers db1)
        (expire_all-IsShut pk run_id now db1.dossiers db1 (Later-IsShut pk run_id db s l))
  Later-IsShut pk run_id db {later} s (written i r message changes now {db1} {db2} l h) =
      save_progress-IsShut pk run_id i r message changes now db1 (Later-IsShut pk run_id db s l) h
  Later-IsShut pk run_id db {later} s (renewed i r now {db1} l) =
      refresh-IsShut pk run_id i r now db1 (Later-IsShut pk run_id db s l)

  -- Where the dossiers have different keys: a command that succeeds gives the dossier a later run than
  -- any from before the command, unless it leaves an idle dossier idle. From then on, a worker with a
  -- run from before the command can neither write to the dossier nor renew its lease, whatever commands,
  -- claims, writes and renewals follow, also when the dossier runs again.
  pub apply_command-Fenced :
      (given : Dossier) (user : User) (command : Command) (now run_id : ℕ) (db : Db)
      {db' later : Db}
      → Distinct dossier_id db.dossiers
      → run_id < db.next_run
      → apply_command u outside settings given user command now db ≡ done db'
      → Later db' later
      → Retired given.id run_id db db' × Fenced given.id run_id later
  apply_command-Fenced given user command now run_id db {db'} {later} u0 old h l =
      let a = apply_command-Applied u outside settings given user command now db h in
      let (grows, apart) = applied-IsApart settings user given.id run_id db db' a old in
      let f = find-saved settings user given.id db db' a in
      let s : IsShut given.id run_id db' = record {
        distinct =
            subst (Distinct dossier_id) (sym a.saved)
              (set_row-Distinct dossier_id a.new db.dossiers u0);
        given_out = omega (arith, old, grows);
        dossier = a.new;
        found = f;
        apart = apart;
      } in
      let k = Later-IsShut given.id run_id db' s l in
      let apart_later : owns run_id k.dossier ≡ false = elim k.apart [
        | inl x ↦ ground (arith, x)
        | inr x ↦ ground (arith, x)
      ] in
      (
        record {
          old = a.old;
          new = a.new;
          old_found = a.found;
          new_found = f;
          moved_on = elim a.move [
            | inl m ↦ inl (omega (arith, m.fresh, old))
            | inr (inl m) ↦ inl (omega (arith, m.fresh, old))
            | inr (inr m) ↦ inr (m.was_idle, ground (arith, m.same_status, m.was_idle))
          ];
        },
        not_owner-Fenced given.id run_id later k.dossier k.found apart_later,
      )
