-- ===== src/Research/Dossiers/Commands/Moves.antt =====
-- What a command that succeeds has done: the move of the state machine, the saved dossier, the events.
use mathlib.Core.Path.{subst}
use research_desk.Prelude.{
  ℕ, ◌+◌, ◌≤◌, ◌<◌, ◌≡◌, refl, sym, Bool, true, false, not, Option, none, some, List, [], ◌∷◌, ◌++◌,
  length, last_n, length-last_n, ◌==◌, Text, arith, ◌⊎◌, inl, inr, Bool-cases, codes,
}
use research_desk.Unicode.{Unicode}
use research_desk.Table.{set_row, count_where}
use research_desk.Research.Dossiers.Model.{
  queued, cancelled, is_active, Event, Dossier, Db, other_owner, Outcome, done, ◌>>=◌, ◌>>◌,
  >>=-eq-done, refuse_if-eq-done, dossier_id, find_dossier, save_dossier, log,
}
use research_desk.Research.Dossiers.Limits.{Settings, admit_job, active, active_of}
use research_desk.Research.Dossiers.Commands.{
  refuse_some, incapability, stage_name, save_run, User, Launch, start, retry, regenerate,
  with_fulltext, followup, with_investigation, Command, stop, unknown, select, review, launch,
  Outside, stop_dossier, select_paper, prepare, start_search, focus_on, enqueue, launch_run,
  review_finding, apply_active, apply_idle, apply_stored, apply_command, owned_by,
}

-- The moves of the state machine, with the identity of the run and what admission asked for.
pub record Stopping (db : Db) (d d' : Dossier) (db' : Db) : Type 0 where
  pub was_active : is_active d.status ≡ true
  pub now_cancelled : d'.status ≡ cancelled
  pub fresh : d'.run_id ≡ db.next_run
  pub next : db'.next_run ≡ db.next_run + 1

pub record Launching (settings : Settings) (db : Db) (d d' : Dossier) (db' : Db) : Type 0 where
  pub was_idle : is_active d.status ≡ false
  pub now_queued : d'.status ≡ queued
  pub fresh : d'.run_id ≡ db.next_run
  pub next : db'.next_run ≡ db.next_run + 1
  pub own_room : count_where (active_of d.owner) db.dossiers < settings.per_user
  pub room : count_where active db.dossiers < settings.global

pub record Editing (db : Db) (d d' : Dossier) (db' : Db) : Type 0 where
  pub was_idle : is_active d.status ≡ false
  pub same_status : d'.status ≡ d.status
  pub same_run : d'.run_id ≡ d.run_id
  pub next : db'.next_run ≡ db.next_run

abbrev pub Move : Settings → Db → Dossier → Dossier → Db → Type 0
Move settings db d d' db' =
    Stopping db d d' db' ⊎ (Launching settings db d d' db' ⊎ Editing db d d' db')

pub record Applied (settings : Settings) (user : User) (pk : ℕ) (db db' : Db) : Type 0 where
  pub old : Dossier
  pub new : Dossier
  pub found : find_dossier db pk ≡ some old
  pub owner_is : old.owner ≡ user.pk
  pub same_id : new.id ≡ old.id
  pub same_owner : new.owner ≡ old.owner
  pub saved : db'.dossiers ≡ set_row dossier_id new db.dossiers
  pub bounded : length new.events ≤ 100
  pub move : Move settings db old new db'

-- What `prepare` leaves as it is.
record Kept (d d' : Dossier) : Type 0 where
  same_id : d'.id ≡ d.id
  same_owner : d'.owner ≡ d.owner

focus_on-Kept : (text : Text) (d : Dossier) {d' : Dossier} → focus_on text d ≡ done d' → Kept d d'
unfolding focus_on
focus_on-Kept text d h = record { same_id = ground arith; same_owner = ground arith }

prepare-Kept :
    (u : Unicode) (command : Launch) (d : Dossier) {d' : Dossier}
    → prepare u command d ≡ done d'
    → Kept d d'
unfolding prepare start_search focus_on
prepare-Kept u (start queries scope) d h = record {
  same_id = ground arith;
  same_owner = ground arith;
}
prepare-Kept u retry d h = record { same_id = ground arith; same_owner = ground arith }
prepare-Kept u regenerate d h = record { same_id = ground arith; same_owner = ground arith }
prepare-Kept u with_fulltext d h = record { same_id = ground arith; same_owner = ground arith }
prepare-Kept u (followup text) d h = record { same_id = ground arith; same_owner = ground arith }
prepare-Kept u (with_investigation text) d h = record {
  same_id = ground arith;
  same_owner = ground arith;
}

-- What admission found.
record Admitted (settings : Settings) (owner : ℕ) (db db' : Db) : Type 0 where
  own_room : count_where (active_of owner) db.dossiers < settings.per_user
  room : count_where active db.dossiers < settings.global
  same_dossiers : db'.dossiers ≡ db.dossiers
  same_next : db'.next_run ≡ db.next_run

admit_job-Admitted :
    (settings : Settings) (key : ℕ → ℕ) (now owner : ℕ) (db : Db) {db' : Db}
    → admit_job settings key now owner db ≡ done db'
    → Admitted settings owner db db'
unfolding admit_job
admit_job-Admitted settings key now owner db h = record {
  own_room = ground arith;
  room = ground arith;
  same_dossiers = ground arith;
  same_next = ground arith;
}

bounded_log :
    (message : Text) (now : ℕ) (events : List Event) → length (log message now events) ≤ 100
bounded_log message now events =
    length-last_n 100 (events ++ record { message = message; at = now } ∷ [])

refuse_some-eq-done :
    {B : Type 0} (message : Option Text) (next : Outcome B) {b : B}
    → (refuse_some message >> next) ≡ done b
    → next ≡ done b
refuse_some-eq-done none next h = h
refuse_some-eq-done (some m) next h = cc

module _ (u : Unicode) (outside : Outside) (settings : Settings) where
  -- The parts of a launch.
  launch_run-parts :
      (owner : ℕ) (command : Launch) (now : ℕ) (d : Dossier) (db : Db) {db' : Db}
      → launch_run u outside settings owner command now d db ≡ done db'
      → (p : Dossier) × (a : Db) × (prepare u command d ≡ done p)
        × (admit_job settings outside.daily_key now owner db ≡ done a)
        × (db' ≡ save_run now (enqueue db.next_run now p) a)
  unfolding launch_run
  launch_run-parts owner command now d db {db'} h =
      let after : Dossier → Outcome Db = λ p.
        admit_job settings outside.daily_key now owner db >>= λ a.
        done (save_run now (enqueue db.next_run now p) a) in
      let (p, prepared, rest) =
        >>=-eq-done (prepare u command d)
          (λ p. refuse_some (incapability outside owner p.stage) >> after p) {b = db'} h in
      let rest' = refuse_some-eq-done (incapability outside owner p.stage) (after p) rest in
      let (a, admitted, last) =
        >>=-eq-done (admit_job settings outside.daily_key now owner db)
          (λ (a : Db). done (save_run now (enqueue db.next_run now p) a)) {b = db'} rest' in
      (p, a, prepared, admitted, ground arith)

  review_finding-Kept :
      (user : User) (token : ℕ) (finding verdict note : Text) (now : ℕ) (d : Dossier) {d' : Dossier}
      → review_finding u outside settings user token finding verdict note now d ≡ done d'
      → Kept d d' × (d'.status ≡ d.status) × (d'.run_id ≡ d.run_id) × (length d'.events ≤ 100)
  unfolding review_finding
  review_finding-Kept user token finding verdict note now d {d'} h =
      let is_new : (e : List Event) → length (last_n 100 e) ≤ 100 = length-last_n 100 in
      (
        record { same_id = ground arith; same_owner = ground arith },
        ground arith,
        ground arith,
        ground (arith, length-last_n 100 d.events),
      )

  select_paper-Kept :
      (paper_id : Text) (add : Bool) (d : Dossier) {d' : Dossier}
      → select_paper paper_id add d ≡ done d'
      → Kept d d' × (d'.status ≡ d.status) × (d'.run_id ≡ d.run_id) × (length d'.events ≤ 100)
  unfolding select_paper
  select_paper-Kept paper_id add d h = (
    record { same_id = ground arith; same_owner = ground arith },
    ground arith,
    ground arith,
    ground (arith, length-last_n 100 d.events),
  )

  edited :
      (user : User) (pk now : ℕ) (d d' : Dossier) (db : Db)
      → find_dossier db pk ≡ some d
      → d.owner ≡ user.pk
      → is_active d.status ≡ false
      → Kept d d' × (d'.status ≡ d.status) × (d'.run_id ≡ d.run_id) × (length d'.events ≤ 100)
      → Applied settings user pk db (save_dossier now d' db)
  edited user pk now d d' db f o idle (kept, status, run, short) = record {
    old = d;
    new = record d' { updated_at = now };
    found = f;
    owner_is = o;
    same_id = kept.same_id;
    same_owner = kept.same_owner;
    saved = refl;
    bounded = short;
    move =
        inr (inr (record { was_idle = idle; same_status = status; same_run = run; next = refl }));
  }

  apply_idle-Applied :
      (user : User) (command : Command) (pk now : ℕ) (d : Dossier) (db : Db) {db' : Db}
      → find_dossier db pk ≡ some d
      → d.owner ≡ user.pk
      → is_active d.status ≡ false
      → apply_idle u outside settings user command now d db ≡ done db'
      → Applied settings user pk db db'
  unfolding apply_idle
  apply_idle-Applied user stop pk now d db f o idle h = cc
  apply_idle-Applied user unknown pk now d db f o idle h = cc
  apply_idle-Applied user (select paper_id add) pk now d db {db'} f o idle h =
      let (d', e, last) =
        >>=-eq-done (select_paper paper_id add d) (λ (x : Dossier). done (save_dossier now x db))
          {b = db'} h in
      let same : save_dossier now d' db ≡ db' = ground arith in
      subst (Applied settings user pk db) same
        (edited user pk now d d' db f o idle (select_paper-Kept paper_id add d e))
  apply_idle-Applied user (review token finding verdict note) pk now d db {db'} f o idle h =
      let (d', e, last) =
        >>=-eq-done (review_finding u outside settings user token finding verdict note now d)
          (λ (x : Dossier). done (save_dossier now x db)) {b = db'} h in
      let same : save_dossier now d' db ≡ db' = ground arith in
      subst (Applied settings user pk db) same (
        edited user pk now d d' db f o idle
          (review_finding-Kept user token finding verdict note now d e))
  apply_idle-Applied user (launch command) pk now d db {db'} f o idle h =
      let (p, a, prepared, admitted, same) = launch_run-parts user.pk command now d db h in
      let kept = prepare-Kept u command d prepared in
      let free = admit_job-Admitted settings outside.daily_key now user.pk db admitted in
      subst (Applied settings user pk db) (sym same) (record {
        old = d;
        new = record (enqueue db.next_run now p) { updated_at = now };
        found = f;
        owner_is = o;
        same_id = kept.same_id;
        same_owner = kept.same_owner;
        saved = rw free.same_dossiers;
        bounded = bounded_log (codes "Queued for " ++ stage_name p.stage ++ codes ".") now p.events;
        move = inr (
            inl (record {
              was_idle = idle;
              now_queued = refl;
              fresh = refl;
              next = rw free.same_next;
              own_room = rw o free.own_room;
              room = free.room;
            }));
      })

  apply_active-Applied :
      (user : User) (command : Command) (pk now : ℕ) (d : Dossier) (db : Db) {db' : Db}
      → find_dossier db pk ≡ some d
      → d.owner ≡ user.pk
      → is_active d.status ≡ true
      → apply_active u outside settings command now d db ≡ done db'
      → Applied settings user pk db db'
  unfolding apply_active stop_dossier
  apply_active-Applied user stop pk now d db {db'} f o busy h =
      let same : save_run now (stop_dossier db.next_run now d) db ≡ db' = ground arith in
      subst (Applied settings user pk db) same (record {
        old = d;
        new = record (stop_dossier db.next_run now d) { updated_at = now };
        found = f;
        owner_is = o;
        same_id = refl;
        same_owner = refl;
        saved = refl;
        bounded = bounded_log _ now d.events;
        move = inl (record { was_active = busy; now_cancelled = refl; fresh = refl; next = refl });
      })
  apply_active-Applied user unknown pk now d db f o busy h = cc
  apply_active-Applied user (select _ _) pk now d db f o busy h = cc
  apply_active-Applied user (review _ _ _ _) pk now d db f o busy h = cc
  apply_active-Applied user (launch _) pk now d db f o busy h = cc

  owned_by-found :
      (owner : ℕ) (o : Option Dossier) {d : Dossier}
      → owned_by u outside settings owner o ≡ done d
      → (o ≡ some d) × (d.owner ≡ owner)
  owned_by-found owner none h = cc
  owned_by-found owner (some x) {d} h = elim (Bool-cases (x.owner == owner)) [
    | inl e ↦ (ground (arith, e), ground (arith, e))
    | inr e ↦ absurd (ground (arith, e))
  ]

  -- A command that succeeds saved exactly the dossier that it names, which is the user's, with at most
  -- 100 events, and made one of three moves: an active one is cancelled under a fresh run, an idle one
  -- is queued under a fresh run while both the user and the whole queue had room, or an idle one keeps
  -- its status and its run.
  pub apply_command-Applied :
      (given : Dossier) (user : User) (command : Command) (now : ℕ) (db : Db) {db' : Db}
      → apply_command u outside settings given user command now db ≡ done db'
      → Applied settings user given.id db db'
  unfolding apply_command apply_stored
  apply_command-Applied given user command now db {db'} h =
      let (mine, rest) =
        refuse_if-eq-done (not (given.owner == user.pk)) other_owner
          (owned_by u outside settings user.pk (find_dossier db given.id) >>= λ (d : Dossier).
            apply_stored u outside settings user command now d db)
          h in
      let (d, owned, last) =
        >>=-eq-done (owned_by u outside settings user.pk (find_dossier db given.id))
          (λ (d : Dossier). apply_stored u outside settings user command now d db) {b = db'} rest in
      let (f, o) = owned_by-found user.pk (find_dossier db given.id) owned in
      elim (Bool-cases (is_active d.status)) [
        | inl e ↦ apply_active-Applied user command given.id now d db f o e (rw e at last)
        | inr e ↦ apply_idle-Applied user command given.id now d db f o e (rw e at last)
      ]
