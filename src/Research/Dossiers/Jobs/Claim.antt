-- ===== src/Research/Dossiers/Jobs/Claim.antt =====
-- The claim of a job: what expired is fenced, and what is claimed can be worked on.
use mathlib.Core.Path.{subst}
use research_desk.Prelude.{
  ℕ, ◌≤◌, ◌<◌, ◌≡◌, ◌≢◌, refl, ap, sym, ◌∙◌, true, Option, none, some, List, [], ◌∷◌, ◌==◌, Text,
  arith, inl, inr, Bool-cases, Option-cases,
}
use research_desk.Table.{
  find_row, set_row, find_where, Distinct, set_row-Distinct, find_row-find_where, find_row-set_self,
  find_row-set_ne,
}
use research_desk.Research.Dossiers.Model.{
  running, Dossier, Db, done, dossier_id, find_dossier, save_dossier, log,
}
use research_desk.Research.Dossiers.Jobs.{
  Change, set_fields, owns, progress, save_progress, is_stale, expire, expire_all, take_job,
  is_waiting, claim,
}
use research_desk.Research.Dossiers.Jobs.Fencing.{Fenced, not_owner-Fenced}

-- Dossiers that are not in the list are not touched.
expire_all-other :
    (now j : ℕ) (ds : List Dossier) (db : Db)
    → find_row dossier_id j ds ≡ none
    → find_dossier (expire_all now ds db) j ≡ find_dossier db j
unfolding expire_all find_row
expire_all-other now j [] db h = refl
expire_all-other now j (d ∷ ds) db h =
    let there : find_row dossier_id j ds ≡ none = ground (arith, h) in
    let ne : d.id ≢ j = λ e. ground (arith, h) in
    elim (Bool-cases (is_stale now d)) [
      | inl e ↦ rw e (
          expire_all-other now j ds (expire now d db) there
          ∙ find_row-set_ne dossier_id j _ db.dossiers ne)
      | inr e ↦ rw e (expire_all-other now j ds db there)
    ]

expire_all-next :
    (now : ℕ) (ds : List Dossier) (db : Db) → db.next_run ≤ (expire_all now ds db).next_run
unfolding expire_all
expire_all-next now [] db = omega arith
expire_all-next now (d ∷ ds) db =
    ground (arith, expire_all-next now ds (expire now d db), expire_all-next now ds db)

expire_all-Distinct :
    (now : ℕ) (ds : List Dossier) (db : Db)
    → Distinct dossier_id db.dossiers
    → Distinct dossier_id (expire_all now ds db).dossiers
unfolding expire_all
expire_all-Distinct now [] db h = h
expire_all-Distinct now (d ∷ ds) db h = elim (Bool-cases (is_stale now d)) [
  | inl e ↦
      rw e
        (expire_all-Distinct now ds (expire now d db) (set_row-Distinct dossier_id _ db.dossiers h))
  | inr e ↦ rw e (expire_all-Distinct now ds db h)
]

-- A dossier that expired has a run that is given out in this claim.
expire_all-stale :
    (now j n : ℕ) (ds : List Dossier) (db : Db) (d : Dossier)
    → Distinct dossier_id ds
    → find_row dossier_id j ds ≡ some d
    → find_dossier db j ≡ some d
    → is_stale now d ≡ true
    → n ≤ db.next_run
    → (new : Dossier) × (find_dossier (expire_all now ds db) j ≡ some new) × (n ≤ new.run_id)
unfolding expire_all find_row
expire_all-stale now j n [] db d u h f s l = cc
expire_all-stale now j n (x ∷ ds) db d u h f s l = elim (Bool-cases (dossier_id x == j)) [
  | inl e ↦
      let is_d : x ≡ d = ground (arith, h, e) in
      let is_j : x.id ≡ j = ground (arith, e) in
      let stale : is_stale now x ≡ true = rw is_d s in
      rw stale (
        _,
        expire_all-other now j ds (expire now x db)
              (subst (λ (i : ℕ). find_row dossier_id i ds ≡ none) is_j u.0)
            ∙ find_row-set_self dossier_id j _ db.dossiers f is_j,
        l,
      )
  | inr e ↦
      let there : find_row dossier_id j ds ≡ some d = ground (arith, h, e) in
      let ne : x.id ≢ j = λ q. ground (arith, e) in
      elim (Bool-cases (is_stale now x)) [
        | inl stale ↦ rw stale (
            expire_all-stale now j n ds (expire now x db) d u.1 there
              (find_row-set_ne dossier_id j _ db.dossiers ne ∙ f) s (omega (arith, l)))
        | inr kept ↦ rw kept (expire_all-stale now j n ds db d u.1 there f s l)
      ]
]

-- Taking a job changes no run of a dossier.
take_job-run :
    (now j : ℕ) (db : Db) (d : Dossier)
    → Distinct dossier_id db.dossiers
    → find_dossier db j ≡ some d
    → (new : Dossier) × (find_dossier (take_job now (find_where is_waiting db.dossiers) db).1 j
        ≡ some new)
      × (new.run_id ≡ d.run_id)
unfolding take_job
take_job-run now j db d u f = elim (Option-cases (find_where is_waiting db.dossiers)) [
  | inl e ↦ rw e (d, f, refl)
  | inr (x, e) ↦
      let at_x = find_row-find_where dossier_id is_waiting db.dossiers u e in
      rw e (elim (Bool-cases (x.id == j)) [
        | inl same ↦
            let is_j : x.id ≡ j = ground (arith, same) in
            let is_d : x ≡ d =
              ground (
                arith,
                subst (λ (i : ℕ). find_row dossier_id i db.dossiers ≡ some x) is_j at_x,
                f,
              ) in
            (
              record x { status = running; updated_at = now },
              find_row-set_self dossier_id j (record x { status = running; updated_at = now })
                  db.dossiers f is_j,
              ap (λ (y : Dossier). y.run_id) is_d,
            )
        | inr other ↦ (
          d,
          find_row-set_ne dossier_id j (record x { status = running; updated_at = now }) db.dossiers
                (λ q. ground (arith, other))
              ∙ f,
          refl,
        )
      ])
]

-- Where the dossiers have different keys: once a worker has asked for a job, a worker whose dossier had
-- run for more than ten minutes without being saved can neither write to it nor renew its lease.
pub claim-Fenced :
    (now j : ℕ) (db : Db) (d : Dossier)
    → Distinct dossier_id db.dossiers
    → find_dossier db j ≡ some d
    → is_stale now d ≡ true
    → d.run_id < db.next_run
    → Fenced j d.run_id (claim now db).1
unfolding claim
claim-Fenced now j db d u f s l =
    let (x, at, fresh) =
      expire_all-stale now j db.next_run db.dossiers db d u f f s (omega arith) in
    let (y, taken, same) =
      take_job-run now j (expire_all now db.dossiers db) x
        (expire_all-Distinct now db.dossiers db u) at in
    not_owner-Fenced j d.run_id (claim now db).1 y taken (ground (arith, l, fresh, same))

-- A worker that claimed a dossier holds it: the dossier was queued and is stored as running, and the
-- worker's first write to it is accepted.
pub record Held (d : Dossier) (db : Db) : Type 0 where
  pub runs_now : d.status ≡ running
  pub stored : find_dossier db d.id ≡ some d
  pub accepted :
      (message : Text) (changes : List Change) (now : ℕ)
      → (db' : Db) × (save_progress d.id d.run_id message changes now db ≡ done db')

stored-Held :
    (db : Db) (d : Dossier) → d.status ≡ running → find_dossier db d.id ≡ some d → Held d db
unfolding save_progress progress
stored-Held db d r f = record {
  runs_now = r;
  stored = f;
  accepted = λ message changes now.
      let own : owns d.run_id d ≡ true = ground (arith, r) in
      (
        save_dossier now
            (record (set_fields changes d) {
              events = log message now (set_fields changes d).events;
            })
            db,
        rw (f, own),
      );
}

take_job-Held :
    (now : ℕ) (db : Db) {d : Dossier} {db' : Db}
    → Distinct dossier_id db.dossiers
    → take_job now (find_where is_waiting db.dossiers) db ≡ (some d, db')
    → Held d db'
unfolding take_job
take_job-Held now db {d} {db'} u h = elim (Option-cases (find_where is_waiting db.dossiers)) [
  | inl e ↦ absurd (ground (arith, h, e))
  | inr (x, e) ↦
      let at_x = find_row-find_where dossier_id is_waiting db.dossiers u e in
      let x' : Dossier = record x { status = running; updated_at = now } in
      let (same, after) = taken x e h in
      subst (λ (y : Dossier). Held y db') same
        (stored-Held db' x' refl (
          ap (λ (l : List Dossier). find_row dossier_id x.id l) after
          ∙ find_row-set_self dossier_id x.id x' db.dossiers at_x refl))
]
  where
    taken :
        (x : Dossier)
        → find_where is_waiting db.dossiers ≡ some x
        → take_job now (find_where is_waiting db.dossiers) db ≡ (some d, db')
        → (record x { status = running; updated_at = now } ≡ d)
          × (db'.dossiers
              ≡ set_row dossier_id (record x { status = running; updated_at = now }) db.dossiers)
    taken x e h =
        let k : take_job now (some x) db ≡ (some d, db') = rw e at h in
        let q : some (record x { status = running; updated_at = now }) ≡ some d =
          ap (λ (p : Option Dossier × Db). p.0) k in
        (cc, sym (ap (λ (p : Option Dossier × Db). p.1.dossiers) k))

-- A claim that gives a dossier gives one that is stored as running, and its worker may write to it.
pub claim-Held :
    (now : ℕ) (db : Db) {d : Dossier} {db' : Db}
    → Distinct dossier_id db.dossiers
    → claim now db ≡ (some d, db')
    → Held d db'
unfolding claim
claim-Held now db {d} {db'} u h =
    take_job-Held now (expire_all now db.dossiers db) (expire_all-Distinct now db.dossiers db u) h
