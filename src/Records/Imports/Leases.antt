-- ===== src/Records/Imports/Leases.antt =====
-- One worker at a time holds an import run.
use research_desk.Prelude.{
  ℕ, ◌+◌, ◌≤◌, ◌<◌, ◌≡◌, ◌≢◌, refl, ap, sym, ◌∙◌, true, false, Option, some, List, arith, inl, inr,
  Option-cases,
}
use mathlib.Core.Path.{subst}
use research_desk.Table.{
  find_row, find_where, set_row, Distinct, find_row-find_where, find_row-set_self, set_row-Distinct,
  find_where-holds,
}
use research_desk.Records.Imports.{
  running, ImportRun, Db, lease_lost, done, refused, run_id, find_run, save_run, or_now,
  lease_seconds, claimable, take_run, claim_run, holds, locked_run, locked, heartbeat,
}

-- A run that was claimed: it is stored, with a new owner and a lease of two minutes.
pub record Leased (now : ℕ) (db : Db) (r : ImportRun) (db' : Db) : Type 0 where
  pub runs_now : r.status ≡ running
  pub owner : r.lease_owner ≡ some db.next_id
  pub expires : r.lease_expires_at ≡ some (now + lease_seconds)
  pub stored : find_run db' r.id ≡ some r
  pub distinct : Distinct run_id db'.runs

pub claim_run-Leased :
    (pk : Option ℕ) (now : ℕ) (db : Db) {r : ImportRun} {db' : Db}
    → Distinct run_id db.runs
    → claim_run pk now db ≡ (some r, db')
    → Leased now db r db'
unfolding claim_run take_run
claim_run-Leased pk now db {r} {db'} u h =
    elim (Option-cases (find_where (claimable pk now) db.runs)) [
      | inl e ↦ absurd (ground (arith, h, e))
      | inr (x, e) ↦
          let x' : ImportRun = record x {
            status = running;
            lease_owner = some db.next_id;
            lease_expires_at = some (now + lease_seconds);
            started_at = some (or_now x.started_at now);
          } in
          let k : take_run now (some x) db ≡ (some r, db') = rw e at h in
          let q : some x' ≡ some r = ap (λ (p : Option ImportRun × Db). p.0) k in
          let same : x' ≡ r = cc in
          let runs : set_row run_id x' db.runs ≡ db'.runs =
            ap (λ (p : Option ImportRun × Db). p.1.runs) k in
          let at_x = find_row-find_where run_id (claimable pk now) db.runs u e in
          subst (λ (y : ImportRun). Leased now db y db') same
            (record {
              runs_now = refl;
              owner = refl;
              expires = refl;
              stored =
                  ap (λ (l : List ImportRun). find_row run_id x.id l) (sym runs)
                  ∙ find_row-set_self run_id x.id x' db.runs at_x refl;
              distinct = subst (Distinct run_id) runs (set_row-Distinct run_id x' db.runs u);
            })
    ]

-- A worker that claimed a run keeps it while its lease lasts: its heartbeat is accepted.
pub heartbeat-claim_run :
    (pk : Option ℕ) (now later : ℕ) (db : Db) {r : ImportRun} {db' : Db}
    → Distinct run_id db.runs
    → claim_run pk now db ≡ (some r, db')
    → later < now + 120
    → (db'' : Db) × (heartbeat r.id db.next_id later db' ≡ done db'')
unfolding heartbeat locked locked_run
heartbeat-claim_run pk now later db {r} {db'} u h l =
    let a = claim_run-Leased pk now db u h in
    let mine : holds db.next_id later r ≡ true =
      ground (arith, a.runs_now, a.owner, a.expires, l) in
    (
      save_run (record r { lease_expires_at = some (later + lease_seconds) }) db',
      rw (heartbeat, a.stored, locked_run, mine),
    )

-- After a run was claimed, a worker with another lease is refused, at any time.
pub heartbeat-lease_lost :
    (pk : Option ℕ) (now later other : ℕ) (db : Db) {r : ImportRun} {db' : Db}
    → Distinct run_id db.runs
    → other ≢ db.next_id
    → claim_run pk now db ≡ (some r, db')
    → heartbeat r.id other later db' ≡ refused lease_lost
unfolding heartbeat locked locked_run
heartbeat-lease_lost pk now later other db {r} {db'} u ne h =
    let a = claim_run-Leased pk now db u h in
    let not_mine : holds other later r ≡ false = ground (arith, a.owner, ne) in
    rw (heartbeat, a.stored, locked_run, not_mine)

-- No second worker is given the run before its lease is over.
pub claim_run-claim_run_ne :
    (pk again : Option ℕ) (now later : ℕ) (db : Db) {r s : ImportRun} {db' db'' : Db}
    → Distinct run_id db.runs
    → claim_run pk now db ≡ (some r, db')
    → later ≤ now + 120
    → claim_run again later db' ≡ (some s, db'')
    → s.id ≢ r.id
unfolding claim_run take_run claimable
claim_run-claim_run_ne pk again now later db {r} {s} {db'} {db''} u h l k =
    let a = claim_run-Leased pk now db u h in
    elim (Option-cases (find_where (claimable again later) db'.runs)) [
      | inl e ↦ absurd (ground (arith, k, e))
      | inr (x, e) ↦
          let free = find_where-holds (claimable again later) db'.runs e in
          let at_x = find_row-find_where run_id (claimable again later) db'.runs a.distinct e in
          let m : take_run later (some x) db' ≡ (some s, db'') = rw e at k in
          let same_id : x.id ≡ s.id = ground (arith, m) in
          λ q.
            let there : find_row run_id x.id db'.runs ≡ some r =
              ap (λ i. find_row run_id i db'.runs) (same_id ∙ q) ∙ a.stored in
            let is_r : x ≡ r = ground (arith, there, at_x) in
            ground (arith, free, is_r, a.runs_now, a.expires, l)
    ]
