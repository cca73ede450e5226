-- ===== src/Records/Services/Reviews/Reachable.antt =====
-- Every state that the operations of records/services.py reach from the empty database.
use mathlib.Core.Path.{subst}
use Prim.Native.String.{String}
use research_desk.Prelude.{
  ℕ, ◌+◌, ◌≡◌, refl, sym, Bool, true, false, not, ◌&&◌, Option, none, some, List, [], ◌∷◌, ◌++◌,
  Text, arith, ◌==◌, leb,
}
use research_desk.Unicode.{Unicode}
use research_desk.Json.{Json, Fields}
use research_desk.Table.{find_row, find_where}
use research_desk.Transactions.{Result, ok, bind-eq-ok, check-eq-ok}
use research_desk.Records.Models.{
  Db, CandidatePair, SourceRecord, MatchProposal, ReviewDecision, pair_id,
}
use research_desk.Records.Services.{DomainError, invalid_k}
use research_desk.Records.Services.Compare.{compare_pair}
use research_desk.Records.Services.Ingest.{ingest_record, Ingested}
use research_desk.Records.Services.Candidates.{
  candidate_ids, get_pair, pair_with, generate_for, generate_candidates, order_by_id, ordered,
}
use research_desk.Records.Services.Checks.{Payload}
use research_desk.Records.Services.Reviews.{decide, withdraw}
use research_desk.Records.Services.Regroup.Assigned.{pub_of}
use research_desk.Records.Services.Reviews.Consistent.{IsConsistent}
use research_desk.Records.Services.Reviews.Extended.{
  Extends, IsGrounded, extended-IsConsistent, extended-IsGrounded,
}
use research_desk.Records.Services.Reviews.Adding.{
  Adds, Adds-Extends, Adds-trans, Adds-refl, compare_pair-Adds,
}
use research_desk.Records.Services.Reviews.Ingesting.{ingest_record-Extends}
use research_desk.Records.Services.Reviews.Decided.{decide-IsConsistent}
use research_desk.Records.Services.Reviews.Withdrawn.{withdraw-IsConsistent}
use research_desk.Records.Services.Reviews.Grounded.{decide-IsGrounded, withdraw-IsGrounded}

find_row-append :
    (pk : ℕ) (ps qs : List CandidatePair) {p : CandidatePair}
    → find_row pair_id pk ps ≡ some p
    → find_row pair_id pk (ps ++ qs) ≡ some p
unfolding find_row
find_row-append pk [] qs h = cc
find_row-append pk (x ∷ ps) qs {p} h = ground (arith, h, find_row-append pk ps qs {p = p})

get_pair-Adds :
    (ends : ℕ × ℕ) (db : Db) {x : ℕ × Bool} {db' : Db}
    → get_pair ends db ≡ ok (x, db')
    → Adds db db'
unfolding get_pair
get_pair-Adds (left, right) db {x} {db'} h =
    found (find_where (λ (p : CandidatePair). p.left == left && p.right == right) db.pairs) _ h
  where
    found :
        (o : Option CandidatePair) (new : CandidatePair)
        → ◌≡◌ {A = Result DomainError ((ℕ × Bool) × Db)}
            (elim o [
              | some p ↦ ok ((p.id, false), db)
              | none ↦ ok (
                (db.next_id, true),
                record db { pairs = db.pairs ++ (new ∷ []); next_id = db.next_id + 1 },
              )
            ])
            (ok (x, db'))
        → Adds db db'
    found (some p) new k =
        let same : db ≡ db' = ground (arith, k) in subst (Adds db) same (Adds-refl db)
    found none new k =
        let same : record db { pairs = db.pairs ++ (new ∷ []); next_id = db.next_id + 1 } ≡ db' =
          ground (arith, k) in
        subst (Adds db) same (record {
          decisions = refl;
          grows = omega arith;
          pubs = λ a. refl;
          distinct = λ d. d;
          pairs = λ pk pair f. (pair, find_row-append pk db.pairs (new ∷ []) f, refl, refl);
        })

candidate_ids-eq-ok :
    (distance : Text → Text → ℕ) (r : SourceRecord) (k : ℕ) (db : Db) {ids : List ℕ} {db' : Db}
    → candidate_ids distance r k db ≡ ok (ids, db')
    → db' ≡ db
unfolding candidate_ids
candidate_ids-eq-ok distance r k db h =
    let (bounded, h1) = check-eq-ok (not (leb 1 k && leb k 200)) invalid_k _ db h in
    ground (arith, h1)

module _ (u : Unicode) (ratio : Text → Text → ℕ) where
  pair_with-Adds :
      (r : SourceRecord) (others : List ℕ) (db : Db) {n : ℕ} {db' : Db}
      → pair_with u ratio r others db ≡ ok (n, db')
      → Adds db db'
  unfolding pair_with
  pair_with-Adds r [] db {n} {db'} h =
      let same : db ≡ db' = ground (arith, h) in subst (Adds db) same (Adds-refl db)
  pair_with-Adds r (other ∷ others) db {n} {db'} h =
      let (x, s, p, h1) = bind-eq-ok (get_pair (ordered r.id other)) _ db h in
      let (y, t, q, h2) = bind-eq-ok (compare_pair u ratio x.0) _ s h1 in
      let (m, v, z, h3) = bind-eq-ok (pair_with u ratio r others) _ t h2 in
      let same : v ≡ db' = ground (arith, h3) in
      Adds-trans db s db' (get_pair-Adds (ordered r.id other) db p) (
        Adds-trans s t db' (compare_pair-Adds u ratio x.0 s q)
          (subst (Adds t) same (pair_with-Adds r others t z)))

  generate_for-Adds :
      (distance : Text → Text → ℕ) (k : ℕ) (rs : List SourceRecord) (db : Db) {n : ℕ} {db' : Db}
      → generate_for u ratio distance k rs db ≡ ok (n, db')
      → Adds db db'
  unfolding generate_for
  generate_for-Adds distance k [] db {n} {db'} h =
      let same : db ≡ db' = ground (arith, h) in subst (Adds db) same (Adds-refl db)
  generate_for-Adds distance k (r ∷ rs) db {n} {db'} h =
      let (ids, s, p, h1) = bind-eq-ok (candidate_ids distance r k) _ db h in
      let (x, t, q, h2) = bind-eq-ok (pair_with u ratio r ids) _ s h1 in
      let (m, v, z, h3) = bind-eq-ok (generate_for u ratio distance k rs) _ t h2 in
      let same : v ≡ db' = ground (arith, h3) in
      let start =
        subst (λ (d : Db). Adds db d) (sym (candidate_ids-eq-ok distance r k db p))
          (Adds-refl db) in
      Adds-trans db s db' start (
        Adds-trans s t db' (pair_with-Adds r ids s q)
          (subst (Adds t) same (generate_for-Adds distance k rs t z)))

  generate_candidates-Adds :
      (distance : Text → Text → ℕ) (k : ℕ) (db : Db) {n : ℕ} {db' : Db}
      → generate_candidates u ratio distance k db ≡ ok (n, db')
      → Adds db db'
  unfolding generate_candidates
  generate_candidates-Adds distance k db h =
      let (bounded, h1) = check-eq-ok (not (leb 1 k && leb k 200)) invalid_k _ db h in
      generate_for-Adds distance k (order_by_id db.records) db h1

abbrev pub empty_db : Db
empty_db = record {
  publications = [];
  records = [];
  versions = [];
  pairs = [];
  proposals = [];
  decisions = [];
  memberships = [];
  next_id = 1;
}

module _ (u : Unicode) (ratio distance : Text → Text → ℕ) (hash_content : Json → Fields → ℕ)
    (sha256 : Payload → ℕ) where
  -- What any sequence of the operations makes of the empty database. An operation that fails changes
  -- nothing.
  pub data Reachable : Db → Type 0 where
    start : Reachable empty_db
    ingested :
        (provider : String) (external_id : Text) (raw : Json) (given : Option Fields) {db db' : Db}
        {x : SourceRecord × Ingested}
        → Reachable db
        → ingest_record u ratio hash_content provider external_id raw given db ≡ ok (x, db')
        → Reachable db'
    compared :
        (pk : ℕ) {db db' : Db} {x : MatchProposal}
        → Reachable db
        → compare_pair u ratio pk db ≡ ok (x, db')
        → Reachable db'
    generated :
        (k : ℕ) {db db' : Db} {x : ℕ}
        → Reachable db
        → generate_candidates u ratio distance k db ≡ ok (x, db')
        → Reachable db'
    decided :
        (pk : ℕ) (word actor reason : Text) (expected : Option ℕ) (key : Text) (now : ℕ)
        {db db' : Db} {x : ReviewDecision}
        → Reachable db
        → decide sha256 pk word actor reason expected key now db ≡ ok (x, db')
        → Reachable db'
    withdrawn :
        (pk : ℕ) (actor reason : Text) (expected : Option ℕ) (key : Text) (now : ℕ) {db db' : Db}
        {x : ReviewDecision}
        → Reachable db
        → withdraw sha256 pk actor reason expected key now db ≡ ok (x, db')
        → Reachable db'

  empty-IsConsistent : IsConsistent empty_db
  unfolding pub_of
  empty-IsConsistent = record {
    distinct = tt;
    bounded = λ a p h. cc;
    decisions = tt;
    decided = tt;
    accepted = λ a b h. elim h.listed [ ];
    rejected = λ a b h. elim h.listed [ ];
    connected = λ a b p h k. cc;
  }

  empty-IsGrounded : IsGrounded empty_db
  unfolding pub_of
  empty-IsGrounded = record { paired = tt; known = λ a h. cc }

  extended_both :
      (old new : Db)
      → IsConsistent old × IsGrounded old
      → Extends old new
      → IsConsistent new × IsGrounded new
  extended_both old new h x =
      (extended-IsConsistent old new h.0 h.1 x, extended-IsGrounded old new h.0 h.1 x)

  reachable_both : {db : Db} → Reachable db → IsConsistent db × IsGrounded db
  reachable_both start = (empty-IsConsistent, empty-IsGrounded)
  reachable_both (ingested provider external_id raw given {db} {db'} r h) =
      let both = reachable_both r in
      extended_both db db' both (
        ingest_record-Extends u ratio hash_content provider external_id raw given db both.1
          both.0.distinct h)
  reachable_both (compared pk {db} {db'} r h) =
      extended_both db db' (reachable_both r)
        (Adds-Extends db db' (compare_pair-Adds u ratio pk db h))
  reachable_both (generated k {db} {db'} r h) =
      extended_both db db' (reachable_both r)
        (Adds-Extends db db' (generate_candidates-Adds u ratio distance k db h))
  reachable_both (decided pk word actor reason expected key now {db} {db'} r h) =
      let both = reachable_both r in
      (
        decide-IsConsistent sha256 pk word actor reason expected key now db both.0 h,
        decide-IsGrounded sha256 pk word actor reason expected key now db both.1 h,
      )
  reachable_both (withdrawn pk actor reason expected key now {db} {db'} r h) =
      let both = reachable_both r in
      (
        withdraw-IsConsistent sha256 pk actor reason expected key now db both.0 h,
        withdraw-IsGrounded sha256 pk actor reason expected key now db both.1 h,
      )

  -- Whatever records are ingested, compared, paired, decided on and withdrawn, in any order, from
  -- the empty database: records that an active decision accepts as one are in one publication,
  -- records that one rejects are in two, and the records of a publication are connected by accepted pairs.
  pub reachable-IsConsistent : {db : Db} → Reachable db → IsConsistent db
  reachable-IsConsistent r = (reachable_both r).0
