-- ===== src/Records/Services/Reviews/Stale.antt =====
-- A request that was made on an older state of a pair.
use mathlib.Core.Path.{subst}
use research_desk.Prelude.{
  ℕ, ◌+◌, ◌≤◌, ◌<◌, ◌≡◌, refl, sym, ◌∙◌, true, false, not, ◌||◌, Option, none, some, List, [], ◌∷◌,
  Text, ◌==◌, arith, Bool-cases, inl, inr, ap, strip,
}
use research_desk.Table.{find_where, find_row, find_row-set_self, key-find_row}
use research_desk.Transactions.{
  ok, err, bind-eq-ok, found-eq-ok, found-step, bind-step, check-fails,
}
use research_desk.Records.Models.{
  Db, Action, CandidatePair, SourceRecord, ReviewDecision, by_decision, source_id, pair_id,
  find_pair, find_record,
}
use research_desk.Records.Sets.{member, set_of}
use research_desk.Records.Services.Regroup.{regroup}
use research_desk.Records.Services.{missing, invalid_action, stale_revision, bump_pairs, is_accept}
use research_desk.Records.Services.Checks.{
  Payload, decide_payload, choice, idempotent, is_no_key, has_key, eq_revision,
}
use research_desk.Records.Services.Reviews.{decide, decide_new, prior_or, state_after}
use research_desk.Records.Services.Reviews.Success.{decide_new-IsDecided, with_decision}
use research_desk.Records.Services.Reviews.Again.{idempotent-eq-ok}
use research_desk.Records.Services.Reviews.Stored.{pub_of-find_row}
use research_desk.Records.Services.Regroup.Assigned.{pub_of}
use research_desk.Records.Services.Regroup.Publications.{is_found}
use research_desk.Records.Services.Regroup.Stays.{regroup-IsRemade}

-- A pair of a later revision, with its records.
record IsNewer (db : Db) (pk revision : ℕ) : Type 0 where
  pair : CandidatePair
  found : find_pair db pk ≡ some pair
  newer : revision < pair.revision
  left : SourceRecord
  found_left : find_record db pair.left ≡ some left
  right : SourceRecord
  found_right : find_record db pair.right ≡ some right

find_row-found :
    (a : ℕ) (rs : List SourceRecord)
    → is_found (pub_of a rs) ≡ true
    → (r : SourceRecord) × (find_row source_id a rs ≡ some r)
unfolding find_row pub_of
find_row-found a [] h = cc
find_row-found a (x ∷ rs) h = elim (Bool-cases (x.id == a)) [
  | inl e ↦ (x, rw e refl)
  | inr e ↦ let (r, f) = find_row-found a rs (rw e at h) in (r, rw e f)
]

pub find_row-bump_pairs :
    (ids : List ℕ) (pk : ℕ) (ps : List CandidatePair) {p : CandidatePair}
    → find_row pair_id pk ps ≡ some p
    → (q : CandidatePair) × (find_row pair_id pk (bump_pairs ids ps) ≡ some q)
      × (p.revision ≤ q.revision)
      × (q.left ≡ p.left)
      × (q.right ≡ p.right)
unfolding find_row bump_pairs
find_row-bump_pairs ids pk [] h = cc
find_row-bump_pairs ids pk (x ∷ ps) {p} h = elim (Bool-cases (x.id == pk)) [
  | inr e ↦
      let (q, f, le, l, g) = find_row-bump_pairs ids pk ps (rw e at h) in
      elim (Bool-cases (member x.left ids || member x.right ids)) [
        | inl c ↦ (q, rw (c, e) f, le, l, g)
        | inr c ↦ (q, rw (c, e) f, le, l, g)
      ]
  | inl e ↦
      let same : ◌≡◌ {A = Option CandidatePair} (some x) (some p) = rw e at h in
      let here : x ≡ p = ground (arith, same) in
      elim (Bool-cases (member x.left ids || member x.right ids)) [
        | inl c ↦ (
          record x { revision = x.revision + 1 },
          rw (c, e) refl,
          subst (λ (y : CandidatePair). y.revision ≤ x.revision + 1) here (omega arith),
          ap (λ (y : CandidatePair). y.left) here,
          ap (λ (y : CandidatePair). y.right) here,
        )
        | inr c ↦ (
          x,
          rw (c, e) refl,
          subst (λ (y : CandidatePair). y.revision ≤ x.revision) here (omega arith),
          ap (λ (y : CandidatePair). y.left) here,
          ap (λ (y : CandidatePair). y.right) here,
        )
      ]
]

record_there :
    (db db' : Db) (a : ℕ) {r : SourceRecord}
    → is_found (pub_of a db'.records) ≡ is_found (pub_of a db.records)
    → find_record db a ≡ some r
    → (x : SourceRecord) × (find_record db' a ≡ some x)
record_there db db' a {r} e h =
    find_row-found a db'.records (e ∙ ap is_found (pub_of-find_row a db.records h))

module _ (sha256 : Payload → ℕ) (pk : ℕ) (action : Action) (actor reason : Text)
    (expected : Option ℕ) (key : Text) (digest now : ℕ) (db : Db) where
  decide_new-IsNewer :
      {d : ReviewDecision} {db' : Db}
      → decide_new sha256 pk action actor reason expected key digest now db ≡ ok (d, db')
      → (revision : ℕ) × (eq_revision expected revision ≡ true) × IsNewer db' pk revision
  decide_new-IsNewer {d} {db'} h =
      let s = decide_new-IsDecided sha256 pk action actor reason expected key digest now db h in
      let saved : CandidatePair = record s.pair {
        state = state_after action;
        revision = s.pair.revision + 1;
      } in
      let new = with_decision d saved db in
      let there =
        find_row-set_self pair_id pk saved db.pairs s.found
          (key-find_row pair_id pk db.pairs s.found) in
      (
        s.pair.revision,
        s.current,
        elim (Bool-cases (is_accept action)) [
          | inr e ↦
              let unmade : db' ≡ new = s.stored ∙ rw e refl in
              subst (λ (t : Db). IsNewer t pk s.pair.revision) (sym unmade)
                (record {
                  pair = saved;
                  found = there;
                  newer = omega arith;
                  left = s.left;
                  found_left = s.found_left;
                  right = s.right;
                  found_right = s.found_right;
                })
          | inl e ↦
              let pubs = set_of (s.left.publication ∷ s.right.publication ∷ []) in
              let made : db' ≡ regroup pubs (by_decision d.id) now new = s.stored ∙ rw e refl in
              let r = regroup-IsRemade pubs (by_decision d.id) now new in
              let (q, f, le, l, g) = find_row-bump_pairs r.bumped pk new.pairs there in
              let (x, fx) =
                record_there db (regroup pubs (by_decision d.id) now new) s.pair.left
                  (r.there s.pair.left) s.found_left in
              let (y, fy) =
                record_there db (regroup pubs (by_decision d.id) now new) s.pair.right
                  (r.there s.pair.right) s.found_right in
              subst (λ (t : Db). IsNewer t pk s.pair.revision) (sym made)
                (record {
                  pair = q;
                  found = ap (find_row pair_id pk) r.pairs ∙ f;
                  newer = omega (arith, le);
                  left = x;
                  found_left =
                      ap (λ (i : ℕ). find_record (regroup pubs (by_decision d.id) now new) i) l
                      ∙ fx;
                  right = y;
                  found_right =
                      ap (λ (i : ℕ). find_record (regroup pubs (by_decision d.id) now new) i) g
                      ∙ fy;
                })
        ],
      )

-- A request that expects an older revision is refused.
decide_new-stale :
    (sha256 : Payload → ℕ) (pk : ℕ) (action : Action) (actor reason : Text) (expected : Option ℕ)
    (key : Text) (digest now revision : ℕ) (db : Db)
    → eq_revision expected revision ≡ true
    → IsNewer db pk revision
    → decide_new sha256 pk action actor reason expected key digest now db ≡ err stale_revision
unfolding decide_new
decide_new-stale sha256 pk action actor reason expected key digest now revision db e h =
    found-step (find_pair db pk) missing _ db h.found
    ∙ found-step (find_record db h.pair.left) missing _ db h.found_left
    ∙ found-step (find_record db h.pair.right) missing _ db h.found_right
    ∙ check-fails (not (eq_revision expected h.pair.revision)) stale_revision _ db
        (outdated expected e)
  where
    outdated :
        (o : Option ℕ) → eq_revision o revision ≡ true → not (eq_revision o h.pair.revision) ≡ true
    outdated none k = cc
    outdated (some x) k = ground (arith, k, h.newer)

-- A key that was not used yet.
idempotent-unused :
    (actor key : Text) (digest : ℕ) (db : Db)
    → is_no_key key ≡ false
    → find_where (has_key actor key) db.decisions ≡ none
    → idempotent actor key digest db ≡ ok (none, db)
unfolding idempotent
idempotent-unused actor key digest db v f = rw (v, f) refl

-- Of two decisions on a pair that were made on one revision of it, the second is refused, whoever
-- makes it: it changes nothing and its error says that the revision is stale. Both decisions are new,
-- that is, their keys were not used before.
pub decide-stale :
    (sha256 : Payload → ℕ) (pk : ℕ) (word actor reason : Text) (expected : Option ℕ) (key : Text)
    (now : ℕ) (word' actor' reason' key' : Text) (later : ℕ) (db : Db) {d : ReviewDecision}
    {db' : Db} {action' : Action}
    → decide sha256 pk word actor reason expected key now db ≡ ok (d, db')
    → find_where (has_key actor key) db.decisions ≡ none
    → choice word' ≡ some action'
    → is_no_key key' ≡ false
    → find_where (has_key actor' key') db'.decisions ≡ none
    → decide sha256 pk word' actor' reason' expected key' later db' ≡ err stale_revision
unfolding decide
decide-stale sha256 pk word actor reason expected key now word' actor' reason' key' later db {d}
      {db'} {action'} h unused w' v' unused' =
    let (action, w, h1) = found-eq-ok (choice word) invalid_action _ db h in
    let digest = sha256 (decide_payload pk action (strip reason) expected) in
    let digest' = sha256 (decide_payload pk action' (strip reason') expected) in
    let (prior, s, p, h2) = bind-eq-ok (idempotent actor key digest) _ db h1 in
    let (valid, same_hash, found, same) = idempotent-eq-ok actor key digest db p in
    let k =
      subst
        (λ (t : Db).
          prior_or prior (decide_new sha256 pk action actor (strip reason) expected key digest now)
            t
          ≡ ok (d, db'))
        same h2 in
    let first =
      subst
        (λ (o : Option ReviewDecision).
          prior_or o (decide_new sha256 pk action actor (strip reason) expected key digest now) db
          ≡ ok (d, db'))
        (found ∙ unused) k in
    let (revision, e, newer) =
      decide_new-IsNewer sha256 pk action actor (strip reason) expected key digest now db first in
    found-step (choice word') invalid_action _ db' w'
    ∙ bind-step (idempotent actor' key' digest') _ db'
        (idempotent-unused actor' key' digest' db' v' unused')
    ∙ decide_new-stale sha256 pk action' actor' (strip reason') expected key' digest' later revision
        db' e newer
