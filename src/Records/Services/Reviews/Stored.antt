-- ===== src/Records/Services/Reviews/Stored.antt =====
-- The state with a new decision and its pair: which decisions are active in it.
use mathlib.Core.List.{Memᴰ}
use mathlib.Core.Path.{subst}
use research_desk.Prelude.{
  ℕ, ◌<◌, ◌≡◌, refl, sym, ◌∙◌, Bool, true, false, Option, none, some, List, [], ◌∷◌, ◌==◌, arith,
  Bool-cases, inl, inr, All, All-map, ap, ◌⊎◌,
}
use research_desk.Table.{
  find_row, set_row, Distinct, find_row-set_self, find_row-set_ne, key-find_row,
}
use research_desk.Records.Models.{
  Db, Action, CandidatePair, SourceRecord, ReviewDecision, PairState, pair_id, source_id,
  decision_id, find_pair,
}
use research_desk.Records.Services.{endpoints, withdraws}
use research_desk.Records.Services.Regroup.Assigned.{pub_of}
use research_desk.Records.Services.Reviews.Success.{with_decision}
use research_desk.Records.Services.Reviews.Consistent.{IsDecided, IsConsistent}
use research_desk.Records.Services.Reviews.Steps.{AreUsed}

pub pub_of-find_row :
    (a : ℕ) (rs : List SourceRecord) {r : SourceRecord}
    → find_row source_id a rs ≡ some r
    → pub_of a rs ≡ some r.publication
unfolding find_row pub_of
pub_of-find_row a [] h = cc
pub_of-find_row a (x ∷ rs) {r} h = elim (Bool-cases (x.id == a)) [
  | inl e ↦
      let same : ◌≡◌ {A = Option SourceRecord} (some x) (some r) = rw e at h in
      rw e (
        ap (λ (o : Option SourceRecord). elim o [ none ↦ none | some y ↦ some y.publication ]) same)
  | inr e ↦ rw e (pub_of-find_row a rs (rw e at h))
]

-- What is saved of a pair does not change its records.
pub endpoints-set_row :
    (ps : List CandidatePair) (pair : CandidatePair) (state : PairState) (revision pk j : ℕ)
    → find_row pair_id pk ps ≡ some pair
    → endpoints (
        find_row pair_id j
          (set_row pair_id (record pair { state = state; revision = revision }) ps))
      ≡ endpoints (find_row pair_id j ps)
endpoints-set_row ps pair state revision pk j h =
    let key = key-find_row pair_id pk ps h in
    let saved : CandidatePair = record pair { state = state; revision = revision } in
    elim (Bool-cases (pair.id == j)) [
      | inl e ↦
          let same : pair.id ≡ j = ground (arith, e) in
          let there : find_row pair_id j ps ≡ some pair =
            subst (λ (i : ℕ). find_row pair_id i ps ≡ some pair) (sym key ∙ same) h in
          rw (find_row-set_self pair_id j saved ps there same, there) refl
      | inr e ↦ ap endpoints (find_row-set_ne pair_id j saved ps (λ same. ground (arith, e, same)))
    ]

none_below :
    (n : ℕ) (ds : List ReviewDecision)
    → All (λ (d : ReviewDecision). d.id < n) ds
    → find_row decision_id n ds ≡ none
unfolding find_row
none_below n [] h = refl
none_below n (d ∷ ds) h = ground (arith, h, none_below n ds h.1)

-- A decision that is listed is the one with its id.
pub Memᴰ-find_row :
    (d : ReviewDecision) (ds : List ReviewDecision)
    → Distinct decision_id ds
    → Memᴰ d ds
    → find_row decision_id d.id ds ≡ some d
unfolding find_row
Memᴰ-find_row d [] h m = elim m [ ]
Memᴰ-find_row d (x ∷ ds) h (Memᴰ.head e) =
    let same : (x.id == d.id) ≡ true = ground (arith, ap (λ (y : ReviewDecision). y.id) e) in
    rw same (ap some (sym e))
Memᴰ-find_row d (x ∷ ds) h (Memᴰ.tail m) =
    let there = Memᴰ-find_row d ds h.1 m in
    elim (Bool-cases (x.id == d.id)) [
      | inr e ↦ rw e there
      | inl e ↦
          let same : d.id ≡ x.id = ground (arith, e) in
          let two = subst (λ (i : ℕ). find_row decision_id i ds ≡ some d) same there in
          ground (arith, two, h.0)
    ]

module _ (db : Db) (d : ReviewDecision) (pair : CandidatePair) (state : PairState) (revision pk : ℕ)
    (found : find_pair db pk ≡ some pair) where
  abbrev pub stored : Db
  stored = with_decision d (record pair { state = state; revision = revision }) db

  pub stored-AreUsed : IsConsistent db → d.id ≡ db.next_id → AreUsed stored
  stored-AreUsed c e = record {
    decisions = (rw e (none_below db.next_id db.decisions c.decided), c.decisions);
    decided = (
      omega (arith, e),
      All-map (λ (x : ReviewDecision). x.id < db.next_id) (λ x h. omega (arith, h)) db.decisions
          c.decided,
    );
  }

  module _ (kind : Action → Bool) (a b : ℕ) where
    pub stored-IsDecided :
        IsDecided kind stored a b
        → ((kind d.action ≡ true) × (endpoints (find_pair db d.pair) ≡ (a, b)))
          ⊎ IsDecided kind db a b
    stored-IsDecided h = elim h.listed [
      | Memᴰ.head e ↦
          let about =
            sym (endpoints-set_row db.pairs pair state revision pk h.decision.pair found)
            ∙ h.ends in
          inl (
            subst (λ (y : ReviewDecision). kind y.action ≡ true) e h.kind_of,
            subst (λ (y : ReviewDecision). endpoints (find_pair db y.pair) ≡ (a, b)) e about,
          )
      | Memᴰ.tail m ↦ inr (record {
        decision = h.decision;
        listed = m;
        active = ground (arith, h.active);
        kind_of = h.kind_of;
        ends =
            sym (endpoints-set_row db.pairs pair state revision pk h.decision.pair found) ∙ h.ends;
      })
    ]

    -- A decision that is not withdrawn stays active.
    pub IsDecided-stored :
        (h : IsDecided kind db a b) → withdraws h.decision.id d ≡ false → IsDecided kind stored a b
    IsDecided-stored h w = record {
      decision = h.decision;
      listed = Memᴰ.tail h.listed;
      active = ground (arith, h.active, w);
      kind_of = h.kind_of;
      ends = endpoints-set_row db.pairs pair state revision pk h.decision.pair found ∙ h.ends;
    }
