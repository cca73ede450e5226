-- ===== src/Records/Services/Reviews/Consistent.antt =====
-- The state that the review keeps: publications and active decisions agree.
use mathlib.Core.List.{Memᴰ}
use mathlib.Core.Path.{subst}
use research_desk.Prelude.{
  ℕ, ◌<◌, ◌≡◌, ◌≢◌, refl, sym, Bool, true, false, not, ◌&&◌, none, some, List, [], ◌∷◌,
  if◌then◌else◌, arith, inl, inr, All, ap, ◌⊎◌,
}
use research_desk.Table.{Distinct}
use research_desk.Records.Models.{Db, Action, ReviewDecision, decision_id, find_pair}
use research_desk.Records.Services.{
  links, links_among, endpoints, is_active, is_accept, is_reject, is_excluded, record_ids,
}
use research_desk.Records.Services.Components.Connected.{Linked}
use research_desk.Records.Services.Regroup.Assigned.{pub_of}
use research_desk.Records.Services.Regroup.Publications.{DistinctIds, Bounded}

-- An active decision of a kind is about the records `a` and `b`.
pub record IsDecided (kind : Action → Bool) (db : Db) (a b : ℕ) : Type 0 where
  pub decision : ReviewDecision
  pub listed : Memᴰ decision db.decisions
  pub active : is_active db.decisions decision ≡ true
  pub kind_of : kind decision.action ≡ true
  pub ends : endpoints (find_pair db decision.pair) ≡ (a, b)

abbrev pub IsAccepted : Db → ℕ → ℕ → Type 0
IsAccepted = IsDecided is_accept

abbrev pub IsRejected : Db → ℕ → ℕ → Type 0
IsRejected = IsDecided is_reject

-- Records that an active decision accepts as one are in one publication, records that one rejects
-- are not, and records of one publication are connected by accepted pairs. Ids are in use once.
pub record IsConsistent (db : Db) : Type 0 where
  pub distinct : DistinctIds db.records
  pub bounded : Bounded db
  pub decisions : Distinct decision_id db.decisions
  pub decided : All (λ (d : ReviewDecision). d.id < db.next_id) db.decisions
  pub accepted : (a b : ℕ) → IsAccepted db a b → pub_of a db.records ≡ pub_of b db.records
  pub rejected : (a b : ℕ) → IsRejected db a b → pub_of a db.records ≢ pub_of b db.records
  pub connected :
      (a b p : ℕ)
      → pub_of a db.records ≡ some p
      → pub_of b db.records ≡ some p
      → Linked (record_ids db.records) (links db none) a b

-- The links are the pairs that active decisions accept.
take_if :
    {A : Type 0} {x y : A} {xs : List A} (c : Bool)
    → Memᴰ x (if c then y ∷ xs else xs)
    → ((c ≡ true) × (x ≡ y)) ⊎ Memᴰ x xs
take_if true (Memᴰ.head e) = inl (refl, e)
take_if true (Memᴰ.tail m) = inr m
take_if false m = inr m

links_among-IsAccepted :
    (db : Db) (ds : List ReviewDecision) (a b : ℕ)
    → ((d : ReviewDecision) → Memᴰ d ds → Memᴰ d db.decisions)
    → Memᴰ (a, b) (links_among db none db.decisions ds)
    → IsAccepted db a b
unfolding links_among
links_among-IsAccepted db [] a b f m = elim m [ ]
links_among-IsAccepted db (d ∷ ds) a b f m =
    elim (take_if (is_active db.decisions d && is_accept d.action && not (is_excluded none d)) m) [
      | inl (e, x) ↦ record {
        decision = d;
        listed = f d (Memᴰ.head refl);
        active = ground (arith, e);
        kind_of = ground (arith, e);
        ends = sym x;
      }
      | inr i ↦ links_among-IsAccepted db ds a b (λ y j. f y (Memᴰ.tail j)) i
    ]

pub links-IsAccepted : (db : Db) (a b : ℕ) → Memᴰ (a, b) (links db none) → IsAccepted db a b
unfolding links
links-IsAccepted db a b m = links_among-IsAccepted db db.decisions a b (λ d i. i) m

IsAccepted-links_among :
    (db : Db) (ds : List ReviewDecision) (d : ReviewDecision)
    → Memᴰ d ds
    → is_active db.decisions d ≡ true
    → is_accept d.action ≡ true
    → Memᴰ (endpoints (find_pair db d.pair)) (links_among db none db.decisions ds)
unfolding links_among
IsAccepted-links_among db [] d m p q = elim m [ ]
IsAccepted-links_among db (x ∷ ds) d (Memᴰ.head e) p q =
    let first : (is_active db.decisions x && is_accept x.action && not (is_excluded none x))
        ≡ true =
      ground (
        arith,
        subst (λ (y : ReviewDecision). is_active db.decisions y ≡ true) e p,
        subst (λ (y : ReviewDecision). is_accept y.action ≡ true) e q,
      ) in
    rw first (Memᴰ.head (ap (λ (y : ReviewDecision). endpoints (find_pair db y.pair)) e))
IsAccepted-links_among db (x ∷ ds) d (Memᴰ.tail m) p q =
    later (is_active db.decisions x && is_accept x.action && not (is_excluded none x))
      (endpoints (find_pair db x.pair)) (links_among db none db.decisions ds)
      (IsAccepted-links_among db ds d m p q)
  where
    later :
        {e : ℕ × ℕ} (c : Bool) (y : ℕ × ℕ) (es : List (ℕ × ℕ))
        → Memᴰ e es
        → Memᴰ e (if c then y ∷ es else es)
    later true y es i = Memᴰ.tail i
    later false y es i = i

pub IsAccepted-links : (db : Db) (a b : ℕ) → IsAccepted db a b → Memᴰ (a, b) (links db none)
unfolding links
IsAccepted-links db a b h =
    subst (λ (e : ℕ × ℕ). Memᴰ e (links_among db none db.decisions db.decisions)) h.ends
      (IsAccepted-links_among db db.decisions h.decision h.listed h.active h.kind_of)
