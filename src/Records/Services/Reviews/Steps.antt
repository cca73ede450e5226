-- ===== src/Records/Services/Reviews/Steps.antt =====
-- The two ways in which a review changes the state: decisions that leave the publications as they are,
-- and decisions after which the publications are made again.
use mathlib.Core.List.{Memᴰ}
use mathlib.Core.Path.{subst}
use research_desk.Prelude.{
  ℕ, ◌≤◌, ◌<◌, ◌≡◌, ◌≢◌, refl, sym, ◌∙◌, Bool, true, false, ◌&&◌, none, some, List, arith,
  Bool-cases, inl, inr, All, All-map, ap, ◌⊎◌,
}
use research_desk.Table.{Distinct}
use research_desk.Records.Models.{Db, Action, ReviewDecision, SourceRecord, Origin, decision_id}
use research_desk.Records.Sets.{member}
use research_desk.Records.Services.{links, is_active, is_accept, is_reject, record_ids}
use research_desk.Records.Services.Components.Connected.{Linked, self, link, back, joined}
use research_desk.Records.Services.Regroup.{regroup}
use research_desk.Records.Services.Regroup.Assigned.{pub_of}
use research_desk.Records.Services.Regroup.Publications.{
  in_pubs, is_found, DistinctIds, Bounded, member-ids, member-record_ids, affected,
}
use research_desk.Records.Services.Regroup.Regrouped.{IsRegrouped, regroup-IsRegrouped}
use research_desk.Records.Services.Reviews.Consistent.{
  IsDecided, IsAccepted, IsRejected, IsConsistent, links-IsAccepted, IsAccepted-links,
}

-- Links through more records and more pairs.
pub Linked-weaken :
    (ids ids' : List ℕ) (es es' : List (ℕ × ℕ))
    → ((a : ℕ) → member a ids ≡ true → member a ids' ≡ true)
    → ((a b : ℕ) → Memᴰ (a, b) es → Memᴰ (a, b) es')
    → {a b : ℕ} → Linked ids es a b
    → Linked ids' es' a b
Linked-weaken ids ids' es es' f g self = self
Linked-weaken ids ids' es es' f g {a} {b} (link m p q) = link (g a b m) (f a p) (f b q)
Linked-weaken ids ids' es es' f g (back h) = back (Linked-weaken ids ids' es es' f g h)
Linked-weaken ids ids' es es' f g (joined h k) =
    joined (Linked-weaken ids ids' es es' f g h) (Linked-weaken ids ids' es es' f g k)

-- The decisions of a state are used once, and have ids already.
pub record AreUsed (db : Db) : Type 0 where
  pub decisions : Distinct decision_id db.decisions
  pub decided : All (λ (d : ReviewDecision). d.id < db.next_id) db.decisions

module _ (old new : Db) (c : IsConsistent old) (records : new.records ≡ old.records)
    (grows : old.next_id ≤ new.next_id) (used : AreUsed new) where
  new_pub_of : (a : ℕ) → pub_of a new.records ≡ pub_of a old.records
  new_pub_of a = ap (pub_of a) records

  new-Bounded : Bounded new
  new-Bounded a p h = omega (arith, c.bounded a p (sym (new_pub_of a) ∙ h), grows)

  -- No publication changes: as many pairs are accepted, and no records of a publication are rejected.
  pub steady-IsConsistent :
      ((a b : ℕ) → IsAccepted new a b → IsAccepted old a b)
      → ((a b : ℕ) → IsAccepted old a b → IsAccepted new a b)
      → ((a b : ℕ) → IsRejected new a b → pub_of a old.records ≢ pub_of b old.records)
      → IsConsistent new
  steady-IsConsistent f g r = record {
    distinct = subst DistinctIds (sym records) c.distinct;
    bounded = new-Bounded;
    decisions = used.decisions;
    decided = used.decided;
    accepted = λ a b h. new_pub_of a ∙ c.accepted a b (f a b h) ∙ sym (new_pub_of b);
    rejected = λ a b h e. r a b h (sym (new_pub_of a) ∙ e ∙ new_pub_of b);
    connected = λ a b p x y.
        Linked-weaken (record_ids old.records) (record_ids new.records) (links old none)
          (links new none)
          (λ i m.
            subst (λ (rs : List SourceRecord). member i (record_ids rs) ≡ true) (sym records) m)
          (λ i j m. IsAccepted-links new i j (g i j (links-IsAccepted old i j m)))
          (c.connected a b p (sym (new_pub_of a) ∙ x) (sym (new_pub_of b) ∙ y));
  }

  module _ (pubs : List ℕ) (bounds : (p : ℕ) → member p pubs ≡ true → p < new.next_id)
      (origin : Origin) (now : ℕ) where
    abbrev within : ℕ → Bool
    within a = in_pubs pubs (pub_of a new.records)

    made : Db
    made = regroup pubs origin now new

    new_distinct : DistinctIds new.records
    new_distinct = subst DistinctIds (sym records) c.distinct

    made-IsRegrouped : IsRegrouped pubs new made new_distinct
    unfolding made
    made-IsRegrouped = regroup-IsRegrouped pubs origin now new new_distinct bounds

    -- The decisions are what they were before the publications were made again.
    IsDecided-made :
        (kind : Action → Bool) (a b : ℕ) → IsDecided kind made a b → IsDecided kind new a b
    IsDecided-made kind a b h =
        let r = made-IsRegrouped in
        record {
          decision = h.decision;
          listed = subst (λ (ds : List ReviewDecision). Memᴰ h.decision ds) r.decisions h.listed;
          active =
              subst (λ (ds : List ReviewDecision). is_active ds h.decision ≡ true) r.decisions
                h.active;
          kind_of = h.kind_of;
          ends = sym (r.same_pairs h.decision.pair) ∙ h.ends;
        }

    made-IsDecided :
        (kind : Action → Bool) (a b : ℕ) → IsDecided kind new a b → IsDecided kind made a b
    made-IsDecided kind a b h =
        let r = made-IsRegrouped in
        record {
          decision = h.decision;
          listed =
              subst (λ (ds : List ReviewDecision). Memᴰ h.decision ds) (sym r.decisions) h.listed;
          active =
              subst (λ (ds : List ReviewDecision). is_active ds h.decision ≡ true) (sym r.decisions)
                h.active;
          kind_of = h.kind_of;
          ends = r.same_pairs h.decision.pair ∙ h.ends;
        }

    -- A record of the publications and another one are apart.
    made_apart :
        (a b : ℕ)
        → within a ≡ true
        → within b ≡ false
        → pub_of a made.records ≢ pub_of b made.records
    made_apart a b h k e =
        let r = made-IsRegrouped in
        let (q, x, y) = r.given a h in
        let there : pub_of b new.records ≡ some q = sym (r.outside b k) ∙ sym e ∙ x in
        elim y [
          | inl le ↦ omega (arith, le, new-Bounded b q there)
          | inr m ↦ let no : true ≡ false = sym m ∙ sym (ap (in_pubs pubs) there) ∙ k in cc
        ]

    module _ (kept : (a b : ℕ) → within a ≡ false → IsAccepted old a b → IsAccepted new a b)
        (added : (a b : ℕ)
          → IsAccepted new a b
          → IsAccepted old a b ⊎ (within a ≡ true) × (within b ≡ true))
        (refused : (a b : ℕ)
          → IsRejected new a b
          → IsRejected old a b × ((within a && within b) ≡ false)) where
      -- Accepted records are within the publications together.
      together : (a b : ℕ) → IsAccepted new a b → within a ≡ within b
      together a b h = elim (added a b h) [
        | inl x ↦ ap (in_pubs pubs) (new_pub_of a ∙ c.accepted a b x ∙ sym (new_pub_of b))
        | inr (x, y) ↦ x ∙ sym y
      ]

      made_accepted : (a b : ℕ) → IsAccepted new a b → pub_of a made.records ≡ pub_of b made.records
      made_accepted a b h =
          let r = made-IsRegrouped in
          elim (Bool-cases (within a)) [
            | inl x ↦
                let y = sym (together a b h) ∙ x in
                (r.inside a b x y).1 (
                  link (IsAccepted-links new a b h) (member-ids a pubs new.records new_distinct ∙ x)
                    (member-ids b pubs new.records new_distinct ∙ y))
            | inr x ↦
                let y = sym (together a b h) ∙ x in
                elim (added a b h) [
                  | inl o ↦
                      r.outside a x
                      ∙ new_pub_of a
                      ∙ c.accepted a b o
                      ∙ sym (new_pub_of b)
                      ∙ sym (r.outside b y)
                  | inr (z, w) ↦ let no : true ≡ false = sym z ∙ x in cc
                ]
          ]

      made_rejected : (a b : ℕ) → IsRejected new a b → pub_of a made.records ≢ pub_of b made.records
      made_rejected a b h e =
          let r = made-IsRegrouped in
          let (o, split) = refused a b h in
          elim (Bool-cases (within a)) [
            | inl x ↦ made_apart a b x (ground (arith, split, x)) e
            | inr x ↦ elim (Bool-cases (within b)) [
              | inl y ↦ made_apart b a y x (sym e)
              | inr y ↦
                  c.rejected a b o
                    (sym (new_pub_of a) ∙ sym (r.outside a x) ∙ e ∙ r.outside b y ∙ new_pub_of b)
            ]
          ]

      Linked-within :
          {a b : ℕ} → Linked (record_ids old.records) (links old none) a b → within a ≡ within b
      Linked-within self = refl
      Linked-within {a} {b} (link m p q) =
          ap (in_pubs pubs)
            (new_pub_of a ∙ c.accepted a b (links-IsAccepted old a b m) ∙ sym (new_pub_of b))
      Linked-within (back h) = sym (Linked-within h)
      Linked-within (joined h k) = Linked-within h ∙ Linked-within k

      -- A record that is in none of the publications stays a record.
      still_there :
          (a : ℕ)
          → within a ≡ false
          → member a (record_ids old.records) ≡ true
          → member a (record_ids made.records) ≡ true
      still_there a x m =
          member-record_ids a made.records
          ∙ ap is_found (made-IsRegrouped.outside a x ∙ new_pub_of a)
          ∙ sym (member-record_ids a old.records)
          ∙ m

      -- A path outside the publications is still there.
      Linked-made :
          {a b : ℕ}
          → Linked (record_ids old.records) (links old none) a b
          → within a ≡ false
          → Linked (record_ids made.records) (links made none) a b
      Linked-made self x = self
      Linked-made {a} {b} (link m p q) x =
          let h = links-IsAccepted old a b m in
          let y = sym (Linked-within (link m p q)) ∙ x in
          link (IsAccepted-links made a b (made-IsDecided is_accept a b (kept a b x h)))
            (still_there a x p) (still_there b y q)
      Linked-made (back h) x = back (Linked-made h (Linked-within h ∙ x))
      Linked-made (joined h k) x =
          joined (Linked-made h x) (Linked-made k (sym (Linked-within h) ∙ x))

      affected_there :
          (a : ℕ)
          → member a (affected pubs new new_distinct) ≡ true
          → member a (record_ids made.records) ≡ true
      affected_there a m =
          let (q, e, y) =
            made-IsRegrouped.given a (sym (member-ids a pubs new.records new_distinct) ∙ m) in
          member-record_ids a made.records ∙ ap is_found e

      made_connected :
          (a b p : ℕ)
          → pub_of a made.records ≡ some p
          → pub_of b made.records ≡ some p
          → Linked (record_ids made.records) (links made none) a b
      made_connected a b p e f =
          let r = made-IsRegrouped in
          elim (Bool-cases (within a)) [
            | inl x ↦ elim (Bool-cases (within b)) [
              | inl y ↦
                  Linked-weaken (affected pubs new new_distinct) (record_ids made.records)
                    (links new none) (links made none) affected_there
                    (λ i j m.
                      IsAccepted-links made i j
                        (made-IsDecided is_accept i j (links-IsAccepted new i j m)))
                    ((r.inside a b x y).0 (e ∙ sym f))
              | inr y ↦ elim (made_apart a b x y (e ∙ sym f)) [ ]
            ]
            | inr x ↦ elim (Bool-cases (within b)) [
              | inl y ↦ elim (made_apart b a y x (f ∙ sym e)) [ ]
              | inr y ↦
                  Linked-made
                    (c.connected a b p (sym (new_pub_of a) ∙ sym (r.outside a x) ∙ e)
                      (sym (new_pub_of b) ∙ sym (r.outside b y) ∙ f))
                    x
            ]
          ]

      -- The publications are made again: what changes is within them, no record is rejected there,
      -- and what is accepted elsewhere stays accepted.
      pub made-IsConsistent : IsConsistent (regroup pubs origin now new)
      unfolding made
      made-IsConsistent =
          let r = made-IsRegrouped in
          record {
            distinct = r.distinct;
            bounded = r.bounded new-Bounded;
            decisions =
                subst (λ (ds : List ReviewDecision). Distinct decision_id ds) (sym r.decisions)
                  used.decisions;
            decided =
                subst
                  (λ (ds : List ReviewDecision).
                    All (λ (d : ReviewDecision). d.id < made.next_id) ds)
                  (sym r.decisions)
                  (All-map (λ (d : ReviewDecision). d.id < new.next_id)
                    (λ d h. omega (arith, h, r.grows)) new.decisions used.decided);
            accepted = λ a b h. made_accepted a b (IsDecided-made is_accept a b h);
            rejected = λ a b h. made_rejected a b (IsDecided-made is_reject a b h);
            connected = made_connected;
          }
