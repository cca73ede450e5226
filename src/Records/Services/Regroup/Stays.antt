-- ===== src/Records/Services/Regroup/Stays.antt =====
-- What `_regroup` keeps, whichever the publications are.
use mathlib.Core.Path.{subst}
use research_desk.Prelude.{
  ℕ, ◌+◌, ◌≤◌, ◌<◌, ◌≡◌, refl, sym, ◌∙◌, Bool, true, false, Option, none, some, List, [], ◌∷◌,
  if◌then◌else◌, arith, Bool-cases, Option-cases, inl, inr, ap,
}
use research_desk.Records.Models.{Db, SourceRecord, Origin}
use research_desk.Records.Sets.{member, set_of}
use research_desk.Records.Services.{records_of, record_ids, bump_pairs, links}
use research_desk.Records.Services.Components.{Groups, components}
use research_desk.Records.Services.Regroup.{
  old_groups, settle, settle_group, existing, move_records, regroup, bump_all,
}
use research_desk.Records.Services.Regroup.Frame.{Keeps, KeepsAll, retire-KeepsAll}
use research_desk.Records.Services.Regroup.Assigned.{
  pub_of, moved, pub_of-move_records, settle_group-existing, settle_group-new, Founds,
}
use research_desk.Records.Services.Regroup.Publications.{is_found, DistinctIds, Bounded}

-- What each step of the loop keeps.
pub record Stays (db db' : Db) : Type 0 where
  pub kept : Keeps db db'
  pub grows : db.next_id ≤ db'.next_id
  pub distinct : DistinctIds db.records → DistinctIds db'.records
  pub bounded : Bounded db → Bounded db'
  pub there : (a : ℕ) → is_found (pub_of a db'.records) ≡ is_found (pub_of a db.records)

Stays-refl : (db : Db) → Stays db db
Stays-refl db = record {
  kept = record { decisions = refl; pairs = refl };
  grows = omega arith;
  distinct = λ h. h;
  bounded = λ h. h;
  there = λ a. refl;
}

Stays-trans : (a b c : Db) → Stays a b → Stays b c → Stays a c
Stays-trans a b c h k = record {
  kept = record {
    decisions = k.kept.decisions ∙ h.kept.decisions;
    pairs = k.kept.pairs ∙ h.kept.pairs;
  };
  grows = omega (arith, h.grows, k.grows);
  distinct = λ d. k.distinct (h.distinct d);
  bounded = λ d. k.bounded (h.bounded d);
  there = λ a. k.there a ∙ h.there a;
}

pub KeepsAll-Stays : (db db' : Db) → KeepsAll db db' → Stays db db'
KeepsAll-Stays db db' k = record {
  kept = k.kept;
  grows = omega (arith, k.next_id);
  distinct = subst DistinctIds (sym k.records);
  bounded = λ b a p h.
      let below = b a p (subst (λ (rs : List SourceRecord). pub_of a rs ≡ some p) k.records h) in
      omega (arith, below, k.next_id);
  there = λ a. ap (λ (rs : List SourceRecord). is_found (pub_of a rs)) k.records;
}

move_records-DistinctIds :
    (g : List ℕ) (q : ℕ) (rs : List SourceRecord)
    → DistinctIds rs
    → DistinctIds (move_records g q rs)
unfolding move_records
move_records-DistinctIds g q [] d = tt
move_records-DistinctIds g q (r ∷ rs) d = elim (Bool-cases (member r.id g)) [
  | inl e ↦ rw e (gone r.id d.0, move_records-DistinctIds g q rs d.1)
  | inr e ↦ rw e (gone r.id d.0, move_records-DistinctIds g q rs d.1)
]
  where
    gone : (a : ℕ) → pub_of a rs ≡ none → pub_of a (move_records g q rs) ≡ none
    gone a h = rw (pub_of-move_records a g q rs, h) (ground arith)

Founds-Stays : (g : List ℕ) (db db' : Db) → Founds g db db' → Stays db db'
Founds-Stays g db db' k = record {
  kept = k.kept;
  grows = omega (arith, k.next_id);
  distinct =
      λ d. subst DistinctIds (sym k.records) (move_records-DistinctIds g db.next_id db.records d);
  bounded = λ b a p h.
      let same =
        sym (pub_of-move_records a g db.next_id db.records)
        ∙ subst (λ (rs : List SourceRecord). pub_of a rs ≡ some p) k.records h in
      let below = moved_below a (pub_of a db.records) p (b a) same in
      omega (arith, below, k.next_id);
  there = λ a.
      ap (λ (rs : List SourceRecord). is_found (pub_of a rs)) k.records
      ∙ ap is_found (pub_of-move_records a g db.next_id db.records)
      ∙ found_moved (member a g) (pub_of a db.records);
}
  where
    found_moved :
        (c : Bool) (o : Option ℕ)
        → is_found (if c then moved (some db.next_id) o else o) ≡ is_found o
    found_moved true none = refl
    found_moved true (some q) = refl
    found_moved false o = refl

    moved_below :
        (a : ℕ) (o : Option ℕ) (p : ℕ)
        → ((q : ℕ) → o ≡ some q → q < db.next_id)
        → (if member a g then moved (some db.next_id) o else o) ≡ some p
        → p < db.next_id + 1
    moved_below a none p b h = ground (arith, h)
    moved_below a (some q) p b h = ground (arith, h, b q refl)

module _ (origin : Origin) (now : ℕ) (old : Groups) where
  pub settle-Stays :
      (gs : List (List ℕ)) (mapping : List (ℕ × ℕ)) (db : Db)
      → Stays db (settle origin now old gs (mapping, db)).1
  unfolding settle
  settle-Stays [] mapping db = Stays-refl db
  settle-Stays (g ∷ gs) mapping db =
      let s = settle_group origin now old g (mapping, db) in
      Stays-trans db s.1 _
        (elim (Option-cases (existing g old)) [
          | inr (pk, e) ↦
              KeepsAll-Stays db s.1 (settle_group-existing origin now old g mapping db pk e)
          | inl e ↦ Founds-Stays g db s.1 (settle_group-new origin now old g mapping db e)
        ])
        (settle-Stays gs s.0 s.1)

-- The decisions stay, the revisions of pairs grow, and no record is lost.
pub record IsRemade (db db' : Db) : Type 0 where
  pub decisions : db'.decisions ≡ db.decisions
  pub grows : db.next_id ≤ db'.next_id
  pub bumped : List ℕ
  pub pairs : db'.pairs ≡ bump_pairs bumped db.pairs
  pub there : (a : ℕ) → is_found (pub_of a db'.records) ≡ is_found (pub_of a db.records)

pub regroup-IsRemade :
    (pubs : List ℕ) (origin : Origin) (now : ℕ) (db : Db) → IsRemade db (regroup pubs origin now db)
unfolding regroup
regroup-IsRemade pubs origin now db =
    let rs = records_of pubs db.records in
    let ids = set_of (record_ids rs) in
    let old = old_groups rs pubs in
    let gs = components ids (links db none) in
    let s = settle origin now old gs ([], bump_all ids db) in
    let k = KeepsAll-Stays s.1 _ (retire-KeepsAll s.0 old s.1) in
    let h =
      Stays-trans (bump_all ids db) s.1 _ (settle-Stays origin now old gs [] (bump_all ids db)) k in
    record {
      decisions = h.kept.decisions;
      grows = h.grows;
      bumped = ids;
      pairs = h.kept.pairs;
      there = h.there;
    }
