-- ===== src/Records/Services/Regroup/Assigned.antt =====
-- The publication of each record after the loop of `_regroup` over the groups.
use mathlib.Core.List.{Memᴰ}
use mathlib.Core.Path.{subst}
use research_desk.Prelude.{
  ℕ, ◌+◌, ◌≡◌, refl, sym, Bool, true, false, Option, none, some, List, [], ◌∷◌, ◌==◌, if◌then◌else◌,
  arith, Bool-cases, Option-cases, inl, inr, any, All,
}
use research_desk.Records.Models.{Db, SourceRecord, Origin}
use research_desk.Records.Sets.{member}
use research_desk.Records.Services.Components.{Groups}
use research_desk.Records.Services.Regroup.{
  settle, settle_group, existing, found_publication, move_records,
}
use research_desk.Records.Services.Regroup.Frame.{Keeps, KeepsAll, project-KeepsAll}

-- The publication of the record with an id.
unfoldable pub pub_of : ℕ → List SourceRecord → Option ℕ
pub_of a [] = none
pub_of a (r ∷ rs) = if r.id == a then some r.publication else pub_of a rs

-- The publication that the loop gives to the group of a record, if it has one.
unfoldable pub assigned : Groups → List (List ℕ) → ℕ → ℕ → Option ℕ
assigned old [] n a = none
assigned old (g ∷ gs) n a = elim (existing g old) [
  | some pk ↦ if member a g then some pk else assigned old gs n a
  | none ↦ if member a g then some n else assigned old gs (n + 1) a
]

abbrev pub moved : Option ℕ → Option ℕ → Option ℕ
moved none p = p
moved (some q) none = none
moved (some q) (some p) = some q

pub pub_of-move_records :
    (a : ℕ) (g : List ℕ) (q : ℕ) (rs : List SourceRecord)
    → pub_of a (move_records g q rs)
      ≡ (if member a g then moved (some q) (pub_of a rs) else pub_of a rs)
unfolding pub_of move_records
pub_of-move_records a g q [] = ground arith
pub_of-move_records a g q (r ∷ rs) = ground (arith, pub_of-move_records a g q rs)

abbrev pub in_any : ℕ → List (List ℕ) → Bool
in_any a gs = any (member a) gs

pub in_any-Memᴰ :
    (a : ℕ) (gs : List (List ℕ)) {g : List ℕ} → Memᴰ g gs → member a g ≡ true → in_any a gs ≡ true
in_any-Memᴰ a [] m h = elim m [ ]
in_any-Memᴰ a (x ∷ gs) (Memᴰ.head e) h =
    let first : member a x ≡ true = subst (λ (t : List ℕ). member a t ≡ true) e h in
    ground (arith, first)
in_any-Memᴰ a (x ∷ gs) (Memᴰ.tail m) h = ground (arith, in_any-Memᴰ a gs m h)

abbrev pub Disjoint : List (List ℕ) → Type 0
Disjoint [] = Unit
Disjoint (g ∷ gs) = ((a : ℕ) → member a g ≡ true → in_any a gs ≡ false) × Disjoint gs

-- A group that is an old group has its publication already.
abbrev pub Fits : Groups → List SourceRecord → List (List ℕ) → Type 0
Fits old rs gs =
    All (λ g. (pk a : ℕ) → existing g old ≡ some pk → member a g ≡ true → pub_of a rs ≡ some pk) gs

pub assigned-existing :
    (old : Groups) (g : List ℕ) (gs : List (List ℕ)) (n a pk : ℕ)
    → existing g old ≡ some pk
    → assigned old (g ∷ gs) n a ≡ (if member a g then some pk else assigned old gs n a)
unfolding assigned
assigned-existing old g gs n a pk e = rw (assigned, e) refl

pub assigned-new :
    (old : Groups) (g : List ℕ) (gs : List (List ℕ)) (n a : ℕ)
    → existing g old ≡ none
    → assigned old (g ∷ gs) n a ≡ (if member a g then some n else assigned old gs (n + 1) a)
unfolding assigned
assigned-new old g gs n a e = rw (assigned, e) refl

pub assigned-none :
    (old : Groups) (gs : List (List ℕ)) (n a : ℕ) → in_any a gs ≡ false → assigned old gs n a ≡ none
unfolding assigned
assigned-none old [] n a h = refl
assigned-none old (g ∷ gs) n a h = elim (Option-cases (existing g old)) [
  | inl e ↦ rw (assigned-new old g gs n a e) (ground (arith, h, assigned-none old gs (n + 1) a))
  | inr (pk, e) ↦
      rw (assigned-existing old g gs n a pk e) (ground (arith, h, assigned-none old gs n a))
]

Fits-move :
    (old : Groups) (g : List ℕ) (q : ℕ) (rs : List SourceRecord) (gs : List (List ℕ))
    → ((a : ℕ) → member a g ≡ true → in_any a gs ≡ false)
    → Fits old rs gs
    → Fits old (move_records g q rs) gs
Fits-move old g q rs [] d f = tt
Fits-move old g q rs (h ∷ gs) d f = (
  λ pk a e m.
      let out : member a g ≡ false = ground (arith, d a, m) in
      rw (pub_of-move_records a g q rs, out) (f.0 pk a e m),
  Fits-move old g q rs gs (λ a m. ground (arith, d a m)) f.1,
)

-- What a group that is no old one brings: its records move to a new publication.
pub record Founds (g : List ℕ) (db db' : Db) : Type 0 where
  pub kept : Keeps db db'
  pub records : db'.records ≡ move_records g db.next_id db.records
  pub next_id : db'.next_id ≡ db.next_id + 1

module _ (origin : Origin) (now : ℕ) (old : Groups) where
  -- One turn of the loop.
  pub settle_group-existing :
      (g : List ℕ) (mapping : List (ℕ × ℕ)) (db : Db) (pk : ℕ)
      → existing g old ≡ some pk
      → KeepsAll db (settle_group origin now old g (mapping, db)).1
  unfolding settle_group
  settle_group-existing g mapping db pk e = rw (settle_group, e) (project-KeepsAll pk db)

  pub settle_group-new :
      (g : List ℕ) (mapping : List (ℕ × ℕ)) (db : Db)
      → existing g old ≡ none
      → Founds g db (settle_group origin now old g (mapping, db)).1
  unfolding settle_group found_publication
  settle_group-new g mapping db e =
      let k = project-KeepsAll db.next_id (found_publication origin now g db) in
      rw (settle_group, e)
        (record {
          kept = record { decisions = k.kept.decisions; pairs = k.kept.pairs };
          records = k.records;
          next_id = k.next_id;
        })

  -- After the loop each record has the publication that its group was given.
  pub pub_of-settle :
      (a : ℕ) (gs : List (List ℕ)) (mapping : List (ℕ × ℕ)) (db : Db)
      → Disjoint gs
      → Fits old db.records gs
      → pub_of a (settle origin now old gs (mapping, db)).1.records
        ≡ moved (assigned old gs db.next_id a) (pub_of a db.records)
  unfolding settle assigned
  pub_of-settle a [] mapping db d f = refl
  pub_of-settle a (g ∷ gs) mapping db d f =
      let s = settle_group origin now old g (mapping, db) in
      elim (Option-cases (existing g old)) [
        | inr (pk, e) ↦
            let k = settle_group-existing g mapping db pk e in
            let rest =
              pub_of-settle a gs s.0 s.1 d.1
                (subst (λ (rs : List SourceRecord). Fits old rs gs) (sym k.records) f.1) in
            rw (assigned-existing old g gs db.next_id a pk e, rest, k.records, k.next_id)
              (elim (Bool-cases (member a g)) [
                | inl m ↦ rw (m, assigned-none old gs db.next_id a (d.0 a m), f.0 pk a e m) refl
                | inr m ↦ rw m refl
              ])
        | inl e ↦
            let k = settle_group-new g mapping db e in
            let rest = pub_of-settle a gs s.0 s.1 d.1 (
              subst (λ (rs : List SourceRecord). Fits old rs gs) (sym k.records)
                (Fits-move old g db.next_id db.records gs d.0 f.1)) in
            rw
              (
                assigned-new old g gs db.next_id a e,
                rest,
                k.records,
                k.next_id,
                pub_of-move_records a g db.next_id db.records,
              )
              (elim (Bool-cases (member a g)) [
                | inl m ↦ rw (m, assigned-none old gs (db.next_id + 1) a (d.0 a m)) refl
                | inr m ↦ rw m refl
              ])
      ]
