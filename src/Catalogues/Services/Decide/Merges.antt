-- ===== src/Catalogues/Services/Decide/Merges.antt =====
-- Merges are one level deep: what an entry is merged into is an included root of its catalogue.
use research_desk.Prelude.{
  ℕ, ◌≡◌, ◌≢◌, refl, sym, ◌∙◌, true, false, Option, none, some, arith, Text, inl, inr, Bool-cases,
  Option-cases,
}
use mathlib.Core.Path.{subst}
use research_desk.Unicode.{Unicode}
use research_desk.Table.{find_row, set_row, key-find_row, any-find_row}
use research_desk.Catalogues.Model.{
  Status, pending, kept, merged, is_kept, User, Catalogue, Entry, Action, keep, merge, exclude,
  defer, reset, unknown, Db, ok,
}
use research_desk.Catalogues.Services.Access.{entry_id, catalogue_id, find_entry, Payload, bump}
use research_desk.Catalogues.Services.Projection.{is_merged_into}
use research_desk.Catalogues.Services.Decide.Steps.{
  Written, decide_new-Written, decide-Outcome, unless_prior-eq-ok,
}
use research_desk.Catalogues.Services.Decide.{
  has_dependents, as_target, find_target, is_keep, is_known, is_root, new_status, write_decision,
  choose_target, decide_new, decide,
}
use research_desk.Catalogues.Services.Decide.Flat.{MergeOk, IsFlat, set_row-IsFlat}

-- A target that was found is another row, an included root of the catalogue.
record Chosen (db : Db) (c : Catalogue) (e : Entry) (x : Entry) : Type 0 where
  found : find_row entry_id x.id db.entries ≡ some x
  in_catalogue : x.catalogue ≡ c.id
  included : x.status ≡ kept
  root : x.merge_target ≡ none
  other : x.id ≢ e.id

is_kept→kept : (s : Status) → is_kept s ≡ true → s ≡ kept
is_kept→kept kept h = refl
is_kept→kept pending h = cc
is_kept→kept _ h = cc

is_root→none : (o : Option ℕ) → is_root o ≡ true → o ≡ none
is_root→none none h = refl
is_root→none (some t) h = cc

find_target-Chosen :
    (c : Catalogue) (e : Entry) (target_id : Option ℕ) (db : Db) {x : Entry}
    → find_target c e target_id db ≡ some x
    → Chosen db c e x
unfolding find_target
find_target-Chosen c e none db h = cc
find_target-Chosen c e (some t) db {x} h = elim (Option-cases (find_entry db t)) [
  | inl p ↦ cc (p, h)
  | inr (y, p) ↦ go y p (rw (p, as_target) at h)
]
  where
    go : (y : Entry) → find_entry db t ≡ some y → as_target c e (some y) ≡ some x → Chosen db c e x
    go y p q =
        let same : y ≡ x = ground arith in
        let k : y.id ≡ t = key-find_row entry_id t db.entries p in
        record {
          found = subst (λ (z : Entry). find_row entry_id z.id db.entries ≡ some z) same (simp k p);
          in_catalogue = ground arith;
          included = ground (arith, is_kept→kept y.status);
          root = ground (arith, is_root→none y.merge_target);
          other = ground arith;
        }

-- The entry as a decision writes it.
abbrev pub rewritten : Entry → Action → Option ℕ → Entry
rewritten e action target = record e { status = new_status action e; merge_target = target }

new_status-ne-merged :
    (action : Action) (e : Entry)
    → is_known action ≡ true
    → action ≢ merge
    → new_status action e ≢ merged
unfolding is_known new_status
new_status-ne-merged keep e k h = λ p. cc
new_status-ne-merged merge e k h = absurd (h refl)
new_status-ne-merged exclude e k h = λ p. cc
new_status-ne-merged defer e k h = λ p. cc
new_status-ne-merged reset e k h = λ p. ground arith
new_status-ne-merged (unknown w) e k h = cc

-- What a chosen target gives: the entry as written is in order, and is not its own target.
record Fits (db : Db) (e : Entry) (action : Action) (target : Option ℕ) : Type 0 where
  in_order : MergeOk db.entries (rewritten e action target)
  other : (t : ℕ) → target ≡ some t → t ≢ e.id

untargeted :
    (db : Db) (e : Entry) (action : Action)
    → is_known action ≡ true
    → action ≢ merge
    → Fits db e action none
untargeted db e action k h = record {
  in_order = record { alone = λ _. new_status-ne-merged action e k h; merged_one = λ t m. cc };
  other = λ t m. cc;
}

targeted :
    (db : Db) (c : Catalogue) (e x : Entry)
    → e.catalogue ≡ c.id
    → Chosen db c e x
    → Fits db e merge (some x.id)
unfolding new_status
targeted db c e x same ch = record {
  in_order = record {
    alone = λ p. cc;
    merged_one = λ t m.
        let k : x.id ≡ t = cc in
        (
          refl,
          record {
            root = x;
            found = simp (← k) ch.found;
            included = ch.included;
            is_root = ch.root;
            same_catalogue = ch.in_catalogue ∙ sym same;
          },
        );
  };
  other = λ t m p. ch.other (cc);
}

not_known : (w : Text) → is_known (unknown w) ≢ true
unfolding is_known
not_known w h = cc

module _ (u : Unicode) (ratio : Text → Text → ℕ) where
  choose_target-Fits :
      (c : Catalogue) (e : Entry) (action : Action) (target_id : Option ℕ) (reason : Text) (db : Db)
      {target : Option ℕ} {db' : Db}
      → choose_target u ratio c e action target_id reason db ≡ ok (target, db')
      → is_known action ≡ true
      → e.catalogue ≡ c.id
      → Fits db e action target × (db' ≡ db)
  unfolding choose_target
  choose_target-Fits c e merge target_id reason db {target} {db'} h k same =
      elim (Option-cases (find_target c e target_id db)) [
        | inl p ↦ absurd (ground arith)
        | inr (x, p) ↦
            let t : target ≡ some x.id = ground arith in
            (rw t (targeted db c e x same (find_target-Chosen c e target_id db p)), ground arith)
      ]
  choose_target-Fits c e keep target_id reason db {target} h k same =
      let t : target ≡ none = ground arith in
      (rw t (untargeted db e keep k (λ p. cc)), ground arith)
  choose_target-Fits c e exclude target_id reason db {target} h k same =
      let t : target ≡ none = ground arith in
      (rw t (untargeted db e exclude k (λ p. cc)), ground arith)
  choose_target-Fits c e defer target_id reason db {target} h k same =
      let t : target ≡ none = ground arith in
      (rw t (untargeted db e defer k (λ p. cc)), ground arith)
  choose_target-Fits c e reset target_id reason db {target} h k same =
      let t : target ≡ none = ground arith in
      (rw t (untargeted db e reset k (λ p. cc)), ground arith)
  choose_target-Fits c e (unknown w) target_id reason db h k same = absurd (not_known w k)

has_dependents-free :
    (db : Db) (e : Entry)
    → has_dependents db e.id ≡ false
    → (j : ℕ) (x : Entry) → find_entry db j ≡ some x
    → x.merge_target ≢ some e.id
unfolding has_dependents
has_dependents-free db e h j x p m =
    let q = any-find_row entry_id (is_merged_into e.id) j db.entries h p in ground (arith, q, m)

module _ (u : Unicode) (ratio : Text → Text → ℕ) where
  pub choose_target-reads :
      (c : Catalogue) (e : Entry) (action : Action) (target_id : Option ℕ) (reason : Text) (db : Db)
      {target : Option ℕ} {db' : Db}
      → choose_target u ratio c e action target_id reason db ≡ ok (target, db')
      → db' ≡ db
  unfolding choose_target
  choose_target-reads c e merge target_id reason db h = ground arith
  choose_target-reads c e keep target_id reason db h = ground arith
  choose_target-reads c e _ target_id reason db h = ground arith

  keeps-root :
      (c : Catalogue) (e : Entry) (action : Action) (target_id : Option ℕ) (reason : Text) (db : Db)
      {target : Option ℕ} {db' : Db}
      → choose_target u ratio c e action target_id reason db ≡ ok (target, db')
      → is_keep action ≡ true
      → (new_status action e ≡ kept) × (target ≡ none)
  unfolding choose_target is_keep new_status
  keeps-root c e keep target_id reason db h k = (refl, ground arith)
  keeps-root c e (unknown w) target_id reason db h k = cc
  keeps-root c e _ target_id reason db h k = cc

  Written-IsFlat :
      (user : User) (c : Catalogue) (e : Entry) (action : Action) (expected : ℕ)
      (target_id : Option ℕ) (reason key : Text) (digest : Option ℕ) (db : Db) {e' : Entry}
      {db' : Db}
      → IsFlat db.entries
      → find_entry db e.id ≡ some e
      → e.catalogue ≡ c.id
      → Written u ratio user c e action expected target_id reason key digest db e' db'
      → IsFlat db'.entries
  unfolding write_decision bump
  Written-IsFlat user c e action expected target_id reason key digest db {e'} {db'} flat found same
        w =
      let fits =
        (choose_target-Fits u ratio c e action target_id reason db w.chosen w.known same).0 in
      let es : db'.entries ≡ set_row entry_id (rewritten e action w.target) db.entries =
        ground (arith, w.wrote) in
      rw es (
        set_row-IsFlat db.entries e (rewritten e action w.target) flat found refl fits.in_order
          fits.other
          (elim (Bool-cases (has_dependents db e.id)) [
            | inl busy ↦
                inr (keeps-root c e action target_id reason db w.chosen (ground (arith, w.free)))
            | inr free ↦ inl (has_dependents-free db e free)
          ]))

module _ (u : Unicode) (ratio : Text → Text → ℕ) (sha256 : Payload → ℕ) where
  -- Every decision that succeeds keeps the merges of the table flat: an entry has a target exactly
  -- if it is merged, and the target is an included root record of the same catalogue.
  pub decide-IsFlat :
      (user : User) (pk : ℕ) (action : Action) (expected : ℕ) (target_id : Option ℕ)
      (reason key : Text) (db : Db) {e' : Entry} {db' : Db}
      → IsFlat db.entries
      → decide u ratio sha256 user pk action expected target_id reason key db ≡ ok (e', db')
      → IsFlat db'.entries
  decide-IsFlat user pk action expected target_id reason key db {e'} {db'} flat h =
      let o = decide-Outcome u ratio sha256 user pk action expected target_id reason key db h in
      elim (unless_prior-eq-ok o.prior o.entry
        (decide_new u ratio user o.c o.entry action expected target_id reason key o.digest) db
        o.rest) [
          | inl (event, p, q, same) ↦ rw same flat
          | inr (p, m) ↦
              let k : o.entry.id ≡ pk = key-find_row entry_id pk db.entries o.entry_found in
              let found : find_entry db o.entry.id ≡ some o.entry = simp k o.entry_found in
              let in_c : o.entry.catalogue ≡ o.c.id =
                sym (key-find_row catalogue_id o.entry.catalogue db.catalogues o.opened.found) in
              Written-IsFlat u ratio user o.c o.entry action expected target_id reason key o.digest
                db flat found in_c
                (decide_new-Written u ratio user o.c o.entry action expected target_id reason key
                  o.digest db
                  (λ t d p. (choose_target-reads u ratio o.c o.entry action target_id reason db p))
                  m)
        ]
