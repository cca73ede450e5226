-- ===== src/Records/Services/Regroup.antt =====
-- The publications after a decision: `_regroup` of records/services.py. The clock is an argument.
pub mod Frame
pub mod Assigned
pub mod Given
pub mod Publications
pub mod Stays
pub mod Regrouped
use research_desk.Prelude.{
  ℕ, ◌+◌, Bool, true, false, ◌&&◌, Option, none, some, List, [], ◌∷◌, ◌++◌, if◌then◌else◌,
}
use research_desk.Table.{set_row}
use research_desk.Records.Models.{
  Db, SourceRecord, CanonicalPublication, Membership, Origin, active, replaced, publication_id,
  find_publication,
}
use research_desk.Records.Sets.{member, insert, union, set_of, eq_set, assign_all, look_up}
use research_desk.Records.Services.{links, records_of, record_ids, bump_pairs}
use research_desk.Records.Services.Components.{Groups, components}
use research_desk.Records.Services.Projection.{project}

-- `{pk: {r.pk for r in records if r.publication_id == pk} for pk in publication_ids}`.
unfoldable pub old_groups : List SourceRecord → List ℕ → Groups
unfolding records_of record_ids union
old_groups records [] = []
old_groups records (pk ∷ pks) =
    (pk, set_of (record_ids (records_of (pk ∷ []) records))) ∷ old_groups records pks

-- `next((pk for pk, members in old_groups.items() if members == group), None)`.
unfoldable pub existing : List ℕ → Groups → Option ℕ
unfolding eq_set
existing group [] = none
existing group ((pk, members) ∷ old) =
    let rest = existing group old in if eq_set members group then some pk else rest

abbrev pub is_open : Option ℕ → Bool
is_open none = true
is_open (some _) = false

-- `filter(record_id__in=group, valid_until__isnull=True).update(valid_until=now)`.
unfoldable pub close : List ℕ → ℕ → List Membership → List Membership
unfolding member
close group now [] = []
close group now (m ∷ ms) =
    (if member m.record_id group && is_open m.valid_until
      then record m { valid_until = some now }
      else m)
    ∷ close group now ms

-- `filter(pk__in=group).update(publication=publication)`.
unfoldable pub move_records : List ℕ → ℕ → List SourceRecord → List SourceRecord
unfolding member
move_records group publication [] = []
move_records group publication (r ∷ rs) =
    (if member r.id group then record r { publication = publication } else r)
    ∷ move_records group publication rs

unfoldable pub new_memberships : List ℕ → ℕ → Origin → List Membership
new_memberships [] publication origin = []
new_memberships (pk ∷ group) publication origin =
    record { publication = publication; record_id = pk; origin = origin; valid_until = none }
    ∷ new_memberships group publication origin

abbrev pub new_publication : ℕ → CanonicalPublication
new_publication pk = record {
  id = pk;
  revision = 1;
  state = active;
  successors = [];
  projection = [];
}

-- The branch `if not existing`, with the new publication.
unfoldable pub found_publication : Origin → ℕ → List ℕ → Db → Db
unfolding close move_records new_memberships
found_publication origin now group db = record db {
  publications = db.publications ++ (new_publication db.next_id ∷ []);
  records = move_records group db.next_id db.records;
  memberships = close group now db.memberships ++ new_memberships group db.next_id origin;
  next_id = db.next_id + 1;
}

-- One turn of the loop over the groups: the mapping of records to publications, and the tables.
unfoldable pub settle_group : Origin → ℕ → Groups → List ℕ → List (ℕ × ℕ) × Db → List (ℕ × ℕ) × Db
unfolding existing found_publication project assign_all
settle_group origin now old group (mapping, db) = elim (existing group old) [
  | some pk ↦ (assign_all group pk mapping, project pk db)
  | none ↦ (
    assign_all group db.next_id mapping,
    project db.next_id (found_publication origin now group db),
  )
]

unfoldable pub settle : Origin → ℕ → Groups → List (List ℕ) → List (ℕ × ℕ) × Db → List (ℕ × ℕ) × Db
unfolding settle_group
settle origin now old [] s = s
settle origin now old (group ∷ groups) s =
    settle origin now old groups (settle_group origin now old group s)

-- `sorted({str(mapping[r]) for r in members})`: each member has a group, so it is in the mapping.
unfoldable pub successors_of : List (ℕ × ℕ) → List ℕ → List ℕ
unfolding look_up insert
successors_of mapping [] = []
successors_of mapping (r ∷ members) =
    let rest = successors_of mapping members in
    elim (look_up r mapping) [ none ↦ rest | some pk ↦ insert pk rest ]

unfoldable pub replace : List ℕ → Option CanonicalPublication → Db → Db
replace successors none db = db
replace successors (some p) db = record db {
  publications =
      set_row publication_id (record p { state = replaced; successors = successors })
        db.publications;
}

-- The loop over the old groups.
unfoldable pub retire : List (ℕ × ℕ) → Groups → Db → Db
unfolding eq_set successors_of replace
retire mapping [] db = db
retire mapping ((pk, members) ∷ old) db =
    let successors = successors_of mapping members in
    retire mapping old
      (if eq_set successors (pk ∷ []) then db else replace successors (find_publication db pk) db)

abbrev pub bump_all : List ℕ → Db → Db
bump_all ids db = record db { pairs = bump_pairs ids db.pairs }

-- `_regroup(publication_ids, origin)`.
unfoldable pub regroup : List ℕ → Origin → ℕ → Db → Db
unfolding records_of record_ids bump_pairs links components old_groups settle retire
regroup publications origin now db =
    let records = records_of publications db.records in
    let ids = set_of (record_ids records) in
    let old = old_groups records publications in
    let db1 = bump_all ids db in
    let s = settle origin now old (components ids (links db none)) ([], db1) in retire s.0 old s.1
