-- ===== src/Catalogues/Services/Decide.antt =====
-- A review decision on an entry (catalogues/services.py).
pub mod Steps
pub mod Flat
pub mod Merges
pub mod Audit
mod Tests
use research_desk.Prelude.{
  ℕ, ◌+◌, Bool, true, false, not, ◌&&◌, Option, none, some, List, [], ◌∷◌, ◌++◌, ◌==◌,
  if◌then◌else◌, Text, strip, any,
}
use research_desk.Unicode.{Unicode}
use research_desk.Records.Matching.{Warning}
use research_desk.Table.{set_row}
use research_desk.Catalogues.Model.{
  Status, pending, kept, merged, excluded, deferred, is_kept, Kind, is_baseline, User, Catalogue,
  Entry, Action, keep, merge, exclude, defer, reset, unknown, EventKind, decided, Snapshot,
  of_entry, AuditEvent, Db, Error, invalid_action, dependent_merges, invalid_target,
  reason_required, Result, ok, err, Transaction, pure, raise, gets, modify, raise_if, or_raise,
  ◌>>=◌, ◌>>◌,
}
use research_desk.Catalogues.Services.Access.{
  entry_id, find_entry, get_catalogue, get_entry, check_revision, bump, snapshot, Payload,
  decide_payload, deduplicate,
}
use research_desk.Catalogues.Services.Projection.{is_merged_into, group_warnings}

pub is_known : Action → Bool
is_known (unknown _) = false
is_known _ = true

pub is_keep : Action → Bool
is_keep keep = true
is_keep _ = false

-- The status that an action gives; an unknown one was refused before.
unfoldable pub new_status : Action → Entry → Status
new_status keep e = kept
new_status merge e = merged
new_status exclude e = excluded
new_status defer e = deferred
new_status reset e = if is_baseline e.origin then kept else pending
new_status (unknown _) e = e.status

pub has_dependents : Db → ℕ → Bool
has_dependents db pk = any (is_merged_into pk) db.entries

abbrev pub is_root : Option ℕ → Bool
is_root none = true
is_root (some _) = false

-- `catalogue.entries.filter(pk=target_id, status="kept", merge_target__isnull=True)
-- .exclude(pk=entry.pk).first()`.
pub as_target : Catalogue → Entry → Option Entry → Option Entry
as_target c entry none = none
as_target c entry (some x) =
    if x.catalogue == c.id && is_kept x.status && is_root x.merge_target && not (x.id == entry.id)
    then some x
    else none

pub find_target : Catalogue → Entry → Option ℕ → Db → Option Entry
unfolding as_target
find_target c entry none db = none
find_target c entry (some target_id) db = as_target c entry (find_entry db target_id)

abbrev pub is_empty {ℓ} : {A : Type ℓ} → List A → Bool
is_empty [] = true
is_empty (_ ∷ _) = false

-- The entry and the event that a decision writes, and the new revision.
unfoldable pub write_decision :
    User → Catalogue → Entry → Action → Option ℕ → Text → Text → Option ℕ → Transaction Entry
write_decision user c entry action target reason key digest = do
  let entry' = record entry { status = new_status action entry; merge_target = target }
  modify (λ db. record db {
    entries = set_row entry_id entry' db.entries;
    events =
        db.events
        ++ record {
          id = db.next_id;
          catalogue = c.id;
          entry = some entry.id;
          actor = user.pk;
          action = decided action;
          reason = reason;
          before = some (snapshot entry);
          after = some (of_entry (snapshot entry'));
          idempotency_key = key;
          request_hash = digest;
        }
          ∷ [];
    next_id = db.next_id + 1;
  })
  bump c
  pure entry'

module _ (u : Unicode) (ratio : Text → Text → ℕ) where
  -- The record to merge into, and its primary key; `none` for the other actions.
  unfoldable pub choose_target :
      Catalogue → Entry → Action → Option ℕ → Text → Transaction (Option ℕ)
  unfolding find_target
  choose_target c entry merge target_id reason = do
    found ← gets (find_target c entry target_id)
    target ← or_raise found invalid_target
    warnings ← gets (λ db. group_warnings u ratio db entry target)
    raise_if (not (is_empty warnings) && is_empty (strip reason)) reason_required
    pure (some target.id)
  choose_target c entry keep target_id reason = pure none
  choose_target c entry _ target_id reason = pure none

  -- What follows once the request is no repetition.
  unfoldable pub decide_new :
      User → Catalogue → Entry → Action → ℕ → Option ℕ → Text → Text → Option ℕ → Transaction Entry
  unfolding is_known is_keep has_dependents
  decide_new user c entry action expected target_id reason key digest = do
    check_revision c expected
    raise_if (not (is_known action)) invalid_action
    dependent ← gets (λ db. has_dependents db entry.id)
    raise_if (dependent && not (is_keep action)) dependent_merges
    target ← choose_target c entry action target_id reason
    write_decision user c entry action target reason key digest

-- An event that has the key already stands for the whole decision.
unfoldable pub unless_prior : Option AuditEvent → Entry → Transaction Entry → Transaction Entry
unless_prior none entry m = m
unless_prior (some prior) entry m = pure entry

module _ (u : Unicode) (ratio : Text → Text → ℕ) (sha256 : Payload → ℕ) where
  unfoldable pub decide : User → ℕ → Action → ℕ → Option ℕ → Text → Text → Transaction Entry
  unfolding unless_prior
  decide user entry_pk action expected target_id reason key = do
    entry ← get_entry user entry_pk
    c ← get_catalogue user entry.catalogue
    (prior, digest) ←
        deduplicate sha256 c key (decide_payload entry_pk action target_id reason expected)
    unless_prior prior entry
        (decide_new u ratio user c entry action expected target_id reason key digest)
