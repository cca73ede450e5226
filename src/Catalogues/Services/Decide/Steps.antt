-- ===== src/Catalogues/Services/Decide/Steps.antt =====
-- The steps that a decision which succeeded went through.
use research_desk.Prelude.{
  ℕ, ◌≡◌, refl, true, false, not, ◌&&◌, Option, none, some, arith, Text, inl, inr, ◌⊎◌, ◌==◌,
}
use research_desk.Unicode.{Unicode}
use research_desk.Catalogues.Model.{
  User, Catalogue, Entry, Action, AuditEvent, Db, stale_revision, invalid_action, dependent_merges,
  ok, Transaction,
}
use research_desk.Catalogues.Model.Inversion.{guard-eq-ok, ReadsAt, read-eq-ok}
use research_desk.Catalogues.Services.Access.{
  find_entry, get_entry, get_catalogue, deduplicate, Payload, decide_payload, check_revision,
}
use research_desk.Catalogues.Services.Access.Laws.{
  Opened, get_catalogue-eq-ok, get_entry-eq-ok, deduplicate-eq-ok,
}
use research_desk.Catalogues.Services.Decide.{
  is_known, is_keep, has_dependents, choose_target, write_decision, decide_new, unless_prior,
  decide,
}

module _ (u : Unicode) (ratio : Text → Text → ℕ) where
  -- The checks that a new decision passed, the target that was chosen, and what was written.
  pub record Written (user : User) (c : Catalogue) (e : Entry) (action : Action) (expected : ℕ)
      (target_id : Option ℕ) (reason key : Text) (digest : Option ℕ) (db : Db) (e' : Entry)
      (db' : Db) : Type 0 where
    pub current : c.revision ≡ expected
    pub known : is_known action ≡ true
    pub free : has_dependents db e.id && not (is_keep action) ≡ false
    pub target : Option ℕ
    pub chosen : choose_target u ratio c e action target_id reason db ≡ ok (target, db)
    pub wrote : write_decision user c e action target reason key digest db ≡ ok (e', db')

  pub decide_new-Written :
      (user : User) (c : Catalogue) (e : Entry) (action : Action) (expected : ℕ)
      (target_id : Option ℕ) (reason key : Text) (digest : Option ℕ) (db : Db) {e' : Entry}
      {db' : Db}
      → ReadsAt (choose_target u ratio c e action target_id reason) db
      → decide_new u ratio user c e action expected target_id reason key digest db ≡ ok (e', db')
      → Written user c e action expected target_id reason key digest db e' db'
  unfolding decide_new check_revision
  decide_new-Written user c e action expected target_id reason key digest db {e'} {db'} same h =
      let (current, h1) = guard-eq-ok (not (c.revision == expected)) stale_revision _ db h in
      let (known, h2) = guard-eq-ok (not (is_known action)) invalid_action _ db h1 in
      let (free, h3) =
        guard-eq-ok (has_dependents db e.id && not (is_keep action)) dependent_merges _ db h2 in
      let (target, p, h4) =
        read-eq-ok (choose_target u ratio c e action target_id reason) _ db same h3 in
      record {
        current = ground arith;
        known = ground arith;
        free = free;
        target = target;
        chosen = p;
        wrote = h4;
      }

-- A decision that succeeded: the entry and the catalogue, and either an earlier event with the key
-- or a new decision.
module _ (u : Unicode) (ratio : Text → Text → ℕ) (sha256 : Payload → ℕ) where
  pub record Outcome (user : User) (pk : ℕ) (action : Action) (expected : ℕ) (target_id : Option ℕ)
      (reason key : Text) (db : Db) (e' : Entry) (db' : Db) : Type 0 where
    pub entry : Entry
    pub c : Catalogue
    pub prior : Option AuditEvent
    pub digest : Option ℕ
    pub entry_found : find_entry db pk ≡ some entry
    pub opened : Opened user db entry.catalogue c
    pub keyed :
        deduplicate sha256 c key (decide_payload pk action target_id reason expected) db
        ≡ ok ((prior, digest), db)
    pub rest :
        unless_prior prior entry
          (decide_new u ratio user c entry action expected target_id reason key digest)
          db
        ≡ ok (e', db')

  pub decide-Outcome :
      (user : User) (pk : ℕ) (action : Action) (expected : ℕ) (target_id : Option ℕ)
      (reason key : Text) (db : Db) {e' : Entry} {db' : Db}
      → decide u ratio sha256 user pk action expected target_id reason key db ≡ ok (e', db')
      → Outcome user pk action expected target_id reason key db e' db'
  unfolding decide
  decide-Outcome user pk action expected target_id reason key db {e'} {db'} h =
      let (entry, p1, h1) =
        read-eq-ok (get_entry user pk) _ db (λ a d p. (get_entry-eq-ok user pk db p).1) h in
      let (c, p2, h2) =
        read-eq-ok (get_catalogue user entry.catalogue) _ db
          (λ a d p. (get_catalogue-eq-ok user entry.catalogue db p).1) h1 in
      let payload = decide_payload pk action target_id reason expected in
      let (found, p3, h3) =
        read-eq-ok (deduplicate sha256 c key payload) _ db
          (λ a d p. deduplicate-eq-ok sha256 c key payload db p) h2 in
      record {
        entry = entry;
        c = c;
        prior = found.0;
        digest = found.1;
        entry_found = (get_entry-eq-ok user pk db p1).0;
        opened = (get_catalogue-eq-ok user entry.catalogue db p2).0;
        keyed = p3;
        rest = h3;
      }

-- Either an event had the key, and nothing was done, or there was none, and the decision was made.
pub unless_prior-eq-ok :
    (prior : Option AuditEvent) (e : Entry) (m : Transaction Entry) (db : Db) {e' : Entry}
    {db' : Db}
    → unless_prior prior e m db ≡ ok (e', db')
    → ((event : AuditEvent) × (prior ≡ some event) × (e' ≡ e) × (db' ≡ db))
      ⊎ ((prior ≡ none) × (m db ≡ ok (e', db')))
unfolding unless_prior
unless_prior-eq-ok none e m db h = inr (refl, h)
unless_prior-eq-ok (some event) e m db h = inl (event, refl, ground arith, ground arith)
