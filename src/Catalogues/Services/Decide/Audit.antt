-- ===== src/Catalogues/Services/Decide/Audit.antt =====
-- What a decision records, and that a repeated request changes nothing.
use mathlib.Core.Path.{subst}
use research_desk.Prelude.{
  ℕ, ◌+◌, ◌≡◌, ◌≢◌, refl, sym, ap, ◌∙◌, false, Option, none, some, [], ◌∷◌, ◌++◌, arith, Text, ◌⊎◌,
  inl, inr, eq_text_iff, ltb, length,
}
use research_desk.Unicode.{Unicode}
use research_desk.Table.{
  set_row, key-find_row, find_row-set_ne, find_row-set_self, find_where, find_where-append_none,
}
use research_desk.Catalogues.Model.{
  User, Catalogue, Entry, Action, decided, of_entry, AuditEvent, Db, ok,
}
use research_desk.Catalogues.Model.Inversion.{>>=-step}
use research_desk.Catalogues.Services.Access.{
  entry_id, catalogue_id, find_entry, find_catalogue, snapshot, has_key, Payload, decide_payload,
  bump, deduplicate, get_entry, get_catalogue,
}
use research_desk.Catalogues.Services.Access.Laws.{
  Opened, deduplicate-eq-none, deduplicate-eq-some, deduplicate-found, get_catalogue-Opened,
  get_entry-Opened,
}
use research_desk.Catalogues.Services.Decide.{write_decision, decide_new, unless_prior, decide}
use research_desk.Catalogues.Services.Decide.Steps.{
  Written, decide_new-Written, Outcome, decide-Outcome, unless_prior-eq-ok,
}
use research_desk.Catalogues.Services.Decide.Merges.{rewritten, choose_target-reads}

-- What a new decision leaves behind.
pub record Recorded (user : User) (pk : ℕ) (action : Action) (expected : ℕ) (reason key : Text)
    (db : Db) (e' : Entry) (db' : Db) : Type 0 where
  pub event : AuditEvent
  pub before : Entry
  pub c : Catalogue
  -- One event more, by this user, with the entry before and after.
  pub events : db'.events ≡ db.events ++ event ∷ []
  pub actor : event.actor ≡ user.pk
  pub action_is : event.action ≡ decided action
  pub reason_is : event.reason ≡ reason
  pub key_is : event.idempotency_key ≡ key
  pub entry_is : event.entry ≡ some pk
  pub catalogue_is : event.catalogue ≡ c.id
  pub before_is : event.before ≡ some (snapshot before)
  pub after_is : event.after ≡ some (of_entry (snapshot e'))
  -- The entry that was there, and the entry that is there now.
  pub old_entry : find_entry db pk ≡ some before
  pub new_entry : find_entry db' pk ≡ some e'
  pub unmoved : e'.catalogue ≡ before.catalogue
  -- The catalogue was at the expected revision, and is at the next one.
  pub opened : Opened user db before.catalogue c
  pub old_revision : c.revision ≡ expected
  pub new_catalogue :
      find_catalogue db' before.catalogue ≡ some (record c { revision = expected + 1 })
  -- No other entry and no other catalogue is touched.
  pub other_entries : (j : ℕ) → j ≢ pk → find_entry db' j ≡ find_entry db j
  pub other_catalogues : (j : ℕ) → j ≢ c.id → find_catalogue db' j ≡ find_catalogue db j

module _ (u : Unicode) (ratio : Text → Text → ℕ) where
  Written-Recorded :
      (user : User) (pk : ℕ) (c : Catalogue) (e : Entry) (action : Action) (expected : ℕ)
      (target_id : Option ℕ) (reason key : Text) (digest : Option ℕ) (db : Db) {e' : Entry}
      {db' : Db}
      → find_entry db pk ≡ some e
      → Opened user db e.catalogue c
      → Written u ratio user c e action expected target_id reason key digest db e' db'
      → (r : Recorded user pk action expected reason key db e' db') × (r.event.request_hash
          ≡ digest)
        × (r.c ≡ c)
  unfolding write_decision bump
  Written-Recorded user pk c e action expected target_id reason key digest db {e'} {db'} found
        opened w =
      let id_is : e.id ≡ pk = key-find_row entry_id pk db.entries found in
      let c_is : c.id ≡ e.catalogue =
        key-find_row catalogue_id e.catalogue db.catalogues opened.found in
      let now = rewritten e action w.target in
      let same : now ≡ e' = ground (arith, w.wrote) in
      let es : db'.entries ≡ set_row entry_id now db.entries = ground (arith, w.wrote) in
      let cs : db'.catalogues
          ≡ set_row catalogue_id (record c { revision = c.revision + 1 }) db.catalogues =
        ground (arith, w.wrote) in
      (
        record {
          event = record {
            id = db.next_id;
            catalogue = c.id;
            entry = some e.id;
            actor = user.pk;
            action = decided action;
            reason = reason;
            before = some (snapshot e);
            after = some (of_entry (snapshot now));
            idempotency_key = key;
            request_hash = digest;
          };
          before = e;
          c = c;
          events = ground (arith, w.wrote);
          actor = refl;
          action_is = refl;
          reason_is = refl;
          key_is = refl;
          entry_is = ap some id_is;
          catalogue_is = refl;
          before_is = refl;
          after_is = ap (λ (x : Entry). some (of_entry (snapshot x))) same;
          old_entry = found;
          new_entry =
              rw es (find_row-set_self entry_id pk now db.entries found id_is ∙ ap some same);
          unmoved = ap (λ (x : Entry). x.catalogue) (sym same);
          opened = opened;
          old_revision = w.current;
          new_catalogue = rw cs (
              find_row-set_self catalogue_id e.catalogue (record c { revision = c.revision + 1 })
                db.catalogues opened.found c_is
              ∙ ap (λ (n : ℕ). some (record c { revision = n + 1 })) w.current);
          other_entries =
              λ j ne. rw es (find_row-set_ne entry_id j now db.entries (λ p. ne (sym p ∙ id_is)));
          other_catalogues = λ j ne. rw cs (
              find_row-set_ne catalogue_id j (record c { revision = c.revision + 1 }) db.catalogues
                (λ p. ne (sym p)));
        },
        refl,
        refl,
      )

find_key :
    (catalogue : ℕ) (key : Text) (event : AuditEvent)
    → event.catalogue ≡ catalogue
    → event.idempotency_key ≡ key
    → find_where (has_key catalogue key) (event ∷ []) ≡ some event
unfolding find_where
find_key catalogue key event p q = ground (arith, eq_text_iff event.idempotency_key key)

-- An event of the catalogue has the key already, and nothing was done.
pub record Repeated (pk : ℕ) (key : Text) (hash : ℕ) (db : Db) (e' : Entry) (db' : Db)
    : Type 0 where
  pub event : AuditEvent
  pub found : find_where (has_key e'.catalogue key) db.events ≡ some event
  pub same_payload : event.request_hash ≡ some hash
  pub entry : find_entry db pk ≡ some e'
  pub unchanged : db' ≡ db

module _ (u : Unicode) (ratio : Text → Text → ℕ) (sha256 : Payload → ℕ) where
  new-Recorded :
      (user : User) (pk : ℕ) (action : Action) (expected : ℕ) (target_id : Option ℕ)
      (reason key : Text) (db : Db) {e' : Entry} {db' : Db}
      (o : Outcome u ratio sha256 user pk action expected target_id reason key db e' db')
      → decide_new u ratio user o.c o.entry action expected target_id reason key o.digest db
        ≡ ok (e', db')
      → (r : Recorded user pk action expected reason key db e' db') × (r.event.request_hash
          ≡ o.digest)
        × (r.c ≡ o.c)
  new-Recorded user pk action expected target_id reason key db o m =
      Written-Recorded u ratio user pk o.c o.entry action expected target_id reason key o.digest db
        o.entry_found o.opened
        (decide_new-Written u ratio user o.c o.entry action expected target_id reason key o.digest
          db (λ t d p. choose_target-reads u ratio o.c o.entry action target_id reason db p) m)

  -- A decision that succeeds either found an event with its key and changed nothing, or recorded one
  -- event with the entry before and after, moved the catalogue from the expected revision to the
  -- next one, and touched no other entry and no other catalogue.
  pub decide-Recorded :
      (user : User) (pk : ℕ) (action : Action) (expected : ℕ) (target_id : Option ℕ)
      (reason key : Text) (db : Db) {e' : Entry} {db' : Db}
      → decide u ratio sha256 user pk action expected target_id reason key db ≡ ok (e', db')
      → Repeated pk key (sha256 (decide_payload pk action target_id reason expected)) db e' db'
        ⊎ Recorded user pk action expected reason key db e' db'
  decide-Recorded user pk action expected target_id reason key db {e'} {db'} h =
      let o = decide-Outcome u ratio sha256 user pk action expected target_id reason key db h in
      elim (unless_prior-eq-ok o.prior o.entry
        (decide_new u ratio user o.c o.entry action expected target_id reason key o.digest) db
        o.rest) [
          | inl (event, p, q, same) ↦
              let payload = decide_payload pk action target_id reason expected in
              let (found, hash) = deduplicate-eq-some sha256 o.c key payload db (
                subst
                  (λ (x : Option AuditEvent).
                    deduplicate sha256 o.c key payload db ≡ ok ((x, o.digest), db))
                  p o.keyed) in
              let id_is : o.c.id ≡ e'.catalogue =
                key-find_row catalogue_id o.entry.catalogue db.catalogues o.opened.found
                ∙ ap (λ (x : Entry). x.catalogue) (sym q) in
              inl (record {
                event = event;
                found =
                    subst (λ (n : ℕ). find_where (has_key n key) db.events ≡ some event) id_is
                      found;
                same_payload = hash;
                entry = o.entry_found ∙ ap some (sym q);
                unchanged = same;
              })
          | inr (p, m) ↦ inr ((new-Recorded user pk action expected target_id reason key db o m).0)
        ]

  -- The same request in a state where an event has its key and its payload.
  decide_found :
      (user : User) (pk : ℕ) (action : Action) (expected : ℕ) (target_id : Option ℕ) (reason : Text)
      (k : ℕ) (key : Text) (db : Db) (e : Entry) (c : Catalogue) (event : AuditEvent)
      → find_entry db pk ≡ some e
      → Opened user db e.catalogue c
      → find_where (has_key c.id (k ∷ key)) db.events ≡ some event
      → event.request_hash ≡ some (sha256 (decide_payload pk action target_id reason expected))
      → ltb 128 (length (k ∷ key)) ≡ false
      → decide u ratio sha256 user pk action expected target_id reason (k ∷ key) db ≡ ok (e, db)
  unfolding decide unless_prior
  decide_found user pk action expected target_id reason k key db e c event found opened f h l =
      let payload = decide_payload pk action target_id reason expected in
      >>=-step (get_entry user pk) _ db (get_entry-Opened user pk db e c found opened)
      ∙ >>=-step (get_catalogue user e.catalogue) _ db
          (get_catalogue-Opened user e.catalogue db c opened)
      ∙ >>=-step (deduplicate sha256 c (k ∷ key) payload) _ db
          (deduplicate-found sha256 c k key payload db event f h l)

  -- Sending a decision again under its idempotency key, although the revision has moved on, succeeds
  -- with the entry as it is and changes nothing: no event, no revision, no entry.
  pub decide_again :
      (user : User) (pk : ℕ) (action : Action) (expected : ℕ) (target_id : Option ℕ) (reason : Text)
      (k : ℕ) (key : Text) (db : Db) {e' : Entry} {db' : Db}
      → decide u ratio sha256 user pk action expected target_id reason (k ∷ key) db ≡ ok (e', db')
      → decide u ratio sha256 user pk action expected target_id reason (k ∷ key) db' ≡ ok (e', db')
  decide_again user pk action expected target_id reason k key db {e'} {db'} h =
      let o =
        decide-Outcome u ratio sha256 user pk action expected target_id reason (k ∷ key) db h in
      elim (unless_prior-eq-ok o.prior o.entry
        (decide_new u ratio user o.c o.entry action expected target_id reason (k ∷ key) o.digest) db
        o.rest) [
          | inl (event, p, q, same) ↦ simp same (simp same at h)
          | inr (p, m) ↦
              let (r, hash, same_c) =
                new-Recorded user pk action expected target_id reason (k ∷ key) db o m in
              let payload = decide_payload pk action target_id reason expected in
              let (fresh, digest, short) = deduplicate-eq-none sha256 o.c k key payload db (
                subst
                  (λ (x : Option AuditEvent).
                    deduplicate sha256 o.c (k ∷ key) payload db ≡ ok ((x, o.digest), db))
                  p o.keyed) in
              decide_found user pk action expected target_id reason k key db' e'
                (record r.c { revision = expected + 1 }) r.event r.new_entry
                (record {
                  signed_in = r.opened.signed_in;
                  found = ap (find_catalogue db') r.unmoved ∙ r.new_catalogue;
                  owner = r.opened.owner;
                })
                (rw r.events (
                  find_where-append_none (has_key r.c.id (k ∷ key)) db.events (r.event ∷ []) (
                    subst (λ (x : Catalogue). find_where (has_key x.id (k ∷ key)) db.events ≡ none)
                      (sym same_c) fresh)
                  ∙ find_key r.c.id (k ∷ key) r.event r.catalogue_is r.key_is))
                (hash ∙ digest) short
        ]
