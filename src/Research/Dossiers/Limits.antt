-- ===== src/Research/Dossiers/Limits.antt =====
-- Admission limits that all processes share (research/limits.py).
pub mod Windows
use research_desk.Prelude.{
  ℕ, ◌+◌, ◌-◌, ◌≤◌, ◌<◌, max, ◌≡◌, refl, Bool, true, false, ◌&&◌, Option, none, some, List, [], ◌∷◌,
  ◌++◌, arith, ltb, leb, ◌==◌, if◌then◌else◌, Bool-cases, inl, inr, Text,
}
use research_desk.Table.{
  find_row, set_row, count_where, find_row-set_self, find_row-set_ne, key-find_row,
}
use research_desk.Research.Dossiers.Model.{
  Status, is_active, Dossier, Bucket, Db, Error, user_limit, queue_full, too_many_requests, Outcome,
  done, refused, ◌>>=◌, ◌>>◌, refuse_if, >>=-eq-done, refuse_if-eq-done,
}

-- The settings RESEARCH_MAX_ACTIVE_PER_USER, RESEARCH_MAX_ACTIVE_GLOBAL and RESEARCH_DAILY_JOBS.
pub record Settings : Type 0 where
  pub per_user : ℕ
  pub global : ℕ
  pub daily : ℕ

abbrev pub bucket_key : Bucket → ℕ
bucket_key b = b.key

-- `get_or_create(key=key, defaults={"started_at": now})`.
abbrev pub get_or_create : ℕ → ℕ → Option Bucket → Bucket
get_or_create key now none = record { key = key; started_at = now; count = 0 }
get_or_create key now (some b) = b

-- A window that is over begins again.
unfoldable pub renew : ℕ → ℕ → Bucket → Bucket
renew now seconds b =
    if leb (b.started_at + seconds) now then record b { started_at = now; count = 0 } else b

-- The bucket takes the place of the one with its key, or is new.
unfoldable pub put_bucket : Bucket → List Bucket → List Bucket
put_bucket v [] = v ∷ []
put_bucket v (b ∷ bs) = if b.key == v.key then v ∷ bs else b ∷ put_bucket v bs

-- `consume(scope, identity, limit, seconds)`, for the hash of the scope and the identity.
unfoldable pub consume : (key limit seconds now : ℕ) → List Bucket → Outcome (List Bucket)
unfolding renew put_bucket find_row
consume key limit seconds now buckets =
    let b = renew now seconds (get_or_create key now (find_row bucket_key key buckets)) in
    if leb limit b.count
    then refused (too_many_requests (max 1 (b.started_at + seconds - now)))
    else done (put_bucket (record b { count = b.count + 1 }) buckets)

abbrev pub active_of : ℕ → Dossier → Bool
active_of owner d = d.owner == owner && is_active d.status

abbrev pub active : Dossier → Bool
active d = is_active d.status

-- `admit_job(owner_id)`; `daily_key` is the hash of "jobs-daily" and the owner.
unfoldable pub admit_job : Settings → (ℕ → ℕ) → ℕ → ℕ → Db → Outcome Db
unfolding consume count_where
admit_job settings daily_key now owner db = do
  refuse_if (leb settings.per_user (count_where (active_of owner) db.dossiers)) user_limit
  refuse_if (leb settings.global (count_where active db.dossiers)) queue_full
  buckets ← consume (daily_key owner) settings.daily 86400 now db.buckets
  done (record db { buckets = buckets })
