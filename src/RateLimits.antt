-- ===== src/RateLimits.antt =====
-- Limits on requests, before a view is called (srr/rate_limits.py). The hash of a key and the clock
-- are arguments.
pub mod Writes
mod Tests
use research_desk.Prelude.{
  ℕ, Bool, true, false, not, ◌&&◌, ◌||◌, ◌≡◌, refl, ap, ◌∙◌, Bool-cases, inl, inr, Option, none,
  some, List, [], ◌∷◌, ◌++◌, take, if◌then◌else◌, Text, codes, eq_text, strip, starts_with, arith,
}
use research_desk.Unicode.{Unicode}
use research_desk.Research.Dossiers.Model.{Bucket, Error, Outcome, done, refused}
use research_desk.Research.Dossiers.Limits.{consume}
use research_desk.Research.Dossiers.Numbers.{decimal}

pub data Method : Type 0 where
  get head post other : Method

abbrev pub is_post : Method → Bool
is_post post = true
is_post _ = false

abbrev pub is_read : Method → Bool
is_read get = true
is_read head = true
is_read _ = false

-- What is read of a request; a missing parameter is the empty text, `user` the key of a signed-in user.
pub record Request : Type 0 where
  pub method : Method
  pub path : Text
  pub remote_addr : Text
  pub username : Text
  pub action : Text
  pub tab : Text
  pub q : Text
  pub user : Option ℕ

-- LOGIN_ATTEMPTS_PER_WINDOW, USER_WRITES_PER_MINUTE and USER_SEARCHES_PER_MINUTE.
pub record Settings : Type 0 where
  pub login_attempts : ℕ
  pub writes : ℕ
  pub searches : ℕ

-- The buckets, and the `LimitExceeded`, if there is one. Each `consume` is a transaction of its own,
-- so what was counted before a refusal stays counted.
abbrev pub Checked : Type 0
Checked = List Bucket × Option Error

abbrev pub and_then : Checked → (List Bucket → Checked) → Checked
and_then (bs, some e) next = (bs, some e)
and_then (bs, none) next = next bs

unfoldable pub charge : ℕ → ℕ → ℕ → ℕ → List Bucket → Checked
charge key limit seconds now bs = elim (consume key limit seconds now bs) [
  | done bs' ↦ (bs', none)
  | refused e ↦ (bs, some e)
]

pub is_login : Text → Bool
is_login path = eq_text path (codes "/accounts/login/") || eq_text path (codes "/admin/login/")

abbrev pub is_given : Text → Bool
is_given [] = false
is_given (_ ∷ _) = true

-- A stop of research is let through.
pub is_stop : Request → Bool
is_stop r = starts_with r.path (codes "/research/") && eq_text r.action (codes "stop")

pub is_search : Request → Bool
is_search r =
    (eq_text r.tab (codes "passages") && is_given r.q)
    || (starts_with r.path (codes "/workspaces/") && is_given r.q)

module _ (u : Unicode) (sha256 : Text → ℕ) (settings : Settings) (now : ℕ) where
  unfoldable pub check_account : Text → List Bucket → Checked
  unfolding charge
  check_account [] bs = (bs, none)
  check_account (c ∷ name) bs =
      charge (sha256 (codes "login-account:" ++ c ∷ name)) settings.login_attempts 300 now bs

  unfoldable pub check_login : Request → List Bucket → Checked
  unfolding check_account is_login
  check_login r bs =
      if is_post r.method && is_login r.path
      then and_then
          (charge (sha256 (codes "login-ip:" ++ r.remote_addr)) settings.login_attempts 300 now bs)
          (check_account (take 150 (u.casefold (strip r.username))))
      else (bs, none)

  unfoldable pub check_write : ℕ → Request → List Bucket → Checked
  unfolding is_stop charge
  check_write pk r bs =
      if is_stop r
      then (bs, none)
      else charge (sha256 (codes "user-writes:" ++ codes (decimal pk))) settings.writes 60 now bs

  unfoldable pub check_search : ℕ → Request → List Bucket → Checked
  unfolding is_search charge
  check_search pk r bs =
      if is_read r.method && is_search r
      then charge (sha256 (codes "user-search:" ++ codes (decimal pk))) settings.searches 60 now bs
      else (bs, none)

  unfoldable pub check_user : Option ℕ → Request → List Bucket → Checked
  unfolding check_write check_search
  check_user none r bs = (bs, none)
  check_user (some pk) r bs = if is_post r.method then check_write pk r bs else check_search pk r bs

  -- `RateLimitMiddleware.check(request)`.
  unfoldable pub check : Request → List Bucket → Checked
  unfolding check_login check_user
  check r bs = and_then (check_login r bs) (check_user r.user r)

  -- A POST request of a signed-in user, outside of the pages for signing in.
  pub check-post :
      (pk : ℕ) (r : Request) (bs : List Bucket)
      → is_post r.method ≡ true
      → is_login r.path ≡ false
      → r.user ≡ some pk
      → check r bs ≡ check_write pk r bs
  unfolding check check_login check_user
  check-post pk r bs p l w = rw (p, l, w, check_user, p)
