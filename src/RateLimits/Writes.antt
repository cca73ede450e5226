-- ===== src/RateLimits/Writes.antt =====
-- The writes of a user in one window.
use research_desk.Prelude.{
  ℕ, ◌+◌, ◌≤◌, ◌<◌, ◌≡◌, refl, ◌⊎◌, sym, ◌-◌, max, ◌&&◌, Bool, true, false, not, none, some, List,
  [], ◌∷◌, ◌++◌, leb, if◌then◌else◌, Text, codes, arith, inl, inr, Bool-cases, All,
}
use research_desk.Unicode.{Unicode}
use research_desk.Table.{find_row, key-find_row, count_where}
use research_desk.Research.Dossiers.Model.{Bucket, Error, too_many_requests}
use research_desk.Research.Dossiers.Limits.{bucket_key, put_bucket}
use research_desk.Research.Dossiers.Limits.Windows.{consume_open, find-put_bucket}
use research_desk.Research.Dossiers.Numbers.{decimal}
use research_desk.RateLimits.{
  Request, Settings, Checked, charge, is_post, is_login, is_stop, check, check_write, check-post,
}

-- A POST request of the user, outside of the pages for signing in, while the window is open.
pub record IsPostOf (pk until : ℕ) (timed : ℕ × Request) : Type 0 where
  pub in_time : timed.0 < until
  pub posts : is_post timed.1.method ≡ true
  pub elsewhere : is_login timed.1.path ≡ false
  pub by_user : timed.1.user ≡ some pk

abbrev pub is_write : Request → Bool
is_write r = not (is_stop r)

abbrev pub is_let_through : Checked → Bool
is_let_through (bs, none) = true
is_let_through (bs, some e) = false

abbrev pub writes_key : (Text → ℕ) → ℕ → ℕ
writes_key sha256 pk = sha256 (codes "user-writes:" ++ codes (decimal pk))

module _ (u : Unicode) (sha256 : Text → ℕ) (settings : Settings) where
  -- How many of the requests that a test picks are let through, one after the other.
  unfoldable pub passed : (Request → Bool) → List (ℕ × Request) → List Bucket → ℕ
  passed p [] bs = 0
  passed p ((now, r) ∷ rs) bs =
      let after = check u sha256 settings now r bs in
      (if is_let_through after && p r then 1 else 0) + passed p rs after.0

  -- What becomes of one of the requests.
  check_write_open :
      (pk now : ℕ) (r : Request) (bs : List Bucket) (b : Bucket)
      → find_row bucket_key (writes_key sha256 pk) bs ≡ some b
      → IsPostOf pk (b.started_at + 60) (now, r)
      → (check u sha256 settings now r bs ≡ (
          if is_stop r
          then (bs, none)
          else charge (writes_key sha256 pk) settings.writes 60 now bs))
  unfolding check_write
  check_write_open pk now r bs b f h =
      check-post u sha256 settings now pk r bs h.posts h.elsewhere h.by_user

  charge_open :
      (key now : ℕ) (bs : List Bucket) (b : Bucket)
      → find_row bucket_key key bs ≡ some b
      → now < b.started_at + 60
      → ((e : Error) × (charge key settings.writes 60 now bs ≡ (bs, some e)))
        ⊎ ((b.count < settings.writes)
            × (charge key settings.writes 60 now bs
                ≡ (put_bucket (record b { count = b.count + 1 }) bs, none)))
  unfolding charge
  charge_open key now bs b f l =
      let opened = consume_open key settings.writes 60 now bs b f l in
      elim (Bool-cases (leb settings.writes b.count)) [
        | inl e ↦ inl (too_many_requests (max 1 (b.started_at + 60 - now)), rw (charge, opened, e))
        | inr e ↦ inr (ground (arith, e), rw (charge, opened, e))
      ]

  -- In one window of the user's writes, whose bucket is at its limit at most, however many POST requests
  -- the user makes outside of the pages for signing in: the writes that are let through and those that
  -- were counted before are together no more than the limit, and every request to stop research is let
  -- through, also after writes were refused.
  pub passed-IsLimited :
      (pk : ℕ) (requests : List (ℕ × Request)) (bs : List Bucket) (b : Bucket)
      → find_row bucket_key (writes_key sha256 pk) bs ≡ some b
      → All (IsPostOf pk (b.started_at + 60)) requests
      → b.count ≤ settings.writes
      → (passed is_write requests bs + b.count ≤ settings.writes)
        × (passed is_stop requests bs ≡ count_where (λ (x : ℕ × Request). is_stop x.1) requests)
  unfolding passed count_where
  passed-IsLimited pk [] bs b f w l = (omega (arith, l), refl)
  passed-IsLimited pk ((now, r) ∷ rs) bs b f w l =
      let here = check_write_open pk now r bs b f w.0 in
      elim (Bool-cases (is_stop r)) [
        | inl e ↦
            let ih = passed-IsLimited pk rs bs b f w.1 l in
            let step : check u sha256 settings now r bs ≡ (bs, none) = rw e at here in
            rw (step, e) (omega (arith, ih.0), omega (arith, ih.1))
        | inr e ↦
            let step : check u sha256 settings now r bs
                ≡ charge (writes_key sha256 pk) settings.writes 60 now bs =
              rw e at here in
            elim (charge_open (writes_key sha256 pk) now bs b f w.0.in_time) [
              | inl (x, q) ↦
                  let ih = passed-IsLimited pk rs bs b f w.1 l in
                  rw (step, q, e) (omega (arith, ih.0), omega (arith, ih.1))
              | inr (room, q) ↦
                  let b' : Bucket = record b { count = b.count + 1 } in
                  let same : b'.key ≡ writes_key sha256 pk =
                    key-find_row bucket_key (writes_key sha256 pk) bs f in
                  let ih =
                    passed-IsLimited pk rs (put_bucket b' bs) b'
                      (rw (sym same) (find-put_bucket b' bs)) w.1 (omega (arith, room)) in
                  rw (step, q, e) (omega (arith, ih.0), omega (arith, ih.1))
            ]
      ]
