-- ===== src/Research/Dossiers/Limits/Windows.antt =====
-- A bucket admits no more than its limit in one window.
use research_desk.Prelude.{
  ℕ, suc, ◌+◌, ◌-◌, ◌≤◌, ◌<◌, ◌≡◌, max, sym, false, some, List, [], ◌∷◌, leb, if◌then◌else◌, arith,
  inl, inr, Bool-cases, All,
}
use research_desk.Table.{find_row, key-find_row}
use research_desk.Research.Dossiers.Model.{Bucket, done, refused, too_many_requests}
use research_desk.Research.Dossiers.Limits.{bucket_key, renew, put_bucket, consume}

pub find-put_bucket :
    (v : Bucket) (bs : List Bucket) → find_row bucket_key v.key (put_bucket v bs) ≡ some v
unfolding put_bucket find_row
find-put_bucket v [] = ground arith
find-put_bucket v (b ∷ bs) = ground (arith, find-put_bucket v bs)

module _ (key limit seconds : ℕ) where
  -- The number of the requests at these times that are let through, one after the other.
  pub let_through : List ℕ → List Bucket → ℕ
  let_through [] bs = 0
  let_through (now ∷ times) bs = elim (consume key limit seconds now bs) [
    | refused e ↦ let_through times bs
    | done bs' ↦ suc (let_through times bs')
  ]

  -- What `consume` does in a window that is open.
  pub consume_open :
      (now : ℕ) (bs : List Bucket) (b : Bucket)
      → find_row bucket_key key bs ≡ some b
      → now < b.started_at + seconds
      → consume key limit seconds now bs ≡ (
          if leb limit b.count
          then refused (too_many_requests (max 1 (b.started_at + seconds - now)))
          else done (put_bucket (record b { count = b.count + 1 }) bs))
  unfolding consume renew
  consume_open now bs b f l =
      let still : leb (b.started_at + seconds) now ≡ false = ground (arith, l) in rw (f, still)

  -- In a window of a bucket that is at its limit at most, the requests that are let through and those
  -- that were counted before are together no more than the limit, however many are made.
  pub let_through-le :
      (times : List ℕ) (bs : List Bucket) (b : Bucket)
      → find_row bucket_key key bs ≡ some b
      → All (λ now. now < b.started_at + seconds) times
      → b.count ≤ limit
      → let_through times bs + b.count ≤ limit
  unfolding let_through
  let_through-le [] bs b f w l = omega (arith, l)
  let_through-le (now ∷ times) bs b f w l =
      let open_window = consume_open now bs b f w.0 in
      elim (Bool-cases (leb limit b.count)) [
        | inl e ↦ rw (let_through, open_window, e) (let_through-le times bs b f w.1 l)
        | inr e ↦
            let b' : Bucket = record b { count = b.count + 1 } in
            let same : b'.key ≡ key = key-find_row bucket_key key bs f in
            let ih =
              let_through-le times (put_bucket b' bs) b' (rw (sym same) (find-put_bucket b' bs)) w.1
                (ground (arith, e)) in
            rw (let_through, open_window, e) (omega (arith, ih))
      ]
