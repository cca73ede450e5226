-- ===== src/RateLimits/Tests.antt =====
-- A user whose writes are used up.
use research_desk.Prelude.{ℕ, ◌+◌, ◌≤◌, ◌<◌, arith, ◌≡◌, refl, some, List, [], ◌∷◌, Text, codes}
use research_desk.Unicode.{ascii}
use research_desk.Table.{find_row, count_where}
use research_desk.Research.Dossiers.Model.{Bucket, too_many_requests}
use research_desk.Research.Dossiers.Limits.{bucket_key, consume, renew, put_bucket}
use research_desk.RateLimits.{
  post, Request, Settings, charge, check, check_login, check_user, check_write, is_stop, is_login,
}
use research_desk.RateLimits.Writes.{IsPostOf, is_write, writes_key, passed, passed-IsLimited}

abbrev settings : Settings
settings = record { login_attempts = 20; writes = 1; searches = 1 }

abbrev full : List Bucket
full = record { key = 7; started_at = 100; count = 1 } ∷ []

abbrev hash : Text → ℕ
hash t = 7

abbrev stop_request : Request
stop_request = record {
  method = post;
  path = codes "/research/5/";
  remote_addr = [];
  username = [];
  action = codes "stop";
  tab = [];
  q = [];
  user = some 1;
}

refused_run :
    check ascii hash settings 110 (record stop_request { action = codes "start" }) full
    ≡ (full, some (too_many_requests 50))
unfolding check check_login check_user check_write is_stop is_login charge consume renew put_bucket
    find_row
refused_run = refl

abbrev start_request : Request
start_request = record stop_request { action = codes "start" }

-- A user with one write left: the second write is refused, and the stop after it is let through.
abbrev two_writes : Settings
two_writes = record settings { writes = 2 }

find_full :
    find_row bucket_key (writes_key hash 1) full
    ≡ some (record { key = 7; started_at = 100; count = 1 })
unfolding find_row
find_full = refl

IsPostOf-one :
    (now : ℕ) (action : Text)
    → now < 160
    → IsPostOf 1 160 (now, record stop_request { action = action })
unfolding is_login
IsPostOf-one now action l = record { in_time = l; posts = refl; elsewhere = refl; by_user = refl }

abbrev requests : List (ℕ × Request)
requests = (110, start_request) ∷ (111, start_request) ∷ (112, stop_request) ∷ []

passed-IsLimited_example :
    (passed ascii hash two_writes is_write requests full + 1 ≤ 2)
    × (passed ascii hash two_writes is_stop requests full
        ≡ count_where (λ (x : ℕ × Request). is_stop x.1) requests)
passed-IsLimited_example =
    passed-IsLimited ascii hash two_writes 1 requests full
      (record { key = 7; started_at = 100; count = 1 }) find_full
      (
        IsPostOf-one 110 (codes "start") (omega arith),
        (
          IsPostOf-one 111 (codes "start") (omega arith),
          (IsPostOf-one 112 (codes "stop") (omega arith), tt),
        ),
      )
      (omega arith)

-- Of the two writes, one is let through.
passed-run : passed ascii hash two_writes is_write requests full ≡ 1
unfolding passed check check_login check_user check_write is_stop is_login charge consume renew
    put_bucket find_row
passed-run = refl
