-- ===== src/Server/Limiter.antt =====
-- internal/server/ratelimit.go: the token bucket. Times are in nanoseconds of the monotonic clock, and
-- tokens are counted in billionths, so that a refill is a whole number; the rounding of float64 is not
-- modelled.
pub mod Rate
use ccdash.Prelude.{
  ℕ, ◌+◌, ◌-◌, ◌*◌, min, Bool, true, false, List, [], ◌∷◌, suc, ltb, if◌then◌else◌,
}

abbrev pub token : ℕ
token = 1_000_000_000

pub record TokenBucket : Type 0 where
  pub tokens : ℕ
  pub capacity : ℕ
  pub refill : ℕ
  pub last : ℕ

unfoldable pub new_token_bucket : ℕ → ℕ → ℕ → TokenBucket
new_token_bucket qps burst now = record {
  tokens = burst * token;
  capacity = burst * token;
  refill = qps;
  last = now;
}

unfoldable pub refilled : TokenBucket → ℕ → ℕ
refilled b now = min (b.tokens + (now - b.last) * b.refill) b.capacity

unfoldable pub allow : TokenBucket → ℕ → TokenBucket × Bool
unfolding refilled
allow b now =
    let tokens = refilled b now in
    if ltb tokens token
    then (record b { tokens = tokens; last = now }, false)
    else (record b { tokens = tokens - token; last = now }, true)

-- The requests at a list of times: the bucket after them, and how many it let through.
unfoldable pub serve : TokenBucket → List ℕ → TokenBucket × ℕ
serve b [] = (b, 0)
serve b (now ∷ later) =
    let (b', ok) = allow b now in let (end, n) = serve b' later in (end, if ok then suc n else n)
