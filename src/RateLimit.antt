-- ===== src/RateLimit.antt =====
-- sidecar/internal/httpx/ratelimit.go: the rate limiter of /oauth/register, with one bucket for each
-- client IP. Each request and each tick of the collector holds the mutex from its first read of the
-- buckets to its last write, so both are single steps here. Times are nanoseconds.
pub mod Collector
pub mod Quota
use mcpbouncer.Prelude.{
  ℕ, ◌+◌, ◌-◌, ◌*◌, ◌/◌, String, Bool, Option, none, some, List, [], ◌∷◌, ◌==◌, leb, ltb,
  if◌then◌else◌,
}
use mcpbouncer.Store.Rows.{second}

pub record Bucket : Type 0 where
  pub tokens : ℕ
  pub window_start : ℕ
  pub last_seen : ℕ

abbrev pub Buckets : Type 0
Buckets = List (String × Bucket)

pub record Limiter : Type 0 where
  pub limit : ℕ
  pub window : ℕ

-- The next handler runs, or the response is 429 with this Retry-After.
pub data Verdict : Type 0 where
  pass : Verdict
  limited : (retry_after : ℕ) → Verdict

-- l.buckets[ip]
unfoldable pub bucket_of : String → Buckets → Option Bucket
bucket_of ip [] = none
bucket_of ip ((j, b) ∷ bs) = if j == ip then some b else bucket_of ip bs

unfoldable pub put : String → Bucket → Buckets → Buckets
put ip b [] = (ip, b) ∷ []
put ip b ((j, c) ∷ bs) = if j == ip then (ip, b) ∷ bs else (j, c) ∷ put ip b bs

module _ (l : Limiter) where
  -- `!ok || now.Sub(b.windowStart) >= l.window`; a clock behind the window's start is no new window.
  unfoldable pub is_over : ℕ → Bucket → Bool
  is_over now b = leb (b.window_start + l.window) now

  abbrev pub fresh : ℕ → Bucket
  fresh now = record { tokens = l.limit; window_start = now; last_seen = now }

  -- The bucket that the request is counted in.
  unfoldable pub current : ℕ → Option Bucket → Bucket
  unfolding is_over
  current now none = fresh now
  current now (some b) = if is_over now b then fresh now else b

  -- math.Ceil of the seconds that are left, and at least 1.
  unfoldable pub retry_after : ℕ → Bucket → ℕ
  retry_after now b =
      let secs = (b.window_start + l.window - now + second - 1) / second in
      if ltb secs 1 then 1 else secs

  unfoldable pub decide : ℕ → Bucket → Verdict × Bucket
  unfolding retry_after
  decide now b =
      if leb b.tokens 0
      then (limited (retry_after now b), b)
      else (pass, record b { tokens = b.tokens - 1; last_seen = now })

  -- The middleware: the verdict on a request, and the buckets behind it.
  unfoldable pub admit : String → ℕ → Buckets → Verdict × Buckets
  admit ip now bs = let (v, b) = decide now (current now (bucket_of ip bs)) in (v, put ip b bs)

  -- A tick of the collector: what has not been touched for two windows goes.
  unfoldable pub collect : ℕ → Buckets → Buckets
  collect now [] = []
  collect now ((ip, b) ∷ bs) =
      let rest = collect now bs in
      if ltb (b.last_seen + 2 * l.window) now then rest else (ip, b) ∷ rest
