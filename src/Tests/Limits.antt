-- ===== src/Tests/Limits.antt =====
-- Runs of the rate limiter.
use mcpbouncer.Prelude.{◌*◌, ◌≤◌, ◌≡◌, refl, [], ◌∷◌, arith}
use mcpbouncer.RateLimit.{Buckets, Limiter, bucket_of, admit, collect}
use mcpbouncer.RateLimit.Collector.{admit-collect}
use mcpbouncer.RateLimit.Quota.{request, sweep, passed, passed-le}

abbrev limiter : Limiter
limiter = record { limit = 2; window = 10 }

abbrev buckets : Buckets
buckets = ("i", record { tokens = 1; window_start = 0; last_seen = 5 }) ∷ []

quota_example :
    passed limiter "i" (request "i" 6 ∷ request "j" 7 ∷ sweep 9 ∷ request "i" 11 ∷ []) buckets
    ≤ 2 * limiter.limit
unfolding bucket_of
quota_example =
    passed-le limiter "i" 5 (request "i" 6 ∷ request "j" 7 ∷ sweep 9 ∷ request "i" 11 ∷ []) buckets
      (refl, (omega arith, omega arith, omega arith), tt)
      (
        omega arith,
        omega arith,
        (omega arith, omega arith, (omega arith, omega arith, (omega arith, omega arith, tt))),
      )

collector_example :
    ((admit limiter "i" 31 (collect limiter 30 buckets)).0 ≡ (admit limiter "i" 31 buckets).0)
    × (bucket_of "i" (admit limiter "i" 31 (collect limiter 30 buckets)).1
        ≡ bucket_of "i" (admit limiter "i" 31 buckets).1)
unfolding bucket_of
collector_example =
    admit-collect limiter 30 31 "i" buckets (refl, (omega arith, omega arith, omega arith), tt)
      (omega arith)
