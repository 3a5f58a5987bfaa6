-- ===== src/RateLimit/Collector.antt =====
-- The collector of the rate limiter (sidecar/internal/httpx/ratelimit.go) forgets nothing that matters.
use mcpbouncer.Prelude.{
  ℕ, ◌≤◌, String, ◌≡◌, refl, Option, none, some, [], ◌∷◌, ◌==◌, eq_iff, eq_refl, arith,
  if◌then◌else◌,
}
use mcpbouncer.RateLimit.{
  Bucket, Buckets, Limiter, bucket_of, put, is_over, current, decide, admit, collect,
}

-- Every client has one bucket, which has at most the limit's tokens; its window had begun when it was
-- last seen, and that is not after `now`.
abbrev IsSound : Limiter → ℕ → Bucket → Type 0
IsSound l now b = (b.tokens ≤ l.limit) × (b.window_start ≤ b.last_seen) × (b.last_seen ≤ now)

abbrev pub IsWellFormed : Limiter → ℕ → Buckets → Type 0
IsWellFormed l now [] = Unit
IsWellFormed l now ((ip, b) ∷ bs) =
    (bucket_of ip bs ≡ none) × IsSound l now b × IsWellFormed l now bs

pub bucket_of-put :
    (ip j : String) (b : Bucket) (bs : Buckets)
    → bucket_of j (put ip b bs) ≡ (if ip == j then some b else bucket_of j bs)
unfolding bucket_of put
bucket_of-put ip j b [] = refl
bucket_of-put ip j b ((i, c) ∷ bs) =
    ground (arith, bucket_of-put ip j b bs, eq_iff i ip, eq_iff i j, eq_iff ip j)

put-IsWellFormed :
    (l : Limiter) (now : ℕ) (ip : String) (b : Bucket) (bs : Buckets)
    → IsSound l now b
    → IsWellFormed l now bs
    → IsWellFormed l now (put ip b bs)
unfolding put bucket_of
put-IsWellFormed l now ip b [] h u = (refl, h, tt)
put-IsWellFormed l now ip b ((i, c) ∷ bs) h (alone, k, u) =
    ground
      (arith, put-IsWellFormed l now ip b bs h u, bucket_of-put ip i b bs, eq_iff i ip, eq_iff ip i)

pub bucket-IsSound :
    (l : Limiter) (now : ℕ) (ip : String) (bs : Buckets) {b : Bucket}
    → IsWellFormed l now bs
    → bucket_of ip bs ≡ some b
    → IsSound l now b
unfolding bucket_of
bucket-IsSound l now ip [] u h = ground arith
bucket-IsSound l now ip ((i, c) ∷ bs) {b} (alone, k, u) h =
    ground (arith, bucket-IsSound l now ip bs {b = b} u)

later-IsWellFormed :
    (l : Limiter) (t now : ℕ) (bs : Buckets) → t ≤ now → IsWellFormed l t bs → IsWellFormed l now bs
later-IsWellFormed l t now [] h u = tt
later-IsWellFormed l t now ((i, c) ∷ bs) h (alone, (a, b, k), u) =
    (alone, (a, b, omega arith), later-IsWellFormed l t now bs h u)

decide-IsSound :
    (l : Limiter) (t now : ℕ) (o : Option Bucket)
    → t ≤ now
    → ((b : Bucket) → o ≡ some b → IsSound l t b)
    → IsSound l now (decide l now (current l now o)).1
unfolding decide current is_over
decide-IsSound l t now none h k = ground arith
decide-IsSound l t now (some b) h k = let s = k b refl in ground arith

-- A request that comes no earlier than what the buckets have seen leaves them well-formed.
pub admit-IsWellFormed :
    (l : Limiter) (t now : ℕ) (ip : String) (bs : Buckets)
    → t ≤ now
    → IsWellFormed l t bs
    → IsWellFormed l now (admit l ip now bs).1
unfolding admit
admit-IsWellFormed l t now ip bs h u =
    put-IsWellFormed l now ip _ bs
      (decide-IsSound l t now (bucket_of ip bs) h (λ b e. bucket-IsSound l t ip bs {b = b} u e))
      (later-IsWellFormed l t now bs h u)

pub bucket_of-collect-none :
    (l : Limiter) (t : ℕ) (ip : String) (bs : Buckets)
    → bucket_of ip bs ≡ none
    → bucket_of ip (collect l t bs) ≡ none
unfolding bucket_of collect
bucket_of-collect-none l t ip [] h = refl
bucket_of-collect-none l t ip ((i, c) ∷ bs) h = ground (arith, bucket_of-collect-none l t ip bs)

pub collect-IsWellFormed :
    (l : Limiter) (t now : ℕ) (bs : Buckets)
    → t ≤ now
    → IsWellFormed l t bs
    → IsWellFormed l now (collect l now bs)
unfolding collect
collect-IsWellFormed l t now [] h u = tt
collect-IsWellFormed l t now ((i, c) ∷ bs) h (alone, (a, b, k), u) =
    ground (arith, collect-IsWellFormed l t now bs h u, bucket_of-collect-none l now i bs alone)

-- The collector leaves a bucket alone, or takes one whose window is over.
bucket_of-collect :
    (l : Limiter) (t now : ℕ) (ip : String) (bs : Buckets)
    → IsWellFormed l t bs
    → t ≤ now
    → current l now (bucket_of ip (collect l t bs)) ≡ current l now (bucket_of ip bs)
unfolding bucket_of collect current is_over
bucket_of-collect l t now ip [] u h = refl
bucket_of-collect l t now ip ((i, c) ∷ bs) (alone, k, u) h =
    ground (
      arith,
      bucket_of-collect l t now ip bs u h,
      bucket_of-collect-none l t i bs alone,
      eq_iff i ip,
    )

-- A tick of the collector changes no later answer: on well-formed buckets, a request at the time
-- of the tick or later gets the verdict that it would have got without the tick, and is counted in
-- the same bucket.
pub admit-collect :
    (l : Limiter) (t now : ℕ) (ip : String) (bs : Buckets)
    → IsWellFormed l t bs
    → t ≤ now
    → ((admit l ip now (collect l t bs)).0 ≡ (admit l ip now bs).0)
      × (bucket_of ip (admit l ip now (collect l t bs)).1 ≡ bucket_of ip (admit l ip now bs).1)
unfolding admit
admit-collect l t now ip bs u h =
    let same = bucket_of-collect l t now ip bs u h in
    rw same (refl, simp (bucket_of-put, eq_refl ip))
