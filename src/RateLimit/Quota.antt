-- ===== src/RateLimit/Quota.antt =====
-- How many requests of one client the rate limiter lets pass (sidecar/internal/httpx/ratelimit.go).
use mcpbouncer.Prelude.{
  ℕ, ◌+◌, ◌*◌, ◌≤◌, ◌<◌, String, ◌≡◌, ◌⊎◌, refl, ap, ◌∙◌, inl, inr, true, Option, none, some, List,
  [], ◌∷◌, ◌==◌, eq_iff, arith, Bool-cases, if◌then◌else◌,
}
use mcpbouncer.RateLimit.{
  Bucket, Buckets, Limiter, Verdict, pass, limited, bucket_of, is_over, fresh, current, decide,
  admit, collect,
}
use mcpbouncer.RateLimit.Collector.{
  IsWellFormed, bucket_of-put, bucket-IsSound, bucket_of-collect-none, admit-IsWellFormed,
  collect-IsWellFormed, bucket_of-collect-none,
}

-- What happens to the buckets: a request of a client, or a tick of the collector.
pub data Event : Type 0 where
  request : (ip : String) (at : ℕ) → Event
  sweep : (at : ℕ) → Event

abbrev pub time_of : Event → ℕ
time_of (request ip at) = at
time_of (sweep at) = at

abbrev pub step : Limiter → Event → Buckets → Buckets
step l (request ip at) bs = (admit l ip at bs).1
step l (sweep at) bs = collect l at bs

abbrev pub passes : Verdict → ℕ
passes pass = 1
passes (limited s) = 0

-- How many of the events are requests of `ip` that pass.
abbrev pub passed : Limiter → String → List Event → Buckets → ℕ
passed l ip [] bs = 0
passed l ip (sweep at ∷ es) bs = passed l ip es (collect l at bs)
passed l ip (request j at ∷ es) bs =
    (if j == ip then passes (admit l j at bs).0 else 0) + passed l ip es (admit l j at bs).1

-- The events' times never go back, and all are before `last`.
abbrev pub IsRun : (since last : ℕ) → List Event → Type 0
IsRun since last [] = Unit
IsRun since last (e ∷ es) = (since ≤ time_of e) × (time_of e < last) × IsRun (time_of e) last es

abbrev left : Option Bucket → ℕ
left none = 0
left (some b) = b.tokens

decide-left :
    (l : Limiter) (now : ℕ) (b : Bucket)
    → passes (decide l now b).0 + (decide l now b).1.tokens ≡ b.tokens
unfolding decide
decide-left l now b = ground arith

bucket_of-admit :
    (l : Limiter) (i j : String) (now : ℕ) (bs : Buckets)
    → bucket_of j (admit l i now bs).1
      ≡ (if i == j then some (decide l now (current l now (bucket_of i bs))).1 else bucket_of j bs)
unfolding admit
bucket_of-admit l i j now bs = bucket_of-put i j _ bs

collect-same :
    (l : Limiter) (now : ℕ) (ip : String) (bs : Buckets) {b : Bucket}
    → bucket_of ip bs ≡ some b
    → now ≤ b.last_seen + 2 * l.window
    → bucket_of ip (collect l now bs) ≡ some b
unfolding collect bucket_of
collect-same l now ip [] h k = ground arith
collect-same l now ip ((i, c) ∷ bs) {b} h k = ground (arith, collect-same l now ip bs {b = b})

decide-window :
    (l : Limiter) (now : ℕ) (b : Bucket) → (decide l now b).1.window_start ≡ b.window_start
unfolding decide
decide-window l now b = ground arith

current-same :
    (l : Limiter) (now : ℕ) (b : Bucket)
    → now < b.window_start + l.window
    → current l now (some b) ≡ b
unfolding current is_over
current-same l now b h = ground arith

-- A request of the client itself, within the window: what passes is paid for.
spend :
    (l : Limiter) (ip j : String) (at : ℕ) (bs : Buckets) (b : Bucket)
    → bucket_of ip bs ≡ some b
    → (j == ip) ≡ true
    → at < b.window_start + l.window
    → (b' : Bucket) × (bucket_of ip (admit l j at bs).1 ≡ some b')
      × (passes (admit l j at bs).0 + b'.tokens ≡ b.tokens)
      × (b'.window_start ≡ b.window_start)
unfolding admit
spend l ip j at bs b h e k =
    let same = current-same l at b k in
    let found = ap (λ i. bucket_of i bs) ((eq_iff j ip).0 e) ∙ h in
    let now = ap (current l at) found ∙ same in
    let next = bucket_of-put j ip (decide l at (current l at (bucket_of j bs))).1 bs in
    ((decide l at b).1, ground arith, rw now (decide-left l at b), decide-window l at b)

-- Within the window of its bucket a client gets no more than the bucket's tokens.
in_window :
    (l : Limiter) (ip : String) (since last : ℕ) (es : List Event) (bs : Buckets) (b : Bucket)
    → IsWellFormed l since bs
    → bucket_of ip bs ≡ some b
    → last ≤ b.window_start + l.window
    → IsRun since last es
    → passed l ip es bs ≤ b.tokens
in_window l ip since last [] bs b u h k run = omega arith
in_window l ip since last (sweep at ∷ es) bs b u h k (a, c, run) =
    let seen = bucket-IsSound l since ip bs {b = b} u h in
    in_window l ip at last es (collect l at bs) b (collect-IsWellFormed l since at bs a u)
      (collect-same l at ip bs h (omega (arith, seen))) k run
in_window l ip since last (request j at ∷ es) bs b u h k (a, c, run) =
    let v = admit-IsWellFormed l since at j bs a u in
    let next = bucket_of-admit l j ip at bs in
    elim (Bool-cases (j == ip)) [
      | inr e ↦
          let rest = in_window l ip at last es (admit l j at bs).1 b v (ground arith) k run in
          ground arith
      | inl e ↦
          let (b', found, spent, start) = spend l ip j at bs b h e (omega (arith, c, k)) in
          let rest =
            in_window l ip at last es (admit l j at bs).1 b' v found (omega (arith, start, k))
              run in
          ground (arith, spent, rest)
    ]

earlier-IsRun :
    (since last last' : ℕ) (es : List Event)
    → last ≤ last'
    → IsRun since last es
    → IsRun since last' es
earlier-IsRun since last last' [] h run = tt
earlier-IsRun since last last' (e ∷ es) h (a, b, run) =
    (a, omega arith, earlier-IsRun (time_of e) last last' es h run)

collect-left :
    (l : Limiter) (since now : ℕ) (ip : String) (bs : Buckets)
    → IsWellFormed l since bs
    → left (bucket_of ip (collect l now bs)) ≤ left (bucket_of ip bs)
unfolding collect bucket_of
collect-left l since now ip [] u = omega arith
collect-left l since now ip ((i, c) ∷ bs) (alone, k, u) =
    ground (
      arith,
      collect-left l since now ip bs u,
      bucket_of-collect-none l now i bs alone,
      eq_iff i ip,
    )

paid :
    (l : Limiter) (j : String) (at : ℕ) (bs : Buckets)
    → passes (admit l j at bs).0 + (decide l at (current l at (bucket_of j bs))).1.tokens
      ≡ (current l at (bucket_of j bs)).tokens
unfolding admit
paid l j at bs = decide-left l at _

-- A client's request: it is counted in its bucket, or opens a new window.
current-cases :
    (l : Limiter) (now : ℕ) (o : Option Bucket)
    → (current l now o ≡ fresh l now) ⊎ (o ≡ some (current l now o))
unfolding current is_over
current-cases l now none = inl refl
current-cases l now (some b) = ground arith

-- In any stretch of time no longer than the window, whatever the other clients and the collector
-- do, no more requests of one client pass than what is left in its bucket and one limit more.
two_windows :
    (l : Limiter) (ip : String) (since from last : ℕ) (es : List Event) (bs : Buckets)
    → IsWellFormed l since bs
    → from ≤ since
    → last ≤ from + l.window
    → IsRun since last es
    → passed l ip es bs ≤ left (bucket_of ip bs) + l.limit
two_windows l ip since from last [] bs u h k run = omega arith
two_windows l ip since from last (sweep at ∷ es) bs u h k (a, c, run) =
    let rest =
      two_windows l ip at from last es (collect l at bs) (collect-IsWellFormed l since at bs a u)
        (omega (arith, a, h)) k run in
    omega (arith, rest, collect-left l since at ip bs u)
two_windows l ip since from last (request j at ∷ es) bs u h k (a, c, run) =
    let v = admit-IsWellFormed l since at j bs a u in
    let next = bucket_of-admit l j ip at bs in
    let rest = two_windows l ip at from last es (admit l j at bs).1 v (omega (arith, a, h)) k run in
    elim (Bool-cases (j == ip)) [
      | inr e ↦ ground (arith, rest, next)
      | inl e ↦
          let spent = paid l j at bs in
          let there = ap (λ i. bucket_of i bs) ((eq_iff j ip).0 e) in
          elim (current-cases l at (bucket_of j bs)) [
            | inr same ↦ ground (arith, rest, next, spent, there, same)
            | inl new ↦
                let b' = (decide l at (current l at (bucket_of j bs))).1 in
                let start =
                  decide-window l at (current l at (bucket_of j bs))
                  ∙ ap (λ b. b.window_start) new in
                let fresh_rest =
                  in_window l ip at last es (admit l j at bs).1 b' v (next ∙ rw e refl)
                    (omega (arith, start, k, h, a)) run in
                let full = ap (λ b. b.tokens) new in ground (arith, fresh_rest, spent, full)
          ]
    ]

left-le :
    (l : Limiter) (since : ℕ) (ip : String) (bs : Buckets) (o : Option Bucket)
    → IsWellFormed l since bs
    → bucket_of ip bs ≡ o
    → left o ≤ l.limit
left-le l since ip bs none u e = omega arith
left-le l since ip bs (some b) u e = (bucket-IsSound l since ip bs {b = b} u e).0

-- From well-formed buckets, and over any run of requests and collector ticks that lasts no longer
-- than the window and whose times never go back, at most twice the limit of one client's requests
-- pass, whatever the other clients do.
pub passed-le :
    (l : Limiter) (ip : String) (since : ℕ) (es : List Event) (bs : Buckets)
    → IsWellFormed l since bs
    → IsRun since (since + l.window) es
    → passed l ip es bs ≤ 2 * l.limit
passed-le l ip since es bs u run =
    let most =
      two_windows l ip since since (since + l.window) es bs u (omega arith) (omega arith) run in
    omega (arith, most, left-le l since ip bs _ u refl)
