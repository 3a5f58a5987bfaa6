-- ===== src/Process/Refusal.antt =====
-- What the rate limiter (sidecar/internal/httpx/ratelimit.go) answers where it refuses a request.
use mcpbouncer.Prelude.{
  ◌∷◌, [], Bool-cases, ℕ, ◌+◌, ◌*◌, ◌≤◌, ◌<◌, String, ◌≡◌, refl, true, Option, none, some, arith,
  ◌==◌, inl, inr,
}
use mcpbouncer.Platform.{Platform}
use mcpbouncer.Action.{text_body}
use mcpbouncer.Http.{Request}
use mcpbouncer.Store.Rows.{second}
use mcpbouncer.Audit.{client_ip}
use mcpbouncer.RateLimit.{
  Bucket, Buckets, Limiter, limited, bucket_of, is_over, admit, current, decide, retry_after,
}
use mcpbouncer.RateLimit.Collector.{IsWellFormed, bucket-IsSound}
use mcpbouncer.Process.{
  Process, Server, clock_of, too_many_requests, on_verdict, limit_requests, mux,
}

module _ (l : Limiter) (now : ℕ) where
  decide-limited :
      (b : Bucket) {secs : ℕ}
      → b.window_start ≤ now
      → now < b.window_start + l.window
      → (decide l now b).0 ≡ limited secs
      → (1 ≤ secs) × (secs * second < l.window + second)
  unfolding decide retry_after
  decide-limited b h k e = ground arith

  current-limited :
      (since : ℕ) (o : Option Bucket) {secs : ℕ}
      → 0 < l.window
      → since ≤ now
      → ((b : Bucket) → o ≡ some b → b.window_start ≤ since)
      → (decide l now (current l now o)).0 ≡ limited secs
      → (1 ≤ secs) × (secs * second < l.window + second)
  unfolding current is_over
  current-limited since none h k started e = decide-limited _ (omega arith) (omega arith) e
  current-limited since (some b) h k started e = elim (Bool-cases (is_over l now b)) [
    | inl over ↦
        decide-limited (current l now (some b)) (ground (arith, started b refl)) (ground arith) e
    | inr within ↦
        decide-limited (current l now (some b)) (ground (arith, started b refl)) (ground arith) e
  ]

  pub admit-limited :
      (since : ℕ) (ip : String) (bs : Buckets) {secs : ℕ}
      → 0 < l.window
      → since ≤ now
      → IsWellFormed l since bs
      → (admit l ip now bs).0 ≡ limited secs
      → (1 ≤ secs) × (secs * second < l.window + second)
  unfolding admit
  admit-limited since ip bs h k u e =
      current-limited since (bucket_of ip bs) h k
        (λ b found.
          let sound = bucket-IsSound l since ip bs {b = b} u found in omega (arith, sound))
        e

module _ ⦃p : Platform⦄ (server : Server) where
  pub mux-limited :
      (r : Request) (s : Process) (since secs : ℕ)
      → 0 < server.limiter.window
      → since ≤ clock_of s
      → IsWellFormed server.limiter since s.buckets
      → (r.path == "/oauth/register") ≡ true
      → (admit server.limiter (client_ip r) (clock_of s) s.buckets).0 ≡ limited secs
      → ((mux server r s).0 ≡ record {
        status = 429;
        headers = ("Retry-After", p.decimal secs) ∷ [];
        body = text_body "rate limit exceeded";
      })
        × (1 ≤ secs)
        × (secs * second < server.limiter.window + second)
        × ((mux server r s).1.world.db ≡ s.world.db)
        × ((mux server r s).1.world.providers ≡ s.world.providers)
        × ((mux server r s).1.audit ≡ s.audit)
  unfolding mux limit_requests on_verdict too_many_requests
  mux-limited r s since secs h k u path e =
      let (least, most) =
        admit-limited server.limiter (clock_of s) since (client_ip r) s.buckets h k u e in
      (
        rw (path, mux, e, on_verdict) refl,
        least,
        most,
        rw (path, mux, e, on_verdict) refl,
        rw (path, mux, e, on_verdict) refl,
        rw (path, mux, e, on_verdict) refl,
      )
