-- ===== src/Process/Limits.antt =====
-- The rate limit of /oauth/register (sidecar/cmd/bouncer/main.go, sidecar/internal/httpx/ratelimit.go) in
-- the whole process.
use mcpbouncer.Audit.{client_ip}
use mcpbouncer.Process.{
  too_many_requests, ticked, clock_of, event_type_of, submit, log_requests, limit_requests, answer,
  write_next, step, on_verdict, mux, handler, audit_oauth, Process, Server, Event, request,
  rotation, cleanup, sweep, write, Handler,
}
use mcpbouncer.Prelude.{
  nat_beq, if◌then◌else◌, ◌==◌, ◌&&◌, ap, ◌∙◌, inl, inr, inr, inl, Bool-cases, ap, Option-cases,
  ◌∙◌, String, ℕ, ◌+◌, ◌*◌, ◌≤◌, ◌≡◌, refl, List, [], ◌∷◌, ◌++◌, arith,
}
use mcpbouncer.Platform.{Platform}
use mcpbouncer.Audit
use mcpbouncer.Http.{Request}
use mcpbouncer.RateLimit.{Verdict, pass, limited, admit}
use mcpbouncer.RateLimit.Collector.{IsWellFormed}
use mcpbouncer.RateLimit.Quota
use mcpbouncer.RateLimit.Quota.{passed, passes, passed-le, IsRun}

module _ ⦃p : Platform⦄ (server : Server) where
  -- The requests that meet the limiter, and the ticks of its collector, each with its time.
  abbrev pub timed : Event → Process → List Quota.Event
  timed (request r) s =
      if r.path == "/oauth/register"
      then Quota.request (client_ip r) (clock_of (ticked s)) ∷ []
      else []
  timed sweep s = Quota.sweep (clock_of s) ∷ []
  timed _ s = []

  abbrev pub trace : List Event → Process → List Quota.Event
  trace [] s = []
  trace (e ∷ es) s = timed e s ++ trace es (step server e s)

  -- 1 where the event is a client's request that reaches the registration's handler.
  abbrev pub reaches : String → Event → Process → ℕ
  reaches ip (request r) s =
      if r.path == "/oauth/register" && client_ip r == ip
      then passes (admit server.limiter (client_ip r) (clock_of (ticked s)) s.buckets).0
      else 0
  reaches ip _ s = 0

  abbrev pub reached : String → List Event → Process → ℕ
  reached ip [] s = 0
  reached ip (e ∷ es) s = reaches ip e s + reached ip es (step server e s)

  verdict-buckets :
      (v : Verdict) (r : Request) (s : Process)
      → (on_verdict v (answer server r) s).1.buckets ≡ s.buckets
  unfolding on_verdict answer
  verdict-buckets pass r s = refl
  verdict-buckets (limited secs) r s = refl

  mux-buckets :
      (r : Request) (s : Process)
      → (mux server r s).1.buckets ≡ (
          if r.path == "/oauth/register"
          then (admit server.limiter (client_ip r) (clock_of s) s.buckets).1
          else s.buckets)
  unfolding mux limit_requests answer
  mux-buckets r s = elim (Bool-cases (r.path == "/oauth/register")) [
    | inl e ↦ rw (e, mux) (verdict-buckets _ r _)
    | inr e ↦ rw (e, mux, answer) refl
  ]

  audit-buckets :
      (r : Request) (next : Handler) (s : Process)
      → (audit_oauth r next s).1.buckets ≡ (next s).1.buckets
  unfolding audit_oauth submit
  audit-buckets r next s = elim (Option-cases (event_type_of r.path)) [
    | inl e ↦ rw (e, audit_oauth) refl
    | inr (evt, e) ↦ rw (e, audit_oauth) refl
  ]

  handler-buckets :
      (r : Request) (s : Process)
      → (handler server r s).1.buckets ≡ (
          if r.path == "/oauth/register"
          then (admit server.limiter (client_ip r) (clock_of (ticked s)) s.buckets).1
          else s.buckets)
  unfolding handler log_requests
  handler-buckets r s = audit-buckets r (mux server r) (ticked s) ∙ mux-buckets r (ticked s)

  write-buckets :
      (es : List Audit.Event) (s : Process) → (write_next server es s).buckets ≡ s.buckets
  unfolding write_next
  write-buckets [] s = refl
  write-buckets (e ∷ es) s = refl

  -- The process's count is the count of the limiter alone.
  reached-passed :
      (ip : String) (es : List Event) (s : Process)
      → reached ip es s ≡ passed server.limiter ip (trace es s) s.buckets
  unfolding step
  reached-passed ip [] s = refl
  reached-passed ip (rotation ∷ es) s = omega (arith, reached-passed ip es (step server rotation s))
  reached-passed ip (cleanup ∷ es) s = omega (arith, reached-passed ip es (step server cleanup s))
  reached-passed ip (sweep ∷ es) s = omega (arith, reached-passed ip es (step server sweep s))
  reached-passed ip (write ∷ es) s =
      let s' = step server write s in
      let rest =
        reached-passed ip es s'
        ∙ ap (λ bs. passed server.limiter ip (trace es s') bs) (write-buckets s.audit.pending s) in
      omega (arith, rest)
  reached-passed ip (request r ∷ es) s =
      let s' = step server (request r) s in
      let rest = reached-passed ip es s' in
      let next = handler-buckets r s in
      elim (Bool-cases (r.path == "/oauth/register")) [
        | inl e ↦
            let there =
              rest ∙ ap (λ bs. passed server.limiter ip (trace es s') bs) (rw e at next) in
            rw e (omega (arith, there))
        | inr e ↦
            let there =
              rest ∙ ap (λ bs. passed server.limiter ip (trace es s') bs) (rw e at next) in
            rw e (omega (arith, there))
      ]

  handler-answer :
      (r : Request) (s : Process) → (handler server r s).0 ≡ (mux server r (ticked s)).0
  unfolding handler log_requests audit_oauth
  handler-answer r s = elim (Option-cases (event_type_of r.path)) [
    | inl e ↦ rw (e, audit_oauth) refl
    | inr (evt, e) ↦ rw (e, audit_oauth) refl
  ]

  -- 1 where the event is a client's request to /oauth/register and its answer is not 429.
  abbrev pub serves : String → Event → Process → ℕ
  serves ip (request r) s =
      if r.path == "/oauth/register" && client_ip r == ip
      then if nat_beq (handler server r s).0.status 429 then 0 else 1
      else 0
  serves ip _ s = 0

  abbrev pub served : String → List Event → Process → ℕ
  served ip [] s = 0
  served ip (e ∷ es) s = serves ip e s + served ip es (step server e s)

  verdict-status :
      (v : Verdict) (next : Handler) (s : Process)
      → (if nat_beq (on_verdict v next s).0.status 429 then 0 else 1) ≤ passes v
  unfolding on_verdict too_many_requests
  verdict-status pass next s = ground arith
  verdict-status (limited secs) next s = omega arith

  serves-le : (ip : String) (e : Event) (s : Process) → serves ip e s ≤ reaches ip e s
  unfolding mux limit_requests
  serves-le ip (request r) s = elim (Bool-cases (r.path == "/oauth/register")) [
    | inr e ↦ rw e (omega arith)
    | inl e ↦
        let v = admit server.limiter (client_ip r) (clock_of (ticked s)) s.buckets in
        let bound =
          verdict-status v.0 (answer server r) (record (ticked (ticked s)) { buckets = v.1 }) in
        let answered : (handler server r s).0
            ≡ (on_verdict v.0 (answer server r) (record (ticked (ticked s)) { buckets = v.1 })).0 =
          handler-answer r s ∙ rw (e, mux) refl in
        elim (Bool-cases (client_ip r == ip)) [
          | inl e' ↦ rw (e, e', answered) bound
          | inr e' ↦ rw (e, e') (omega arith)
        ]
  ]
  serves-le ip rotation s = omega arith
  serves-le ip cleanup s = omega arith
  serves-le ip sweep s = omega arith
  serves-le ip write s = omega arith

  served-reached : (ip : String) (es : List Event) (s : Process) → served ip es s ≤ reached ip es s
  served-reached ip [] s = omega arith
  served-reached ip (e ∷ es) s =
      omega (arith, serves-le ip e s, served-reached ip es (step server e s))

  -- In a run of the process that lasts no longer than the limiter's window, and whose times never go
  -- back, at most twice the limit of one client's requests to /oauth/register are answered with
  -- another status than 429, whatever else is requested and done; the limiter's buckets are
  -- well-formed at the start.
  pub served-le :
      (ip : String) (since : ℕ) (es : List Event) (s : Process)
      → IsWellFormed server.limiter since s.buckets
      → IsRun since (since + server.limiter.window) (trace es s)
      → served ip es s ≤ 2 * server.limiter.limit
  served-le ip since es s u ordered = omega (
    arith,
    served-reached ip es s,
    reached-passed ip es s,
    passed-le server.limiter ip since (trace es s) s.buckets u ordered,
  )
