-- ===== src/Process.antt =====
-- sidecar/cmd/bouncer/main.go: the whole process. The routes of `Sidecar` stand behind the rate limiter
-- of /oauth/register, the audit middleware and the request log; beside them run the rotation, the
-- cleanup, the limiter's collector and the audit log's worker.
pub mod Trail
pub mod Room
pub mod Limits
pub mod Refusal
use mcpbouncer.Prelude.{
  ℕ, String, true, Option, none, some, List, [], ◌∷◌, ◌==◌, ltb, if◌then◌else◌,
}
use mcpbouncer.Prelude.Int.{pos}
use mcpbouncer.Json.{str, num}
use mcpbouncer.Platform.{Platform}
use mcpbouncer.Action.{World, Response, respond, tick, text_body}
use mcpbouncer.Http.{Request}
use mcpbouncer.Crypto.{Cipher}
use mcpbouncer.Tokens.{Issuer}
use mcpbouncer.RateLimit.{Limiter, Buckets, Verdict, pass, limited, admit, collect}
use mcpbouncer.Audit
use mcpbouncer.Audit.{Log, record_event, client_ip, persist, close}
use mcpbouncer.Sidecar.{dispatch}
use mcpbouncer.Keys.{rotate}
use mcpbouncer.Store.Janitor.{janitor_tick}

pub record Process : Type 0 where
  pub world : World
  pub buckets : Buckets
  pub audit : Log

-- What `main` builds at the start and never changes.
pub record Server : Type 0 where
  pub issuer : Issuer
  pub cipher : Cipher
  pub limiter : Limiter
  pub client_ttl : ℕ

-- What happens: a request, and one step of each background loop.
pub data Event : Type 0 where
  request : Request → Event
  rotation cleanup sweep write : Event

-- An http.Handler, over the state of the process.
abbrev pub Handler : Type 0
Handler = Process → Response × Process

-- auditEventTypeByPath
unfoldable pub event_type_of : String → Option String
event_type_of path =
    if path == "/oauth/register"
    then some "dcr.register"
    else if path == "/oauth/authorize"
    then some "oauth.authorize"
    else if path == "/oauth/callback"
    then some "oauth.callback"
    else if path == "/oauth/token"
    then some "oauth.token"
    else if path == "/oauth/revoke"
    then some "oauth.revoke"
    else if path == "/oauth/introspect"
    then some "oauth.introspect"
    else if path == "/oauth/userinfo"
    then some "oauth.userinfo"
    else none

module _ ⦃p : Platform⦄ where
  abbrev pub ticked : Process → Process
  ticked s = record s { world = tick s.world }

  abbrev pub clock_of : Process → ℕ
  clock_of s = p.clock s.world.step

  -- The event of a request that was answered with a status.
  unfoldable pub event_of : String → Request → ℕ → ℕ → Audit.Event
  event_of evt r status t = record {
    event_type = evt;
    client_id = "";
    sub = "";
    ip = client_ip r;
    success = ltb status 400;
    details = ("method", str r.method) ∷ ("status", num (pos status)) ∷ [];
    timestamp = t;
  }

  -- logger.Record behind the handler, whose response has been written.
  unfoldable pub submit : String → Request → Response → Process → Process
  unfolding event_of
  submit evt r answer s = record (ticked s) {
    audit = (record_event (clock_of s) (event_of evt r answer.status (clock_of s)) s.audit).1;
  }

  unfoldable pub audit_oauth : Request → Handler → Handler
  unfolding submit
  audit_oauth r next s = elim (event_type_of r.path) [
    | none ↦ next s
    | some evt ↦ let (answer, s') = next s in (answer, submit evt r answer s')
  ]

  -- The line that is logged has the time that the handler took.
  unfoldable pub log_requests : Handler → Handler
  log_requests next s = let (answer, s') = next (ticked s) in (answer, ticked s')

  unfoldable pub too_many_requests : ℕ → Response
  too_many_requests secs = record {
    status = 429;
    headers = ("Retry-After", p.decimal secs) ∷ [];
    body = text_body "rate limit exceeded";
  }

  unfoldable pub on_verdict : Verdict → Handler → Handler
  unfolding too_many_requests
  on_verdict pass next s = next s
  on_verdict (limited secs) next s = (too_many_requests secs, s)

  -- Limiter.Middleware
  unfoldable pub limit_requests : Limiter → Request → Handler → Handler
  unfolding on_verdict
  limit_requests l r next s =
      let (v, bs) = admit l (client_ip r) (clock_of s) s.buckets in
      on_verdict v next (record (ticked s) { buckets = bs })

  module _ (server : Server) where
    -- The handler of a route, run to its response.
    unfoldable pub answer : Request → Handler
    answer r s =
        let (out, w) = respond (dispatch server.issuer server.cipher r) s.world in
        (out, record s { world = w })

    unfoldable pub mux : Request → Handler
    mux r =
        if r.path == "/oauth/register" then limit_requests server.limiter r (answer r) else answer r

    unfoldable pub handler : Request → Handler
    handler r = log_requests (audit_oauth r (mux r))

    -- The worker takes the oldest event, if there is one.
    unfoldable pub write_next : List Audit.Event → Process → Process
    write_next [] s = s
    write_next (e ∷ es) s = record s {
      world = (persist e s.world).1;
      audit = record s.audit { pending = es };
    }

    unfoldable pub step : Event → Process → Process
    unfolding write_next
    step (request r) s = (handler r s).1
    step rotation s = record s { world = (rotate server.issuer.rotator s.world).1 }
    step cleanup s = record s { world = (janitor_tick server.client_ttl s.world).1 }
    step sweep s = record (ticked s) { buckets = collect server.limiter (clock_of s) s.buckets }
    step write s = write_next s.audit.pending s

    unfoldable pub run : List Event → Process → Process
    run [] s = s
    run (e ∷ es) s = run es (step e s)

    -- auditLog.Close() at the end of `main`, when the server has shut down.
    unfoldable pub shut_down : Process → Process
    shut_down s = let (l, w) = close s.audit s.world in record s { world = w; audit = l }
