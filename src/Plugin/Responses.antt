-- ===== src/Plugin/Responses.antt =====
-- The responses of plugin/mcpbouncer.go: the CORS headers of every response, the preflight's answer, the
-- challenge of a refused request, and the record of the backend's status.
use mcpbouncer.Prelude.{
  ℕ, String, Bool, true, Option, none, some, List, [], ◌∷◌, ◌++◌, ◌==◌, ◌<>◌, nat_beq,
  if◌then◌else◌,
}
use mcpbouncer.Json.{str}
use mcpbouncer.Platform.{Platform, PublicKey}
use mcpbouncer.Action.{Response, empty, claims_body}
use mcpbouncer.Store.Rows.{Result}
use mcpbouncer.Plugin.Routing.{PluginConfig, public_base}
use mcpbouncer.Plugin.Middleware.{
  Headers, Verdict, preflight, to_sidecar, unauthorized, to_backend, strip_internal, header_get,
  serve,
}

-- setCORS, on the headers of a response that has none yet.
unfoldable pub set_cors : String → Headers
set_cors origin =
    if origin == ""
    then []
    else ("Access-Control-Allow-Origin", origin)
      ∷ ("Vary", "Origin")
      ∷ ("Access-Control-Allow-Methods", "GET, POST, OPTIONS, DELETE")
      ∷ (
        "Access-Control-Allow-Headers",
        "Authorization, Content-Type, Accept, Mcp-Session-Id, Last-Event-Id, X-Requested-With",
      )
      ∷ ("Access-Control-Expose-Headers", "WWW-Authenticate, Mcp-Session-Id")
      ∷ ("Access-Control-Max-Age", "600")
      ∷ []

abbrev pub metadata_suffix : String
metadata_suffix = "/.well-known/oauth-protected-resource"

-- unauthorized, behind the CORS headers.
unfoldable pub refuse : Headers → (base : String) → Response
refuse cors base = record {
  status = 401;
  headers =
      cors
      ++ ("WWW-Authenticate", "Bearer resource_metadata=\"" <> base <> metadata_suffix <> "\"")
        ∷ ("Content-Type", "application/json")
        ∷ [];
  body = claims_body (("error", str "unauthorized") ∷ []);
}

-- What a request comes to: a response of the middleware's own, or a request that is passed on, to a
-- server whose response gets the CORS headers too.
pub data Reply : Type 0 where
  written : Response → Reply
  proxied : (cors : Headers) → (path : String) → Headers → Reply
  forwarded : (cors : Headers) → Headers → Reply

unfoldable pub reply_of : Headers → (base : String) → Verdict → Reply
unfolding refuse
reply_of cors base preflight = written (record { status = 204; headers = cors; body = empty })
reply_of cors base (unauthorized reason) = written (refuse cors base)
reply_of cors base (to_sidecar path hs) = proxied cors path hs
reply_of cors base (to_backend hs) = forwarded cors hs

-- backendStatusRecorder, and what the handler behind it calls.
pub record Recorder : Type 0 where
  pub status : ℕ
  pub wrote_header : Bool

pub data Call : Type 0 where
  write_header : ℕ → Call
  write_body flush : Call

unfoldable pub record_call : Call → Recorder → Recorder
record_call (write_header code) r =
    if r.wrote_header then r else record { status = code; wrote_header = true }
record_call write_body r =
    if r.wrote_header then r else record { status = 200; wrote_header = true }
record_call flush r = r

unfoldable pub record_calls : List Call → Recorder → Recorder
unfolding record_call
record_calls [] r = r
record_calls (c ∷ cs) r = record_calls cs (record_call c r)

pub data Hint : Type 0 where
  wrong_path wrong_method : Hint

-- The hint that is logged on the backend's status.
unfoldable pub hint_of : Recorder → Option Hint
hint_of r =
    if nat_beq r.status 404
    then some wrong_path
    else if nat_beq r.status 405
    then some wrong_method
    else none

module _ ⦃p : Platform⦄ where
  -- ServeHTTP
  unfoldable pub serve_http :
      PluginConfig
      → (String → String → Result PublicKey)
      → (host : String) → ℕ
      → (method path : String) → Headers
      → Reply
  unfolding set_cors reply_of
  serve_http cfg get_key host t method path headers =
      let hs = strip_internal headers in
      reply_of (set_cors (header_get hs "Origin")) (public_base cfg host (header_get hs) path)
        (serve cfg get_key host t method path headers)
