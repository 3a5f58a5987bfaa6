-- ===== src/Http.antt =====
-- What a handler reads of an HTTP request (net/http), and the responses of writeJSON and
-- http.Redirect (sidecar/internal/as/wellknown.go).
use mcpbouncer.Prelude.{ℕ, String, Bool, Option, List, [], ◌∷◌}
use mcpbouncer.Store.Rows.{Bytes, Result}
use mcpbouncer.Action.{Response, Body, location}

pub record Request : Type 0 where
  pub method : String
  pub path : String
  -- r.Header.Get, r.URL.Query().Get and r.FormValue: empty where there is none.
  pub header : String → String
  pub query : String → String
  pub form_value : String → String
  -- r.ParseForm succeeds.
  pub form_ok : Bool
  -- r.BasicAuth
  pub basic_auth : Option (String × String)
  -- The first 64 KiB of the body.
  pub body : Result Bytes
  pub remote_addr : String

unfoldable pub write_json : ℕ → Body → Response
write_json status body = record { status = status; headers = []; body = body }

unfoldable pub redirect : String → List (String × String) → Response
redirect url params = record { status = 302; headers = []; body = location url params }

-- The challenge set before `writeError` where a client's secret is missing or wrong.
abbrev pub basic_challenge : List (String × String)
basic_challenge = ("WWW-Authenticate", "Basic realm=\"oauth\"") ∷ []
