-- ===== src/As/Clients.antt =====
-- The authentication of a client, which the token, revocation and introspection endpoints repeat
-- (sidecar/internal/as/token.go, revoke.go, introspect.go).
use mcpbouncer.Prelude.{Done, String, not, Option, none, some, ◌==◌, if◌then◌else◌}
use mcpbouncer.Platform.{Platform}
use mcpbouncer.Action.{Action, ◌>>=◌, ◌>>◌, pure, must, given, fail, fail_with, reject_if}
use mcpbouncer.Store.Rows.{Result, ok, err, Client}
use mcpbouncer.Store.Clients.{get_client}
use mcpbouncer.Http.{Request, basic_challenge}
use mcpbouncer.Tokens.{hash_token}

unfoldable pub from_basic : Option (String × String) → Result (String × String)
from_basic none = err "no client credentials provided"
from_basic (some (u, pw)) = if u == "" then err "no client credentials provided" else ok (u, pw)

-- The id and the secret: of the form, or else of the Authorization header.
unfoldable pub extract_client_credentials : Request → Result (String × String)
unfolding from_basic
extract_client_credentials r =
    if r.form_value "client_id" == ""
    then from_basic r.basic_auth
    else ok (r.form_value "client_id", r.form_value "client_secret")

-- A POST with a form and credentials.
unfoldable pub read_credentials : Request → Action (String × String)
read_credentials r = do
  reject_if (not (r.method == "POST")) (fail 405 "invalid_request" "method not allowed")
  reject_if (not r.form_ok) (fail 400 "invalid_request" "cannot parse form")
  must (pure (extract_client_credentials r)) (λ e. fail 401 "invalid_client" e)

module _ ⦃p : Platform⦄ where
  unfoldable pub find_client : String → Action Client
  find_client client_id = do
    found ← must (get_client client_id) (λ _. fail 500 "server_error" "failed to look up client")
    given found (fail 401 "invalid_client" "unknown client")

  -- A confidential client, one with a stored hash, must show its secret.
  unfoldable pub check_secret : Client → String → Action Done
  check_secret c secret = if c.client_secret_hash == "" then pure tt else do
    reject_if (secret == "")
        (fail_with basic_challenge 401 "invalid_client" "client_secret required")
    reject_if (not (hash_token secret == c.client_secret_hash))
        (fail_with basic_challenge 401 "invalid_client" "invalid client_secret")
