-- ===== src/As/Authorize.antt =====
-- sidecar/internal/as/authorize.go: the start of a login, which is handed to the upstream provider.
use mcpbouncer.Prelude.{
  ℕ, ◌+◌, ◌*◌, String, not, ◌||◌, List, [], ◌∷◌, ◌++◌, ◌==◌, ◌<>◌, contains_string, if◌then◌else◌,
}
use mcpbouncer.Platform.{Platform}
use mcpbouncer.Action.{
  Action, Response, ◌>>=◌, ◌>>◌, pure, must, given, fail, reject_if, now, read_random,
}
use mcpbouncer.Store.Rows.{Client, AuthSession, second}
use mcpbouncer.Store.Clients.{get_client, touch_client}
use mcpbouncer.Store.Grants.{insert_auth_session}
use mcpbouncer.Http.{Request, redirect}
use mcpbouncer.Config.{ResourceConfig}
use mcpbouncer.Oidc.{discover}
use mcpbouncer.As.Token.{pkce_s256_challenge}

abbrev pub minute : ℕ
minute = 60 * second

module _ ⦃p : Platform⦄ where
  -- The client, if the redirect URI is one of its own.
  unfoldable pub find_registered : (client_id redirect_uri : String) → Action Client
  find_registered client_id redirect_uri = do
    found ← must (get_client client_id) (λ _. fail 500 "server_error" "failed to look up client")
    client ← given found (fail 401 "invalid_client" "unknown client_id")
    touch_client client.client_id
    allowed ←
        given (p.unmarshal_strings client.redirect_uris_json)
          (fail 500 "server_error" "invalid redirect_uris in client record")
    reject_if (not (contains_string allowed redirect_uri))
        (fail 400 "invalid_request" "redirect_uri not registered for this client")
    pure client

  -- The session of a request, under the upstream's state.
  unfoldable pub session_of : ResourceConfig → Request → (state verifier : String) → ℕ → AuthSession
  session_of rc r state verifier t = record {
    state = state;
    code_challenge = r.query "code_challenge";
    code_challenge_method = r.query "code_challenge_method";
    redirect_uri = r.query "redirect_uri";
    client_id = r.query "client_id";
    resource = rc.name;
    scopes = if r.query "scope" == "" then rc.scopes else r.query "scope";
    provider_issuer = rc.provider_issuer;
    public_base = rc.public_base;
    upstream_state = state;
    upstream_pkce_verifier = verifier;
    original_state = r.query "state";
    created_at = t;
    expires_at = t + 10 * minute;
  }

  -- The query that replaces the one of the provider's endpoint.
  unfoldable pub upstream_query :
      ResourceConfig → Request → (state verifier : String) → List (String × String)
  upstream_query rc r state verifier =
      (("response_type", "code")
        ∷ ("client_id", rc.client_id)
        ∷ ("redirect_uri", rc.public_base <> "/oauth/callback")
        ∷ ("scope", rc.scopes)
        ∷ ("state", state)
        ∷ ("code_challenge", pkce_s256_challenge verifier)
        ∷ ("code_challenge_method", "S256")
        ∷ [])
      ++ (if r.query "prompt" == "" then [] else ("prompt", r.query "prompt") ∷ [])

  unfoldable pub start_login : ResourceConfig → Request → Action Response
  unfolding session_of
  start_login rc r = do
    provider ←
        must (discover rc.provider_issuer)
          (λ e. fail 502 "server_error" ("upstream discovery failed: " <> e))
    verifier_bytes ←
        must (read_random 32) (λ _. fail 500 "server_error" "failed to generate PKCE verifier")
    state_bytes ←
        must (read_random 16) (λ _. fail 500 "server_error" "failed to generate upstream state")
    let verifier = p.base64url verifier_bytes
    let state = p.base64url state_bytes
    t ← now
    must (insert_auth_session (session_of rc r state verifier t))
        (λ _. fail 500 "server_error" "failed to save session")
    reject_if (not (p.url_ok provider.auth_endpoint))
        (fail 500 "server_error" "invalid upstream auth endpoint")
    pure (redirect provider.auth_endpoint (upstream_query rc r state verifier))

  unfoldable pub handle_authorize : ResourceConfig → Request → Action Response
  handle_authorize rc r = do
    reject_if (not (r.query "response_type" == "code"))
        (fail 400 "unsupported_response_type" "response_type must be 'code'")
    reject_if
        (r.query "client_id" == ""
          || r.query "redirect_uri" == ""
          || r.query "code_challenge" == "")
        (fail 400 "invalid_request" "missing required parameter")
    reject_if (not (r.query "code_challenge_method" == "S256"))
        (fail 400 "invalid_request" "code_challenge_method must be S256")
    find_registered (r.query "client_id") (r.query "redirect_uri")
    start_login rc r
