-- ===== src/As/Callback.antt =====
-- sidecar/internal/as/callback.go: the upstream provider's redirect back, which becomes a code.
use mcpbouncer.Prelude.{
  ℕ, ◌+◌, ◌*◌, Done, String, Bool, not, ◌||◌, List, [], ◌∷◌, ◌++◌, ◌==◌, ◌<>◌, ltb, contains_string,
  if◌then◌else◌,
}
use mcpbouncer.Json.{Claims, get_claim, retain, string_or_empty}
use mcpbouncer.Platform.{Platform, Provider, TokenResponse}
use mcpbouncer.Action.{
  on_result, on_option, Action, Response, ◌>>=◌, ◌>>◌, pure, must, given, fail, finish, reject_if,
  now, read_random,
}
use mcpbouncer.Store.Rows.{Bytes, Result, ok, err, AuthSession, Code, second}
use mcpbouncer.Store.Grants.{get_auth_session, delete_auth_session, insert_code}
use mcpbouncer.Http.{Request, redirect}
use mcpbouncer.Crypto.{Cipher, encrypt}
use mcpbouncer.Config.{ResourceConfig}
use mcpbouncer.Oidc.{discover, exchange_code, userinfo, decode_id_token}

-- The claims of the user that are passed on.
abbrev pub allowed_claims : List String
allowed_claims =
    "email" ∷ "email_verified" ∷ "name" ∷ "given_name" ∷ "family_name" ∷ "picture" ∷ "locale" ∷ "hd"
    ∷ "preferred_username" ∷ []

-- cq.Set(k, v) where v is not empty.
abbrev pub unless_empty : String → String → List (String × String)
unless_empty k v = if v == "" then [] else (k, v) ∷ []

-- sub, or "unknown".
unfoldable pub subject_of : Claims → String
subject_of claims =
    let sub = string_or_empty (get_claim claims "sub") in if sub == "" then "unknown" else sub

-- The parameters of an error that goes to the client.
unfoldable pub error_params : Request → String → List (String × String)
error_params r original_state =
    ("error", r.query "error")
    ∷ (unless_empty "error_description" (r.query "error_description")
        ++ unless_empty "state" original_state)

unfoldable claims_or_none : Result Claims → Claims
claims_or_none (ok claims) = claims
claims_or_none (err e) = []

unfoldable answer_client : Bool → Response → Action Done
answer_client ok_url answer = if ok_url then finish answer else pure tt

module _ ⦃p : Platform⦄ where
  -- The session of an error response is deleted, and the error goes to the client.
  unfoldable report_to_client : Request → AuthSession → Action Done
  unfolding answer_client
  report_to_client r sess = do
    delete_auth_session (r.query "state")
    answer_client (p.url_ok sess.redirect_uri)
        (redirect sess.redirect_uri (error_params r sess.original_state))

  unfoldable try_report : Request → Action Done
  unfolding report_to_client
  try_report r = do
    looked ← get_auth_session (r.query "state")
    on_result looked (λ found. on_option found (report_to_client r) (pure tt)) (λ _. pure tt)

  -- `if upstreamErr := q.Get("error"); upstreamErr != ""`
  unfoldable pub handle_upstream_error : Request → Action Done
  unfolding try_report
  handle_upstream_error r = if r.query "error" == "" then pure tt else do
    if r.query "state" == "" then pure tt else try_report r
    fail 400 (r.query "error") (r.query "error_description")

  -- The session under the state, if it has not expired.
  unfoldable pub find_session : String → Action AuthSession
  find_session state = do
    found ← must (get_auth_session state) (λ _. fail 500 "server_error" "failed to look up session")
    sess ← given found (fail 400 "invalid_request" "unknown or expired state")
    t ← now
    reject_if (ltb sess.expires_at t)
        (delete_auth_session state >> fail 400 "invalid_request" "session expired")
    pure sess

  -- The user's claims: of the id token, or else of the userinfo endpoint. An error gives none.
  unfoldable pub user_claims : Provider → TokenResponse → Action Claims
  unfolding claims_or_none
  user_claims provider tr =
      if tr.id_token == ""
      then (userinfo provider tr.access_token >>= λ answer. pure (claims_or_none answer))
      else pure (claims_or_none (decode_id_token tr.id_token))

  unfoldable pub seal_upstream : Cipher → String → Action Bytes
  seal_upstream cipher refresh_token =
      if refresh_token == ""
      then pure []
      else must (encrypt cipher (p.utf8 refresh_token))
          (λ _. fail 500 "server_error" "failed to encrypt refresh token")

  -- The code's row: its grant is the session's.
  unfoldable pub code_of : AuthSession → (code sub claims_json : String) → Bytes → ℕ → Code
  code_of sess code sub claims_json upstream t = record {
    code = code;
    client_id = sess.client_id;
    resource = sess.resource;
    sub = sub;
    claims_json = claims_json;
    upstream_refresh_enc = upstream;
    scopes = sess.scopes;
    redirect_uri = sess.redirect_uri;
    code_challenge = sess.code_challenge;
    code_challenge_method = sess.code_challenge_method;
    expires_at = t + 60 * second;
  }

  -- From the upstream's token response on: the code is stored, and the session deleted.
  unfoldable pub issue_code :
      Cipher → String → AuthSession → Claims → TokenResponse → Action Response
  issue_code cipher state sess claims tr = do
    claims_json ←
        must (pure (p.marshal_claims (retain (contains_string allowed_claims) claims)))
          (λ _. fail 500 "server_error" "failed to serialize claims")
    upstream ← seal_upstream cipher tr.refresh_token
    code_bytes ←
        must (read_random 32) (λ _. fail 500 "server_error" "failed to generate local code")
    let code = p.base64url code_bytes
    t ← now
    must (insert_code (code_of sess code (subject_of claims) claims_json upstream t))
        (λ _. fail 500 "server_error" "failed to save code")
    delete_auth_session state
    reject_if (not (p.url_ok sess.redirect_uri))
        (fail 500 "server_error" "invalid redirect_uri in session")
    pure (redirect sess.redirect_uri (("code", code) ∷ unless_empty "state" sess.original_state))

  -- From the session on: the upstream's code becomes the user's claims, and they a code.
  unfoldable pub finish_login : Cipher → ResourceConfig → Request → AuthSession → Action Response
  finish_login cipher rc r sess = do
    provider ←
        must (discover sess.provider_issuer)
          (λ e. fail 502 "server_error" ("upstream discovery failed: " <> e))
    tr ←
        must
          (exchange_code provider rc.client_id rc.client_secret (r.query "code")
            (sess.public_base <> "/oauth/callback") sess.upstream_pkce_verifier)
          (λ e. fail 502 "server_error" ("upstream token exchange failed: " <> e))
    claims ← user_claims provider tr
    issue_code cipher (r.query "state") sess claims tr

  unfoldable pub handle_callback : Cipher → ResourceConfig → Request → Action Response
  handle_callback cipher rc r = do
    handle_upstream_error r
    reject_if (r.query "code" == "" || r.query "state" == "")
        (fail 400 "invalid_request" "missing code or state")
    sess ← find_session (r.query "state")
    finish_login cipher rc r sess
