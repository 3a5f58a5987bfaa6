-- ===== src/As/Token.antt =====
-- sidecar/internal/as/token.go: the token endpoint, with its two grants.
pub mod Refresh
pub mod Endpoint
pub mod Codes
pub mod Replay
pub mod Rotation
use mcpbouncer.Prelude.{
  ◌<>◌, ℕ, ◌/◌, Done, String, Bool, true, false, not, ◌||◌, Option, none, some, List, [], ◌==◌, ltb,
  if◌then◌else◌,
}
use mcpbouncer.Json.{Claims}
use mcpbouncer.Platform.{Platform}
use mcpbouncer.Action.{
  Action, Response, token_body, ◌>>=◌, ◌>>◌, pure, must, given, fail, reject_if, now,
}
use mcpbouncer.Store.Rows.{Result, ok, err, Client, Code, RefreshToken, second}
use mcpbouncer.Store.Grants.{get_code, delete_code, insert_refresh_token}
use mcpbouncer.Http.{Request, write_json}
use mcpbouncer.Config.{ResourceConfig}
use mcpbouncer.Tokens.{Issuer, mint_access_token, mint_refresh_token}

module _ ⦃p : Platform⦄ where
  -- pkceS256Challenge, and s256Challenge of authorize.go.
  unfoldable pub pkce_s256_challenge : String → String
  pkce_s256_challenge verifier = p.base64url (p.sha256 (p.utf8 verifier))

  -- json.Unmarshal of the stored claims, whose error is dropped.
  unfoldable pub stored_claims : String → Claims
  stored_claims claims_json =
      if claims_json == ""
      then []
      else elim (p.unmarshal_claims (p.utf8 claims_json)) [ ok claims ↦ claims | err e ↦ [] ]

  -- The row of the code, which is deleted at once.
  unfoldable pub claim_code : String → Action Code
  claim_code code = do
    found ← must (get_code code) (λ _. fail 500 "server_error" "failed to look up code")
    row ← given found (fail 400 "invalid_grant" "unknown or already used code")
    delete_code code
    pure row

  -- What the row must show of the request.
  unfoldable pub check_code : Client → Code → (redirect_uri code_verifier : String) → Action Done
  check_code client row redirect_uri code_verifier = do
    reject_if (not (row.client_id == client.client_id))
        (fail 400 "invalid_grant" "code does not belong to this client")
    reject_if (not (row.redirect_uri == redirect_uri))
        (fail 400 "invalid_grant" "redirect_uri mismatch")
    t ← now
    reject_if (ltb row.expires_at t) (fail 400 "invalid_grant" "code expired")
    if row.code_challenge_method == "S256"
        then reject_if (not (pkce_s256_challenge code_verifier == row.code_challenge))
            (fail 400 "invalid_grant" "code_verifier does not match code_challenge")
        else fail 400 "invalid_grant" "unsupported pkce method"

  -- The access token and the refresh token of a grant, whose row `make` is given the hash and the
  -- expiry.
  unfoldable pub issue_tokens :
      Issuer
      → ResourceConfig
      → (sub scopes client_id claims_json : String) → (make : String → ℕ → RefreshToken)
      → (mint_failed : String → String) → (save_failed : String) → Action Response
  issue_tokens i rc sub scopes client_id claims_json make mint_failed save_failed = do
    access ←
        must (mint_access_token i rc sub scopes client_id (stored_claims claims_json))
          (λ e. fail 500 "server_error" (mint_failed e))
    refresh ←
        must (mint_refresh_token i) (λ _. fail 500 "server_error" "failed to mint refresh token")
    must (insert_refresh_token (make refresh.1 refresh.2))
        (λ _. fail 500 "server_error" save_failed)
    pure (write_json 200 (token_body access.0 (i.access_ttl / second) refresh.0 scopes))

  abbrev pub token_of_code : Code → String → ℕ → RefreshToken
  token_of_code row hash expiry = record {
    token_hash = hash;
    sub = row.sub;
    resource = row.resource;
    client_id = row.client_id;
    claims_json = row.claims_json;
    upstream_refresh_enc = row.upstream_refresh_enc;
    scopes = row.scopes;
    expires_at = expiry;
  }

  unfoldable pub handle_authorization_code :
      Issuer → ResourceConfig → Client → Request → Action Response
  handle_authorization_code i rc client r = do
    let code = r.form_value "code"
    let redirect_uri = r.form_value "redirect_uri"
    let code_verifier = r.form_value "code_verifier"
    reject_if (code == "" || redirect_uri == "" || code_verifier == "")
        (fail 400 "invalid_request" "missing code, redirect_uri, or code_verifier")
    row ← claim_code code
    check_code client row redirect_uri code_verifier
    issue_tokens i rc row.sub row.scopes row.client_id row.claims_json (token_of_code row)
        (λ e. "failed to mint access token: " <> e) "failed to save refresh token"
