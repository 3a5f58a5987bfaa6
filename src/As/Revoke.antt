-- ===== src/As/Revoke.antt =====
-- sidecar/internal/as/revoke.go: the revocation of a refresh token (RFC 7009).
use mcpbouncer.Prelude.{String, not, [], ◌==◌, if◌then◌else◌}
use mcpbouncer.Platform.{Platform}
use mcpbouncer.Action.{
  on_result, on_option, Action, Response, empty, ◌>>=◌, ◌>>◌, pure, fail, reject_if,
}
use mcpbouncer.Store.Rows.{RefreshToken, Client}
use mcpbouncer.Store.Grants.{get_refresh_token_by_hash, delete_refresh_token_by_hash}
use mcpbouncer.Http.{Request}
use mcpbouncer.Tokens.{hash_token}
use mcpbouncer.As.Clients.{read_credentials, find_client, check_secret}

-- w.WriteHeader(http.StatusOK)
abbrev pub revoked : Response
revoked = record { status = 200; headers = []; body = empty }

module _ ⦃p : Platform⦄ where
  unfoldable pub revoke_row : Client → String → RefreshToken → Action Response
  revoke_row client hash row =
      if not (row.client_id == client.client_id)
      then pure revoked
      else delete_refresh_token_by_hash hash >> pure revoked

  -- The answer never tells whether the token was there.
  unfoldable pub revoke_token : Client → String → Action Response
  revoke_token client hash = do
    looked ← get_refresh_token_by_hash hash
    on_result looked (λ found. on_option found (revoke_row client hash) (pure revoked))
        (λ _. pure revoked)

  -- What follows the lookup of the client.
  unfoldable pub revoke_as : Client → Request → (secret : String) → Action Response
  revoke_as client r secret = do
    check_secret client secret
    let token = r.form_value "token"
    reject_if (token == "") (fail 400 "invalid_request" "missing token")
    if r.form_value "token_type_hint" == "access_token"
        then pure revoked
        else revoke_token client (hash_token token)

  unfoldable pub handle_revoke : Request → Action Response
  handle_revoke r = do
    credentials ← read_credentials r
    client ← find_client credentials.0
    revoke_as client r credentials.1
