-- ===== src/As/Token/Refresh.antt =====
-- handleRefreshToken of sidecar/internal/as/token.go: the rotation of a refresh token.
use mcpbouncer.Prelude.{
  ℕ, Done, String, Bool, not, [], ◌∷◌, ◌==◌, leb, ltb, length, contains_string, if◌then◌else◌,
}
use mcpbouncer.Platform.{Platform}
use mcpbouncer.Action.{
  on_result, Action, Response, ◌>>=◌, ◌>>◌, pure, must, given, fail, reject_if, now,
}
use mcpbouncer.Store.Rows.{Bytes, Client, RefreshToken}
use mcpbouncer.Store.Grants.{get_refresh_token_by_hash, delete_refresh_token_by_hash}
use mcpbouncer.Http.{Request}
use mcpbouncer.Crypto.{Cipher, encrypt, decrypt}
use mcpbouncer.Config.{ResourceConfig}
use mcpbouncer.Tokens.{Issuer, hash_token}
use mcpbouncer.Oidc.{discover, refresh_tokens}
use mcpbouncer.As.Token.{issue_tokens}

-- strconv.ParseBool, with false in the place of its error.
unfoldable pub parse_bool : String → Bool
parse_bool s = contains_string ("1" ∷ "t" ∷ "T" ∷ "TRUE" ∷ "true" ∷ "True" ∷ []) s

module _ ⦃p : Platform⦄ where
  -- The row of the token, which is deleted at once.
  unfoldable pub claim_refresh_token : String → Action RefreshToken
  claim_refresh_token hash = do
    found ←
        must (get_refresh_token_by_hash hash)
          (λ _. fail 500 "server_error" "failed to look up refresh token")
    row ← given found (fail 400 "invalid_grant" "unknown or already used refresh token")
    delete_refresh_token_by_hash hash
    pure row

  unfoldable pub check_refresh_token : Client → RefreshToken → Action Done
  check_refresh_token client row = do
    reject_if (not (row.client_id == client.client_id))
        (fail 400 "invalid_grant" "refresh token does not belong to this client")
    t ← now
    reject_if (ltb row.expires_at t) (fail 400 "invalid_grant" "refresh token expired")

  -- The upstream's answer: a new refresh token of the upstream replaces the stored one.
  unfoldable keep_upstream : Cipher → Bytes → String → Action Bytes
  keep_upstream cipher old refresh_token =
      if refresh_token == ""
      then pure old
      else do enc ← encrypt cipher (p.utf8 refresh_token); on_result enc pure (λ _. pure old)

  -- A failure upstream ends the request only where BOUNCER_STRICT_UPSTREAM_REFRESH says so.
  unfoldable upstream_failed : Bytes → Action Bytes
  upstream_failed old =
      if parse_bool (p.getenv "BOUNCER_STRICT_UPSTREAM_REFRESH")
      then fail 400 "invalid_grant" "upstream refresh failed"
      else pure old

  unfoldable refresh_plain : Cipher → ResourceConfig → Bytes → String → Action Bytes
  unfolding upstream_failed keep_upstream
  refresh_plain cipher rc old plain = do
    discovered ← discover rc.provider_issuer
    on_result discovered
        (λ provider. do
          answer ← refresh_tokens provider rc.client_id rc.client_secret plain
          on_result answer (λ tr. keep_upstream cipher old tr.refresh_token)
              (λ _. upstream_failed old))
        (λ _. upstream_failed old)

  -- The upstream refresh token to store with the new row.
  unfoldable pub refresh_upstream : Cipher → ResourceConfig → Bytes → Action Bytes
  unfolding refresh_plain
  refresh_upstream cipher rc old =
      if leb 1 (length old)
      then on_result (decrypt cipher old) (λ plain. refresh_plain cipher rc old (p.text plain))
          (λ _. pure old)
      else pure old

  abbrev pub token_of_token : RefreshToken → Bytes → String → ℕ → RefreshToken
  token_of_token row upstream hash expiry = record row {
    token_hash = hash;
    upstream_refresh_enc = upstream;
    expires_at = expiry;
  }

  unfoldable pub handle_refresh_token :
      Issuer → Cipher → ResourceConfig → Client → Request → Action Response
  handle_refresh_token i cipher rc client r = do
    let raw = r.form_value "refresh_token"
    reject_if (raw == "") (fail 400 "invalid_request" "missing refresh_token")
    row ← claim_refresh_token (hash_token raw)
    check_refresh_token client row
    upstream ← refresh_upstream cipher rc row.upstream_refresh_enc
    issue_tokens i rc row.sub row.scopes row.client_id row.claims_json (token_of_token row upstream)
        (λ _. "failed to mint access token") "failed to save new refresh token"
