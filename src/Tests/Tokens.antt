-- ===== src/Tests/Tokens.antt =====
-- Runs of the token and revocation endpoints.
use mcpbouncer.Prelude.{◌*◌, ◌≢◌, ◌∙◌, sym, ◌==◌, eq_iff, String, ◌≡◌, refl, ap, some, true, arith}
use mcpbouncer.Action.{
  respond, exit, ◌>>=◌, pure, fail, fail_with, reject_if, must, given, attempt, attempt_pure, now,
  read_random, query, exec, on_option,
}
use mcpbouncer.Json.{get_claim}
use mcpbouncer.Store.Rows.{Result, ok, err, second, unix, from_unix, RefreshToken-keyed}
use mcpbouncer.Store.Table.{find, insert, remove, update}
use mcpbouncer.Store.Keys.{get_active_signing_key}
use mcpbouncer.Store.Clients.{get_client, touch_client}
use mcpbouncer.Store.Grants.{
  get_code, delete_code, insert_refresh_token, get_refresh_token_by_hash,
  delete_refresh_token_by_hash,
}
use mcpbouncer.Http.{write_json}
use mcpbouncer.Keys.{active_key, decode_private_pem, as_ed25519}
use mcpbouncer.Tokens.{
  add_missing, base_claims, hash_token, sign_jwt, mint_access_token, mint_refresh_token,
}
use mcpbouncer.As.Clients.{extract_client_credentials, read_credentials, find_client, check_secret}
use mcpbouncer.As.Token.{
  pkce_s256_challenge, stored_claims, claim_code, check_code, issue_tokens,
  handle_authorization_code,
}
use mcpbouncer.As.Token.Refresh.{
  claim_refresh_token, check_refresh_token, refresh_upstream, handle_refresh_token,
}
use mcpbouncer.As.Token.Endpoint.{dispatch_grant, handle_token}
use mcpbouncer.As.Token.Codes.{IsRedeemable, handle_authorization_code-IsRedeemable}
use mcpbouncer.As.Token.Replay.{unknown_code, handle_authorization_code-replay}
use mcpbouncer.As.Token.Rotation.{IsRotated, handle_refresh_token-IsRotated}
use mcpbouncer.As.Authentication.{
  IsAuthenticated, handle_token-IsAuthenticated, handle_revoke-IsKept,
}
use mcpbouncer.As.Revoke.{handle_revoke}
use mcpbouncer.Tests.World.{
  test_platform, test_client, test_token, test_db, test_world, test_rc, test_issuer, test_cipher,
  post, code_form, refresh_form,
}

code_grant_example :
    IsRedeemable test_db test_client (post "/oauth/token" code_form) (1000 * second)
unfolding handle_authorization_code claim_code check_code issue_tokens pkce_s256_challenge
    stored_claims ◌>>=◌ pure fail fail_with reject_if must given attempt attempt_pure now
    read_random query exec on_option get_code delete_code insert_refresh_token find insert remove
    unix from_unix mint_access_token mint_refresh_token active_key decode_private_pem as_ed25519
    get_active_signing_key hash_token sign_jwt add_missing base_claims get_claim write_json
code_grant_example =
    handle_authorization_code-IsRedeemable test_issuer test_rc test_client
      (post "/oauth/token" code_form) test_world refl

replay_example :
    (handle_authorization_code test_issuer test_rc test_client
      (post "/oauth/token" code_form)
      (handle_authorization_code test_issuer test_rc test_client
        (post "/oauth/token" code_form)
        test_world).1).0
    ≡ exit unknown_code
replay_example =
    handle_authorization_code-replay test_issuer test_rc test_rc test_client test_client
      (post "/oauth/token" code_form) (post "/oauth/token" code_form) test_world refl refl refl refl
      refl refl

token_example : Path String "POST" "POST" × IsAuthenticated test_db (post "/oauth/token" code_form)
unfolding handle_token dispatch_grant read_credentials extract_client_credentials find_client
    get_client touch_client check_secret update handle_authorization_code claim_code check_code
    issue_tokens pkce_s256_challenge stored_claims ◌>>=◌ pure fail fail_with reject_if must given
    attempt attempt_pure now read_random query exec on_option get_code delete_code
    insert_refresh_token find insert remove unix from_unix mint_access_token mint_refresh_token
    active_key decode_private_pem as_ed25519 get_active_signing_key hash_token sign_jwt add_missing
    base_claims get_claim write_json
token_example =
    handle_token-IsAuthenticated test_issuer test_cipher test_rc (post "/oauth/token" code_form)
      test_world refl

abbrev id_of : Result (String × String) → String
id_of r = elim r [ ok a ↦ a.0 | err e ↦ "" ]

other_client :
    (id secret : String)
    → extract_client_credentials (post "/oauth/revoke" refresh_form) ≡ ok (id, secret)
    → test_token.client_id ≢ id
unfolding extract_client_credentials
other_client id secret e same =
    let named : "d" ≡ id = ap id_of e in
    let clash : ("c" == "d") ≡ true = (eq_iff "c" "d").1 (same ∙ sym named) in ground arith

-- The client `d` revokes; the token of the client `c` stays.
revoke_example :
    find "ab" (handle_revoke (post "/oauth/revoke" refresh_form) test_world).1.db.refresh_tokens
    ≡ some test_token
unfolding find extract_client_credentials
revoke_example =
    handle_revoke-IsKept (post "/oauth/revoke" refresh_form) "ab" test_token test_world
      (other_client) refl

rotation_example :
    IsRotated test_db
      (handle_refresh_token test_issuer test_cipher test_rc test_client
        (post "/oauth/token" refresh_form)
        test_world).1.db
      test_client
      "t"
      (1000 * second)
      test_issuer
      (respond
        (handle_refresh_token test_issuer test_cipher test_rc test_client
          (post "/oauth/token" refresh_form))
        test_world).0
unfolding respond handle_refresh_token claim_refresh_token check_refresh_token refresh_upstream
    issue_tokens stored_claims ◌>>=◌ pure fail fail_with reject_if must given attempt attempt_pure
    now read_random query exec on_option get_refresh_token_by_hash delete_refresh_token_by_hash
    insert_refresh_token find insert remove unix from_unix mint_access_token mint_refresh_token
    active_key decode_private_pem as_ed25519 get_active_signing_key hash_token sign_jwt add_missing
    base_claims get_claim write_json
rotation_example =
    handle_refresh_token-IsRotated test_issuer test_cipher test_rc test_client
      (post "/oauth/token" refresh_form) test_world refl
