-- ===== src/As/Token/Replay.antt =====
-- The use of a code for a second time (sidecar/internal/as/token.go).
use mcpbouncer.Prelude.{ℕ, suc, String, ◌≡◌, refl, ap, false, ◌||◌, none, [], ◌==◌, ◌<>◌, arith}
use mcpbouncer.Platform.{Platform}
use mcpbouncer.Action.{
  World, Response, exit, error_body, ◌>>=◌, ◌>>◌, pure, must, given, fail, fail_with, reject_if,
  query, exec, tick,
}
use mcpbouncer.Action.Keeps.{Keeps, bind-holds, Keeps-exec}
use mcpbouncer.Store.Rows.{Client, Code, RefreshToken, Db, Code-keyed}
use mcpbouncer.Store.Table.{find, find-remove_self}
use mcpbouncer.Store.Grants.{get_code, delete_code, insert_refresh_token}
use mcpbouncer.Http.{Request}
use mcpbouncer.Config.{ResourceConfig}
use mcpbouncer.Tokens.{Issuer}
use mcpbouncer.As.Neutral.{neutral_rules}
use mcpbouncer.As.Token.{
  claim_code, check_code, issue_tokens, token_of_code, handle_authorization_code,
}

-- The database no longer holds the code.
abbrev IsGone : String → Db → Type 0
IsGone code d = find code d.codes ≡ none

-- The request has every parameter that the grant needs.
abbrev pub IsComplete : Request → Type 0
IsComplete r =
    (r.form_value "code" == ""
      || r.form_value "redirect_uri" == ""
      || r.form_value "code_verifier" == "")
    ≡ false

-- What a code that the database does not hold is answered with.
abbrev pub unknown_code : Response
unknown_code = record {
  status = 400;
  headers = [];
  body = error_body "invalid_grant" "unknown or already used code";
}

module _ ⦃p : Platform⦄ where
  insert_refresh_token-IsGone :
      (code : String) (t : RefreshToken) → Keeps (IsGone code) (insert_refresh_token t)
  unfolding insert_refresh_token
  insert_refresh_token-IsGone code t = Keeps-exec _ _ λ d d' h e. ground arith

  issue_tokens-IsGone :
      (code : String) (i : Issuer) (rc : ResourceConfig) (sub scopes client_id claims_json : String)
      (make : String → ℕ → RefreshToken) (mint_failed : String → String) (save_failed : String)
      → Keeps
          (IsGone code)
          (issue_tokens i rc sub scopes client_id claims_json make mint_failed save_failed)
  unfolding issue_tokens
  issue_tokens-IsGone code i rc sub scopes client_id claims_json make mint_failed save_failed =
      search (neutral_rules, insert_refresh_token-IsGone) depth 10

  redeem-IsGone :
      (code : String) (i : Issuer) (rc : ResourceConfig) (client : Client) (r : Request)
      (row : Code)
      → Keeps (IsGone code) (
          check_code client row (r.form_value "redirect_uri") (r.form_value "code_verifier")
          >> issue_tokens i rc row.sub row.scopes row.client_id row.claims_json
              (token_of_code row)
              (λ e. "failed to mint access token: " <> e)
              "failed to save refresh token")
  redeem-IsGone code i rc client r row = search (neutral_rules, issue_tokens-IsGone) depth 10

  claim_code-IsGone :
      (code : String) (w : World)
      → p.db_fault w.step ≡ none
      → p.db_fault (suc w.step) ≡ none
      → IsGone code (claim_code code w).1.db
  unfolding claim_code must given get_code delete_code query exec fail fail_with ◌>>=◌ pure
  claim_code-IsGone code w up up' = ground (arith, find-remove_self code w.db.codes)

  claim_code-unknown :
      (code : String) (w : World)
      → p.db_fault w.step ≡ none
      → IsGone code w.db
      → claim_code code w ≡ (exit unknown_code, tick w)
  unfolding claim_code must given get_code delete_code query exec fail fail_with ◌>>=◌ pure
  claim_code-unknown code w up gone = ground arith

  code_grant-IsGone :
      (i : Issuer) (rc : ResourceConfig) (client : Client) (r : Request) (w : World)
      → IsComplete r
      → p.db_fault w.step ≡ none
      → p.db_fault (suc w.step) ≡ none
      → IsGone (r.form_value "code") (handle_authorization_code i rc client r w).1.db
  unfolding handle_authorization_code reject_if pure ◌>>=◌
  code_grant-IsGone i rc client r w full up up' =
      let code = r.form_value "code" in
      rw (full, handle_authorization_code)
        (bind-holds (claim_code code) _ w (claim_code-IsGone code w up up')
          (redeem-IsGone code i rc client r))

  code_grant-unknown :
      (i : Issuer) (rc : ResourceConfig) (client : Client) (r : Request) (w : World)
      → IsComplete r
      → p.db_fault w.step ≡ none
      → IsGone (r.form_value "code") w.db
      → handle_authorization_code i rc client r w ≡ (exit unknown_code, tick w)
  unfolding handle_authorization_code reject_if pure ◌>>=◌
  code_grant-unknown i rc client r w full up gone =
      rw (full, handle_authorization_code, claim_code-unknown (r.form_value "code") w up gone) refl

  -- Once a request with all of its parameters has presented a code and the database has answered
  -- its two statements, the code is gone, whatever the request is answered with: the next request
  -- with that code and all of its parameters, of any client, is refused as one with an unknown
  -- code, where the database answers its lookup.
  pub handle_authorization_code-replay :
      (i : Issuer) (rc rc' : ResourceConfig) (client client' : Client) (r r' : Request) (w : World)
      → IsComplete r
      → IsComplete r'
      → r'.form_value "code" ≡ r.form_value "code"
      → p.db_fault w.step ≡ none
      → p.db_fault (suc w.step) ≡ none
      → p.db_fault (handle_authorization_code i rc client r w).1.step ≡ none
      → (handle_authorization_code i rc' client' r' (handle_authorization_code i rc client r w).1).0
        ≡ exit unknown_code
  handle_authorization_code-replay i rc rc' client client' r r' w full full' same up up' up'' =
      ap (λ o. o.0)
        (code_grant-unknown i rc' client' r' _ full' up''
          (rw same (code_grant-IsGone i rc client r w full up up')))
