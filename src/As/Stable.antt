-- ===== src/As/Stable.antt =====
-- The endpoints of sidecar/internal/as and the rotation of sidecar/internal/keys, under whatever the
-- writing statements of the store keep.
use mcpbouncer.Action.{fail}
use mcpbouncer.Action.Keeps.{bind-after, reject-after, Keeps, Keeps-pure}
use mcpbouncer.As.Issue.{find_session_sound}
use mcpbouncer.As.Authorize.{session_of, find_registered, start_login, handle_authorize}
use mcpbouncer.As.Callback.{
  code_of, handle_upstream_error, find_session, issue_code, finish_login, handle_callback,
}
use mcpbouncer.Prelude.{◌≡◌, [], eq_iff, arith, ℕ, String, Option, none, some}
use mcpbouncer.Platform.{Platform, TokenResponse}
use mcpbouncer.Json.{Claims}
use mcpbouncer.Store.Rows.{Db, Client, RefreshToken, AuthSession, SigningKey}
use mcpbouncer.Store.Stable.{IsStable, stable_rules}
use mcpbouncer.Crypto.{Cipher}
use mcpbouncer.Config.{ResourceConfig}
use mcpbouncer.Tokens.{Issuer}
use mcpbouncer.Http.{Request}
use mcpbouncer.Keys.{Rotator, hand_over, promote, add_next, prepare_next, rotate, ensure, first_key}
use mcpbouncer.As.Neutral.{
  read_registration-Keeps, seal_upstream-Keeps, user_claims-Keeps, neutral_rules,
}
use mcpbouncer.As.Token.{claim_code, issue_tokens, handle_authorization_code}
use mcpbouncer.As.Token.Refresh.{claim_refresh_token, handle_refresh_token}
use mcpbouncer.As.Token.Endpoint.{dispatch_grant, handle_token}
use mcpbouncer.As.Revoke.{revoke_as, revoke_row, revoke_token, handle_revoke}
use mcpbouncer.As.Register.{save_client, handle_register}

ruleset writing_rules = (stable_rules, neutral_rules)

module _ ⦃p : Platform⦄ {P : Db → Type 0} {Good : String → String → Type 0}
    (stable : IsStable P Good) where
  claim_code-Keeps : (code : String) → Keeps P (claim_code code)
  unfolding claim_code
  claim_code-Keeps code = search writing_rules depth 8

  issue_tokens-Keeps :
      (i : Issuer) (rc : ResourceConfig) (sub scopes client_id claims_json : String)
      (make : String → ℕ → RefreshToken) (mint_failed : String → String) (save_failed : String)
      → Keeps P (issue_tokens i rc sub scopes client_id claims_json make mint_failed save_failed)
  unfolding issue_tokens
  issue_tokens-Keeps i rc sub scopes client_id claims_json make mint_failed save_failed =
      search writing_rules depth 10

  code_grant-Keeps :
      (i : Issuer) (rc : ResourceConfig) (c : Client) (r : Request)
      → Keeps P (handle_authorization_code i rc c r)
  unfolding handle_authorization_code
  code_grant-Keeps i rc c r = search (neutral_rules, claim_code-Keeps, issue_tokens-Keeps) depth 10

  claim_refresh_token-Keeps : (h : String) → Keeps P (claim_refresh_token h)
  unfolding claim_refresh_token
  claim_refresh_token-Keeps h = search writing_rules depth 8

  refresh_grant-Keeps :
      (i : Issuer) (cipher : Cipher) (rc : ResourceConfig) (c : Client) (r : Request)
      → Keeps P (handle_refresh_token i cipher rc c r)
  unfolding handle_refresh_token
  refresh_grant-Keeps i cipher rc c r =
      search (neutral_rules, claim_refresh_token-Keeps, issue_tokens-Keeps) depth 10

  pub handle_token-Keeps :
      (i : Issuer) (cipher : Cipher) (rc : ResourceConfig) (r : Request)
      → Keeps P (handle_token i cipher rc r)
  unfolding handle_token dispatch_grant
  handle_token-Keeps i cipher rc r =
      search (writing_rules, code_grant-Keeps, refresh_grant-Keeps) depth 10

  pub handle_revoke-Keeps : (r : Request) → Keeps P (handle_revoke r)
  unfolding handle_revoke revoke_as revoke_token revoke_row
  handle_revoke-Keeps r = search writing_rules depth 12

  find_registered-Keeps : (id uri : String) → Keeps P (find_registered id uri)
  unfolding find_registered
  find_registered-Keeps id uri = search writing_rules depth 12

  start_login-Keeps :
      (rc : ResourceConfig) (r : Request)
      → Good (r.query "code_challenge") (r.query "code_challenge_method")
      → Keeps P (start_login rc r)
  unfolding start_login session_of
  start_login-Keeps rc r good = search writing_rules depth 12

  pub handle_authorize-Keeps : (rc : ResourceConfig) (r : Request) → Keeps P (handle_authorize rc r)
  unfolding handle_authorize fail
  handle_authorize-Keeps rc r = record {
    at = λ w h. reject-after P _ [] 400 _ _ _ w h λ _. reject-after P _ [] 400 _ _ _ w h λ given.
        reject-after P _ [] 400 _ _ _ w h λ method.
          bind-after P (find_registered (r.query "client_id") (r.query "redirect_uri")) _ w
            ((find_registered-Keeps _ _).at w h)
            λ c found.
              let is : r.query "code_challenge_method" ≡ "S256" = (eq_iff _ _).0 (ground arith) in
              (start_login-Keeps rc r (
                  rw is (
                    stable.good_s256 (r.query "code_challenge")
                      (ground (arith, eq_iff (r.query "code_challenge") ""))))).at
                _ ((find_registered-Keeps _ _).at w h);
  }

  upstream_error-Keeps : (r : Request) → Keeps P (handle_upstream_error r)
  unfolding handle_upstream_error
  upstream_error-Keeps r = search writing_rules depth 14

  find_session-Keeps : (state : String) → Keeps P (find_session state)
  unfolding find_session
  find_session-Keeps state = search writing_rules depth 12

  issue_code-Keeps :
      (cipher : Cipher) (state : String) (sess : AuthSession) (claims : Claims) (tr : TokenResponse)
      → Good sess.code_challenge sess.code_challenge_method
      → Keeps P (issue_code cipher state sess claims tr)
  unfolding issue_code code_of
  issue_code-Keeps cipher state sess claims tr good =
      search (writing_rules, seal_upstream-Keeps) depth 14

  finish_login-Keeps :
      (cipher : Cipher) (rc : ResourceConfig) (r : Request) (sess : AuthSession)
      → Good sess.code_challenge sess.code_challenge_method
      → Keeps P (finish_login cipher rc r sess)
  unfolding finish_login
  finish_login-Keeps cipher rc r sess good =
      search (neutral_rules, user_claims-Keeps, issue_code-Keeps) depth 12

  pub handle_callback-Keeps :
      (cipher : Cipher) (rc : ResourceConfig) (r : Request) → Keeps P (handle_callback cipher rc r)
  unfolding handle_callback fail
  handle_callback-Keeps cipher rc r = record {
    at = λ w h.
        let h1 = (upstream_error-Keeps r).at w h in
        bind-after P (handle_upstream_error r) _ w h1 λ d passed.
          reject-after P _ [] 400 _ _ _ (handle_upstream_error r w).1 h1 λ _.
            let h2 = (find_session-Keeps (r.query "state")).at _ h1 in
            bind-after P (find_session (r.query "state")) _ (handle_upstream_error r w).1 h2 λ s e.
              let (stored, there, is, alive) = find_session_sound (r.query "state") _ e in
              (finish_login-Keeps cipher rc r s
                  (rw is (stable.session_found _ (r.query "state") stored h1 there))).at
                _ h2;
  }

  pub handle_register-Keeps : (rc : ResourceConfig) (r : Request) → Keeps P (handle_register rc r)
  unfolding handle_register save_client
  handle_register-Keeps rc r = search (writing_rules, read_registration-Keeps) depth 14

  module _ (rot : Rotator) where
    promote-Keeps : (t : ℕ) (a b : Option SigningKey) → Keeps P (promote rot t a b)
    unfolding promote hand_over
    promote-Keeps t (some a) (some b) = search writing_rules depth 8
    promote-Keeps t (some a) none = Keeps-pure _
    promote-Keeps t none b = Keeps-pure _

    prepare_next-Keeps : (t : ℕ) (a b : Option SigningKey) → Keeps P (prepare_next rot t a b)
    unfolding prepare_next add_next
    prepare_next-Keeps t (some a) none = search writing_rules depth 8
    prepare_next-Keeps t (some a) (some b) = Keeps-pure _
    prepare_next-Keeps t none b = Keeps-pure _

    pub rotate-Keeps : Keeps P (rotate rot)
    unfolding rotate
    rotate-Keeps = search (writing_rules, promote-Keeps, prepare_next-Keeps) depth 10

    pub ensure-Keeps : Keeps P (ensure rot)
    unfolding ensure first_key
    ensure-Keeps = search writing_rules depth 10
