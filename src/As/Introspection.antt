-- ===== src/As/Introspection.antt =====
-- What the introspection endpoint (sidecar/internal/as/introspect.go) discloses.
use mcpbouncer.Prelude.{
  ℕ, suc, Done, String, Bool, ◌≡◌, ◌≢◌, refl, ap, ◌∙◌, inl, inr, false, some, ◌==◌, ltb, eq_iff,
  arith, Option-cases, Bool-cases, ◌≤◌,
}
use mcpbouncer.Action.Outcomes.{respond-bind}
use mcpbouncer.Json.{Claims, get_claim, string_or_empty}
use mcpbouncer.Platform.{Platform}
use mcpbouncer.Action.{
  World, Response, ret, exit, tick, respond, claims_body, ◌>>=◌, ◌>>◌, pure, finish, reject_if, now,
  query, on_result, on_option,
}
use mcpbouncer.Store.Rows.{
  ok, err, Result, RefreshToken, Db, from_unix, Client-keyed, RefreshToken-keyed,
}
use mcpbouncer.Store.Table.{find}
use mcpbouncer.Store.Grants.{get_refresh_token_by_hash, scan_token}
use mcpbouncer.Http.{Request, write_json}
use mcpbouncer.Config.{ResourceConfig}
use mcpbouncer.Tokens.{hash_token}
use mcpbouncer.As.Clients.{read_credentials, find_client, check_secret}
use mcpbouncer.As.Authentication.{
  IsAuthenticated, find_client-found, check_secret-passed, read_credentials-passed,
}
use mcpbouncer.As.Introspect.{
  inactive, refresh_info, access_info, verify_access_jwt, report_refresh_token, try_refresh_token,
  report_access_token, handle_introspect,
}
use mcpbouncer.As.Refusals.{
  read_credentials-refused, find_client-refused, find_client-reads, check_secret-refused,
  check_secret-reads,
}
use mcpbouncer.As.AccessToken.{IsSigned, verify_access_jwt-IsSigned, verify_access_jwt-goes_on}

module _ ⦃p : Platform⦄ where
  finished-early :
      (b : Bool) (w : World) {x : Response} {w' : World}
      → reject_if b (finish inactive) w ≡ (exit x, w')
      → x ≡ inactive
  unfolding reject_if finish pure
  finished-early b w h = ground arith

  passed-early :
      (b : Bool) (w : World) {d : Done} {w' : World}
      → reject_if b (finish inactive) w ≡ (ret d, w')
      → w' ≡ w
  unfolding reject_if finish pure
  passed-early b w h = ground arith

  try_refresh_token-finished :
      (id hint token : String) (w : World) {x : Response} {w' : World}
      → try_refresh_token id hint token w ≡ (exit x, w')
      → x ≢ inactive
      → (row : RefreshToken) × (find (hash_token token) w.db.refresh_tokens ≡ some row)
        × (ltb (from_unix row.expires_at) (p.clock (suc w.step)) ≡ false)
        × (row.client_id ≡ id)
        × (x ≡ write_json 200 (claims_body (refresh_info (scan_token row))))
  unfolding try_refresh_token report_refresh_token get_refresh_token_by_hash query reject_if finish
      on_result on_option now ◌>>=◌ pure
  try_refresh_token-finished id hint token w h shown =
      elim (Option-cases (find (hash_token token) w.db.refresh_tokens)) [
        | inl e ↦ absurd (shown (ground arith))
        | inr (row, e) ↦ (
          row,
          e,
          ground (arith, eq_iff row.client_id id),
          ground (arith, eq_iff row.client_id id),
          ground (arith, eq_iff row.client_id id),
        )
      ]

  try_refresh_token-reads :
      (id hint token : String) (w : World) {d : Done} {w' : World}
      → try_refresh_token id hint token w ≡ (ret d, w')
      → (w'.db ≡ w.db) × (w.step ≤ w'.step)
  unfolding try_refresh_token report_refresh_token get_refresh_token_by_hash query reject_if finish
      on_result on_option now ◌>>=◌ pure
  try_refresh_token-reads id hint token w h = ground arith

  -- The answer is about a token of the client `id`, which was valid at a read of the clock that is
  -- the one of the number `from` or a later one: a refresh token that is stored, or a signed access
  -- token that names the client.
  pub data IsOwn (rc : ResourceConfig) (d : Db) (from : ℕ) (id token : String) (x : Response)
      : Type 0 where
    own_refresh_token :
        (n : ℕ) (row : RefreshToken)
        → from ≤ n
        → find (hash_token token) d.refresh_tokens ≡ some row
        → ltb (from_unix row.expires_at) (p.clock n) ≡ false
        → row.client_id ≡ id
        → x ≡ write_json 200 (claims_body (refresh_info (scan_token row)))
        → IsOwn rc d from id token x
    own_access_token :
        (n : ℕ) (claims : Claims)
        → from ≤ n
        → IsSigned rc d (p.clock n) token claims
        → string_or_empty (get_claim claims "client_id") ≡ id
        → x ≡ write_json 200 (claims_body (access_info claims))
        → IsOwn rc d from id token x

  -- Where `x` says anything of a token, it is the client's own.
  abbrev OnlyOwn : ResourceConfig → Db → ℕ → (id token : String) → Response → Type 0
  OnlyOwn rc d from id token x = x.status ≡ 200 → x ≢ inactive → IsOwn rc d from id token x

  reported-OnlyOwn :
      (rc : ResourceConfig) (id token : String) (verified : Result Claims) (w w' : World)
      → verify_access_jwt rc token w ≡ (ret verified, w')
      → OnlyOwn rc w.db w.step id token
          (respond (on_result verified (report_access_token id) (λ _. pure inactive)) w').0
  unfolding respond on_result report_access_token pure
  reported-OnlyOwn rc id token (err why) w w' e success shown = absurd (shown refl)
  reported-OnlyOwn rc id token (ok claims) w w' e success shown =
      elim (Bool-cases (string_or_empty (get_claim claims "client_id") == id)) [
        | inl same ↦
            own_access_token (suc w.step) claims (omega arith)
              (verify_access_jwt-IsSigned rc token w e) ((eq_iff _ _).0 same)
              (rw (same, report_access_token) refl)
        | inr other ↦ absurd (shown (rw (other, report_access_token) refl))
      ]

  weaken :
      {rc : ResourceConfig} {d d' : Db} {from from' : ℕ} {id token : String} {x : Response}
      → d' ≡ d
      → from ≤ from'
      → IsOwn rc d' from' id token x
      → IsOwn rc d from id token x
  weaken same later (own_refresh_token n row late stored alive own answer) =
      own_refresh_token n row (omega arith) (rw (← same) stored) alive own answer
  weaken same later (own_access_token n claims late signed own answer) =
      own_access_token n claims (omega arith) (rw (← same) signed) own answer

  -- What follows the authentication of the client.
  introspected-OnlyOwn :
      (rc : ResourceConfig) (id hint token : String) (w : World)
      → OnlyOwn rc w.db w.step id token
          (respond
            (do
              reject_if (token == "") (finish inactive)
              try_refresh_token id hint token
              verified ← verify_access_jwt rc token
              on_result verified (report_access_token id) (λ _. pure inactive))
            w).0
  introspected-OnlyOwn rc id hint token w =
      let Q = OnlyOwn rc w.db w.step id token in
      respond-bind Q (reject_if (token == "") (finish inactive)) _ w
        (λ x w' e success shown. absurd (shown (finished-early (token == "") w e)))
        λ _ w1 e1. rw (passed-early (token == "") w e1) (
          respond-bind Q (try_refresh_token id hint token) _ w
            (λ x w' e success shown.
              let (row, stored, alive, own, answer) =
                try_refresh_token-finished id hint token w e shown in
              own_refresh_token (suc w.step) row (omega arith) stored alive own answer)
            λ _ w2 e2.
              let (same, later) = try_refresh_token-reads id hint token w e2 in
              respond-bind Q (verify_access_jwt rc token) _ w2
                (λ x w' e. absurd (verify_access_jwt-goes_on rc token w2 e))
                λ verified w3 e3 success shown.
                  weaken same later (reported-OnlyOwn rc id token verified w2 w3 e3 success shown))

  -- Whatever a request to /oauth/introspect is answered with status 200, the answer is that the token
  -- is inactive; or the request is a POST of a registered client that shows its secret, and the
  -- token is that client's own: a stored refresh token of it that had not expired by the clock, with
  -- its row's data, or an access token with the client's id that verifies under a stored key, within its
  -- times, for this issuer and audience, with the claims that `HandleIntrospect` lists.
  pub handle_introspect-IsOwn :
      (rc : ResourceConfig) (r : Request) (w : World)
      → (respond (handle_introspect rc r) w).0.status ≡ 200
      → (respond (handle_introspect rc r) w).0 ≢ inactive
      → (r.method ≡ "POST")
        × (caller : IsAuthenticated w.db r) × IsOwn rc w.db w.step caller.id
            (r.form_value "token")
            (respond (handle_introspect rc r) w).0
  unfolding handle_introspect
  handle_introspect-IsOwn rc r w =
      let Q : Response → Type 0 = λ x.
        x.status ≡ 200
        → x ≢ inactive
        → (r.method ≡ "POST")
          × (caller : IsAuthenticated w.db r) × IsOwn rc w.db w.step caller.id
              (r.form_value "token") x in
      respond-bind Q (read_credentials r) _ w
        (λ x w' e success. absurd (read_credentials-refused r w e success))
        λ (id, secret) w1 e1.
          let (post, credentials, same) = read_credentials-passed r w e1 in
          rw same (
            respond-bind Q (find_client id) _ w
              (λ x w' e success. absurd (find_client-refused id w e success))
              λ client w2 e2.
                let (stored, found, _, hash) = find_client-found id w e2 in
                respond-bind Q (check_secret client secret) _ w2
                  (λ x w' e success. absurd (check_secret-refused client secret w2 e success))
                  λ _ w3 e3 success shown.
                    let there : w3 ≡ tick w =
                      check_secret-reads client secret w2 e3 ∙ find_client-reads id w e2 in
                    (
                      post,
                      record {
                        id = id;
                        secret = secret;
                        credentials = credentials;
                        client = stored;
                        registered = found;
                        trusted = rw (← hash) (check_secret-passed client secret w2 e3);
                      },
                      weaken (ap (λ v. v.db) there)
                          (omega (arith, ap (λ (v : World). v.step) there))
                          (introspected-OnlyOwn rc id _ _ w3 success shown),
                    ))
