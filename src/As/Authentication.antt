-- ===== src/As/Authentication.antt =====
-- The authentication of clients at the token and revocation endpoints (sidecar/internal/as/token.go,
-- revoke.go), and whose tokens a revocation touches.
use mcpbouncer.Prelude.{
  Done, String, ◌≡◌, ◌≢◌, sym, ap, ◌∙◌, ◌⊎◌, false, some, ◌==◌, eq-false_of_ne, eq_iff, arith,
}
use mcpbouncer.Platform.{Platform}
use mcpbouncer.Action.{
  World, Response, ret, bind-eq-ret, ◌>>=◌, pure, must, given, fail, fail_with, reject_if, query,
  exec, on_result, on_option,
}
use mcpbouncer.Action.Keeps.{Keeps, bind-after}
use mcpbouncer.Store.Rows.{ok, Client, RefreshToken, Db, Client-keyed, RefreshToken-keyed}
use mcpbouncer.Store.Table.{find, key-find, find-remove}
use mcpbouncer.Store.Clients.{touch_client, get_client}
use mcpbouncer.Store.Grants.{get_refresh_token_by_hash, delete_refresh_token_by_hash}
use mcpbouncer.Http.{Request}
use mcpbouncer.Crypto.{Cipher}
use mcpbouncer.Config.{ResourceConfig}
use mcpbouncer.Tokens.{Issuer, hash_token}
use mcpbouncer.As.Clients.{extract_client_credentials, read_credentials, find_client, check_secret}
use mcpbouncer.As.Neutral.{read_credentials-Keeps, find_client-Keeps, neutral_rules}
use mcpbouncer.As.Token.Endpoint.{handle_token}
use mcpbouncer.As.Revoke.{revoke_as, revoke_row, revoke_token, handle_revoke}

module _ ⦃p : Platform⦄ where
  pub find_client-found :
      (id : String) (w : World) {client : Client} {w' : World}
      → find_client id w ≡ (ret client, w')
      → (stored : Client) × (find id w.db.clients ≡ some stored)
        × (client.client_id ≡ stored.client_id)
        × (client.client_secret_hash ≡ stored.client_secret_hash)
  unfolding find_client must given get_client query fail fail_with ◌>>=◌ pure
  find_client-found id w {client} {w'} h = ground arith

  pub check_secret-passed :
      (c : Client) (secret : String) (w : World) {d : Done} {w' : World}
      → check_secret c secret w ≡ (ret d, w')
      → (c.client_secret_hash ≡ "") ⊎ (hash_token secret ≡ c.client_secret_hash)
  unfolding check_secret reject_if fail_with ◌>>=◌ pure
  check_secret-passed c secret w {d} {w'} h =
      ground
        (arith, eq_iff c.client_secret_hash "", eq_iff (hash_token secret) c.client_secret_hash)

  pub read_credentials-passed :
      (r : Request) (w : World) {id secret : String} {w' : World}
      → read_credentials r w ≡ (ret (id, secret), w')
      → (r.method ≡ "POST") × (extract_client_credentials r ≡ ok (id, secret)) × (w' ≡ w)
  unfolding read_credentials reject_if must fail fail_with ◌>>=◌ pure
  read_credentials-passed r w {id} {secret} {w'} h = ground (arith, eq_iff r.method "POST")

  -- A client that the database holds, whose secret the request shows if it has one.
  pub record IsAuthenticated (d : Db) (r : Request) : Type 0 where
    pub id : String
    pub secret : String
    pub credentials : extract_client_credentials r ≡ ok (id, secret)
    pub client : Client
    pub registered : find id d.clients ≡ some client
    pub trusted : (client.client_secret_hash ≡ "") ⊎ (hash_token secret ≡ client.client_secret_hash)

  -- The token endpoint issues tokens only to a POST by a registered client that shows the secret
  -- whose hash is stored for it, or for which none is stored.
  pub handle_token-IsAuthenticated :
      (i : Issuer) (cipher : Cipher) (rc : ResourceConfig) (r : Request) (w : World)
      {resp : Response} {w' : World}
      → handle_token i cipher rc r w ≡ (ret resp, w')
      → (r.method ≡ "POST") × IsAuthenticated w.db r
  unfolding handle_token
  handle_token-IsAuthenticated i cipher rc r w h =
      let ((id, secret), w1, e1, h1) = bind-eq-ret (read_credentials r) _ w h in
      let (client, w2, e2, h2) = bind-eq-ret (find_client id) _ w1 h1 in
      let (_, w3, e3, h3) = bind-eq-ret (touch_client client.client_id) _ w2 h2 in
      let (_, w4, e4, h4) = bind-eq-ret (check_secret client secret) _ w3 h3 in
      let (post, shown, same) = read_credentials-passed r w e1 in
      let (stored, found, _, hash) = find_client-found id w1 e2 in
      (
        post,
        record {
          id = id;
          secret = secret;
          credentials = shown;
          client = stored;
          registered = ap (λ (v : World). find id v.db.clients) (sym same) ∙ found;
          trusted = rw (← hash) (check_secret-passed client secret w3 e4);
        },
      )

  -- A refresh token that another client holds.
  abbrev IsKept : String → RefreshToken → Db → Type 0
  IsKept h row d = find h d.refresh_tokens ≡ some row

  revoke_token-IsKept :
      (client : Client) (hash h : String) (row : RefreshToken)
      → (row.client_id == client.client_id) ≡ false
      → Keeps (IsKept h row) (revoke_token client hash)
  unfolding revoke_token revoke_row get_refresh_token_by_hash delete_refresh_token_by_hash query
      exec on_result on_option ◌>>=◌ pure
  revoke_token-IsKept client hash h row other = record {
    at = λ w kept. ground (arith, find-remove hash h w.db.refresh_tokens, eq_iff hash h);
  }

  -- What follows the lookup of the client.
  revoke_as-IsKept :
      (client : Client) (r : Request) (secret h : String) (row : RefreshToken)
      → (row.client_id == client.client_id) ≡ false
      → Keeps (IsKept h row) (revoke_as client r secret)
  unfolding revoke_as
  revoke_as-IsKept client r secret h row other =
      search (neutral_rules, revoke_token-IsKept client _ h row other) depth 10

  -- A revocation leaves every refresh token of another client than the one whose id the request
  -- gives where it is, whatever the request and whatever calls fail.
  pub handle_revoke-IsKept :
      (r : Request) (h : String) (row : RefreshToken) (w : World)
      → ((id secret : String) → extract_client_credentials r ≡ ok (id, secret) → row.client_id ≢ id)
      → find h w.db.refresh_tokens ≡ some row
      → find h (handle_revoke r w).1.db.refresh_tokens ≡ some row
  unfolding handle_revoke
  handle_revoke-IsKept r h row w other kept =
      let kept' = (read_credentials-Keeps {P = IsKept h row} r).at w kept in
      bind-after (IsKept h row) (read_credentials r) _ w kept' λ (id, secret) e.
        let w1 = (read_credentials r w).1 in
        let (_, shown, same) = read_credentials-passed r w e in
        let kept'' = (find_client-Keeps {P = IsKept h row} id).at w1 kept' in
        bind-after (IsKept h row) (find_client id) _ w1 kept'' λ client e'.
          let (stored, found, as_stored, _) = find_client-found id w1 e' in
          let named : client.client_id ≡ id = as_stored ∙ key-find id _ found in
          let foreign : (row.client_id == client.client_id) ≡ false =
            rw named (eq-false_of_ne row.client_id id (other id secret shown)) in
          (revoke_as-IsKept client r secret h row foreign).at _ kept''
