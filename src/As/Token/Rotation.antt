-- ===== src/As/Token/Rotation.antt =====
-- The rotation of refresh tokens (sidecar/internal/as/token.go): what a token is worth, and what takes
-- its place.
use mcpbouncer.Prelude.{
  ℕ, suc, ◌/◌, Done, String, ◌≡◌, refl, sym, ap, ◌∙◌, inl, inr, true, false, some, Option-cases, [],
  ◌==◌, eq_iff, eq_refl, arith, ltb,
}
use mcpbouncer.Platform.{Platform}
use mcpbouncer.Action.{
  World, Response, ret, token_body, bind-eq-ret, reject_if-passed, must-ret, pure-ret, ◌>>=◌, pure,
  must, given, fail, fail_with, reject_if, now, read_random, query, exec, attempt,
}
use mcpbouncer.Store.Rows.{
  ok, Result-cases, Client, RefreshToken, Db, from_unix, RefreshToken-keyed, second,
}
use mcpbouncer.Store.Table.{find, insert, find-insert}
use mcpbouncer.Store.Grants.{
  insert_refresh_token, get_refresh_token_by_hash, delete_refresh_token_by_hash, scan_token,
  token_row,
}
use mcpbouncer.Http.{Request, write_json}
use mcpbouncer.Crypto.{Cipher}
use mcpbouncer.Config.{ResourceConfig}
use mcpbouncer.Tokens.{Issuer, hash_token, mint_refresh_token}
use mcpbouncer.As.Token.{issue_tokens}
use mcpbouncer.As.Token.Refresh.{
  claim_refresh_token, check_refresh_token, refresh_upstream, token_of_token, handle_refresh_token,
}

module _ ⦃p : Platform⦄ where
  insert_refresh_token-found :
      (t : RefreshToken) (w : World) {d : Done} {w' : World}
      → insert_refresh_token t w ≡ (ret (ok d), w')
      → find t.token_hash w'.db.refresh_tokens ≡ some (token_row t)
  unfolding insert_refresh_token exec
  insert_refresh_token-found t w {d} {w'} h =
      elim (Option-cases (insert (token_row t) w.db.refresh_tokens)) [
        | inl e ↦ ground arith
        | inr (rows, e) ↦ ground (
          arith,
          find-insert (token_row t) w.db.refresh_tokens t.token_hash e,
          eq_refl t.token_hash,
        )
      ]

  mint_refresh_token-hash :
      (i : Issuer) (w : World) {raw hash : String} {expiry : ℕ} {w' : World}
      → mint_refresh_token i w ≡ (ret (ok (raw, hash, expiry)), w')
      → hash ≡ hash_token raw
  unfolding mint_refresh_token attempt read_random now ◌>>=◌ pure
  mint_refresh_token-hash i w {raw} {hash} {expiry} {w'} h =
      elim (Result-cases (p.random w.step 32)) [
        | inl (b, e) ↦ ground arith
        | inr (b, e) ↦ ground arith
      ]

  -- The refresh token in the answer of a grant is the one whose hash has just been stored, with the
  -- row that the grant makes of the hash and of an expiry.
  pub issue_tokens-stores :
      (i : Issuer) (rc : ResourceConfig) (sub scopes client_id claims_json : String)
      (make : String → ℕ → RefreshToken) (mint_failed : String → String) (save_failed : String)
      (w : World) {resp : Response} {w' : World}
      → ((hash : String) (expiry : ℕ) → (make hash expiry).token_hash ≡ hash)
      → issue_tokens i rc sub scopes client_id claims_json make mint_failed save_failed w
        ≡ (ret resp, w')
      → (access raw : String) × (expiry : ℕ) × (resp
          ≡ write_json 200 (token_body access (i.access_ttl / second) raw scopes))
        × (find (hash_token raw) w'.db.refresh_tokens
            ≡ some (token_row (make (hash_token raw) expiry)))
  unfolding issue_tokens fail
  issue_tokens-stores i rc sub scopes client_id claims_json make mint_failed save_failed w named h =
      let (access, w1, e1, h1) = bind-eq-ret (must _ _) _ w h in
      let ((raw, hash, expiry), w2, e2, h2) = bind-eq-ret (must (mint_refresh_token i) _) _ w1 h1 in
      let (d, w3, e3, h3) = bind-eq-ret (must _ _) _ w2 h2 in
      let hashed =
        mint_refresh_token-hash i w1 (must-ret (mint_refresh_token i) [] 500 _ _ w1 e2) in
      let kept = insert_refresh_token-found (make hash expiry) w2 (must-ret _ [] 500 _ _ w2 e3) in
      let (answer, last) = pure-ret _ w3 h3 in
      let key = named hash expiry ∙ hashed in
      (
        access.0,
        raw,
        expiry,
        sym answer,
        ap (λ (v : World). find (hash_token raw) v.db.refresh_tokens) (sym last)
            ∙ ap (λ k. find k w3.db.refresh_tokens) (sym key)
            ∙ kept
            ∙ ap (λ k. some (token_row (make k expiry))) hashed,
      )

  claim_refresh_token-found :
      (hash : String) (w : World) {row : RefreshToken} {w' : World}
      → claim_refresh_token hash w ≡ (ret row, w')
      → (stored : RefreshToken) × (find hash w.db.refresh_tokens ≡ some stored)
        × (row ≡ scan_token stored)
        × (w'.step ≡ suc (suc w.step))
  unfolding claim_refresh_token must given get_refresh_token_by_hash delete_refresh_token_by_hash
      query exec fail fail_with ◌>>=◌ pure
  claim_refresh_token-found hash w {row} {w'} h = ground arith

  check_refresh_token-passed :
      (client : Client) (row : RefreshToken) (w : World) {d : Done} {w' : World}
      → check_refresh_token client row w ≡ (ret d, w')
      → ((row.client_id == client.client_id) ≡ true) × (ltb row.expires_at (p.clock w.step) ≡ false)
  unfolding check_refresh_token reject_if now fail fail_with ◌>>=◌ pure
  check_refresh_token-passed client row w {d} {w'} h = ground arith

  -- The token that a request presents, as the database holds it: of the client, not expired at the
  -- time, and the new token that the answer carries has its subject, resource, client and scopes.
  pub record IsRotated (before after : Db) (client : Client) (presented : String) (at : ℕ)
      (i : Issuer) (resp : Response) : Type 0 where
    pub old : RefreshToken
    pub stored : find (hash_token presented) before.refresh_tokens ≡ some old
    pub own : old.client_id ≡ client.client_id
    pub alive : ltb (from_unix old.expires_at) at ≡ false
    pub access : String
    pub raw : String
    pub answered : resp ≡ write_json 200 (token_body access (i.access_ttl / second) raw old.scopes)
    pub new : RefreshToken
    pub replaced : find (hash_token raw) after.refresh_tokens ≡ some new
    pub same_sub : new.sub ≡ old.sub
    pub same_resource : new.resource ≡ old.resource
    pub same_client : new.client_id ≡ old.client_id
    pub same_claims : new.claims_json ≡ old.claims_json
    pub same_scopes : new.scopes ≡ old.scopes

  -- A refresh token is answered with new tokens only where the database holds it for the client
  -- that presents it and it has not expired by the clock; the answer's new refresh token is then
  -- stored for the same client, with the old one's subject, resource, claims and scopes.
  pub handle_refresh_token-IsRotated :
      (i : Issuer) (cipher : Cipher) (rc : ResourceConfig) (client : Client) (r : Request)
      (w : World) {resp : Response} {w' : World}
      → handle_refresh_token i cipher rc client r w ≡ (ret resp, w')
      → IsRotated w.db w'.db client
          (r.form_value "refresh_token")
          (p.clock (suc (suc w.step)))
          i
          resp
  unfolding handle_refresh_token fail
  handle_refresh_token-IsRotated i cipher rc client r w h =
      let presented = r.form_value "refresh_token" in
      let (_, w1, e1, h1) = bind-eq-ret (reject_if _ _) _ w h in
      let (row, w2, e2, h2) = bind-eq-ret (claim_refresh_token (hash_token presented)) _ w1 h1 in
      let (_, w3, e3, h3) = bind-eq-ret (check_refresh_token client row) _ w2 h2 in
      let (upstream, w4, e4, h4) = bind-eq-ret (refresh_upstream cipher rc _) _ w3 h3 in
      let (_, same) = reject_if-passed _ [] 400 _ _ w e1 in
      let (old, found, is, step) = claim_refresh_token-found (hash_token presented) w1 e2 in
      let (own, alive) = check_refresh_token-passed client row w2 e3 in
      let (access, raw, expiry, answered, replaced) =
        issue_tokens-stores i rc row.sub row.scopes row.client_id row.claims_json
          (token_of_token row upstream) _ _ w4 (λ k t. refl) h4 in
      record {
        old = old;
        stored =
            ap (λ (v : World). find (hash_token presented) v.db.refresh_tokens) (sym same) ∙ found;
        own = ap (λ (t : RefreshToken). t.client_id) (sym is) ∙ (eq_iff _ _).0 own;
        alive = ground (arith, alive, is, step, same);
        access = access;
        raw = raw;
        answered =
            answered
            ∙ ap
                (λ (t : RefreshToken).
                  write_json 200 (token_body access (i.access_ttl / second) raw t.scopes))
                is;
        new = token_row (token_of_token row upstream (hash_token raw) expiry);
        replaced = replaced;
        same_sub = ap (λ (t : RefreshToken). t.sub) is;
        same_resource = ap (λ (t : RefreshToken). t.resource) is;
        same_client = ap (λ (t : RefreshToken). t.client_id) is;
        same_claims = ap (λ (t : RefreshToken). t.claims_json) is;
        same_scopes = ap (λ (t : RefreshToken). t.scopes) is;
      }
