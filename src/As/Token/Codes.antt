-- ===== src/As/Token/Codes.antt =====
-- The grant of an authorization code (sidecar/internal/as/token.go): who gets tokens for a code, and
-- how often.
use mcpbouncer.Prelude.{
  ℕ, suc, Done, String, ◌≡◌, sym, ap, ◌∙◌, true, false, some, [], ◌==◌, eq_iff, arith, ltb,
}
use mcpbouncer.Platform.{Platform}
use mcpbouncer.Action.{
  World, Response, ret, bind-eq-ret, reject_if-passed, ◌>>=◌, pure, must, given, fail, fail_with,
  reject_if, now, query, exec,
}
use mcpbouncer.Store.Rows.{Client, Code, Db, from_unix, Code-keyed}
use mcpbouncer.Store.Table.{find}
use mcpbouncer.Store.Grants.{get_code, delete_code, scan_code}
use mcpbouncer.Http.{Request}
use mcpbouncer.Config.{ResourceConfig}
use mcpbouncer.Tokens.{Issuer}
use mcpbouncer.As.Token.{pkce_s256_challenge, claim_code, check_code, handle_authorization_code}

module _ ⦃p : Platform⦄ where
  -- The lookup of a code: what it returns is the row under that code.
  claim_code-found :
      (code : String) (w : World) {row : Code} {w' : World}
      → claim_code code w ≡ (ret row, w')
      → (stored : Code) × (find code w.db.codes ≡ some stored)
        × (row ≡ scan_code stored)
        × (w'.step ≡ suc (suc w.step))
  unfolding claim_code must given get_code delete_code query exec fail fail_with ◌>>=◌ pure
  claim_code-found code w {row} {w'} h = ground arith

  check_code-passed :
      (client : Client) (row : Code) (uri verifier : String) (w : World) {d : Done} {w' : World}
      → check_code client row uri verifier w ≡ (ret d, w')
      → ((row.client_id == client.client_id) ≡ true)
        × ((row.redirect_uri == uri) ≡ true)
        × (ltb row.expires_at (p.clock w.step) ≡ false)
        × ((row.code_challenge_method == "S256") ≡ true)
        × ((pkce_s256_challenge verifier == row.code_challenge) ≡ true)
  unfolding check_code reject_if now fail fail_with ◌>>=◌ pure
  check_code-passed client row uri verifier w {d} {w'} h = ground arith

  -- What the database holds of a code that is worth tokens to a client at a time.
  pub record IsRedeemable (d : Db) (client : Client) (r : Request) (at : ℕ) : Type 0 where
    pub row : Code
    pub stored : find (r.form_value "code") d.codes ≡ some row
    pub own : row.client_id ≡ client.client_id
    pub same_redirect : row.redirect_uri ≡ r.form_value "redirect_uri"
    pub alive : ltb (from_unix row.expires_at) at ≡ false
    pub hashed : row.code_challenge_method ≡ "S256"
    pub proved : pkce_s256_challenge (r.form_value "code_verifier") ≡ row.code_challenge

  -- The grant of a code answers with tokens only where the database holds it, issued to the client that
  -- presents it and for the redirect URI that it presents, not expired by the clock, and with an
  -- S256 challenge that the presented verifier hashes to.
  pub handle_authorization_code-IsRedeemable :
      (i : Issuer) (rc : ResourceConfig) (client : Client) (r : Request) (w : World)
      {resp : Response} {w' : World}
      → handle_authorization_code i rc client r w ≡ (ret resp, w')
      → IsRedeemable w.db client r (p.clock (suc (suc w.step)))
  unfolding handle_authorization_code fail
  handle_authorization_code-IsRedeemable i rc client r w h =
      let (d, w1, e1, h1) = bind-eq-ret (reject_if _ _) _ w h in
      let (row, w2, e2, h2) = bind-eq-ret (claim_code (r.form_value "code")) _ w1 h1 in
      let (d', w3, e3, h3) = bind-eq-ret (check_code client row _ _) _ w2 h2 in
      let (_, same) = reject_if-passed _ [] 400 _ _ w e1 in
      let (stored, found, is, step) = claim_code-found (r.form_value "code") w1 e2 in
      let (own, redirect, alive, hashed, proved) =
        check_code-passed client row (r.form_value "redirect_uri") (r.form_value "code_verifier") w2
          e3 in
      record {
        row = stored;
        stored = ap (λ (v : World). find (r.form_value "code") v.db.codes) (sym same) ∙ found;
        own = ap (λ (c : Code). c.client_id) (sym is) ∙ (eq_iff _ _).0 own;
        same_redirect = ap (λ (c : Code). c.redirect_uri) (sym is) ∙ (eq_iff _ _).0 redirect;
        alive = ground (arith, alive, is, step, same);
        hashed = ap (λ (c : Code). c.code_challenge_method) (sym is) ∙ (eq_iff _ _).0 hashed;
        proved = (eq_iff _ _).0 proved ∙ ap (λ (c : Code). c.code_challenge) is;
      }
