-- ===== src/As/Issue.antt =====
-- What the callback (sidecar/internal/as/callback.go) leaves in the table of codes.
use mcpbouncer.Prelude.{
  ◌⊎◌, true, if◌then◌else◌, Bool, ℕ, suc, Done, String, ◌≡◌, refl, sym, false, some, ◌==◌, ltb, [],
  arith,
}
use mcpbouncer.Json.{Claims}
use mcpbouncer.Platform.{Platform, TokenResponse}
use mcpbouncer.Action.{
  pure-ret, World, Action, ret, bind-eq-ret, ◌>>=◌, ◌>>◌, pure, must, given, fail, fail_with,
  reject_if, now, query, exec,
}
use mcpbouncer.Action.Keeps.{Keeps, bind-after, reject-after}
use mcpbouncer.Store.Rows.{Bytes, AuthSession, Code, Db, from_unix, AuthSession-keyed, Code-keyed}
use mcpbouncer.Store.Table.{find}
use mcpbouncer.Store.Grants.{
  code_row, scan_session, get_auth_session, delete_auth_session, insert_code,
}
use mcpbouncer.Store.Additions.{OnlyAdds, OnlyAdds-start, insert-OnlyAdds, elsewhere-OnlyAdds}
use mcpbouncer.Crypto.{Cipher}
use mcpbouncer.Config.{ResourceConfig}
use mcpbouncer.Http.{Request}
use mcpbouncer.As.Neutral.{neutral_rules}
use mcpbouncer.As.Callback.{
  code_of, handle_upstream_error, find_session, issue_code, finish_login, handle_callback,
}

module _ ⦃p : Platform⦄ where
  -- A code that a callback may leave: it carries on the grant of the session under the request's
  -- state, which had not expired.
  pub record IsIssuedFrom (at : ℕ) (d0 : Db) (r : Request) (c : Code) : Type 0 where
    pub session : AuthSession
    pub stored : find (r.query "state") d0.auth_sessions ≡ some session
    pub alive : ltb (from_unix session.expires_at) at ≡ false
    pub client_id : c.client_id ≡ session.client_id
    pub resource : c.resource ≡ session.resource
    pub scopes : c.scopes ≡ session.scopes
    pub redirect_uri : c.redirect_uri ≡ session.redirect_uri
    pub code_challenge : c.code_challenge ≡ session.code_challenge
    pub method : c.code_challenge_method ≡ session.code_challenge_method

  abbrev pub AddsCode : Request → (at : ℕ) → (d0 d : Db) → Type 0
  AddsCode r at d0 = OnlyAdds (λ d. d.codes) (IsIssuedFrom at d0 r) d0

  pub find_session_sound :
      (state : String) (w : World) {s : AuthSession} {w' : World}
      → find_session state w ≡ (ret s, w')
      → (stored : AuthSession) × (find state w.db.auth_sessions ≡ some stored)
        × (s ≡ scan_session stored)
        × (ltb (from_unix stored.expires_at) (p.clock (suc w.step)) ≡ false)
  unfolding find_session get_auth_session query now must given reject_if fail fail_with
      delete_auth_session exec ◌>>=◌ pure
  find_session_sound state w {s} {w'} h = ground arith

  unless_failed :
      (b : Bool) (m : Action Done) (status : ℕ) (code description : String) (w : World) {d : Done}
      {w' : World}
      → (if b then pure tt else (m >> fail status code description)) w ≡ (ret d, w')
      → w' ≡ w
  unfolding fail fail_with
  unless_failed true m status code description w h = sym (pure-ret tt w h).1
  unless_failed false m status code description w h =
      let (x, w1, _, stopped) = bind-eq-ret m _ w h in ground arith

  -- Where the provider has reported an error, the callback does not go on.
  upstream_error-passed :
      (r : Request) (w : World) {d : Done} {w' : World}
      → handle_upstream_error r w ≡ (ret d, w')
      → w' ≡ w
  unfolding handle_upstream_error
  upstream_error-passed r w h =
      unless_failed (r.query "error" == "") _ 400 (r.query "error") (r.query "error_description") w
        h

  module _ (r : Request) (at : ℕ) (d0 : Db) where
    delete-AddsCode : (state : String) → Keeps (AddsCode r at d0) (delete_auth_session state)
    unfolding delete_auth_session
    delete-AddsCode state = elsewhere-OnlyAdds (λ d. d.codes) _ d0 _ _ (λ d d' e. ground arith)

    upstream_error-AddsCode : Keeps (AddsCode r at d0) (handle_upstream_error r)
    unfolding handle_upstream_error
    upstream_error-AddsCode = search (neutral_rules, delete-AddsCode) depth 14

    find_session-AddsCode : (state : String) → Keeps (AddsCode r at d0) (find_session state)
    unfolding find_session
    find_session-AddsCode state = search (neutral_rules, delete-AddsCode) depth 12

    module _ (stored : AuthSession) (found : find (r.query "state") d0.auth_sessions ≡ some stored)
        (alive : ltb (from_unix stored.expires_at) at ≡ false) where
      code_inserted :
          (code sub claims_json : String) (upstream : Bytes) (t : ℕ)
          → Keeps
              (AddsCode r at d0)
              (insert_code (code_of (scan_session stored) code sub claims_json upstream t))
      unfolding insert_code code_of
      code_inserted code sub claims_json upstream t =
          insert-OnlyAdds (λ d. d.codes) _ d0 _
            (code_row (code_of (scan_session stored) code sub claims_json upstream t)) _
            (λ d rs. refl)
            (record {
              session = stored;
              stored = found;
              alive = alive;
              client_id = refl;
              resource = refl;
              scopes = refl;
              redirect_uri = refl;
              code_challenge = refl;
              method = refl;
            })

      issue_code-AddsCode :
          (cipher : Cipher) (state : String) (claims : Claims) (tr : TokenResponse)
          → Keeps (AddsCode r at d0) (issue_code cipher state (scan_session stored) claims tr)
      unfolding issue_code
      issue_code-AddsCode cipher state claims tr =
          search (neutral_rules, code_inserted, delete-AddsCode) depth 14

      finish_login-AddsCode :
          (cipher : Cipher) (rc : ResourceConfig)
          → Keeps (AddsCode r at d0) (finish_login cipher rc r (scan_session stored))
      unfolding finish_login
      finish_login-AddsCode cipher rc = search (neutral_rules, issue_code-AddsCode) depth 14

  handle_callback-AddsCode :
      (cipher : Cipher) (rc : ResourceConfig) (r : Request) (w : World)
      → AddsCode r (p.clock (suc w.step)) w.db (handle_callback cipher rc r w).1.db
  unfolding handle_callback fail
  handle_callback-AddsCode cipher rc r w =
      let at = p.clock (suc w.step) in
      let P = AddsCode r at w.db in
      let start = OnlyAdds-start (λ d. d.codes) (IsIssuedFrom at w.db r) w.db in
      bind-after P (handle_upstream_error r) _ w ((upstream_error-AddsCode r at w.db).at w start)
        λ d passed. rw (upstream_error-passed r w passed) (
          reject-after P _ [] 400 _ _ _ w start λ _.
            bind-after P (find_session (r.query "state")) _ w
              ((find_session-AddsCode r at w.db _).at w start)
              λ s found.
                let (stored, there, is, alive) = find_session_sound (r.query "state") w found in
                rw is (
                  (finish_login-AddsCode r at w.db stored there alive cipher rc).at _
                    ((find_session-AddsCode r at w.db _).at w start)))

  -- Whatever a request to /oauth/callback is answered, a code that is stored behind it was stored
  -- before, or carries the client, the resource, the scopes, the redirect URI and the challenge of the
  -- session under the request's state, which the database held and which had not expired by
  -- the clock.
  pub handle_callback-added :
      (cipher : Cipher) (rc : ResourceConfig) (r : Request) (w : World) (code : String) {c : Code}
      → find code (handle_callback cipher rc r w).1.db.codes ≡ some c
      → (find code w.db.codes ≡ some c) ⊎ IsIssuedFrom (p.clock (suc w.step)) w.db r c
  handle_callback-added cipher rc r w code {c} found =
      handle_callback-AddsCode cipher rc r w code c found
