-- ===== src/As/Login.antt =====
-- What the authorization endpoint (sidecar/internal/as/authorize.go) leaves in the table of sessions.
use mcpbouncer.Prelude.{
  ◌⊎◌, ℕ, String, ◌≡◌, ◌≢◌, refl, true, some, List, [], arith, ◌==◌, eq_iff, contains_string,
}
use mcpbouncer.Platform.{Platform}
use mcpbouncer.Action.{
  World, ret, ◌>>=◌, pure, must, given, fail, fail_with, reject_if, now, query, exec,
}
use mcpbouncer.Action.Keeps.{reject-after, Keeps, Keeps-bind, Keeps-now, keeps_rules, bind-after}
use mcpbouncer.Store.Rows.{Client, AuthSession, Db, Client-keyed, AuthSession-keyed}
use mcpbouncer.Store.Table.{find}
use mcpbouncer.Store.Clients.{get_client, touch_client}
use mcpbouncer.Store.Grants.{session_row, insert_auth_session}
use mcpbouncer.Store.Reads.{read_rules}
use mcpbouncer.Store.Additions.{OnlyAdds, OnlyAdds-start, insert-OnlyAdds, elsewhere-OnlyAdds}
use mcpbouncer.Http.{Request}
use mcpbouncer.Config.{ResourceConfig}
use mcpbouncer.As.Authorize.{session_of, find_registered, start_login, handle_authorize}
use mcpbouncer.As.Neutral.{neutral_rules}

module _ ⦃p : Platform⦄ where
  -- The client that the request names is registered, with the redirect URI that it names.
  pub record IsRegistered (d : Db) (r : Request) : Type 0 where
    pub client : Client
    pub stored : find (r.query "client_id") d.clients ≡ some client
    pub uris : List String
    pub listed : p.unmarshal_strings client.redirect_uris_json ≡ some uris
    pub allowed : contains_string uris (r.query "redirect_uri") ≡ true

  -- A session that a request may leave: it is bound to the request's client, redirect URI and S256
  -- challenge, and to the resource.
  pub record IsSessionOf (rc : ResourceConfig) (r : Request) (s : AuthSession) : Type 0 where
    pub client_id : s.client_id ≡ r.query "client_id"
    pub redirect_uri : s.redirect_uri ≡ r.query "redirect_uri"
    pub code_challenge : s.code_challenge ≡ r.query "code_challenge"
    pub given : r.query "code_challenge" ≢ ""
    pub method : s.code_challenge_method ≡ "S256"
    pub resource : s.resource ≡ rc.name
    pub public_base : s.public_base ≡ rc.public_base

  -- Every session of `d` was in `d0`, or is one that the request may leave.
  abbrev pub AddsLogin : ResourceConfig → Request → (d0 d : Db) → Type 0
  AddsLogin rc r d0 =
      OnlyAdds (λ d. d.auth_sessions) (λ s. IsSessionOf rc r s × IsRegistered d0 r) d0

  find_registered_sound :
      (id uri : String) (w : World) {c : Client} {w' : World}
      → find_registered id uri w ≡ (ret c, w')
      → (client : Client) × (uris : List String) × (find id w.db.clients ≡ some client)
        × (p.unmarshal_strings client.redirect_uris_json ≡ some uris)
        × (contains_string uris uri ≡ true)
  unfolding find_registered get_client touch_client query exec now must given reject_if fail
      fail_with ◌>>=◌ pure
  find_registered_sound id uri w {c} {w'} h = ground arith

  module _ (rc : ResourceConfig) (r : Request) (d0 : Db) where
    touch_client-AddsLogin : (c : String) → Keeps (AddsLogin rc r d0) (touch_client c)
    unfolding touch_client
    touch_client-AddsLogin c =
        Keeps-bind _ _ Keeps-now
          λ t. elsewhere-OnlyAdds (λ d. d.auth_sessions) _ d0 _ _ (λ d d' e. ground arith)

    find_registered-AddsLogin :
        (id uri : String) → Keeps (AddsLogin rc r d0) (find_registered id uri)
    unfolding find_registered
    find_registered-AddsLogin id uri =
        search (keeps_rules, read_rules, touch_client-AddsLogin) depth 12

    login_inserted :
        r.query "code_challenge" ≢ ""
        → (r.query "code_challenge_method" == "S256") ≡ true
        → IsRegistered d0 r
        → (state verifier : String) (t : ℕ)
        → Keeps (AddsLogin rc r d0) (insert_auth_session (session_of rc r state verifier t))
    unfolding insert_auth_session session_of
    login_inserted challenge method registered state verifier t =
        insert-OnlyAdds (λ d. d.auth_sessions) _ d0 _
          (session_row (session_of rc r state verifier t)) _ (λ d rs. refl)
          (
            record {
              client_id = refl;
              redirect_uri = refl;
              code_challenge = refl;
              given = challenge;
              method = (eq_iff _ _).0 method;
              resource = refl;
              public_base = refl;
            },
            registered,
          )

    start_login-AddsLogin :
        r.query "code_challenge" ≢ ""
        → (r.query "code_challenge_method" == "S256") ≡ true
        → IsRegistered d0 r
        → Keeps (AddsLogin rc r d0) (start_login rc r)
    unfolding start_login
    start_login-AddsLogin challenge method registered =
        search (neutral_rules, login_inserted challenge method registered) depth 12

  handle_authorize-AddsLogin :
      (rc : ResourceConfig) (r : Request) (w : World)
      → AddsLogin rc r w.db (handle_authorize rc r w).1.db
  unfolding handle_authorize fail
  handle_authorize-AddsLogin rc r w =
      let P = AddsLogin rc r w.db in
      let start =
        OnlyAdds-start (λ d. d.auth_sessions) (λ s. IsSessionOf rc r s × IsRegistered w.db r)
          w.db in
      reject-after P _ [] 400 _ _ _ w start λ _. reject-after P _ [] 400 _ _ _ w start λ named.
        reject-after P _ [] 400 _ _ _ w start λ method.
          bind-after P (find_registered (r.query "client_id") (r.query "redirect_uri")) _ w
            ((find_registered-AddsLogin rc r w.db _ _).at w start)
            λ c found.
              let (client, uris, stored, listed, allowed) =
                find_registered_sound (r.query "client_id") (r.query "redirect_uri") w found in
              (start_login-AddsLogin rc r w.db
                  (ground (arith, eq_iff (r.query "code_challenge") "")) (ground arith)
                  (record {
                    client = client;
                    stored = stored;
                    uris = uris;
                    listed = listed;
                    allowed = allowed;
                  })).at
                _ ((find_registered-AddsLogin rc r w.db _ _).at w start)

  -- Whatever a request to /oauth/authorize is answered, a session that is stored behind it was stored before, or
  -- is bound to the request's client, redirect URI, S256 challenge and resource; and then the client
  -- is registered with that redirect URI.
  pub handle_authorize-added :
      (rc : ResourceConfig) (r : Request) (w : World) (state : String) {s : AuthSession}
      → find state (handle_authorize rc r w).1.db.auth_sessions ≡ some s
      → (find state w.db.auth_sessions ≡ some s) ⊎ (IsSessionOf rc r s × IsRegistered w.db r)
  handle_authorize-added rc r w state {s} found = handle_authorize-AddsLogin rc r w state s found
