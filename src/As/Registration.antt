-- ===== src/As/Registration.antt =====
-- What the registration endpoint (sidecar/internal/as/dcr.go) leaves in the table of clients.
use mcpbouncer.As.Neutral.{read_registration-Keeps}
use mcpbouncer.As.Register.{
  bearer_or_empty, save_client, validate_redirect_uri, check_uris, check_initial_token,
  read_registration, client_of, handle_register,
}
use mcpbouncer.Store.Table.{find}
use mcpbouncer.Prelude.{
  ◌⊎◌, some, ◌≢◌, eq_iff, ℕ, Done, String, ◌≡◌, inl, inr, refl, none, List, [], ◌∷◌, All,
  Option-cases, arith,
}
use mcpbouncer.Platform.{Platform, RegisterRequest}
use mcpbouncer.Action.{
  World, ret, bind-eq-ret, pure-ret, must-ret, reject_if-passed, pure, must, fail, fail_with,
  reject_if, on_option,
}
use mcpbouncer.Action.Keeps.{Keeps, Keeps-bind, Keeps-now, Keeps-must-pure, keeps_rules, bind-after}
use mcpbouncer.Store.Rows.{Bytes, ok, Client, Db, Client-keyed}
use mcpbouncer.Store.Clients.{insert_client}
use mcpbouncer.Store.Additions.{OnlyAdds, OnlyAdds-start, insert-OnlyAdds}
use mcpbouncer.Config.{ResourceConfig}
use mcpbouncer.Http.{Request}

module _ ⦃p : Platform⦄ where
  check_uris_sound :
      (us : List String) (w : World) {d : Done} {w' : World}
      → check_uris us w ≡ (ret d, w')
      → All (λ u. validate_redirect_uri u ≡ none) us
  unfolding check_uris on_option fail fail_with
  check_uris_sound [] w h = tt
  check_uris_sound (u ∷ us) w h = elim (Option-cases (validate_redirect_uri u)) [
    | inl e ↦ (e, check_uris_sound us w (rw (e, on_option) at h))
    | inr (why, e) ↦ let stopped = rw (e, on_option) at h in ground arith
  ]

  -- A token for registrations, where one is set, is the request's bearer token.
  abbrev MayRegister : Request → Type 0
  MayRegister r =
      p.getenv "BOUNCER_DCR_INITIAL_TOKEN" ≢ ""
      → bearer_or_empty (r.header "Authorization") ≡ p.getenv "BOUNCER_DCR_INITIAL_TOKEN"

  check_initial_token_sound :
      (r : Request) (w : World) {d : Done} {w' : World}
      → check_initial_token r w ≡ (ret d, w')
      → MayRegister r
  unfolding check_initial_token reject_if fail fail_with pure
  check_initial_token_sound r w h set = ground (
    arith,
    eq_iff (p.getenv "BOUNCER_DCR_INITIAL_TOKEN") "",
    eq_iff (bearer_or_empty (r.header "Authorization")) (p.getenv "BOUNCER_DCR_INITIAL_TOKEN"),
  )

  -- What the endpoint accepts: an authorized POST of JSON with one redirect URI at least, each of
  -- which passes `validateRedirectURI`.
  pub record IsAccepted (r : Request) (req : RegisterRequest) : Type 0 where
    pub posted : r.method ≡ "POST"
    pub authorized : MayRegister r
    pub body : Bytes
    pub read : r.body ≡ ok body
    pub parsed : p.unmarshal_register body ≡ ok req
    pub some_uri : req.redirect_uris ≢ []
    pub allowed : All (λ u. validate_redirect_uri u ≡ none) req.redirect_uris

  read_registration_sound :
      (r : Request) (w : World) {req : RegisterRequest} {w' : World}
      → read_registration r w ≡ (ret req, w')
      → IsAccepted r req
  unfolding read_registration fail
  read_registration_sound r w h =
      let (d1, w1, e1, h1) = bind-eq-ret (reject_if _ _) _ w h in
      let (d2, w2, e2, h2) = bind-eq-ret (check_initial_token r) _ w1 h1 in
      let (body, w3, e3, h3) = bind-eq-ret (must (pure r.body) _) _ w2 h2 in
      let (req, w4, e4, h4) = bind-eq-ret (must (pure (p.unmarshal_register body)) _) _ w3 h3 in
      let (d5, w5, e5, h5) = bind-eq-ret (reject_if _ _) _ w4 h4 in
      let (d6, w6, e6, h6) = bind-eq-ret (check_uris req.redirect_uris) _ w5 h5 in
      let same = (pure-ret req w6 h6).0 in
      let posted = (reject_if-passed _ [] 405 _ _ w e1).0 in
      let filled = (reject_if-passed _ [] 400 _ _ w4 e5).0 in
      rw (← same) (record {
        posted = (eq_iff _ _).0 (ground arith);
        authorized = check_initial_token_sound r w1 e2;
        body = body;
        read = (pure-ret r.body w2 (must-ret (pure r.body) [] 400 _ _ w2 e3)).0;
        parsed =
            (pure-ret (p.unmarshal_register body) w3
              (must-ret (pure (p.unmarshal_register body)) [] 400 _ _ w3 e4)).0;
        some_uri = λ none_given. ground arith;
        allowed = check_uris_sound req.redirect_uris w5 e6;
      })

  -- A client that a registration may leave: it is the resource's, and its redirect URIs are those of
  -- an accepted request.
  pub record IsRegistration (rc : ResourceConfig) (r : Request) (c : Client) : Type 0 where
    pub req : RegisterRequest
    pub accepted : IsAccepted r req
    pub uris : p.marshal_strings req.redirect_uris ≡ ok c.redirect_uris_json
    pub resource : c.resource ≡ rc.name

  abbrev pub AddsClient : ResourceConfig → Request → (d0 d : Db) → Type 0
  AddsClient rc r d0 = OnlyAdds (λ d. d.clients) (IsRegistration rc r) d0

  module _ (rc : ResourceConfig) (r : Request) (d0 : Db) where
    read_registration-AddsClient : Keeps (AddsClient rc r d0) (read_registration r)
    read_registration-AddsClient = read_registration-Keeps r

    client_inserted :
        (req : RegisterRequest) (id secret rat uris : String) (t : ℕ)
        → IsAccepted r req
        → p.marshal_strings req.redirect_uris ≡ ok uris
        → Keeps (AddsClient rc r d0) (insert_client (client_of rc req id secret rat uris t))
    unfolding insert_client client_of
    client_inserted req id secret rat uris t accepted marshalled = Keeps-bind _ _ Keeps-now λ now_t.
        insert-OnlyAdds (λ d. d.clients) (IsRegistration rc r) d0 _ _ _ (λ d rs. refl)
          (record { req = req; accepted = accepted; uris = marshalled; resource = refl })

    save_client-AddsClient :
        (req : RegisterRequest) → IsAccepted r req → Keeps (AddsClient rc r d0) (save_client rc req)
    unfolding save_client
    save_client-AddsClient req accepted =
        search (Keeps-must-pure, keeps_rules, client_inserted req) depth 14

  handle_register-AddsClient :
      (rc : ResourceConfig) (r : Request) (w : World)
      → AddsClient rc r w.db (handle_register rc r w).1.db
  unfolding handle_register
  handle_register-AddsClient rc r w =
      let start = OnlyAdds-start (λ d. d.clients) (IsRegistration rc r) w.db in
      let read = (read_registration-AddsClient rc r w.db).at w start in
      bind-after (AddsClient rc r w.db) (read_registration r) _ w read λ req passed.
        (save_client-AddsClient rc r w.db req (read_registration_sound r w passed)).at _ read

  -- Whatever a request to /oauth/register is answered, a client that is stored behind it was stored
  -- before, or is the resource's and has the redirect URIs of the request, which was an authorized
  -- POST of JSON with at least one redirect URI and with none that `validateRedirectURI` refuses.
  pub handle_register-added :
      (rc : ResourceConfig) (r : Request) (w : World) (id : String) {c : Client}
      → find id (handle_register rc r w).1.db.clients ≡ some c
      → (find id w.db.clients ≡ some c) ⊎ IsRegistration rc r c
  handle_register-added rc r w id {c} found = handle_register-AddsClient rc r w id c found
