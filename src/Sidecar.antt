-- ===== src/Sidecar.antt =====
-- sidecar/cmd/bouncer/main.go: the routes of the sidecar, and its background work on the database. What
-- stands before the routes is the module Process.
pub mod Stable
pub mod WellFormed
pub mod Pkce
use mcpbouncer.Prelude.{ℕ, Done, String, List, [], ◌∷◌, ◌==◌, ◌<>◌, if◌then◌else◌}
use mcpbouncer.Platform.{Platform}
use mcpbouncer.Action.{
  Action, World, Response, ◌>>=◌, ◌>>◌, pure, on_result, text_body, claims_body,
}
use mcpbouncer.Http.{Request, write_json}
use mcpbouncer.Crypto.{Cipher}
use mcpbouncer.Config.{ResourceConfig, from_request, persist_encrypted}
use mcpbouncer.Tokens.{Issuer}
use mcpbouncer.Keys.{rotate}
use mcpbouncer.Store.Janitor.{janitor_tick}
use mcpbouncer.As.Token.Endpoint.{handle_token}
use mcpbouncer.As.Revoke.{handle_revoke}
use mcpbouncer.As.Authorize.{handle_authorize}
use mcpbouncer.As.Callback.{handle_callback}
use mcpbouncer.As.Register.{handle_register}
use mcpbouncer.As.Introspect.{handle_introspect}
use mcpbouncer.As.Userinfo.{handle_userinfo}
use mcpbouncer.As.WellKnown.{
  protected_resource, authorization_server, openid_configuration, handle_jwks,
}

-- What happens to the sidecar: a request, a tick of the rotation, a tick of the cleanup.
pub data Event : Type 0 where
  request : Request → Event
  rotation : Event
  cleanup : (client_ttl : ℕ) → Event

module _ ⦃p : Platform⦄ (i : Issuer) (cipher : Cipher) where
  -- The resource's configuration is stored, and the failure of that is only logged.
  unfoldable pub with_rc : (ResourceConfig → Action Response) → Request → Action Response
  with_rc handler r =
      on_result (from_request r) (λ rc. persist_encrypted rc cipher >> handler rc)
        (λ e. pure (record {
          status = 400;
          headers = [];
          body = text_body ("missing X-MCPB-* headers: " <> e);
        }))

  -- The mux; a path that it does not know is answered with 404.
  unfoldable pub dispatch : Request → Action Response
  dispatch r =
      if r.path == "/oauth/jwks.json"
      then handle_jwks
      else if r.path == "/.well-known/oauth-protected-resource"
      then with_rc (λ rc. pure (write_json 200 (claims_body (protected_resource rc)))) r
      else if r.path == "/.well-known/oauth-authorization-server"
      then with_rc (λ rc. pure (write_json 200 (claims_body (authorization_server rc)))) r
      else if r.path == "/.well-known/openid-configuration"
      then with_rc (λ rc. pure (write_json 200 (claims_body (openid_configuration rc)))) r
      else if r.path == "/oauth/register"
      then with_rc (λ rc. handle_register rc r) r
      else if r.path == "/oauth/authorize"
      then with_rc (λ rc. handle_authorize rc r) r
      else if r.path == "/oauth/callback"
      then with_rc (λ rc. handle_callback cipher rc r) r
      else if r.path == "/oauth/token"
      then with_rc (λ rc. handle_token i cipher rc r) r
      else if r.path == "/oauth/revoke"
      then handle_revoke r
      else if r.path == "/oauth/introspect"
      then with_rc (λ rc. handle_introspect rc r) r
      else if r.path == "/oauth/userinfo"
      then with_rc (λ rc. handle_userinfo rc r) r
      else if r.path == "/healthz"
      then pure (record { status = 200; headers = []; body = text_body "ok" })
      else pure (record { status = 404; headers = []; body = text_body "404 page not found\n" })

  unfoldable pub step : Event → World → World
  step (request r) w = (dispatch r w).1
  step rotation w = (rotate i.rotator w).1
  step (cleanup client_ttl) w = (janitor_tick client_ttl w).1

  unfoldable pub run : List Event → World → World
  run [] w = w
  run (e ∷ es) w = run es (step e w)
