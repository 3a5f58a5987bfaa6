-- ===== src/Sidecar/Stable.antt =====
-- One event of the sidecar (sidecar/cmd/bouncer/main.go), under whatever the writing statements of the
-- store keep.
use mcpbouncer.Prelude.{String, List, [], ◌∷◌}
use mcpbouncer.Platform.{Platform}
use mcpbouncer.Action.{Action, World, Response}
use mcpbouncer.Action.Keeps.{Keeps, keeps_rules}
use mcpbouncer.Http.{Request}
use mcpbouncer.Crypto.{Cipher}
use mcpbouncer.Config.{ResourceConfig, persist_encrypted}
use mcpbouncer.Tokens.{Issuer}
use mcpbouncer.Store.Rows.{Bytes, Db}
use mcpbouncer.Store.Reads.{read_rules}
use mcpbouncer.Store.Stable.{IsStable, stable_rules, janitor_tick-Keeps}
use mcpbouncer.As.Neutral.{neutral_rules}
use mcpbouncer.As.WellKnown.{handle_jwks}
use mcpbouncer.Keys.{all_publishable_keys}
use mcpbouncer.As.Introspect.{
  try_refresh_token, report_refresh_token, report_access_token, verify_parts, verify_access_jwt,
  handle_introspect,
}
use mcpbouncer.As.Userinfo.{
  read_bearer, local_key, verify_local_parts, verify_local_jwt, handle_userinfo,
}
use mcpbouncer.As.Stable.{
  handle_token-Keeps, handle_revoke-Keeps, handle_authorize-Keeps, handle_callback-Keeps,
  handle_register-Keeps, rotate-Keeps,
}
use mcpbouncer.Sidecar.{Event, request, rotation, cleanup, with_rc, dispatch, step, run}

module _ ⦃p : Platform⦄ {P : Db → Type 0} where
  all_publishable_keys-Keeps : Keeps P all_publishable_keys
  unfolding all_publishable_keys
  all_publishable_keys-Keeps = search read_rules depth 4

  handle_jwks-Keeps : Keeps P handle_jwks
  unfolding handle_jwks
  handle_jwks-Keeps = search (neutral_rules, all_publishable_keys-Keeps) depth 10

  try_refresh_token-Keeps : (id hint token : String) → Keeps P (try_refresh_token id hint token)
  unfolding try_refresh_token report_refresh_token
  try_refresh_token-Keeps id hint token = search neutral_rules depth 14

  verify_access_jwt-Keeps :
      (rc : ResourceConfig) (token : String) → Keeps P (verify_access_jwt rc token)
  unfolding verify_access_jwt verify_parts
  verify_access_jwt-Keeps rc token = search (neutral_rules, all_publishable_keys-Keeps) depth 14

  handle_introspect-Keeps : (rc : ResourceConfig) (r : Request) → Keeps P (handle_introspect rc r)
  unfolding handle_introspect report_access_token
  handle_introspect-Keeps rc r =
      search (neutral_rules, try_refresh_token-Keeps, verify_access_jwt-Keeps) depth 14

  read_bearer-Keeps : (r : Request) → Keeps P (read_bearer r)
  unfolding read_bearer
  read_bearer-Keeps r = search keeps_rules depth 10

  verify_local_jwt-Keeps :
      (keys : List (String × Bytes)) (token : String) → Keeps P (verify_local_jwt keys token)
  unfolding verify_local_jwt verify_local_parts local_key
  verify_local_jwt-Keeps keys token = search neutral_rules depth 14

  handle_userinfo-Keeps : (rc : ResourceConfig) (r : Request) → Keeps P (handle_userinfo rc r)
  unfolding handle_userinfo
  handle_userinfo-Keeps rc r =
      search (neutral_rules, read_bearer-Keeps, verify_local_jwt-Keeps, all_publishable_keys-Keeps)
        depth 16

module _ ⦃p : Platform⦄ {P : Db → Type 0} {Good : String → String → Type 0}
    (stable : IsStable P Good) (i : Issuer) (cipher : Cipher) where
  persist_encrypted-Keeps : (rc : ResourceConfig) → Keeps P (persist_encrypted rc cipher)
  unfolding persist_encrypted
  persist_encrypted-Keeps rc = search (stable_rules, neutral_rules) depth 10

  with_rc-Keeps :
      (handler : ResourceConfig → Action Response) (r : Request)
      → ((rc : ResourceConfig) → Keeps P (handler rc))
      → Keeps P (with_rc i cipher handler r)
  unfolding with_rc
  with_rc-Keeps handler r k = search (neutral_rules, persist_encrypted-Keeps, k) depth 8

  pub dispatch-Keeps : (r : Request) → Keeps P (dispatch i cipher r)
  unfolding dispatch
  dispatch-Keeps r =
      search
        (
          keeps_rules, with_rc-Keeps, handle_jwks-Keeps, handle_introspect-Keeps,
          handle_userinfo-Keeps, handle_token-Keeps, handle_revoke-Keeps, handle_authorize-Keeps,
          handle_callback-Keeps, handle_register-Keeps,
        )
        depth 20

  pub step-keeps : (e : Event) (w : World) → P w.db → P (step i cipher e w).db
  unfolding step
  step-keeps (request r) w h = (dispatch-Keeps r).at w h
  step-keeps rotation w h = (rotate-Keeps stable i.rotator).at w h
  step-keeps (cleanup client_ttl) w h = (janitor_tick-Keeps stable client_ttl).at w h

  pub run-keeps : (es : List Event) (w : World) → P w.db → P (run i cipher es w).db
  unfolding run
  run-keeps [] w h = h
  run-keeps (e ∷ es) w h = run-keeps es (step i cipher e w) (step-keeps e w h)
