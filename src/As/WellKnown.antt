-- ===== src/As/WellKnown.antt =====
-- sidecar/internal/as/wellknown.go and jwks.go: the metadata documents and the public keys.
use mcpbouncer.Prelude.{String, List, [], ◌∷◌, ◌++◌, ◌<>◌}
use mcpbouncer.Prelude.Strings.{fields}
use mcpbouncer.Json.{Json, str, arr, Items, nil, cons, Claims}
use mcpbouncer.Platform.{Platform}
use mcpbouncer.Action.{Action, Response, jwks_body, ◌>>=◌, pure, must, fail}
use mcpbouncer.Http.{write_json}
use mcpbouncer.Config.{ResourceConfig}
use mcpbouncer.Keys.{all_publishable_keys}
use mcpbouncer.Keys.Jwks.{publishable_jwks}

abbrev items : List String → Items
items [] = nil
items (s ∷ ss) = cons (str s) (items ss)

-- A JSON array of texts.
abbrev texts : List String → Json
texts ss = arr (items ss)

unfoldable pub protected_resource : ResourceConfig → Claims
protected_resource rc =
    ("resource", str rc.public_base)
    ∷ ("authorization_servers", texts (rc.public_base ∷ []))
    ∷ ("bearer_methods_supported", texts ("header" ∷ []))
    ∷ ("scopes_supported", texts (fields rc.scopes))
    ∷ ("resource_documentation", str "https://github.com/Sipioteo/MCPBouncer")
    ∷ []

-- The endpoints that the metadata advertises, as paths under the public base.
abbrev pub advertised_paths : List (String × String)
advertised_paths =
    ("authorization_endpoint", "/oauth/authorize")
    ∷ ("token_endpoint", "/oauth/token")
    ∷ ("registration_endpoint", "/oauth/register")
    ∷ ("revocation_endpoint", "/oauth/revoke")
    ∷ ("introspection_endpoint", "/oauth/introspect")
    ∷ ("userinfo_endpoint", "/oauth/userinfo")
    ∷ ("jwks_uri", "/oauth/jwks.json")
    ∷ []

unfoldable pub endpoints : String → List (String × String) → Claims
endpoints base [] = []
endpoints base ((k, path) ∷ ps) = (k, str (base <> path)) ∷ endpoints base ps

unfoldable pub authorization_server : ResourceConfig → Claims
authorization_server rc =
    ("issuer", str rc.public_base)
    ∷ (endpoints rc.public_base advertised_paths
        ++ (
          "revocation_endpoint_auth_methods_supported",
          texts ("client_secret_post" ∷ "client_secret_basic" ∷ []),
        )
          ∷ (
            "introspection_endpoint_auth_methods_supported",
            texts ("client_secret_post" ∷ "client_secret_basic" ∷ []),
          )
          ∷ ("response_types_supported", texts ("code" ∷ []))
          ∷ ("grant_types_supported", texts ("authorization_code" ∷ "refresh_token" ∷ []))
          ∷ ("code_challenge_methods_supported", texts ("S256" ∷ []))
          ∷ (
            "token_endpoint_auth_methods_supported",
            texts ("none" ∷ "client_secret_post" ∷ "client_secret_basic" ∷ []),
          )
          ∷ ("scopes_supported", texts (fields rc.scopes))
          ∷ ("service_documentation", str "https://github.com/Sipioteo/MCPBouncer")
          ∷ [])

unfoldable pub openid_configuration : ResourceConfig → Claims
openid_configuration rc =
    authorization_server rc
    ++ ("subject_types_supported", texts ("public" ∷ []))
      ∷ ("id_token_signing_alg_values_supported", texts ("EdDSA" ∷ []))
      ∷ []

module _ ⦃p : Platform⦄ where
  unfoldable pub handle_jwks : Action Response
  handle_jwks = do
    keys ← must all_publishable_keys (λ _. fail 500 "server_error" "failed to retrieve keys")
    jwks ← must (pure (publishable_jwks keys)) (λ _. fail 500 "server_error" "failed to build JWKS")
    pure (write_json 200 (jwks_body jwks))
