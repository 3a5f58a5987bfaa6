-- ===== src/Plugin/Middleware.antt =====
-- ServeHTTP of plugin/mcpbouncer.go: what the middleware does with a request. The responses that it
-- writes and its record of the backend's status are the module Responses.
use mcpbouncer.Prelude.{ℕ, String, Bool, Option, none, some, List, [], ◌∷◌, ◌==◌, if◌then◌else◌}
use mcpbouncer.Prelude.Int.{pos}
use mcpbouncer.Prelude.Strings.{strip_prefix, to_upper, begins_with}
use mcpbouncer.Json.{Claims, get_claim, string_or_empty}
use mcpbouncer.Platform.{Platform, PublicKey}
use mcpbouncer.Store.Rows.{Result, ok, err, unix}
use mcpbouncer.Plugin.Routing.{PluginConfig, match_oauth_suffix, public_base}
use mcpbouncer.Plugin.Claims.{Reason, missing_bearer, jwt_parse, check_claims}
use mcpbouncer.Plugin.Jwt.{parse_and_verify_jwt}

-- r.Header, with one value for each name.
abbrev pub Headers : Type 0
Headers = List (String × String)

unfoldable pub is_internal : String → Bool
is_internal key = begins_with "X-MCPB-" (to_upper key)

-- The loop that deletes what a client may have forged.
unfoldable pub strip_internal : Headers → Headers
strip_internal [] = []
strip_internal ((k, v) ∷ hs) =
    let rest = strip_internal hs in if is_internal k then rest else (k, v) ∷ rest

-- r.Header.Get at a name in canonical form.
unfoldable pub header_get : Headers → String → String
header_get [] k = ""
header_get ((j, v) ∷ hs) k = if j == k then v else header_get hs k

-- r.Header.Set
unfoldable pub header_set : String → String → Headers → Headers
header_set k v [] = (k, v) ∷ []
header_set k v ((j, w) ∷ hs) = if j == k then (k, v) ∷ hs else (j, w) ∷ header_set k v hs

-- Where the request goes.
pub data Verdict : Type 0 where
  preflight : Verdict
  to_sidecar : (path : String) → Headers → Verdict
  unauthorized : Reason → Verdict
  to_backend : Headers → Verdict

unfoldable pub extract_bearer : String → Option String
extract_bearer header = elim (strip_prefix "Bearer " header) [
  | none ↦ none
  | some token ↦ if token == "" then none else some token
]

-- The headers of the request to the sidecar.
unfoldable pub sidecar_headers : PluginConfig → String → Headers → Headers
sidecar_headers cfg base hs = header_set "X-Mcpb-Audience" cfg.audience (
    header_set "X-Mcpb-Scopes" cfg.scopes (
      header_set "X-Mcpb-Client-Secret" cfg.client_secret (
        header_set "X-Mcpb-Client-Id" cfg.client_id (
          header_set "X-Mcpb-Provider-Issuer" cfg.provider_issuer (
            header_set "X-Mcpb-Public-Base" base (header_set "X-Mcpb-Resource" cfg.resource hs))))))

-- The headers of the request to the backend.
unfoldable pub backend_headers : Claims → Headers → Headers
backend_headers claims hs =
    header_set "X-Mcp-Scopes" (string_or_empty (get_claim claims "scope"))
      (header_set "X-Mcp-Sub" (string_or_empty (get_claim claims "sub")) hs)

module _ ⦃p : Platform⦄ where
  -- `t` is the clock in nanoseconds at `checkClaims`.
  unfoldable pub forward_claims : PluginConfig → String → ℕ → Headers → Result Claims → Verdict
  forward_claims cfg base t hs (err e) = unauthorized jwt_parse
  forward_claims cfg base t hs (ok claims) =
      elim (check_claims cfg.required_scopes claims base (pos (unix t))) [
        | some reason ↦ unauthorized reason
        | none ↦ to_backend (backend_headers claims hs)
      ]

  unfoldable pub validate_and_forward :
      PluginConfig → (String → String → Result PublicKey) → (base : String) → ℕ → Headers → Verdict
  unfolding forward_claims
  validate_and_forward cfg get_key base t hs =
      elim (extract_bearer (header_get hs "Authorization")) [
        | none ↦ unauthorized missing_bearer
        | some token ↦ forward_claims cfg base t hs (parse_and_verify_jwt token get_key)
      ]

  unfoldable pub serve :
      PluginConfig
      → (String → String → Result PublicKey)
      → (host : String) → ℕ
      → (method path : String) → Headers
      → Verdict
  serve cfg get_key host t method path headers =
      let hs = strip_internal headers in
      let base = public_base cfg host (header_get hs) path in
      if method == "OPTIONS" then preflight else elim (match_oauth_suffix path) [
        | some (suffix, prefix) ↦ to_sidecar suffix (sidecar_headers cfg base hs)
        | none ↦ validate_and_forward cfg get_key base t hs
      ]
