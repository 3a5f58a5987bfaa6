-- ===== src/Plugin/Forwarding.antt =====
-- What plugin/mcpbouncer.go lets through to the backend and to the sidecar, and what of the
-- client's headers gets there.
use mcpbouncer.Prelude.{
  ◌≢◌, ap, ◌∙◌, ℕ, String, ◌≡◌, refl, inl, inr, true, false, none, some, Option-cases, List, [],
  ◌∷◌, ◌==◌, ◌<>◌, eq_iff, arith, Bool-cases, contains_string, if◌then◌else◌,
}
use mcpbouncer.Prelude.Int.{pos}
use mcpbouncer.Prelude.Strings.{strip_suffix, strip_suffix-append}
use mcpbouncer.Json.{Claims, get_claim, string_or_empty}
use mcpbouncer.Platform.{Platform, PublicKey}
use mcpbouncer.Store.Rows.{Result, ok, err, unix}
use mcpbouncer.Plugin.Routing.{
  PluginConfig, oauth_suffixes, match_suffix, match_oauth_suffix, public_base,
}
use mcpbouncer.Plugin.Claims.{check_claims}
use mcpbouncer.Plugin.Jwt.{parse_and_verify_jwt}
use mcpbouncer.Plugin.Middleware.{
  Headers, is_internal, strip_internal, header_get, header_set, to_backend, to_sidecar,
  extract_bearer, sidecar_headers, backend_headers, forward_claims, validate_and_forward, serve,
}

match_suffix_sound :
    (ss : List String) (path : String) {s prefix : String}
    → match_suffix ss path ≡ some (s, prefix)
    → (path ≡ prefix <> s) × (contains_string ss s ≡ true)
unfolding match_suffix
match_suffix_sound [] path h = ground arith
match_suffix_sound (t ∷ ss) path {s} {prefix} h = elim (Option-cases (strip_suffix t path)) [
  | inl e ↦ ground (arith, match_suffix_sound ss path {s = s} {prefix = prefix})
  | inr (r, e) ↦ ground (arith, strip_suffix-append t path e, eq_iff t s)
]

-- A path that is routed to the sidecar is its prefix followed by one of the listed suffixes.
pub match_oauth_suffix_sound :
    (path : String) {s prefix : String}
    → match_oauth_suffix path ≡ some (s, prefix)
    → (path ≡ prefix <> s) × (contains_string oauth_suffixes s ≡ true)
unfolding match_oauth_suffix
match_oauth_suffix_sound path h = match_suffix_sound oauth_suffixes path h

header_get-header_set :
    (k v j : String) (hs : Headers)
    → header_get (header_set k v hs) j ≡ (if k == j then v else header_get hs j)
unfolding header_get header_set
header_get-header_set k v j [] = refl
header_get-header_set k v j ((i, w) ∷ hs) =
    ground (arith, header_get-header_set k v j hs, eq_iff i k, eq_iff k j, eq_iff i j)

strip_internal-header_get :
    (hs : Headers) (k : String)
    → header_get (strip_internal hs) k ≡ (if is_internal k then "" else header_get hs k)
unfolding strip_internal header_get
strip_internal-header_get [] k = ground arith
strip_internal-header_get ((j, v) ∷ hs) k =
    ground (arith, strip_internal-header_get hs k, eq_iff j k)

-- The value of a header of the request to the backend: the user and the scopes of the token, nothing
-- that starts with X-MCPB-, and what else the client sent.
abbrev pub backend_value : Claims → Headers → String → String
backend_value claims headers k =
    if "X-Mcp-Scopes" == k
    then string_or_empty (get_claim claims "scope")
    else if "X-Mcp-Sub" == k
    then string_or_empty (get_claim claims "sub")
    else if is_internal k
    then ""
    else header_get headers k

-- The value of a header of the request to the sidecar: the middleware's configuration, nothing else
-- that starts with X-MCPB-, and what else the client sent.
abbrev pub sidecar_value : PluginConfig → (base : String) → Headers → String → String
sidecar_value cfg base headers k =
    if "X-Mcpb-Audience" == k
    then cfg.audience
    else if "X-Mcpb-Scopes" == k
    then cfg.scopes
    else if "X-Mcpb-Client-Secret" == k
    then cfg.client_secret
    else if "X-Mcpb-Client-Id" == k
    then cfg.client_id
    else if "X-Mcpb-Provider-Issuer" == k
    then cfg.provider_issuer
    else if "X-Mcpb-Public-Base" == k
    then base
    else if "X-Mcpb-Resource" == k
    then cfg.resource
    else if is_internal k
    then ""
    else header_get headers k

backend_headers-value :
    (claims : Claims) (headers : Headers) (k : String)
    → header_get (backend_headers claims (strip_internal headers)) k
      ≡ backend_value claims headers k
unfolding backend_headers
backend_headers-value claims headers k =
    simp (header_get-header_set, strip_internal-header_get headers k)

sidecar_headers-value :
    (cfg : PluginConfig) (base : String) (headers : Headers) (k : String)
    → header_get (sidecar_headers cfg base (strip_internal headers)) k
      ≡ sidecar_value cfg base headers k
unfolding sidecar_headers
sidecar_headers-value cfg base headers k =
    simp (header_get-header_set, strip_internal-header_get headers k)

forward-to_backend :
    ⦃p : Platform⦄ (cfg : PluginConfig) (base : String) (t : ℕ) (hs : Headers) (r : Result Claims)
    {out : Headers}
    → forward_claims cfg base t hs r ≡ to_backend out
    → (claims : Claims) × (r ≡ ok claims)
      × (check_claims cfg.required_scopes claims base (pos (unix t)) ≡ none)
      × (out ≡ backend_headers claims hs)
unfolding forward_claims
forward-to_backend cfg base t hs (err e) h = ground arith
forward-to_backend cfg base t hs (ok claims) {out} h =
    elim (Option-cases (check_claims cfg.required_scopes claims base (pos (unix t)))) [
      | inl e ↦ (claims, refl, e, ground arith)
      | inr (reason, e) ↦ ground arith
    ]

validate-to_backend :
    ⦃p : Platform⦄ (cfg : PluginConfig) (get_key : String → String → Result PublicKey)
    (base : String) (t : ℕ) (hs : Headers) {out : Headers}
    → validate_and_forward cfg get_key base t hs ≡ to_backend out
    → (token : String) × (claims : Claims) × (extract_bearer (header_get hs "Authorization")
        ≡ some token)
      × (parse_and_verify_jwt token get_key ≡ ok claims)
      × (check_claims cfg.required_scopes claims base (pos (unix t)) ≡ none)
      × (out ≡ backend_headers claims hs)
unfolding validate_and_forward
validate-to_backend cfg get_key base t hs {out} h =
    elim (Option-cases (extract_bearer (header_get hs "Authorization"))) [
      | inl e ↦ ground arith
      | inr (token, e) ↦
          let (claims, verified, passed, sent) =
            forward-to_backend cfg base t hs (parse_and_verify_jwt token get_key) {out = out}
              (ground arith) in
          (token, claims, e, verified, passed, sent)
    ]

-- The middleware sends a request to the backend only where its method is not OPTIONS, its path is
-- no OAuth path, and it carries a bearer token that verifies with claims that pass every check; the
-- backend then sees the token's sub as X-Mcp-Sub and its scope as X-Mcp-Scopes, whatever the client
-- sent under these names, no header that starts with X-MCPB-, and every other header of the client's.
pub serve-to_backend :
    ⦃p : Platform⦄ (cfg : PluginConfig) (get_key : String → String → Result PublicKey)
    (host : String) (t : ℕ) (method path : String) (headers : Headers) {out : Headers}
    → serve cfg get_key host t method path headers ≡ to_backend out
    → ((method == "OPTIONS") ≡ false)
      × (match_oauth_suffix path ≡ none)
      × ((token : String) × (claims : Claims) × (extract_bearer
              (header_get (strip_internal headers) "Authorization")
            ≡ some token)
          × (parse_and_verify_jwt token get_key ≡ ok claims)
          × (check_claims cfg.required_scopes claims
                (public_base cfg host (header_get (strip_internal headers)) path)
                (pos (unix t))
              ≡ none)
          × ((k : String) → header_get out k ≡ backend_value claims headers k))
unfolding serve
serve-to_backend cfg get_key host t method path headers {out} h =
    let hs = strip_internal headers in
    let base = public_base cfg host (header_get hs) path in
    elim (Bool-cases (method == "OPTIONS")) [
      | inl e ↦ ground arith
      | inr e ↦ elim (Option-cases (match_oauth_suffix path)) [
        | inr (m, e') ↦ ground arith
        | inl e' ↦
            let (token, claims, shown, verified, passed, sent) =
              validate-to_backend cfg get_key base t hs {out = out} (ground arith) in
            (
              e,
              e',
              (
                token,
                claims,
                shown,
                verified,
                passed,
                λ k. ap (λ o. header_get o k) sent ∙ backend_headers-value claims headers k,
              ),
            )
      ]
    ]

to_sidecar-injective :
    (a b : String) (hs out : Headers) → to_sidecar a hs ≡ to_sidecar b out → (a ≡ b) × (out ≡ hs)
to_sidecar-injective a b hs out h = ground arith

validate-elsewhere :
    ⦃p : Platform⦄ (cfg : PluginConfig) (get_key : String → String → Result PublicKey)
    (base : String) (t : ℕ) (hs : Headers) {target : String} {out : Headers}
    → validate_and_forward cfg get_key base t hs ≢ to_sidecar target out
unfolding validate_and_forward forward_claims
validate-elsewhere cfg get_key base t hs h = ground arith

pub serve-to_sidecar :
    ⦃p : Platform⦄ (cfg : PluginConfig) (get_key : String → String → Result PublicKey)
    (host : String) (t : ℕ) (method path : String) (headers : Headers) {target : String}
    {out : Headers}
    → serve cfg get_key host t method path headers ≡ to_sidecar target out
    → ((method == "OPTIONS") ≡ false)
      × ((prefix : String) × (match_oauth_suffix path ≡ some (target, prefix)))
      × ((k : String)
          → header_get out k
            ≡ sidecar_value cfg
                (public_base cfg host (header_get (strip_internal headers)) path)
                headers
                k)
unfolding serve
serve-to_sidecar cfg get_key host t method path headers {target} {out} h =
    let hs = strip_internal headers in
    let base = public_base cfg host (header_get hs) path in
    elim (Bool-cases (method == "OPTIONS")) [
      | inl e ↦ ground arith
      | inr e ↦ elim (Option-cases (match_oauth_suffix path)) [
        | inl e' ↦
            absurd (
              validate-elsewhere cfg get_key base t hs {target = target} {out = out} (ground arith))
        | inr ((suffix, prefix), e') ↦
            let (is, sent) =
              to_sidecar-injective suffix target (sidecar_headers cfg base hs) out (ground arith) in
            (
              e,
              (prefix, rw (← is) e'),
              λ k. ap (λ o. header_get o k) sent ∙ sidecar_headers-value cfg base headers k,
            )
      ]
    ]
