-- ===== src/Plugin/Setup.antt =====
-- CreateConfig and New of plugin/mcpbouncer.go: the configuration with its defaults, and what is
-- refused.
use mcpbouncer.Prelude.Int.{ℤ, pos, negsuc, pos_part, wrap64}
use mcpbouncer.Prelude.{
  refl, ◌≤◌, ◌*◌, ltb, true, not, ◌≢◌, ◌≡◌, eq_iff, arith, ℕ, ◌==◌, if◌then◌else◌,
}
use mcpbouncer.Platform.{Platform}
use mcpbouncer.Store.Rows.{Result, ok, err, second}
use mcpbouncer.Plugin.Routing.{PluginConfig}
use mcpbouncer.Plugin.JwksCache.{JwksCache, seconds_of, new_jwks_cache}

-- MCPBouncer, without the next handler and the sidecar's parsed URL.
pub record Middleware : Type 0 where
  pub cfg : PluginConfig
  pub cache : JwksCache

abbrev pub create_config : PluginConfig
create_config = record {
  provider_issuer = "";
  client_id = "";
  client_secret = "";
  resource = "";
  scopes = "";
  sidecar_url = "";
  audience = "";
  required_scopes = "";
  path_prefix = "*";
}

-- The audience is the resource where none is given.
unfoldable pub with_audience : PluginConfig → PluginConfig
with_audience cfg = if cfg.audience == "" then record cfg { audience = cfg.resource } else cfg

module _ ⦃p : Platform⦄ where
  -- `ttl_seconds` is JWKSCacheTTLSeconds, 300 in CreateConfig.
  unfoldable pub new_middleware : (ttl_seconds : ℤ) → PluginConfig → Result Middleware
  unfolding with_audience
  new_middleware ttl_seconds cfg =
      if cfg.provider_issuer == ""
      then err "mcpbouncer: providerIssuer is required"
      else if cfg.client_id == ""
      then err "mcpbouncer: clientID is required"
      else if cfg.client_secret == ""
      then err "mcpbouncer: clientSecret is required"
      else if cfg.resource == ""
      then err "mcpbouncer: resource is required"
      else if cfg.sidecar_url == ""
      then err "mcpbouncer: sidecarURL is required"
      else if not (p.url_ok cfg.sidecar_url)
      then err "mcpbouncer: invalid sidecarURL"
      else ok (record { cfg = with_audience cfg; cache = new_jwks_cache ttl_seconds })

  -- What a middleware that has been made is configured with.
  pub record IsConfigured (seconds : ℕ) (given : PluginConfig) (m : Middleware) : Type 0 where
    pub provider_issuer : m.cfg.provider_issuer ≢ ""
    pub client_id : m.cfg.client_id ≢ ""
    pub client_secret : m.cfg.client_secret ≢ ""
    pub resource : m.cfg.resource ≢ ""
    pub audience : m.cfg.audience ≢ ""
    pub sidecar : p.url_ok m.cfg.sidecar_url ≡ true
    pub lifetime : m.cache.ttl ≡ pos (seconds * second)
    pub unfetched : m.cache.last_fetch ≡ 0
    pub same_prefix : m.cfg.path_prefix ≡ given.path_prefix
    pub same_scopes : m.cfg.required_scopes ≡ given.required_scopes

  held :
      (ttl_seconds : ℤ)
      → pos_part ttl_seconds ≤ 9223372036
      → (new_jwks_cache ttl_seconds).ttl
        ≡ pos ((if ltb 0 (pos_part ttl_seconds) then pos_part ttl_seconds else 300) * second)
  unfolding new_jwks_cache seconds_of wrap64
  held (pos n) small = ground arith
  held (negsuc n) small = refl

  -- A middleware that `New` makes has an issuer, a client, its secret, a resource, an audience and a
  -- sidecar's URL that parses, an empty key cache, and the path prefix and the
  -- required scopes of the configuration that it was given. The cache's lifetime is the configured number
  -- of seconds, or five minutes where that is not positive, provided that an int64 of nanoseconds
  -- can hold it.
  pub new_middleware-IsConfigured :
      (ttl_seconds : ℤ) (cfg : PluginConfig) {m : Middleware}
      → pos_part ttl_seconds ≤ 9223372036
      → new_middleware ttl_seconds cfg ≡ ok m
      → IsConfigured (if ltb 0 (pos_part ttl_seconds) then pos_part ttl_seconds else 300) cfg m
  unfolding new_middleware with_audience new_jwks_cache
  new_middleware-IsConfigured ttl_seconds cfg {m} small h = ground (
    arith,
    held ttl_seconds small,
    eq_iff cfg.provider_issuer "",
    eq_iff cfg.client_id "",
    eq_iff cfg.client_secret "",
    eq_iff cfg.resource "",
    eq_iff cfg.audience "",
  )
