-- ===== src/Tests/Setup.antt =====
-- Runs of the plugin's construction and of its routing.
use mcpbouncer.Prelude.{◌≡◌, refl, none, some, ◌<>◌, [], arith}
use mcpbouncer.Prelude.Strings.{strip_prefix, strip_suffix, trim_right_slashes}
use mcpbouncer.Plugin.JwksCache.{new_jwks_cache}
use mcpbouncer.Plugin.Middleware.{
  extract_bearer, validate_and_forward, serve, header_get, strip_internal,
}
use mcpbouncer.Plugin.Responses.{refuse, set_cors, serve_http}
use mcpbouncer.Plugin.Routing.{match_oauth_suffix, public_base}
use mcpbouncer.Plugin.Setup.{
  with_audience, new_middleware, IsConfigured, new_middleware-IsConfigured,
}
use mcpbouncer.Plugin.Discovery.{serve_http-metadata}
use mcpbouncer.Plugin.Unrouted.{match_oauth_suffix_unrouted}
use mcpbouncer.Tests.World.{test_platform}
use mcpbouncer.Prelude.Int.{pos}
use mcpbouncer.Tests.Middleware.{cfg, any_key}

IsConfigured-example : IsConfigured 300 cfg (record { cfg = cfg; cache = new_jwks_cache (pos 300) })
unfolding new_middleware with_audience
IsConfigured-example = new_middleware-IsConfigured (pos 300) cfg (omega arith) refl

metadata_example :
    (header_get (refuse (set_cors "") "https://h/m").headers "WWW-Authenticate"
      ≡ "Bearer resource_metadata=\""
        <> public_base cfg "h" (header_get (strip_internal [])) "/m/"
        <> "/.well-known/oauth-protected-resource"
        <> "\"")
    × (match_oauth_suffix (trim_right_slashes "/m/" <> "/.well-known/oauth-protected-resource")
        ≡ some ("/.well-known/oauth-protected-resource", trim_right_slashes "/m/"))
    × (public_base cfg "h"
          (header_get (strip_internal []))
          (trim_right_slashes "/m/" <> "/.well-known/oauth-protected-resource")
        ≡ public_base cfg "h" (header_get (strip_internal [])) "/m/")
unfolding serve_http serve match_oauth_suffix strip_suffix validate_and_forward extract_bearer
    strip_prefix header_get strip_internal public_base trim_right_slashes
metadata_example = serve_http-metadata cfg any_key "h" 0 "GET" "/m/" [] refl refl refl

unrouted_example :
    (match_oauth_suffix ("/m" <> "/oauth/revoke") ≡ none)
    × (match_oauth_suffix ("/m" <> "/oauth/introspect") ≡ none)
    × (match_oauth_suffix ("/m" <> "/oauth/userinfo") ≡ none)
unrouted_example = match_oauth_suffix_unrouted "/m"
