-- ===== src/Plugin/Routing.antt =====
-- plugin/routing.go, and the public base of plugin/mcpbouncer.go.
use mcpbouncer.Prelude.{String, not, Option, none, some, List, [], ◌∷◌, ◌==◌, ◌<>◌, if◌then◌else◌}
use mcpbouncer.Prelude.Strings.{strip_suffix, trim_right_slashes}

abbrev pub oauth_suffixes : List String
oauth_suffixes =
    "/.well-known/oauth-protected-resource" ∷ "/.well-known/oauth-authorization-server"
    ∷ "/.well-known/openid-configuration" ∷ "/oauth/authorize" ∷ "/oauth/token" ∷ "/oauth/register"
    ∷ "/oauth/callback" ∷ "/oauth/jwks.json" ∷ []

unfoldable pub match_suffix : List String → String → Option (String × String)
match_suffix [] path = none
match_suffix (s ∷ ss) path = elim (strip_suffix s path) [
  | some prefix ↦ some (s, prefix)
  | none ↦ match_suffix ss path
]

-- The suffix and the prefix before it.
unfoldable pub match_oauth_suffix : String → Option (String × String)
unfolding match_suffix
match_oauth_suffix path = match_suffix oauth_suffixes path

-- The fields of `Config` that the middleware reads.
pub record PluginConfig : Type 0 where
  pub provider_issuer : String
  pub client_id : String
  pub client_secret : String
  pub resource : String
  pub scopes : String
  pub sidecar_url : String
  pub audience : String
  pub required_scopes : String
  pub path_prefix : String

abbrev or_else : String → String → String
or_else s t = if s == "" then t else s

unfoldable pub prefix_of : String → String
prefix_of path = elim (match_oauth_suffix path) [ some (s, prefix) ↦ prefix | none ↦ path ]

-- `host` is r.Host, and `header` is r.Header.Get.
unfoldable pub public_base :
    PluginConfig → (host : String) → (header : String → String) → (path : String) → String
unfolding prefix_of
public_base cfg host header path =
    let scheme = or_else (header "X-Forwarded-Proto") "https" in
    let name = or_else (header "X-Forwarded-Host") host in
    if not (cfg.path_prefix == "*")
    then scheme <> "://" <> name <> trim_right_slashes cfg.path_prefix
    else scheme <> "://" <> name <> trim_right_slashes (prefix_of path)
