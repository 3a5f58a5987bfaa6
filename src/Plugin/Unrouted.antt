-- ===== src/Plugin/Unrouted.antt =====
-- The endpoints of the sidecar that plugin/routing.go does not list.
use Prim.Native.String.{[], ◌∷◌}
use Prim.Native.Char.{code}
use text.Mathlib.TextLemmas.{nil-append, cons-append}
use mathlib.Core.List.{append-nil, append_assoc}
use mcpbouncer.Prelude.{
  ◌*◌, ◌+◌, ℕ, String, ◌≡◌, ◌≢◌, refl, sym, ap, ◌∙◌, none, inl, inr, Option-cases, List, ◌++◌, ◌<>◌,
  arith,
}
use mcpbouncer.Prelude.Strings.{strip_suffix, strip_suffix-append}
use mcpbouncer.Plugin.Routing.{match_suffix, match_oauth_suffix}

-- The codes of a text from its end.
backwards : String → List ℕ
backwards [] = List.[]
backwards (c ∷ s) = backwards s ++ List.◌∷◌ (code c) List.[]

backwards-append : (s t : String) → backwards (s <> t) ≡ backwards t ++ backwards s
unfolding backwards
backwards-append [] t = ap backwards (nil-append t) ∙ sym (append-nil (backwards t))
backwards-append (c ∷ s) t =
    ap backwards (cons-append c s t)
    ∙ rw (backwards-append s t)
        (append_assoc (backwards t) (backwards s) (List.◌∷◌ (code c) List.[]))

-- Two texts that differ before one of them ends, read from the end.
abbrev Differ : String → String → Type 0
Differ t s = (x y : List ℕ) → backwards t ++ x ≢ backwards s ++ y

-- Two different last characters are enough.
differ :
    (t s : String) {a b c d : ℕ} {xs ys : List ℕ}
    → backwards t ≡ List.◌∷◌ a (List.◌∷◌ b xs)
    → backwards s ≡ List.◌∷◌ c (List.◌∷◌ d ys)
    → a * 256 + b ≢ c * 256 + d
    → Differ t s
differ t s p q apart x y e = ground arith

strip_suffix-none : (t s q : String) → Differ t s → strip_suffix s (q <> t) ≡ none
strip_suffix-none t s q d = elim (Option-cases (strip_suffix s (q <> t))) [
  | inl e ↦ e
  | inr (r, e) ↦ absurd (
      d (backwards q) (backwards r) (
        sym (backwards-append q t)
        ∙ (ap backwards (strip_suffix-append s (q <> t) e) ∙ backwards-append r s)))
]

module _ (t : String) (resource : Differ t "/.well-known/oauth-protected-resource")
    (server : Differ t "/.well-known/oauth-authorization-server")
    (configuration : Differ t "/.well-known/openid-configuration")
    (authorize : Differ t "/oauth/authorize") (token : Differ t "/oauth/token")
    (register : Differ t "/oauth/register") (callback : Differ t "/oauth/callback")
    (jwks : Differ t "/oauth/jwks.json") where
  unmatched : (q : String) → match_oauth_suffix (q <> t) ≡ none
  unfolding match_oauth_suffix match_suffix
  unmatched q =
      rw
        (
          strip_suffix-none t "/.well-known/oauth-protected-resource" q resource,
          strip_suffix-none t "/.well-known/oauth-authorization-server" q server,
          strip_suffix-none t "/.well-known/openid-configuration" q configuration,
          strip_suffix-none t "/oauth/authorize" q authorize,
          strip_suffix-none t "/oauth/token" q token,
          strip_suffix-none t "/oauth/register" q register,
          strip_suffix-none t "/oauth/callback" q callback,
          strip_suffix-none t "/oauth/jwks.json" q jwks,
          match_suffix,
        )
        refl

-- Under no prefix does the plugin route the revocation, the introspection or the userinfo endpoint to
-- the sidecar.
pub match_oauth_suffix_unrouted :
    (q : String)
    → (match_oauth_suffix (q <> "/oauth/revoke") ≡ none)
      × (match_oauth_suffix (q <> "/oauth/introspect") ≡ none)
      × (match_oauth_suffix (q <> "/oauth/userinfo") ≡ none)
unfolding backwards
match_oauth_suffix_unrouted q = (
  unmatched "/oauth/revoke"
      (differ "/oauth/revoke" "/.well-known/oauth-protected-resource" refl refl (omega arith))
      (differ "/oauth/revoke" "/.well-known/oauth-authorization-server" refl refl (omega arith))
      (differ "/oauth/revoke" "/.well-known/openid-configuration" refl refl (omega arith))
      (differ "/oauth/revoke" "/oauth/authorize" refl refl (omega arith))
      (differ "/oauth/revoke" "/oauth/token" refl refl (omega arith))
      (differ "/oauth/revoke" "/oauth/register" refl refl (omega arith))
      (differ "/oauth/revoke" "/oauth/callback" refl refl (omega arith))
      (differ "/oauth/revoke" "/oauth/jwks.json" refl refl (omega arith)) q,
  unmatched "/oauth/introspect"
      (differ "/oauth/introspect" "/.well-known/oauth-protected-resource" refl refl (omega arith))
      (differ "/oauth/introspect" "/.well-known/oauth-authorization-server" refl refl (omega arith))
      (differ "/oauth/introspect" "/.well-known/openid-configuration" refl refl (omega arith))
      (differ "/oauth/introspect" "/oauth/authorize" refl refl (omega arith))
      (differ "/oauth/introspect" "/oauth/token" refl refl (omega arith))
      (differ "/oauth/introspect" "/oauth/register" refl refl (omega arith))
      (differ "/oauth/introspect" "/oauth/callback" refl refl (omega arith))
      (differ "/oauth/introspect" "/oauth/jwks.json" refl refl (omega arith)) q,
  unmatched "/oauth/userinfo"
      (differ "/oauth/userinfo" "/.well-known/oauth-protected-resource" refl refl (omega arith))
      (differ "/oauth/userinfo" "/.well-known/oauth-authorization-server" refl refl (omega arith))
      (differ "/oauth/userinfo" "/.well-known/openid-configuration" refl refl (omega arith))
      (differ "/oauth/userinfo" "/oauth/authorize" refl refl (omega arith))
      (differ "/oauth/userinfo" "/oauth/token" refl refl (omega arith))
      (differ "/oauth/userinfo" "/oauth/register" refl refl (omega arith))
      (differ "/oauth/userinfo" "/oauth/callback" refl refl (omega arith))
      (differ "/oauth/userinfo" "/oauth/jwks.json" refl refl (omega arith)) q,
)
