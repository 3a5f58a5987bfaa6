-- ===== src/Plugin/Discovery.antt =====
-- How a client that plugin/mcpbouncer.go has refused finds the authorization server.
use Prim.Native.Char.{Char, code}
use Prim.Native.String.{[], ◌∷◌}
use text.Mathlib.TextLemmas.{nil-append, cons-append}
use mcpbouncer.Prelude.{
  eq_refl, nat_beq, ◌&&◌, Bool-cases, inl, inr, ℕ, suc, ◌+◌, String, ◌≡◌, ◌≢◌, refl, ap, ◌∙◌, some,
  none, ◌==◌, ◌<>◌, eq-false_of_ne, arith, Option-cases,
}
use mcpbouncer.Prelude.Strings.{strip_suffix, trim_right_slashes}
use mcpbouncer.Plugin.Routing.{
  PluginConfig, match_suffix, match_oauth_suffix, prefix_of, public_base,
}
use mcpbouncer.Platform.{Platform, PublicKey}
use mcpbouncer.Action.{Response}
use mcpbouncer.Store.Rows.{Result}
use mcpbouncer.Plugin.Claims.{Reason}
use mcpbouncer.Plugin.Middleware.{
  Headers, Verdict, preflight, to_sidecar, unauthorized, to_backend, strip_internal, header_get,
  serve,
}
use mcpbouncer.Plugin.Responses.{set_cors, refuse, reply_of, written, serve_http}

size : String → ℕ
size [] = 0
size (c ∷ s) = suc (size s)

size-append : (s t : String) → size (s <> t) ≡ size s + size t
unfolding size
size-append [] t = ap size (nil-append t) ∙ omega arith
size-append (c ∷ s) t = ap size (cons-append c s t) ∙ omega (arith, size-append s t)

longer-ne : (c : Char) (q t : String) → c ∷ (q <> t) ≢ t
unfolding size
longer-ne c q t e = omega (arith, ap size e, size-append q t)

-- A text that ends in a suffix is stripped of it.
strip_suffix_self : (t q : String) → strip_suffix t (q <> t) ≡ some q
unfolding strip_suffix
strip_suffix_self [] [] = refl
strip_suffix_self (d ∷ t) [] = rw (nil-append (d ∷ t), strip_suffix, eq_refl (d ∷ t)) refl
strip_suffix_self t (c ∷ q) =
    rw
      (
        cons-append c q t,
        strip_suffix,
        eq-false_of_ne (c ∷ (q <> t)) t (longer-ne c q t),
        strip_suffix_self t q,
      )
      refl

trim_right_slashes_idem :
    (s : String) → trim_right_slashes (trim_right_slashes s) ≡ trim_right_slashes s
unfolding trim_right_slashes
trim_right_slashes_idem [] = refl
trim_right_slashes_idem (c ∷ s) =
    elim (Bool-cases (nat_beq (code c) b'/' && trim_right_slashes s == "")) [
      | inl e ↦ rw (e, trim_right_slashes) refl
      | inr e ↦ rw (e, trim_right_slashes, trim_right_slashes_idem s, e) refl
    ]

-- Under the automatic prefix, the metadata's path below a request that is no OAuth path is routed to
-- the sidecar, and has the public base of that request.
base-metadata :
    (cfg : PluginConfig) (host : String) (header : String → String) (path : String)
    → cfg.path_prefix ≡ "*"
    → match_oauth_suffix path ≡ none
    → (match_oauth_suffix (trim_right_slashes path <> "/.well-known/oauth-protected-resource")
        ≡ some ("/.well-known/oauth-protected-resource", trim_right_slashes path))
      × (public_base cfg host header
            (trim_right_slashes path <> "/.well-known/oauth-protected-resource")
          ≡ public_base cfg host header path)
unfolding match_oauth_suffix match_suffix public_base prefix_of
base-metadata cfg host header path auto plain =
    let whole =
      strip_suffix_self "/.well-known/oauth-protected-resource" (trim_right_slashes path) in
    (
      rw (whole, match_suffix) refl,
      rw (auto, public_base, prefix_of, plain, whole, match_suffix, trim_right_slashes_idem path)
          refl,
    )

-- The challenge of a refusal, behind any CORS headers.
refuse-challenge :
    (origin base : String)
    → (refuse (set_cors origin) base).status ≡ 401
    → header_get (refuse (set_cors origin) base).headers "WWW-Authenticate"
      ≡ "Bearer resource_metadata=\"" <> base <> "/.well-known/oauth-protected-resource" <> "\""
unfolding refuse set_cors header_get
refuse-challenge origin base h = elim (Bool-cases (origin == "")) [
  | inl e ↦ rw (e, set_cors) refl
  | inr e ↦ rw (e, set_cors) refl
]

module _ ⦃p : Platform⦄ where
  -- Only a refusal is answered with 401.
  refused-only :
      (origin base : String) (v : Verdict) {x : Response}
      → reply_of (set_cors origin) base v ≡ written x
      → x.status ≡ 401
      → (reason : Reason) × (v ≡ unauthorized reason) × (x ≡ refuse (set_cors origin) base)
  unfolding reply_of
  refused-only origin base preflight h e = ground arith
  refused-only origin base (unauthorized reason) h e = (reason, refl, ground arith)
  refused-only origin base (to_sidecar path hs) h e = ground arith
  refused-only origin base (to_backend hs) h e = ground arith

  unauthorized-plain :
      (cfg : PluginConfig) (get_key : String → String → Result PublicKey) (host : String) (t : ℕ)
      (method path : String) (headers : Headers) {reason : Reason}
      → serve cfg get_key host t method path headers ≡ unauthorized reason
      → match_oauth_suffix path ≡ none
  unfolding serve
  unauthorized-plain cfg get_key host t method path headers h =
      elim (Option-cases (match_oauth_suffix path)) [
        | inl e ↦ e
        | inr ((suffix, prefix), e) ↦ ground arith
      ]

  pub serve_http-metadata :
      (cfg : PluginConfig) (get_key : String → String → Result PublicKey) (host : String) (t : ℕ)
      (method path : String) (headers : Headers) {x : Response}
      → cfg.path_prefix ≡ "*"
      → serve_http cfg get_key host t method path headers ≡ written x
      → x.status ≡ 401
      → (header_get x.headers "WWW-Authenticate"
          ≡ "Bearer resource_metadata=\""
            <> public_base cfg host (header_get (strip_internal headers)) path
            <> "/.well-known/oauth-protected-resource"
            <> "\"")
        × (match_oauth_suffix (trim_right_slashes path <> "/.well-known/oauth-protected-resource")
            ≡ some ("/.well-known/oauth-protected-resource", trim_right_slashes path))
        × (public_base cfg host
              (header_get (strip_internal headers))
              (trim_right_slashes path <> "/.well-known/oauth-protected-resource")
            ≡ public_base cfg host (header_get (strip_internal headers)) path)
  unfolding serve_http
  serve_http-metadata cfg get_key host t method path headers {x} auto h status =
      let hs = strip_internal headers in
      let origin = header_get hs "Origin" in
      let base = public_base cfg host (header_get hs) path in
      let (reason, verdict, is) =
        refused-only origin base (serve cfg get_key host t method path headers) {x = x} h status in
      let plain =
        unauthorized-plain cfg get_key host t method path headers {reason = reason} verdict in
      let (routed, same) = base-metadata cfg host (header_get hs) path auto plain in
      (
        ap (λ (y : Response). header_get y.headers "WWW-Authenticate") is
            ∙ refuse-challenge origin base (rw is at status),
        routed,
        same,
      )
