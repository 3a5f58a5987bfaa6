-- ===== src/Tests/Middleware.antt =====
-- Runs of the middleware, and of the sidecar's tokens through it.
use mcpbouncer.Prelude.{
  ◌+◌, ◌*◌, String, ◌≡◌, refl, ap, ◌⊎◌, inl, true, false, ◌==◌, none, some, List, [], ◌∷◌, ◌<>◌,
  arith, contains_string, ltb,
}
use mcpbouncer.Prelude.Int.{wrap64, pos}
use mcpbouncer.Prelude.Strings.{
  strip_suffix, strip_prefix, split_dots, cut_dot, trim_right_slashes, to_upper, begins_with,
  fields, fields_from, is_space,
}
use mcpbouncer.Json.{str, Claims, get_claim, string_or_empty, as_number}
use mcpbouncer.Platform.{PublicKey, ed25519}
use mcpbouncer.Store.Rows.{Result, ok, err, second, unix}
use mcpbouncer.Tokens.{add_missing, base_claims, sign_jwt}
use mcpbouncer.Tokens.Merge.{get_claim-add_missing}
use mcpbouncer.Trust.{parse_and_verify_jwt-sign_jwt, check_claims-minted}
use mcpbouncer.Plugin.Routing.{
  PluginConfig, oauth_suffixes, match_suffix, match_oauth_suffix, prefix_of, public_base,
}
use mcpbouncer.Plugin.Claims.{
  add64, sub64, aud_contains, missing_from, check_required_scopes, is_future, check_times,
  check_claims,
}
use mcpbouncer.Plugin.Acceptance.{IsAcceptable, check_claims-IsAcceptable, check_claims-passes}
use mcpbouncer.Plugin.Jwt.{
  check_alg, parse_jwt_header, verify_ed25519, verify_jwt_signature, parse_jwt_payload,
  verify_parts, parse_and_verify_jwt,
}
use mcpbouncer.Plugin.JwksCache.{
  JwksCache, new_jwks_cache, usable_keys, key_with, fetched_keys, get,
}
use mcpbouncer.Plugin.Verification.{
  IsVerified, parse_and_verify_jwt-IsVerified, get-outage, get_sound, get-overflow,
}
use mcpbouncer.Plugin.Middleware.{
  Headers, is_internal, strip_internal, header_get, extract_bearer, sidecar_headers,
  backend_headers, forward_claims, validate_and_forward, serve,
}
use mcpbouncer.Plugin.Forwarding.{
  match_oauth_suffix_sound, backend_value, sidecar_value, serve-to_sidecar, serve-to_backend,
}
use mcpbouncer.Tests.World.{
  test_platform, test_rc, token_header, token_claims, decode-encode, cut_dot-encode,
}

abbrev pub cfg : PluginConfig
cfg = record {
  provider_issuer = "https://idp";
  client_id = "up";
  client_secret = "s";
  resource = "r";
  scopes = "read";
  sidecar_url = "http://sidecar";
  audience = "a";
  required_scopes = "read";
  path_prefix = "*";
}

abbrev pub any_key : String → String → Result PublicKey
any_key kid alg = ok (ed25519 [])

abbrev request_headers : Headers
request_headers =
    ("Authorization", "Bearer b.bb.b") ∷ ("X-MCPB-Scopes", "admin") ∷ ("X-Forwarded-Host", "a") ∷ []

forwarded_example :
    (("GET" == "OPTIONS") ≡ false)
    × (match_oauth_suffix "" ≡ none)
    × ((token : String) × (claims : Claims) × (extract_bearer
            (header_get (strip_internal request_headers) "Authorization")
          ≡ some token)
        × (parse_and_verify_jwt token any_key ≡ ok claims)
        × (check_claims "read" claims
              (public_base cfg "h" (header_get (strip_internal request_headers)) "")
              (pos (unix (1000 * second)))
            ≡ none)
        × ((k : String)
            → header_get (backend_headers token_claims (strip_internal request_headers)) k
              ≡ backend_value claims request_headers k))
unfolding serve validate_and_forward forward_claims strip_internal is_internal header_get to_upper
    begins_with match_oauth_suffix match_suffix strip_suffix extract_bearer strip_prefix
    parse_and_verify_jwt split_dots cut_dot verify_parts parse_jwt_header check_alg string_or_empty
    get_claim verify_jwt_signature verify_ed25519 parse_jwt_payload check_claims aud_contains
    check_times as_number add64 sub64 wrap64 is_future check_required_scopes missing_from fields
    fields_from is_space public_base prefix_of trim_right_slashes unix
forwarded_example = serve-to_backend cfg any_key "h" (1000 * second) "GET" "" request_headers refl

IsAcceptable-example : IsAcceptable "read" token_claims "https://a" (pos 1000)
unfolding check_claims string_or_empty get_claim aud_contains check_times as_number add64 sub64
    wrap64 is_future check_required_scopes missing_from fields fields_from is_space
IsAcceptable-example = check_claims-IsAcceptable "read" token_claims "https://a" (pos 1000) refl

passes_example : check_claims "read" token_claims "https://a" (pos 1000) ≡ none
unfolding string_or_empty get_claim aud_contains as_number add64 sub64 wrap64 fields fields_from
    is_space
passes_example = check_claims-passes "read" token_claims "https://a" (pos 1000) (record {
  issued_here = refl;
  meant_for_us = inl refl;
  not_expired = (pos 2000, refl, refl);
  begun = λ nbf e. ground arith;
  scopes_granted = λ s h. h;
})

IsVerified-example : IsVerified "b.bb.b" any_key token_claims
unfolding parse_and_verify_jwt split_dots cut_dot verify_parts parse_jwt_header check_alg
    string_or_empty get_claim verify_jwt_signature verify_ed25519 parse_jwt_payload
IsVerified-example = parse_and_verify_jwt-IsVerified "b.bb.b" any_key refl

signed_example : parse_and_verify_jwt (sign_jwt [] "h" "cc") any_key ≡ ok token_claims
unfolding get_claim
signed_example =
    parse_and_verify_jwt-sign_jwt [] [] "h" "cc" "key" token_header token_claims any_key
      (λ b. ap ok (decode-encode b)) cut_dot-encode (λ m. refl) refl refl refl refl refl

minted_example :
    check_claims "read"
      (add_missing
        (base_claims test_rc "ann" "read" "c" (1000 * second) (2000 * second) "j")
        (("iss", str "evil") ∷ []))
      "https://a"
      (pos 1500)
    ≡ none
unfolding unix
minted_example =
    check_claims-minted test_rc "ann" "read" "c" "j" (1000 * second) (2000 * second)
      (("iss", str "evil") ∷ []) "read" 1500 (omega arith) (omega arith) (omega arith) (omega arith)
      (omega arith) (λ s h. h)

suffix_example :
    ("/m/oauth/token" ≡ "/m" <> "/oauth/token")
    × (contains_string oauth_suffixes "/oauth/token" ≡ true)
unfolding match_oauth_suffix match_suffix strip_suffix
suffix_example = match_oauth_suffix_sound "/m/oauth/token" refl

sidecar_example :
    (("GET" == "OPTIONS") ≡ false)
    × ((prefix : String) × (match_oauth_suffix "/m/oauth/token" ≡ some ("/oauth/token", prefix)))
    × ((k : String)
        → header_get (sidecar_headers cfg "https://a/m" (strip_internal request_headers)) k
          ≡ sidecar_value cfg
              (public_base cfg "h" (header_get (strip_internal request_headers)) "/m/oauth/token")
              request_headers
              k)
unfolding serve strip_internal is_internal header_get to_upper begins_with match_oauth_suffix
    match_suffix strip_suffix public_base prefix_of trim_right_slashes
sidecar_example =
    serve-to_sidecar cfg any_key "h" (1000 * second) "GET" "/m/oauth/token" request_headers refl

abbrev cache : JwksCache
cache = record { ttl = pos (300 * second); last_fetch = 1; keys = ("key", ed25519 []) ∷ [] }

outage_example :
    get (400 * second) (400 * second) (401 * second) (err "down") "key" cache
    ≡ (ok (ed25519 []), cache)
unfolding fetched_keys key_with
outage_example =
    get-outage (400 * second) (400 * second) (401 * second) (err "down") "key" cache refl refl

found_example :
    ((key_with "key" cache.keys ≡ some (ed25519 [])) × (cache ≡ cache))
    ⊎ ((ks : List (String × PublicKey)) × (fetched_keys (err "down") ≡ ok ks)
        × (key_with "key" ks ≡ some (ed25519 []))
        × (cache ≡ record cache { keys = ks; last_fetch = 7 })
        × (ltb (cache.last_fetch + 5 * second) 6 ≡ true))
unfolding get key_with
found_example = get_sound 5 6 7 (err "down") "key" cache cache refl

merge_example :
    get_claim (add_missing (("iss", str "a") ∷ []) (("iss", str "b") ∷ [])) "iss"
    ≡ elim (get_claim (("iss", str "a") ∷ []) "iss") [
      | some v ↦ some v
      | none ↦ get_claim (("iss", str "b") ∷ []) "iss"
    ]
merge_example = get_claim-add_missing (("iss", str "a") ∷ []) (("iss", str "b") ∷ []) "iss"

abbrev overflowed : JwksCache
overflowed = record cache { ttl = (new_jwks_cache (pos 9223372037)).ttl }

-- The held key is asked for six seconds after the fetch.
overflow_refetch_example :
    (get
      (7 * second)
      (7 * second)
      (8 * second)
      (ok (record { status = 200; body = ok [] }))
      "key"
      overflowed).1
    ≡ record overflowed { keys = []; last_fetch = 8 * second }
unfolding fetched_keys usable_keys
overflow_refetch_example =
    get-overflow 9223372037 (7 * second) (7 * second) (8 * second)
      (ok (record { status = 200; body = ok [] })) "key" overflowed (omega arith) (omega arith) refl
      (omega arith) (omega arith) refl
