-- ===== src/As/Userinfo.antt =====
-- sidecar/internal/as/userinfo.go: the profile claims of a token that this server has minted.
use mcpbouncer.Prelude.{
  false, String, Bool, not, ◌&&◌, Option, none, some, List, [], ◌∷◌, ◌++◌, ◌==◌, ◌<>◌,
  contains_string, if◌then◌else◌,
}
use mcpbouncer.Prelude.Int.{pos}
use mcpbouncer.Prelude.Strings.{split_dots, strip_prefix}
use mcpbouncer.Json.{Json, str, Claims, get_claim, retain, string_or_empty, as_number}
use mcpbouncer.Platform.{Platform}
use mcpbouncer.Action.{
  Action, Response, claims_body, ◌>>=◌, ◌>>◌, pure, must, given, fail, fail_with, reject_if, now,
  attempt, attempt_pure, on_option,
}
use mcpbouncer.Store.Rows.{Bytes, Result, ok, err, SigningKey, unix}
use mcpbouncer.Http.{Request, write_json}
use mcpbouncer.Config.{ResourceConfig}
use mcpbouncer.Keys.{active_key, all_publishable_keys}
use mcpbouncer.Keys.Jwks.{decode_public_pem}
use mcpbouncer.As.Introspect.{is_past, is_ahead, verify_signed}

abbrev pub profile_claims : List String
profile_claims =
    "sub" ∷ "email" ∷ "email_verified" ∷ "name" ∷ "given_name" ∷ "family_name" ∷ "picture"
    ∷ "locale" ∷ "preferred_username" ∷ "hd" ∷ []

abbrev pub token_challenge : List (String × String)
token_challenge = ("WWW-Authenticate", "Bearer realm=\"oauth\", error=\"invalid_token\"") ∷ []

-- The Bearer token of the Authorization header.
unfoldable pub read_bearer : Request → Action String
read_bearer r = do
  reject_if (r.header "Authorization" == "")
      (fail_with token_challenge 401 "invalid_token" "missing Authorization header")
  token ←
      given (strip_prefix "Bearer " (r.header "Authorization"))
        (fail_with token_challenge 401 "invalid_token" "Authorization scheme must be Bearer")
  reject_if (token == "") (fail_with token_challenge 401 "invalid_token" "empty Bearer token")
  pure token

-- keyMap[kid]
unfoldable pub key_in : String → List (String × Bytes) → Option Bytes
key_in kid [] = none
key_in kid ((j, k) ∷ ks) = if j == kid then some k else key_in kid ks

-- `ok && iss != rc.PublicBase`
unfoldable pub is_foreign : Option Json → String → Bool
is_foreign (some (str iss)) base = not (iss == base)
is_foreign _ base = false

module _ ⦃p : Platform⦄ where
  -- The keys that decode; a later key with an id replaces an earlier one.
  unfoldable pub key_map : List SigningKey → List (String × Bytes)
  key_map [] = []
  key_map (k ∷ ks) = elim (decode_public_pem k.public_pem) [
    | ok public ↦ key_map ks ++ (k.kid, public) ∷ []
    | err e ↦ key_map ks
  ]

  -- The key of a header that names none is the active one.
  unfoldable pub local_key : List (String × Bytes) → String → Action (Result Bytes)
  local_key keys kid =
      if kid == ""
      then (attempt "no kid and no active key" active_key λ active.
          on_option (key_in active.0.kid keys) (λ k. pure (ok k))
            (pure (err "active key not found in publishable set")))
      else on_option (key_in kid keys) (λ k. pure (ok k)) (pure (err "unknown kid"))

  unfoldable pub verify_local_parts :
      List (String × Bytes) → String × String × String → Action (Result Claims)
  verify_local_parts keys parts =
      attempt_pure "header decode" (p.base64url_decode parts.0) λ header_json.
        attempt_pure "header parse" (p.unmarshal_claims header_json) λ header.
          if not (string_or_empty (get_claim header "alg") == "EdDSA")
          then pure (err "unsupported alg")
          else attempt "key lookup" (local_key keys (string_or_empty (get_claim header "kid")))
              λ public. pure (verify_signed public parts)

  unfoldable pub verify_local_jwt : List (String × Bytes) → String → Action (Result Claims)
  verify_local_jwt keys token =
      on_option (split_dots token) (verify_local_parts keys) (pure (err "malformed JWT"))

  unfoldable pub handle_userinfo : ResourceConfig → Request → Action Response
  handle_userinfo rc r = do
    reject_if (not (r.method == "GET") && not (r.method == "POST"))
        (fail_with (("Allow", "GET, POST") ∷ []) 405 "invalid_request" "method not allowed")
    token ← read_bearer r
    keys ← must all_publishable_keys (λ _. fail 500 "server_error" "failed to load signing keys")
    claims ←
        must (verify_local_jwt (key_map keys) token)
          (λ e. fail_with token_challenge 401 "invalid_token" ("token verification failed: " <> e))
    t ← now
    reject_if (is_past (as_number (get_claim claims "exp")) (pos (unix t)))
        (fail_with token_challenge 401 "invalid_token" "token expired")
    reject_if (is_ahead (as_number (get_claim claims "nbf")) (pos (unix t)))
        (fail_with token_challenge 401 "invalid_token" "token not yet valid")
    reject_if (is_foreign (get_claim claims "iss") rc.public_base)
        (fail_with token_challenge 401 "invalid_token" "invalid issuer")
    pure (write_json 200 (claims_body (retain (contains_string profile_claims) claims)))
