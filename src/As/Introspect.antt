-- ===== src/As/Introspect.antt =====
-- sidecar/internal/as/introspect.go: token introspection (RFC 7662).
use mcpbouncer.Prelude.{
  Done, String, Bool, true, false, not, Option, none, some, List, [], ◌∷◌, ◌++◌, ◌==◌, ◌<>◌, ltb,
  if◌then◌else◌,
}
use mcpbouncer.Prelude.Int.{ℤ, pos, ltb_ℤ}
use mcpbouncer.Prelude.Strings.{split_dots}
use mcpbouncer.Json.{bool, num, str, Claims, get_claim, string_or_empty, as_number}
use mcpbouncer.Platform.{Platform}
use mcpbouncer.Action.{
  Action, Response, claims_body, ◌>>=◌, ◌>>◌, pure, finish, reject_if, now, attempt, attempt_pure,
  on_result, on_option,
}
use mcpbouncer.Store.Rows.{Bytes, Result, ok, err, RefreshToken, SigningKey, unix}
use mcpbouncer.Store.Grants.{get_refresh_token_by_hash}
use mcpbouncer.Http.{Request, write_json}
use mcpbouncer.Config.{ResourceConfig}
use mcpbouncer.Tokens.{hash_token}
use mcpbouncer.Keys.{all_publishable_keys}
use mcpbouncer.Keys.Jwks.{decode_public_pem}
use mcpbouncer.Plugin.Claims.{aud_contains}
use mcpbouncer.As.Clients.{read_credentials, find_client, check_secret}

abbrev pub inactive : Response
inactive = write_json 200 (claims_body (("active", bool false) ∷ []))

unfoldable pub refresh_info : RefreshToken → Claims
refresh_info rt =
    ("active", bool true)
    ∷ ("sub", str rt.sub)
    ∷ ("client_id", str rt.client_id)
    ∷ ("scope", str rt.scopes)
    ∷ ("exp", num (pos (unix rt.expires_at)))
    ∷ ("token_type", str "refresh_token")
    ∷ []

-- The claims of the list that are there.
unfoldable pub copy_claims : List String → Claims → Claims
copy_claims [] claims = []
copy_claims (k ∷ ks) claims =
    elim (get_claim claims k) [ none ↦ [] | some v ↦ (k, v) ∷ [] ] ++ copy_claims ks claims

unfoldable pub access_info : Claims → Claims
access_info claims =
    ("active", bool true)
    ∷ copy_claims ("sub" ∷ "client_id" ∷ "scope" ∷ "exp" ∷ "iat" ∷ "iss" ∷ "jti" ∷ "aud" ∷ [])
        claims

-- `now > int64(e)` and `now < int64(n)`, of a number that is there.
unfoldable pub is_past : Option ℤ → ℤ → Bool
is_past none t = false
is_past (some e) t = ltb_ℤ e t

unfoldable pub is_ahead : Option ℤ → ℤ → Bool
is_ahead none t = false
is_ahead (some n) t = ltb_ℤ t n

-- The checks of `verifyAccessJWT` on the claims.
unfoldable pub check_access_claims : ResourceConfig → ℤ → Claims → Result Claims
check_access_claims rc t claims =
    if is_past (as_number (get_claim claims "exp")) t
    then err "token expired"
    else if is_ahead (as_number (get_claim claims "nbf")) t
    then err "token not yet valid"
    else if not (string_or_empty (get_claim claims "iss") == rc.public_base)
    then err "iss mismatch"
    else if not (aud_contains (get_claim claims "aud") (rc.public_base <> "/"))
    then err "aud mismatch"
    else ok claims

-- The public key of the first key with the id.
unfoldable pub key_named : (Bytes → Result Bytes) → String → List SigningKey → Result Bytes
key_named decode kid [] = err "unknown kid"
key_named decode kid (k ∷ ks) =
    if k.kid == kid then decode k.public_pem else key_named decode kid ks

module _ ⦃p : Platform⦄ where
  -- The signature and the payload; `t` is read behind them.
  unfoldable pub verify_signed : (public : Bytes) → String × String × String → Result Claims
  verify_signed public (h, payload, s) = elim (p.base64url_decode s) [
    | err e ↦ err ("sig decode: " <> e)
    | ok sig ↦
        if not (p.ed25519_verify public (p.utf8 (h <> "." <> payload)) sig)
        then err "signature invalid"
        else elim (p.base64url_decode payload) [
          | err e ↦ err ("payload decode: " <> e)
          | ok json ↦ p.unmarshal_claims json
        ]
  ]

  unfoldable pub verify_parts : ResourceConfig → String × String × String → Action (Result Claims)
  verify_parts rc parts = attempt_pure "header decode" (p.base64url_decode parts.0) λ header_json.
      attempt_pure "header parse" (p.unmarshal_claims header_json) λ header.
        if not (string_or_empty (get_claim header "alg") == "EdDSA")
        then pure (err "unsupported alg")
        else attempt "list signing keys" all_publishable_keys λ keys.
          attempt_pure "decode public key"
            (key_named decode_public_pem (string_or_empty (get_claim header "kid")) keys)
            λ public.
              attempt_pure "verify" (verify_signed public parts)
                λ claims. do t ← now; pure (check_access_claims rc (pos (unix t)) claims)

  unfoldable pub verify_access_jwt : ResourceConfig → String → Action (Result Claims)
  verify_access_jwt rc token =
      on_option (split_dots token) (verify_parts rc) (pure (err "malformed jwt"))

  unfoldable pub report_refresh_token : (client_id : String) → RefreshToken → Action Done
  report_refresh_token client_id rt = do
    t ← now
    reject_if (ltb rt.expires_at t) (finish inactive)
    reject_if (not (rt.client_id == client_id)) (finish inactive)
    finish (write_json 200 (claims_body (refresh_info rt)))

  -- The refresh token of the hash, if it is stored; with the hint that it is one, no other answer.
  unfoldable pub try_refresh_token : (client_id hint token : String) → Action Done
  try_refresh_token client_id hint token = if hint == "access_token" then pure tt else do
    looked ← get_refresh_token_by_hash (hash_token token)
    on_result looked (λ found. on_option found (report_refresh_token client_id) (pure tt))
        (λ _. pure tt)
    reject_if (hint == "refresh_token") (finish inactive)

  unfoldable pub report_access_token : (client_id : String) → Claims → Action Response
  report_access_token client_id claims =
      if not (string_or_empty (get_claim claims "client_id") == client_id)
      then pure inactive
      else pure (write_json 200 (claims_body (access_info claims)))

  unfoldable pub handle_introspect : ResourceConfig → Request → Action Response
  handle_introspect rc r = do
    credentials ← read_credentials r
    client ← find_client credentials.0
    check_secret client credentials.1
    let token = r.form_value "token"
    reject_if (token == "") (finish inactive)
    try_refresh_token credentials.0 (r.form_value "token_type_hint") token
    verified ← verify_access_jwt rc token
    on_result verified (report_access_token credentials.0) (λ _. pure inactive)
