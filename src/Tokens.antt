-- ===== src/Tokens.antt =====
-- sidecar/internal/tokens/issuer.go: the minting of access and refresh tokens.
pub mod Merge
use mcpbouncer.Prelude.{ℕ, ◌+◌, String, none, some, [], ◌∷◌, ◌++◌, ◌<>◌}
use mcpbouncer.Prelude.Int.{pos}
use mcpbouncer.Json.{str, num, arr, nil, cons, Claims, get_claim}
use mcpbouncer.Platform.{Platform}
use mcpbouncer.Action.{Action, ◌>>=◌, pure, attempt, attempt_pure, now, read_random}
use mcpbouncer.Store.Rows.{Bytes, Result, ok, unix}
use mcpbouncer.Keys.{Rotator, active_key}
use mcpbouncer.Config.{ResourceConfig}

pub record Issuer : Type 0 where
  pub rotator : Rotator
  pub access_ttl : ℕ
  pub refresh_ttl : ℕ

-- The loop that adds the extra claims: one that is there already stays.
unfoldable pub add_missing : Claims → Claims → Claims
add_missing claims [] = claims
add_missing claims ((k, v) ∷ extra) =
    add_missing (elim (get_claim claims k) [ none ↦ claims ++ (k, v) ∷ [] | some _ ↦ claims ]) extra

-- The claims that the server sets itself.
unfoldable pub base_claims : ResourceConfig → String → String → String → ℕ → ℕ → String → Claims
base_claims rc sub scopes client_id issued expires jti =
    ("iss", str rc.public_base)
    ∷ ("aud", arr (cons (str (rc.public_base <> "/")) nil))
    ∷ ("sub", str sub)
    ∷ ("client_id", str client_id)
    ∷ ("scope", str scopes)
    ∷ ("iat", num (pos (unix issued)))
    ∷ ("nbf", num (pos (unix issued)))
    ∷ ("exp", num (pos (unix expires)))
    ∷ ("jti", str jti)
    ∷ []

module _ ⦃p : Platform⦄ where
  -- HashToken, and sha256Hex of sidecar/internal/as/dcr.go.
  unfoldable pub hash_token : String → String
  hash_token raw = p.hex (p.sha256 (p.utf8 raw))

  -- The signed token of a header and claims that are already encoded.
  unfoldable pub sign_jwt : Bytes → String → String → String
  sign_jwt priv header_json claims_json =
      let signing_input =
        p.base64url (p.utf8 header_json) <> "." <> p.base64url (p.utf8 claims_json) in
      signing_input <> "." <> p.base64url (p.ed25519_sign priv (p.utf8 signing_input))

  unfoldable pub mint_access_token :
      Issuer → ResourceConfig → String → String → String → Claims → Action (Result (String × ℕ))
  unfolding base_claims
  mint_access_token i rc sub scopes client_id extra = attempt "MintAccessToken" active_key λ key. do
    issued ← now
    let expires = issued + i.access_ttl
    attempt "MintAccessToken jti" (read_random 16) λ jti.
        attempt_pure "MintAccessToken header marshal"
          (p.marshal_claims
            (("alg", str "EdDSA") ∷ ("typ", str "at+jwt") ∷ ("kid", str key.0.kid) ∷ []))
          λ header_json.
            attempt_pure "MintAccessToken claims marshal"
              (p.marshal_claims (
                add_missing (base_claims rc sub scopes client_id issued expires (p.hex jti)) extra))
              λ claims_json. pure (ok (sign_jwt key.1 header_json claims_json, expires))

  -- The raw token, its hash and its expiry.
  unfoldable pub mint_refresh_token : Issuer → Action (Result (String × String × ℕ))
  mint_refresh_token i =
      attempt "MintRefreshToken" (read_random 32)
        λ b. do let raw = p.base64url b; t ← now; pure (ok (raw, hash_token raw, t + i.refresh_ttl))
