-- ===== src/Keys/Jwks.antt =====
-- sidecar/internal/keys/jwks.go, and the decoding of a public key, which sidecar/internal/as repeats
-- in introspect.go (decodePublicPEM) and userinfo.go (parseEd25519PublicPEM).
use mcpbouncer.Prelude.{String, none, some, List, [], ◌∷◌, ◌<>◌}
use mcpbouncer.Platform.{Platform, PublicKey, ed25519}
use mcpbouncer.Store.Rows.{Bytes, Result, ok, err, SigningKey}

unfoldable only_ed25519 : PublicKey → Result Bytes
only_ed25519 (ed25519 k) = ok k
only_ed25519 _ = err "not Ed25519 key"

module _ ⦃p : Platform⦄ where
  unfoldable pub decode_public_pem : Bytes → Result Bytes
  unfolding only_ed25519
  decode_public_pem pem_bytes = elim (p.pem_decode pem_bytes) [
    | none ↦ err "no PEM block"
    | some block ↦ elim (p.parse_pkix block) [
      | err e ↦ err ("parse PKIX: " <> e)
      | ok key ↦ only_ed25519 key
    ]
  ]

  -- The key id and the encoded key.
  unfoldable pub signing_key_to_jwk : SigningKey → Result (String × String)
  signing_key_to_jwk k = elim (decode_public_pem k.public_pem) [
    | err e ↦ err ("signingKeyToJWK: " <> e)
    | ok key ↦ ok (k.kid, p.base64url key)
  ]

  abbrev prepend :
      Result (String × String) → Result (List (String × String)) → Result (List (String × String))
  prepend (err e) rest = err e
  prepend (ok j) (err e) = err e
  prepend (ok j) (ok js) = ok (j ∷ js)

  -- One key that cannot be decoded fails the whole set.
  unfoldable pub publishable_jwks : List SigningKey → Result (List (String × String))
  publishable_jwks [] = ok []
  publishable_jwks (k ∷ ks) = prepend (signing_key_to_jwk k) (publishable_jwks ks)
