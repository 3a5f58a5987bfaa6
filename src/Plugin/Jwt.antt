-- ===== src/Plugin/Jwt.antt =====
-- plugin/jwt_verify.go: the verification of a compact JWT. The public keys are `PublicKey`.
use mcpbouncer.Prelude.{Done, String, none, some, ◌==◌, ◌<>◌, if◌then◌else◌}
use mcpbouncer.Prelude.Strings.{split_dots}
use mcpbouncer.Json.{Claims, get_claim, string_or_empty}
use mcpbouncer.Platform.{Platform, PublicKey, ed25519, rsa}
use mcpbouncer.Store.Rows.{Bytes, Result, ok, err}

infixl 5 ◌>>=◌
abbrev pub ◌>>=◌ {ℓ κ} : {A : Type ℓ} {B : Type κ} → Result A → (A → Result B) → Result B
ok a >>= f = f a
err e >>= f = err e

unfoldable pub check_alg : String → Result Done
check_alg alg =
    if alg == ""
    then err "missing alg"
    else if alg == "none"
    then err "alg=none not allowed"
    else if alg == "EdDSA"
    then ok tt
    else if alg == "RS256"
    then ok tt
    else err "unsupported alg"

module _ ⦃p : Platform⦄ where
  -- The algorithm and the key id.
  unfoldable pub parse_jwt_header : String → Result (String × String)
  parse_jwt_header part = do
    json ← p.base64url_decode part
    header ← p.unmarshal_claims json
    let alg = string_or_empty (get_claim header "alg")
    allowed ← check_alg alg
    ok (alg, string_or_empty (get_claim header "kid"))

  unfoldable pub verify_ed25519 : PublicKey → Bytes → Bytes → Result Done
  verify_ed25519 (ed25519 k) input sig =
      if p.ed25519_verify k input sig then ok tt else err "EdDSA signature invalid"
  verify_ed25519 _ input sig = err "expected ed25519.PublicKey for EdDSA"

  unfoldable pub verify_rsa : PublicKey → Bytes → Bytes → Result Done
  verify_rsa (rsa n e) input sig =
      if p.rsa_verify n e (p.sha256 input) sig then ok tt else err "RS256 signature invalid"
  verify_rsa _ input sig = err "expected *rsa.PublicKey for RS256"

  unfoldable pub verify_jwt_signature : String → PublicKey → Bytes → Bytes → Result Done
  unfolding verify_ed25519 verify_rsa
  verify_jwt_signature alg key input sig =
      if alg == "EdDSA"
      then verify_ed25519 key input sig
      else if alg == "RS256"
      then verify_rsa key input sig
      else err "unsupported alg"

  unfoldable pub parse_jwt_payload : String → Result Claims
  parse_jwt_payload part = do json ← p.base64url_decode part; p.unmarshal_claims json

  unfoldable pub verify_parts :
      (String → String → Result PublicKey) → String × String × String → Result Claims
  verify_parts get_key (h, payload, s) = do
    header ← parse_jwt_header h
    key ← get_key header.1 header.0
    sig ← p.base64url_decode s
    verified ← verify_jwt_signature header.0 key (p.utf8 (h <> "." <> payload)) sig
    parse_jwt_payload payload

  unfoldable pub parse_and_verify_jwt :
      (token : String) → (get_key : (kid alg : String) → Result PublicKey) → Result Claims
  unfolding verify_parts
  parse_and_verify_jwt token get_key = elim (split_dots token) [
    | none ↦ err "malformed jwt: expected 3 parts"
    | some parts ↦ verify_parts get_key parts
  ]
