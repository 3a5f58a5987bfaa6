-- ===== src/Trust.antt =====
-- The sidecar and the middleware: the tokens that sidecar/internal/tokens/issuer.go mints pass the
-- checks of plugin/jwt_verify.go and plugin/mcpbouncer.go.
use mcpbouncer.Prelude.{
  ℕ, ◌+◌, ◌-◌, ◌*◌, ◌^◌, ◌%◌, ◌≤◌, ◌<◌, String, ◌≡◌, refl, sym, ap, ◌∙◌, inr, true, false, none,
  some, ◌<>◌, eq_refl, arith, contains_string,
}
use mcpbouncer.Prelude.Int.{wrap64, ℤ, pos, ltb_ℤ}
use mcpbouncer.Prelude.Strings.{cut_dot, split_dots-join, fields}
use mcpbouncer.Json.{Json, str, items_contain, Claims, get_claim, string_or_empty, as_number}
use mcpbouncer.Platform.{Platform, PublicKey, ed25519}
use mcpbouncer.Store.Rows.{Bytes, Result, ok, unix}
use mcpbouncer.Config.{ResourceConfig}
use mcpbouncer.Tokens.{add_missing, base_claims, sign_jwt}
use mcpbouncer.Tokens.Merge.{get_claim-add_missing}
use mcpbouncer.Plugin.Claims.{skew, add64, sub64, aud_contains, check_claims}
use mcpbouncer.Plugin.Acceptance.{check_claims-passes}
use mcpbouncer.Plugin.Jwt.{
  check_alg, parse_jwt_header, verify_ed25519, verify_jwt_signature, parse_jwt_payload,
  verify_parts, parse_and_verify_jwt,
}

module _ ⦃p : Platform⦄ where
  -- A token that the sidecar signs with a private key verifies in the middleware, with its claims,
  -- where the middleware gets the matching public key for the header's key id. Base64url has no
  -- dots and is decoded again, the key pair verifies what it signs, and the header and the claims
  -- are read as they were written.
  pub parse_and_verify_jwt-sign_jwt :
      (priv pub_key : Bytes) (header_json claims_json kid : String) (header claims : Claims)
      (get_key : String → String → Result PublicKey)
      → ((b : Bytes) → p.base64url_decode (p.base64url b) ≡ ok b)
      → ((b : Bytes) → cut_dot (p.base64url b) ≡ none)
      → ((m : Bytes) → p.ed25519_verify pub_key m (p.ed25519_sign priv m) ≡ true)
      → p.unmarshal_claims (p.utf8 header_json) ≡ ok header
      → p.unmarshal_claims (p.utf8 claims_json) ≡ ok claims
      → get_claim header "alg" ≡ some (str "EdDSA")
      → get_claim header "kid" ≡ some (str kid)
      → get_key kid "EdDSA" ≡ ok (ed25519 pub_key)
      → parse_and_verify_jwt (sign_jwt priv header_json claims_json) get_key ≡ ok claims
  unfolding parse_and_verify_jwt sign_jwt verify_parts parse_jwt_header check_alg
      verify_jwt_signature verify_ed25519 parse_jwt_payload string_or_empty
  parse_and_verify_jwt-sign_jwt priv pub_key hj cj kid header claims get_key decoded dotless pair
        header_read claims_read alg id known =
      let a = p.base64url (p.utf8 hj) in
      let b = p.base64url (p.utf8 cj) in
      let s = p.base64url (p.ed25519_sign priv (p.utf8 (a <> ("." <> b)))) in
      rw
        (
          parse_and_verify_jwt,
          split_dots-join a b s (dotless _) (dotless _) (dotless _),
          verify_parts,
          parse_jwt_header,
          decoded (p.utf8 hj),
          decoded (p.utf8 cj),
          decoded (p.ed25519_sign priv (p.utf8 (a <> ("." <> b)))),
          header_read,
          alg,
          id,
          known,
          pair (p.utf8 (a <> ("." <> b))),
        )
        claims_read

mod_small : (n : ℕ) → n < 2 ^ 63 → (n + 2 ^ 64 * 2 - 0) % 2 ^ 64 ≡ n
mod_small n h = omega (arith, h)

add64-pos : (a b : ℕ) → a + b < 2 ^ 63 → add64 (pos a) (pos b) ≡ pos (a + b)
unfolding add64 wrap64
add64-pos a b h = ground (arith, mod_small (a + b) h)

sub64-pos : (a b : ℕ) → b ≤ a → a < 2 ^ 63 → sub64 (pos a) (pos b) ≡ pos (a - b)
unfolding sub64 wrap64
sub64-pos a b h k = ground (arith, mod_small (a - b) (omega arith))

begun-early :
    (i now : ℕ) (nbf : ℤ)
    → some nbf ≡ some (pos i)
    → 60 ≤ i
    → i < 2 ^ 63
    → i ≤ now + 60
    → ltb_ℤ (pos now) (sub64 nbf skew) ≡ false
begun-early i now nbf e old small begun = ground (arith, sub64-pos i 60 old small)

module _ (rc : ResourceConfig) (sub scopes client_id jti : String) (issued expires : ℕ)
    (extra : Claims) where
  -- The claims of the token that the sidecar mints.
  abbrev minted : Claims
  minted = add_missing (base_claims rc sub scopes client_id issued expires jti) extra

  minted-claim :
      (k : String) {v : Json}
      → get_claim (base_claims rc sub scopes client_id issued expires jti) k ≡ some v
      → get_claim minted k ≡ some v
  minted-claim k h =
      get_claim-add_missing (base_claims rc sub scopes client_id issued expires jti) extra k
      ∙ rw h refl

  -- The claims that the sidecar mints pass the middleware's checks, for the same public base,
  -- whatever extra claims the upstream gives, from a minute before they are issued to a minute
  -- after they expire, where the token's scopes contain the required ones.
  pub check_claims-minted :
      (required : String) (now : ℕ)
      → 60 ≤ unix issued
      → unix issued < 2 ^ 63
      → unix expires + 60 < 2 ^ 63
      → unix issued ≤ now + 60
      → now ≤ unix expires + 60
      → ((s : String)
          → contains_string (fields required) s ≡ true
          → contains_string (fields scopes) s ≡ true)
      → check_claims required
          (add_missing (base_claims rc sub scopes client_id issued expires jti) extra)
          rc.public_base
          (pos now)
        ≡ none
  unfolding get_claim base_claims string_or_empty as_number aud_contains items_contain
  check_claims-minted required now old small small' begun alive granted =
      check_claims-passes required minted rc.public_base (pos now) (record {
        issued_here = rw (minted-claim "iss" refl) refl;
        meant_for_us =
            inr (rw (minted-claim "aud" refl) (ground (arith, eq_refl (rc.public_base <> "/"))));
        not_expired = (
          pos (unix expires),
          rw (minted-claim "exp" refl) refl,
          rw (add64-pos (unix expires) 60 small') (ground arith),
        );
        begun = λ nbf e.
            begun-early (unix issued) now nbf (sym e ∙ ap as_number (minted-claim "nbf" refl)) old
              small begun;
        scopes_granted = λ s asked. rw (minted-claim "scope" refl) (granted s asked);
      })
