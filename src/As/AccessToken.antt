-- ===== src/As/AccessToken.antt =====
-- The verification of access tokens (sidecar/internal/as/introspect.go).
use mcpbouncer.Prelude.{
  ℕ, suc, String, ◌≡◌, ◌≢◌, ap, inl, inr, true, false, some, ◌==◌, eq_iff, arith, Option-cases,
  List, map, not, ◌<>◌,
}
use mcpbouncer.Action.{
  attempt, attempt_pure, World, Response, ret, exit, tick, ◌>>=◌, pure, now, query, on_option,
}
use mcpbouncer.Prelude.Strings.{split_dots}
use mcpbouncer.Action.Outcomes.{attempt-ok, attempt_pure-ok, unless-ok}
use mcpbouncer.Keys.{all_publishable_keys}
use mcpbouncer.Keys.Jwks.{decode_public_pem}
use mcpbouncer.Store.Keys.{scan_signing_key, list_signing_keys}
use mcpbouncer.Store.Rows.{Bytes, SigningKey, ok, Db, unix, Client-keyed, RefreshToken-keyed}
use mcpbouncer.Plugin.Claims.{aud_contains}
use mcpbouncer.As.Introspect.{
  verify_signed, verify_parts, key_named, is_past, is_ahead, check_access_claims, verify_access_jwt,
}
use mcpbouncer.Prelude.Int.{ℤ, pos}
use mcpbouncer.Json.{Claims, get_claim, string_or_empty, as_number}
use mcpbouncer.Platform.{Platform}
use mcpbouncer.Config.{ResourceConfig}

module _ ⦃p : Platform⦄ where
  -- The claims of a token that a stored key has signed, and which is meant for this server at the
  -- time `t`.
  pub record IsSigned (rc : ResourceConfig) (d : Db) (t : ℕ) (token : String) (claims : Claims)
      : Type 0 where
    pub parts : String × String × String
    pub split : split_dots token ≡ some parts
    pub kid : String
    pub public : Bytes
    pub known : key_named decode_public_pem kid (map scan_signing_key d.signing_keys) ≡ ok public
    pub signed : verify_signed public parts ≡ ok claims
    pub not_expired : is_past (as_number (get_claim claims "exp")) (pos (unix t)) ≡ false
    pub begun : is_ahead (as_number (get_claim claims "nbf")) (pos (unix t)) ≡ false
    pub issued_here : string_or_empty (get_claim claims "iss") ≡ rc.public_base
    pub meant_for_us : aud_contains (get_claim claims "aud") (rc.public_base <> "/") ≡ true

  check_access_claims-passed :
      (rc : ResourceConfig) (t : ℤ) (claims : Claims) {c : Claims}
      → check_access_claims rc t claims ≡ ok c
      → (claims ≡ c)
        × (is_past (as_number (get_claim claims "exp")) t ≡ false)
        × (is_ahead (as_number (get_claim claims "nbf")) t ≡ false)
        × (string_or_empty (get_claim claims "iss") ≡ rc.public_base)
        × (aud_contains (get_claim claims "aud") (rc.public_base <> "/") ≡ true)
  unfolding check_access_claims
  check_access_claims-passed rc t claims h =
      ground (arith, eq_iff (string_or_empty (get_claim claims "iss")) rc.public_base)

  pub keys-listed :
      (w : World) {keys : List SigningKey} {w' : World}
      → all_publishable_keys w ≡ (ret (ok keys), w')
      → (keys ≡ map scan_signing_key w.db.signing_keys) × (w' ≡ tick w)
  unfolding all_publishable_keys list_signing_keys query
  keys-listed w h = ground arith

  checked-passed :
      (rc : ResourceConfig) (c : Claims) (w : World) {claims : Claims} {w' : World}
      → (now >>= λ t. pure (check_access_claims rc (pos (unix t)) c)) w ≡ (ret (ok claims), w')
      → check_access_claims rc (pos (unix (p.clock w.step))) c ≡ ok claims
  unfolding now ◌>>=◌ pure
  checked-passed rc c w h = ground arith

  verify_parts-IsSigned :
      (rc : ResourceConfig) (token : String) (parts : String × String × String) (w : World)
      {claims : Claims} {w' : World}
      → split_dots token ≡ some parts
      → verify_parts rc parts w ≡ (ret (ok claims), w')
      → IsSigned rc w.db (p.clock (suc w.step)) token claims
  unfolding verify_parts
  verify_parts-IsSigned rc token parts w split h =
      let (json, e1, h1) = attempt_pure-ok _ _ _ w h in
      let (header, e2, h2) = attempt_pure-ok _ _ _ w h1 in
      let (alg, h3) =
        unless-ok (not (string_or_empty (get_claim header "alg") == "EdDSA")) "unsupported alg"
          (attempt "list signing keys" all_publishable_keys λ keys.
            attempt_pure "decode public key"
              (key_named decode_public_pem (string_or_empty (get_claim header "kid")) keys)
              λ public.
                attempt_pure "verify" (verify_signed public parts)
                  λ c. now >>= λ t. pure (check_access_claims rc (pos (unix t)) c))
          w h2 in
      let (keys, w1, e4, h4) = attempt-ok _ all_publishable_keys _ w h3 in
      let (public, e5, h5) = attempt_pure-ok _ _ _ w1 h4 in
      let (c, e6, h6) = attempt_pure-ok _ (verify_signed public parts) _ w1 h5 in
      let (listed, same) = keys-listed w e4 in
      let (is, not_expired, begun, issued_here, meant_for_us) =
        check_access_claims-passed rc _ c (checked-passed rc c w1 h6) in
      let at : p.clock w1.step ≡ p.clock (suc w.step) = ap (λ v. p.clock v.step) same in
      rw (← is, ← at)
        (record {
          parts = parts;
          split = split;
          kid = string_or_empty (get_claim header "kid");
          public = public;
          known = rw (← listed) e5;
          signed = e6;
          not_expired = not_expired;
          begun = begun;
          issued_here = issued_here;
          meant_for_us = meant_for_us;
        })

  pub verify_access_jwt-IsSigned :
      (rc : ResourceConfig) (token : String) (w : World) {claims : Claims} {w' : World}
      → verify_access_jwt rc token w ≡ (ret (ok claims), w')
      → IsSigned rc w.db (p.clock (suc w.step)) token claims
  unfolding verify_access_jwt on_option pure
  verify_access_jwt-IsSigned rc token w h = elim (Option-cases (split_dots token)) [
    | inl e ↦ let stopped = rw (e, on_option) at h in ground arith
    | inr (parts, e) ↦ verify_parts-IsSigned rc token parts w e (rw (e, on_option) at h)
  ]

  pub verify_access_jwt-goes_on :
      (rc : ResourceConfig) (token : String) (w : World) {x : Response} {w' : World}
      → verify_access_jwt rc token w ≢ (exit x, w')
  unfolding verify_access_jwt verify_parts on_option attempt attempt_pure all_publishable_keys
      list_signing_keys query now ◌>>=◌ pure
  verify_access_jwt-goes_on rc token w h = ground arith
