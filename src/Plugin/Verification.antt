-- ===== src/Plugin/Verification.antt =====
-- What a verified token shows (plugin/jwt_verify.go), and which keys the cache of plugin/jwks_cache.go
-- answers with.
use mcpbouncer.Prelude.{
  ℕ, ◌+◌, ◌*◌, String, ◌≡◌, refl, ◌⊎◌, inl, inr, true, some, Option-cases, List, ◌==◌, ◌<>◌, eq_iff,
  arith, Bool-cases, ltb, ap, ◌≤◌, ◌<◌,
}
use mcpbouncer.Prelude.Int.{ℤ, pos, negsuc, neg_part, sub_ℕ, ltb_ℤ, wrap64}
use mcpbouncer.Prelude.Strings.{split_dots}
use mcpbouncer.Json.{Claims}
use mcpbouncer.Platform.{Platform, PublicKey, ed25519, rsa, other, HttpReply}
use mcpbouncer.Store.Rows.{Bytes, Result, ok, err, second}
use mcpbouncer.Plugin.Jwt.{
  ◌>>=◌, parse_jwt_header, verify_ed25519, verify_rsa, verify_jwt_signature, parse_jwt_payload,
  verify_parts, parse_and_verify_jwt,
}
use mcpbouncer.Plugin.JwksCache.{
  JwksCache, seconds_of, new_jwks_cache, key_with, fetched_keys, or_missing, get_locked, get,
}

bind-eq-ok {ℓ κ} :
    {A : Type ℓ} {B : Type κ} (r : Result A) (f : A → Result B) {b : B}
    → (r >>= f) ≡ ok b
    → (a : A) × (r ≡ ok a) × (f a ≡ ok b)
bind-eq-ok (ok a) f h = (a, refl, h)
bind-eq-ok (err e) f h = cc

module _ ⦃p : Platform⦄ where
  -- A signature over `input`, by the key and with the algorithm of the key's type.
  pub data IsSignedBy (input sig : Bytes) : String → PublicKey → Type 0 where
    by_ed25519 :
        (k : Bytes) → p.ed25519_verify k input sig ≡ true → IsSignedBy input sig "EdDSA" (ed25519 k)
    by_rsa :
        (n : Bytes) (e : ℕ)
        → p.rsa_verify n e (p.sha256 input) sig ≡ true
        → IsSignedBy input sig "RS256" (rsa n e)

  ed25519_sound :
      (key : PublicKey) (input sig : Bytes)
      → verify_ed25519 key input sig ≡ ok tt
      → IsSignedBy input sig "EdDSA" key
  unfolding verify_ed25519
  ed25519_sound (ed25519 k) input sig h = elim (Bool-cases (p.ed25519_verify k input sig)) [
    | inl e ↦ by_ed25519 k e
    | inr e ↦ ground arith
  ]
  ed25519_sound (rsa n e) input sig h = ground arith
  ed25519_sound other input sig h = ground arith

  rsa_sound :
      (key : PublicKey) (input sig : Bytes)
      → verify_rsa key input sig ≡ ok tt
      → IsSignedBy input sig "RS256" key
  unfolding verify_rsa
  rsa_sound (rsa n e) input sig h = elim (Bool-cases (p.rsa_verify n e (p.sha256 input) sig)) [
    | inl e' ↦ by_rsa n e e'
    | inr e' ↦ ground arith
  ]
  rsa_sound (ed25519 k) input sig h = ground arith
  rsa_sound other input sig h = ground arith

  signature_sound :
      (alg : String) (key : PublicKey) (input sig : Bytes)
      → verify_jwt_signature alg key input sig ≡ ok tt
      → IsSignedBy input sig alg key
  unfolding verify_jwt_signature
  signature_sound alg key input sig h = elim (Bool-cases (alg == "EdDSA")) [
    | inl e ↦ rw ((eq_iff alg "EdDSA").0 e) (ed25519_sound key input sig (ground arith))
    | inr e ↦ elim (Bool-cases (alg == "RS256")) [
      | inl e' ↦ rw ((eq_iff alg "RS256").0 e') (rsa_sound key input sig (ground arith))
      | inr e' ↦ ground arith
    ]
  ]

  -- What stands behind the claims of a verified token.
  pub record IsVerified (token : String) (get_key : String → String → Result PublicKey)
      (claims : Claims) : Type 0 where
    pub header : String
    pub payload : String
    pub tail : String
    pub parts : split_dots token ≡ some (header, payload, tail)
    pub alg : String
    pub kid : String
    pub header_says : parse_jwt_header header ≡ ok (alg, kid)
    pub key : PublicKey
    pub key_found : get_key kid alg ≡ ok key
    pub sig : Bytes
    pub sig_decoded : p.base64url_decode tail ≡ ok sig
    pub signed : IsSignedBy (p.utf8 (header <> "." <> payload)) sig alg key
    pub claims_read : parse_jwt_payload payload ≡ ok claims

  parts_sound :
      (token : String) (get_key : String → String → Result PublicKey) (h payload s : String)
      {claims : Claims}
      → split_dots token ≡ some (h, payload, s)
      → verify_parts get_key (h, payload, s) ≡ ok claims
      → IsVerified token get_key claims
  unfolding verify_parts
  parts_sound token get_key h payload s parts e =
      let ((alg, kid), header_says, e1) = bind-eq-ok (parse_jwt_header h) _ e in
      let (key, key_found, e2) = bind-eq-ok (get_key kid alg) _ e1 in
      let (sig, sig_decoded, e3) = bind-eq-ok (p.base64url_decode s) _ e2 in
      let (_, signed, claims_read) = bind-eq-ok (verify_jwt_signature alg key _ sig) _ e3 in
      record {
        header = h;
        payload = payload;
        tail = s;
        parts = parts;
        alg = alg;
        kid = kid;
        header_says = header_says;
        key = key;
        key_found = key_found;
        sig = sig;
        sig_decoded = sig_decoded;
        signed = signature_sound alg key _ sig signed;
        claims_read = claims_read;
      }

  -- A token that verifies has three parts; its first two are signed, under EdDSA or RS256, by the
  -- key that its header names, which has the type of that algorithm; and its claims are the second
  -- part's.
  pub parse_and_verify_jwt-IsVerified :
      (token : String) (get_key : String → String → Result PublicKey) {claims : Claims}
      → parse_and_verify_jwt token get_key ≡ ok claims
      → IsVerified token get_key claims
  unfolding parse_and_verify_jwt
  parse_and_verify_jwt-IsVerified token get_key {claims} h =
      elim (Option-cases (split_dots token)) [
        | inl e ↦ ground arith
        | inr ((a, b, s), e) ↦ parts_sound token get_key a b s {claims = claims} e (ground arith)
      ]

  -- A key that the cache holds is answered with, whatever the time, while the sidecar does not
  -- answer with keys; and the failure changes nothing in the cache.
  pub get-outage :
      (now recheck refreshed : ℕ) (answer : Result HttpReply) (kid : String) (c : JwksCache)
      {k : PublicKey} {e : String}
      → fetched_keys answer ≡ err e
      → key_with kid c.keys ≡ some k
      → get now recheck refreshed answer kid c ≡ (ok k, c)
  unfolding get get_locked or_missing
  get-outage now recheck refreshed answer kid c {k} {e} down held = ground arith

  -- A key that `Get` answers with is one that the cache held, and the cache is as before, or one
  -- of the keys that the sidecar has just answered with, which the cache then holds instead; and
  -- that only where the last successful fetch is more than five seconds old.
  pub get_sound :
      (now recheck refreshed : ℕ) (answer : Result HttpReply) (kid : String) (c c' : JwksCache)
      {k : PublicKey}
      → get now recheck refreshed answer kid c ≡ (ok k, c')
      → ((key_with kid c.keys ≡ some k) × (c' ≡ c))
        ⊎ ((ks : List (String × PublicKey)) × (fetched_keys answer ≡ ok ks)
            × (key_with kid ks ≡ some k)
            × (c' ≡ record c { keys = ks; last_fetch = refreshed })
            × (ltb (c.last_fetch + 5 * second) recheck ≡ true))
  unfolding get get_locked or_missing
  get_sound now recheck refreshed answer kid c c' {k} h = ground arith

  overflow-negative :
      (n : ℕ) → 9223372037 ≤ n → n ≤ 18446744073 → 0 < neg_part (new_jwks_cache (pos n)).ttl
  unfolding new_jwks_cache seconds_of wrap64
  overflow-negative n low high = ground arith

  expired-negative :
      (ttl : ℤ) (since now : ℕ)
      → 0 < neg_part ttl
      → since ≤ now
      → ltb_ℤ ttl (sub_ℕ now since) ≡ true
  expired-negative (pos n) since now negative later = ground arith
  expired-negative (negsuc n) since now negative later = ground arith

  -- A lifetime of 9223372037 to 18446744073 seconds wraps around to a negative one: a key that the cache
  -- holds has always expired, and once five seconds have passed since the last fetch, every `Get` whose
  -- fetch succeeds puts the fetched keys in the place of the held ones, whatever key it is asked for.
  pub get-overflow :
      (n : ℕ) (now recheck refreshed : ℕ) (answer : Result HttpReply) (kid : String) (c : JwksCache)
      {ks : List (String × PublicKey)}
      → 9223372037 ≤ n
      → n ≤ 18446744073
      → c.ttl ≡ (new_jwks_cache (pos n)).ttl
      → c.last_fetch ≤ now
      → c.last_fetch + 5 * second < recheck
      → fetched_keys answer ≡ ok ks
      → (get now recheck refreshed answer kid c).1 ≡ record c { keys = ks; last_fetch = refreshed }
  unfolding get get_locked
  get-overflow n now recheck refreshed answer kid c low high same later due fetched =
      let expired =
        expired-negative c.ttl c.last_fetch now
          (omega (arith, overflow-negative n low high, ap neg_part same)) later in
      ground (arith, expired)
