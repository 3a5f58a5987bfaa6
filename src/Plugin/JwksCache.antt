-- ===== src/Plugin/JwksCache.antt =====
-- plugin/jwks_cache.go: the cache of the sidecar's public keys. Each `Get` is one step, with the
-- clock at its three readings and the answer that the fetch would have.
use mcpbouncer.Prelude.{
  ℕ, ◌+◌, ◌*◌, String, ◌&&◌, Option, none, some, List, [], ◌∷◌, ◌++◌, ◌==◌, ltb, nat_beq, length,
  if◌then◌else◌,
}
use mcpbouncer.Prelude.Int.{ℤ, pos, negsuc, sub_ℕ, ltb_ℤ, wrap64}
use mcpbouncer.Platform.{Platform, PublicKey, ed25519, rsa, HttpReply, JwkEntry}
use mcpbouncer.Store.Rows.{Bytes, Result, ok, err, second}
use mcpbouncer.Plugin.Jwt.{◌>>=◌}

pub record JwksCache : Type 0 where
  -- A time.Duration: an int64 of nanoseconds.
  pub ttl : ℤ
  pub last_fetch : ℕ
  pub keys : List (String × PublicKey)

-- The seconds of the setting, which is an int, or 300 where it is not positive.
unfoldable pub seconds_of : ℤ → ℕ
seconds_of (pos n) = if nat_beq n 0 then 300 else n
seconds_of (negsuc n) = 300

-- newJWKSCache; the product wraps around.
unfoldable pub new_jwks_cache : ℤ → JwksCache
unfolding seconds_of
new_jwks_cache ttl_seconds = record {
  ttl = wrap64 (pos (seconds_of ttl_seconds * second));
  last_fetch = 0;
  keys = [];
}

unfoldable pub key_with : String → List (String × PublicKey) → Option PublicKey
key_with kid [] = none
key_with kid ((j, k) ∷ ks) = if j == kid then some k else key_with kid ks

-- The number of big-endian bytes.
unfoldable pub big_endian : ℕ → Bytes → ℕ
big_endian acc [] = acc
big_endian acc (b ∷ bs) = big_endian (acc * 256 + b) bs

module _ ⦃p : Platform⦄ where
  unfoldable pub parse_jwk_entry : JwkEntry → Result PublicKey
  parse_jwk_entry e =
      if e.kty == "OKP" && e.crv == "Ed25519"
      then (p.base64url_decode e.x >>= λ x.
          if nat_beq (length x) 32 then ok (ed25519 x) else err "ed25519 x wrong size")
      else if e.kty == "RSA"
      then (p.base64url_decode e.n >>= λ n. p.base64url_decode e.e >>= λ exponent.
          if ltb 4 (length exponent)
          then err "rsa e too large"
          else ok (rsa n (big_endian 0 exponent)))
      else err "unsupported kty"

  -- The loop over the entries: a later entry with a key id replaces an earlier one.
  unfoldable pub usable_keys : List JwkEntry → List (String × PublicKey)
  usable_keys [] = []
  usable_keys (e ∷ es) = elim (parse_jwk_entry e) [
    | ok k ↦ usable_keys es ++ (e.kid, k) ∷ []
    | err m ↦ usable_keys es
  ]

  -- The keys of the sidecar's answer.
  unfoldable pub fetched_keys : Result HttpReply → Result (List (String × PublicKey))
  fetched_keys answer = do
    reply ← answer
    body ← reply.body
    jwks ← if nat_beq reply.status 200 then p.unmarshal_jwks body else err "jwks fetch status"
    ok (usable_keys jwks)

  unfoldable pub or_missing : Option PublicKey → String → Result PublicKey
  or_missing (some k) e = ok k
  or_missing none e = err e

  -- From the lock on: a refresh where the last one is five seconds old.
  unfoldable pub get_locked :
      (recheck refreshed : ℕ) → Result HttpReply → String → JwksCache → Result PublicKey × JwksCache
  unfolding or_missing
  get_locked recheck refreshed answer kid c =
      if ltb (c.last_fetch + 5 * second) recheck
      then elim (fetched_keys answer) [
        | err e ↦ (or_missing (key_with kid c.keys) e, c)
        | ok ks ↦ (
          or_missing (key_with kid ks) "key not found in JWKS",
          record c { keys = ks; last_fetch = refreshed },
        )
      ]
      else (or_missing (key_with kid c.keys) "key not found in JWKS", c)

  unfoldable pub get :
      (now recheck refreshed : ℕ)
      → Result HttpReply
      → String
      → JwksCache
      → Result PublicKey × JwksCache
  get now recheck refreshed answer kid c = elim (key_with kid c.keys) [
    | none ↦ get_locked recheck refreshed answer kid c
    | some k ↦
        if ltb_ℤ c.ttl (sub_ℕ now c.last_fetch)
        then get_locked recheck refreshed answer kid c
        else (ok k, c)
  ]
