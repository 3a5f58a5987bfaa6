-- ===== src/Keys.antt =====
-- sidecar/internal/keys: the rotation of the signing keys.
pub mod Jwks
pub mod Counts
pub mod HandOver
pub mod Single
use mcpbouncer.Prelude.{
  ◌<>◌, ℕ, suc, ◌+◌, ◌*◌, Done, String, Bool, Option, none, some, List, [], ◌∷◌, ltb, take,
  if◌then◌else◌,
}
use mcpbouncer.Platform.{Platform, PublicKey, ed25519}
use mcpbouncer.Action.{
  on_option, Action, ret, ◌>>=◌, pure, attempt, attempt_step, attempt_pure, now,
}
use mcpbouncer.Store.Rows.{Bytes, Result, ok, err, next, active, retiring, SigningKey, second}
use mcpbouncer.Store.Keys.{
  has_status, insert_signing_key, list_signing_keys, get_active_signing_key,
  update_signing_key_status, delete_expired_signing_keys,
}

abbrev pub hour : ℕ
hour = 3600 * second

pub record Rotator : Type 0 where
  pub rotation_interval : ℕ
  pub overlap : ℕ
  pub max_token_ttl : ℕ

-- The key that the loop of `rotate` is left with: the last with the status.
unfoldable pub last_with : (SigningKey → Bool) → List SigningKey → Option SigningKey
last_with p [] = none
last_with p (k ∷ ks) = elim (last_with p ks) [
  | some l ↦ some l
  | none ↦ if p k then some k else none
]

unfoldable pub as_ed25519 : PublicKey → Result Bytes
as_ed25519 (ed25519 b) = ok b
as_ed25519 _ = err "decodePrivatePEM: not Ed25519"

module _ ⦃p : Platform⦄ where
  unfoldable pub new_key : Action (Result (Bytes × Bytes))
  new_key w = (ret (p.generate_key w.step), record w { step = suc w.step })

  -- The private and the public PEM, and the key's id.
  unfoldable pub generate_ed25519 : Action (Result (Bytes × Bytes × String))
  unfolding new_key
  generate_ed25519 = attempt "generateEd25519" new_key λ key.
      attempt_pure "generateEd25519 marshal priv" (p.marshal_pkcs8 key.1) λ private_der.
        let private_pem = p.pem_encode "PRIVATE KEY" private_der in
        attempt_pure "generateEd25519 marshal pub" (p.marshal_pkix key.0) λ public_der.
          let public_pem = p.pem_encode "PUBLIC KEY" public_der in
          pure (ok (private_pem, public_pem, p.hex (take 8 (p.sha256 public_pem))))

  unfoldable pub decode_private_pem : Bytes → Result Bytes
  unfolding as_ed25519
  decode_private_pem pem_bytes = elim (p.pem_decode pem_bytes) [
    | none ↦ err "decodePrivatePEM: no PEM block"
    | some block ↦ elim (p.parse_pkcs8 block) [
      | err e ↦ err ("decodePrivatePEM parse: " <> e)
      | ok key ↦ as_ed25519 key
    ]
  ]

  -- The key in use and its private half.
  unfoldable pub active_key : Action (Result (SigningKey × Bytes))
  unfolding decode_private_pem
  active_key = attempt "ActiveKey" get_active_signing_key λ found.
      on_option found
        (λ k.
          attempt_pure "ActiveKey decode" (decode_private_pem k.private_pem)
            λ priv. pure (ok (k, priv)))
        (pure (err "ActiveKey: no active key"))

  unfoldable pub all_publishable_keys : Action (Result (List SigningKey))
  all_publishable_keys = list_signing_keys

  module _ (r : Rotator) where
    unfoldable pub first_key : Action (Result Done)
    first_key = attempt "Ensure generate" generate_ed25519 λ key. do
      t ← now
      let retires_at = t + (r.rotation_interval + r.max_token_ttl + 48 * hour)
      insert_signing_key key.2 "EdDSA" key.0 key.1 retires_at active

    unfoldable pub ensure : Action (Result Done)
    ensure =
        attempt "Ensure" get_active_signing_key
          λ found. on_option found (λ k. pure (ok tt)) first_key

    -- The two updates that hand over from one key to the next.
    unfoldable pub hand_over :
        ℕ → SigningKey → SigningKey → Action (Result (Option SigningKey × Option SigningKey))
    hand_over t old new =
        attempt "rotate retire old"
          (update_signing_key_status old.kid retiring (t + (r.max_token_ttl + hour)))
          λ _.
            attempt "rotate promote next" (update_signing_key_status new.kid active new.retires_at)
              λ _. pure (ok (some new, none))

    -- `if active != nil && next != nil`: the two keys as the block leaves them.
    unfoldable pub promote :
        ℕ
        → Option SigningKey
        → Option SigningKey
        → Action (Result (Option SigningKey × Option SigningKey))
    promote t (some old) (some new) =
        if ltb (new.created_at + r.overlap) t
        then hand_over t old new
        else pure (ok (some old, some new))
    promote t old new = pure (ok (old, new))

    -- The next key; `t` is the clock at the start of `rotate`.
    unfoldable pub add_next : ℕ → Action (Result Done)
    add_next t = attempt "rotate generate" generate_ed25519 λ key.
        attempt "rotate insert next"
          (insert_signing_key key.2 "EdDSA" key.0 key.1
            (t + (r.rotation_interval + r.max_token_ttl + 48 * hour)) next)
          λ _. pure (ok tt)

    -- `if active != nil && next == nil`
    unfoldable pub prepare_next : ℕ → Option SigningKey → Option SigningKey → Action (Result Done)
    prepare_next t (some current) none =
        if ltb (current.created_at + r.rotation_interval) t then add_next t else pure (ok tt)
    prepare_next t _ _ = pure (ok tt)

    unfoldable pub rotate : Action (Result Done)
    rotate = do
      t ← now
      attempt "rotate list" list_signing_keys λ keys.
          attempt_step
            (promote t (last_with (has_status active) keys) (last_with (has_status next) keys))
            λ (current, upcoming).
              attempt_step (prepare_next t current upcoming) λ _. delete_expired_signing_keys
