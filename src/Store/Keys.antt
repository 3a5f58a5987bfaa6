-- ===== src/Store/Keys.antt =====
-- sidecar/internal/store/repos.go: the tables signing_keys and encryption_keys. The column `status`
-- of signing_keys has the CHECK of sqlite.go as its type.
use mcpbouncer.Prelude.{
  ℕ, Done, String, Bool, true, false, Option, some, List, not, ◌&&◌, leb, nat_beq, if◌then◌else◌,
  keep, map, first_with,
}
use mathlib.Core.Option
use mcpbouncer.Platform.{Platform}
use mcpbouncer.Action.{Action, ◌>>=◌, now, query, exec}
use mcpbouncer.Store.Table.{insert, update}
use mcpbouncer.Store.Rows.{
  Bytes, Result, KeyStatus, next, active, retiring, SigningKey, EncryptionKey, unix, from_unix,
  SigningKey-keyed, EncryptionKey-keyed,
}

abbrev pub has_status : KeyStatus → SigningKey → Bool
has_status next k = elim k.status [ next ↦ true | _ ↦ false ]
has_status active k = elim k.status [ next ↦ false | active ↦ true | _ ↦ false ]
has_status retiring k = elim k.status [ next ↦ false | active ↦ false | retiring ↦ true ]

-- The scan of a row.
abbrev pub scan_signing_key : SigningKey → SigningKey
scan_signing_key k = record k {
  created_at = from_unix k.created_at;
  retires_at = from_unix k.retires_at;
}

abbrev pub scan_encryption_key : EncryptionKey → EncryptionKey
scan_encryption_key k = record k { created_at = from_unix k.created_at }

-- What the DELETE of `DeleteExpiredSigningKeys` removes.
abbrev pub is_expired_key : ℕ → SigningKey → Bool
is_expired_key at k = has_status retiring k && leb k.retires_at at

module _ ⦃p : Platform⦄ where
  unfoldable pub insert_signing_key :
      String → String → Bytes → Bytes → ℕ → KeyStatus → Action (Result Done)
  unfolding unix
  insert_signing_key kid alg private_pem public_pem retires_at status = do
    t ← now
    exec "InsertSigningKey" λ d.
        Option.map (λ rows. record d { signing_keys = rows })
          (insert
            (record {
              kid = kid;
              alg = alg;
              private_pem = private_pem;
              public_pem = public_pem;
              created_at = unix t;
              retires_at = unix retires_at;
              status = status;
            })
            d.signing_keys)

  unfoldable pub list_signing_keys : Action (Result (List SigningKey))
  list_signing_keys = query "ListSigningKeys" λ d. map scan_signing_key d.signing_keys

  unfoldable pub get_active_signing_key : Action (Result (Option SigningKey))
  get_active_signing_key =
      query "GetActiveSigningKey"
        λ d. Option.map scan_signing_key (first_with (has_status active) d.signing_keys)

  unfoldable pub update_signing_key_status : String → KeyStatus → ℕ → Action (Result Done)
  update_signing_key_status kid status retires_at = exec "UpdateSigningKeyStatus" λ d.
      some (record d {
        signing_keys =
            update kid (λ k. record k { status = status; retires_at = unix retires_at })
              d.signing_keys;
      })

  unfoldable pub delete_expired_signing_keys : Action (Result Done)
  delete_expired_signing_keys = do
    t ← now
    exec "DeleteExpiredSigningKeys" λ d.
        some
          (record d { signing_keys = keep (λ k. not (is_expired_key (unix t) k)) d.signing_keys })

  unfoldable pub list_encryption_keys : Action (Result (List EncryptionKey))
  list_encryption_keys = query "ListEncryptionKeys" λ d. map scan_encryption_key d.encryption_keys

  -- A `created_at` of 0 stands for the zero time, in the place of which the insert puts the clock.
  unfoldable pub insert_encryption_key : EncryptionKey → Action (Result Done)
  insert_encryption_key k = do
    t ← now
    exec "InsertEncryptionKey" λ d.
        Option.map (λ rows. record d { encryption_keys = rows })
          (insert
            (record k { created_at = unix (if nat_beq k.created_at 0 then t else k.created_at) })
            d.encryption_keys)

  unfoldable pub set_encryption_key_status : String → String → Action (Result Done)
  set_encryption_key_status key_id status = exec "SetEncryptionKeyStatus" λ d. some (record d {
    encryption_keys = update key_id (λ k. record k { status = status }) d.encryption_keys;
  })
