-- ===== src/Crypto.antt =====
-- sidecar/internal/crypto/aesgcm.go: AES-256-GCM with versioned keys. A cipher holds the material of
-- each key in the place of Go's AEAD value; sealing and opening at a key are the platform's.
pub mod RoundTrip
pub mod Loading
use mcpbouncer.Prelude.{
  ℕ, ◌+◌, ◌%◌, String, Bool, true, not, ◌&&◌, ◌||◌, Option, none, some, List, [], ◌∷◌, ◌++◌, ◌==◌,
  ◌<>◌, nat_beq, leb, ltb, length, take, drop, if◌then◌else◌,
}
use mcpbouncer.Platform.{Platform}
use mcpbouncer.Action.{on_option, Action, ◌>>=◌, pure, attempt, attempt_pure, now, read_random}
use mcpbouncer.Store.Rows.{Bytes, Result, ok, err, EncryptionKey}
use mcpbouncer.Store.Keys.{list_encryption_keys, insert_encryption_key}

abbrev pub nonce_size : ℕ
nonce_size = 12

abbrev pub bootstrap_key_id : String
bootstrap_key_id = "k1"

pub record Cipher : Type 0 where
  pub keys : List (String × Bytes)
  pub active_id : String
  pub legacy : Option Bytes

-- [A-Za-z0-9_-]
unfoldable pub is_key_id_byte : ℕ → Bool
is_key_id_byte c =
    (leb b'A' c && leb c b'Z')
    || (leb b'a' c && leb c b'z')
    || (leb b'0' c && leb c b'9')
    || nat_beq c b'_'
    || nat_beq c b'-'

unfoldable pub all_key_id_bytes : Bytes → Bool
all_key_id_bytes [] = true
all_key_id_bytes (c ∷ cs) = is_key_id_byte c && all_key_id_bytes cs

-- keyIDPattern, on the bytes of a text.
unfoldable pub is_key_id : Bytes → Bool
is_key_id b = leb 1 (length b) && leb (length b) 63 && all_key_id_bytes b

-- c.keys[id]
unfoldable pub key_of : String → List (String × Bytes) → Option Bytes
key_of id [] = none
key_of id ((j, k) ∷ ks) = if j == id then some k else key_of id ks

-- magic(2) || key_id_len(1) || key_id
unfoldable pub header : Bytes → Bytes
header id = 0xC1 ∷ 0x70 ∷ (length id % 256) ∷ id

unfoldable check_material : Bytes → Result Bytes
check_material key = if nat_beq (length key) 32 then ok key else err "key must be 32 bytes"

-- The loop over the base64 flavours: the first that decodes decides.
unfoldable decode_first : List (String → Result Bytes) → String → Result Bytes
unfolding check_material
decode_first [] s = err "decode key"
decode_first (d ∷ ds) s = elim (d s) [ ok key ↦ check_material key | err e ↦ decode_first ds s ]

-- The state of the loop over the rows of encryption_keys.
abbrev load_row :
    (String → Bytes) → Cipher → EncryptionKey → (Cipher → Result Cipher) → Result Cipher
load_row utf8 c row rest =
    if not (is_key_id (utf8 row.key_id))
    then err "NewCipherWithStore: invalid key_id in DB"
    else if not (nat_beq (length row.material) 32)
    then err "NewCipherWithStore load: key must be 32 bytes"
    else let loaded = record c { keys = (row.key_id, row.material) ∷ c.keys } in
      if row.status == "active"
      then if c.active_id == ""
        then rest (record loaded { active_id = row.key_id })
        else err "NewCipherWithStore: multiple active keys"
      else rest loaded

module _ ⦃p : Platform⦄ where
  unfoldable pub decode_key_material : String → Result Bytes
  unfolding decode_first
  decode_key_material s = decode_first p.base64_decoders (p.trim_space s)

  -- The constructor without a database.
  unfoldable pub new_cipher : String → Result Cipher
  unfolding decode_key_material
  new_cipher s = elim (decode_key_material s) [
    | err e ↦ err e
    | ok key ↦ ok (record {
      keys = (bootstrap_key_id, key) ∷ [];
      active_id = bootstrap_key_id;
      legacy = some key;
    })
  ]

  -- A failure of the random source panics.
  unfoldable pub random_key : Action (Result String)
  random_key = do
    key ← read_random 32
    pure (elim key [ ok b ↦ ok (p.base64_std b) | err e ↦ err e ])

  unfoldable pub load_rows : List EncryptionKey → Cipher → Result Cipher
  load_rows [] c = ok c
  load_rows (row ∷ rows) c = load_row p.utf8 c row (λ c'. load_rows rows c')

  -- The check behind the loop.
  unfoldable pub require_active : Result Cipher → Result Cipher
  require_active (err e) = err e
  require_active (ok c) =
      if c.active_id == "" then err "NewCipherWithStore: no active key" else ok c

  unfoldable seed : Bytes → Action (Result Cipher)
  seed material = do
    t ← now
    attempt "NewCipherWithStore seed"
        (insert_encryption_key (record {
          key_id = bootstrap_key_id;
          material = material;
          status = "active";
          created_at = t;
        }))
        λ _. pure (
          ok (record {
            keys = (bootstrap_key_id, material) ∷ [];
            active_id = bootstrap_key_id;
            legacy = some material;
          }))

  -- The cipher of rows that are already there.
  unfoldable pub load_cipher : Bytes → List EncryptionKey → Result Cipher
  load_cipher legacy rows =
      require_active (load_rows rows (record { keys = []; active_id = ""; legacy = some legacy }))

  unfoldable pub seed_or_load : Bytes → List EncryptionKey → Action (Result Cipher)
  unfolding seed
  seed_or_load legacy [] = seed legacy
  seed_or_load legacy (row ∷ rows) = pure (load_cipher legacy (row ∷ rows))

  unfoldable pub new_cipher_with_store : String → Action (Result Cipher)
  new_cipher_with_store bootstrap_key =
      attempt_pure "NewCipherWithStore bootstrap" (decode_key_material bootstrap_key)
        λ legacy. attempt "NewCipherWithStore list" list_encryption_keys (seed_or_load legacy)

  unfoldable pub encrypt_with : String → Bytes → Bytes → Action (Result Bytes)
  encrypt_with id plaintext key =
      if not (is_key_id (p.utf8 id))
      then pure (err "Encrypt: invalid active key_id")
      else attempt "Encrypt nonce" (read_random nonce_size)
          λ nonce. pure (ok (header (p.utf8 id) ++ (nonce ++ p.gcm_seal key nonce plaintext)))

  unfoldable pub encrypt : Cipher → Bytes → Action (Result Bytes)
  encrypt c plaintext =
      on_option (key_of c.active_id c.keys) (encrypt_with c.active_id plaintext)
        (pure (err "Encrypt: no active key"))

  -- The part of `parseVersioned` behind the magic: the length byte and what follows it.
  unfoldable pub parse_body : ℕ → Bytes → Option (String × Bytes × Bytes)
  parse_body id_len rest =
      if ltb id_len 1 || ltb 63 id_len
      then none
      else if ltb (length rest) (id_len + nonce_size)
      then none
      else let id = p.text (take id_len rest) in
        if is_key_id (p.utf8 id)
        then some (id, take nonce_size (drop id_len rest), drop nonce_size (drop id_len rest))
        else none

  -- The key id, the nonce and the sealed bytes of a versioned ciphertext.
  unfoldable pub parse_versioned : Bytes → Option (String × Bytes × Bytes)
  unfolding parse_body
  parse_versioned (m0 ∷ m1 ∷ id_len ∷ rest) =
      if nat_beq m0 0xC1 && nat_beq m1 0x70 then parse_body id_len rest else none
  parse_versioned _ = none

  unfoldable pub wrap : String → Result Bytes → Result Bytes
  wrap name (ok b) = ok b
  wrap name (err e) = err (name <> ": " <> e)

  unfoldable pub decrypt_legacy : Option Bytes → Bytes → Result Bytes
  decrypt_legacy none blob = err "Decrypt: no legacy key available"
  decrypt_legacy (some key) blob =
      if ltb (length blob) nonce_size
      then err "Decrypt legacy: blob too short"
      else wrap "Decrypt legacy" (p.gcm_open key (take nonce_size blob) (drop nonce_size blob))

  unfoldable pub decrypt : Cipher → Bytes → Result Bytes
  unfolding wrap decrypt_legacy
  decrypt c blob = elim (parse_versioned blob) [
    | none ↦ decrypt_legacy c.legacy blob
    | some (id, nonce, ct) ↦ elim (key_of id c.keys) [
      | none ↦ err "Decrypt: unknown key_id"
      | some key ↦ wrap "Decrypt versioned" (p.gcm_open key nonce ct)
    ]
  ]
