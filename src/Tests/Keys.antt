-- ===== src/Tests/Keys.antt =====
-- Runs of the cipher and of the rotation.
use mcpbouncer.Prelude.{ℕ, String, ◌≡◌, refl, some, [], ◌∷◌, length, arith}
use mcpbouncer.Action.{attempt, pure, read_random, on_option, ◌>>=◌}
use mcpbouncer.Store.Rows.{Bytes, ok, EncryptionKey, EncryptionKey-keyed}
use mcpbouncer.Store.Table.{find}
use mcpbouncer.Crypto.{
  Cipher, is_key_id_byte, all_key_id_bytes, is_key_id, key_of, header, encrypt_with, encrypt,
  decrypt, load_rows, require_active, load_cipher,
}
use mcpbouncer.Crypto.RoundTrip.{decrypt-encrypt}
use mcpbouncer.Crypto.Loading.{IsActive, load_cipher-IsActive}
use mcpbouncer.Keys.{rotate}
use mcpbouncer.Keys.HandOver.{IsSettled}
use mcpbouncer.Keys.Single.{rotate-IsSettled}
use mcpbouncer.Tests.World.{
  test_issuer, test_platform, test_world, test_cipher, times, times-length,
}

-- The key `k1` is still held, and another one is active.
abbrev rotated_cipher : Cipher
rotated_cipher = record test_cipher {
  keys = ("k2", times 32 2) ∷ test_cipher.keys;
  active_id = "k2";
}

filled : (n k : ℕ) (b : Bytes) → test_platform.random n k ≡ ok b → length b ≡ k
filled n k b h = ground (arith, times-length k n)

abbrev row : String → String → ℕ → EncryptionKey
row id status n = record { key_id = id; material = times 32 n; status = status; created_at = 1 }

-- What the cipher seals in the world of the tests: the header, twelve zeros, and the text as it is.
abbrev sealed : Bytes
sealed = 0xC1 ∷ 0x70 ∷ 2 ∷ b'k' ∷ b'1' ∷ 0 ∷ 0 ∷ 0 ∷ 0 ∷ 0 ∷ 0 ∷ 0 ∷ 0 ∷ 0 ∷ 0 ∷ 0 ∷ 0 ∷ 5 ∷ 6 ∷ []

sealed_example : decrypt rotated_cipher sealed ≡ ok (5 ∷ 6 ∷ [])
unfolding encrypt encrypt_with attempt pure read_random on_option ◌>>=◌ key_of is_key_id
    all_key_id_bytes is_key_id_byte header
sealed_example =
    decrypt-encrypt test_cipher rotated_cipher (5 ∷ 6 ∷ []) test_world filled (λ k n b. refl) refl
      refl refl

loaded_example :
    IsActive (row "k1" "retired" 1 ∷ row "k2" "active" 2 ∷ []) "k2"
    × ((i : String) (r : EncryptionKey)
        → find i (row "k1" "retired" 1 ∷ row "k2" "active" 2 ∷ []) ≡ some r
        → key_of i (("k2", times 32 2) ∷ ("k1", times 32 1) ∷ []) ≡ some r.material)
unfolding load_cipher require_active load_rows is_key_id all_key_id_bytes is_key_id_byte find key_of
loaded_example =
    load_cipher-IsActive [] (row "k1" "retired" 1 ∷ row "k2" "active" 2 ∷ []) refl
      (refl, (refl, tt)) refl

rotated_example : IsSettled (rotate test_issuer.rotator test_world).1.db
unfolding find
rotated_example =
    rotate-IsSettled test_issuer.rotator test_world
      (record { unique = (refl, tt); one_active = omega arith; one_next = omega arith })
