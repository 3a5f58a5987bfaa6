-- ===== src/Crypto/RoundTrip.antt =====
-- Sealed values of sidecar/internal/crypto/aesgcm.go are opened again, under the key that sealed them.
use mcpbouncer.Prelude.{
  ℕ, ◌%◌, ◌≤◌, String, ◌≡◌, ap, ◌∙◌, refl, ◌∙◌, inl, inr, true, some, Option-cases, List, ◌++◌,
  arith, Bool-cases, length, take, drop, length-append, take-append, drop-append,
}
use mcpbouncer.Platform.{Platform}
use mcpbouncer.Action.{World, ret, read_random, on_option, attempt, pure, ◌>>=◌}
use mcpbouncer.Store.Rows.{Bytes, Result, ok, Result-cases}
use mcpbouncer.Crypto.{
  Cipher, nonce_size, is_key_id, key_of, header, parse_body, parse_versioned, encrypt_with, encrypt,
  wrap, decrypt,
}

take-append_ge {ℓ} : {A : Type ℓ} (n : ℕ) (xs ys : List A) → length xs ≡ n → take n (xs ++ ys) ≡ xs
take-append_ge n xs ys h = rw (← h) (take-append xs ys)

drop-append_ge {ℓ} : {A : Type ℓ} (n : ℕ) (xs ys : List A) → length xs ≡ n → drop n (xs ++ ys) ≡ ys
drop-append_ge n xs ys h = rw (← h) (drop-append xs ys)

key_id-length : (id : Bytes) → is_key_id id ≡ true → (1 ≤ length id) × (length id ≤ 63)
unfolding is_key_id
key_id-length id h = ground arith

module _ ⦃p : Platform⦄ where
  parse_body-header :
      (id : String) (nonce ct : Bytes)
      → is_key_id (p.utf8 id) ≡ true
      → p.text (p.utf8 id) ≡ id
      → length nonce ≡ nonce_size
      → parse_body (length (p.utf8 id)) (p.utf8 id ++ (nonce ++ ct)) ≡ some (id, nonce, ct)
  unfolding parse_body
  parse_body-header id nonce ct valid same sized =
      let bytes = p.utf8 id in
      let (low, high) = key_id-length bytes valid in
      let size = length-append bytes (nonce ++ ct) in
      let rest = length-append nonce ct in
      rw
        (
          take-append bytes (nonce ++ ct),
          drop-append bytes (nonce ++ ct),
          same,
          valid,
          take-append_ge nonce_size nonce ct sized,
          drop-append_ge nonce_size nonce ct sized,
        )
        (ground (arith, low, high, size, rest, sized))

  parse_versioned-header :
      (id : String) (nonce ct : Bytes)
      → is_key_id (p.utf8 id) ≡ true
      → p.text (p.utf8 id) ≡ id
      → length nonce ≡ nonce_size
      → parse_versioned (header (p.utf8 id) ++ (nonce ++ ct)) ≡ some (id, nonce, ct)
  unfolding parse_versioned header
  parse_versioned-header id nonce ct valid same sized =
      let (low, high) = key_id-length (p.utf8 id) valid in
      let small : length (p.utf8 id) % 256 ≡ length (p.utf8 id) = omega (arith, high) in
      rw small (parse_body-header id nonce ct valid same sized)

  encrypt_with-seals :
      (id : String) (plaintext key : Bytes) (w : World) {blob : Bytes} {w' : World}
      → encrypt_with id plaintext key w ≡ (ret (ok blob), w')
      → (is_key_id (p.utf8 id) ≡ true)
        × (nonce : Bytes) × (p.random w.step nonce_size ≡ ok nonce)
        × (blob ≡ header (p.utf8 id) ++ (nonce ++ p.gcm_seal key nonce plaintext))
  unfolding encrypt_with attempt read_random ◌>>=◌ pure
  encrypt_with-seals id plaintext key w {blob} {w'} h = elim (Bool-cases (is_key_id (p.utf8 id))) [
    | inr e ↦ ground arith
    | inl e ↦ elim (Result-cases (p.random w.step nonce_size)) [
      | inl (nonce, e') ↦ (e, nonce, e', ground arith)
      | inr (e', e'') ↦ ground arith
    ]
  ]

  encrypt-seals :
      (c : Cipher) (plaintext : Bytes) (w : World) {blob : Bytes} {w' : World}
      → encrypt c plaintext w ≡ (ret (ok blob), w')
      → (key : Bytes) × (key_of c.active_id c.keys ≡ some key)
        × (encrypt_with c.active_id plaintext key w ≡ (ret (ok blob), w'))
  unfolding encrypt on_option pure
  encrypt-seals c plaintext w {blob} {w'} h = elim (Option-cases (key_of c.active_id c.keys)) [
    | inl e ↦ ground arith
    | inr (key, e) ↦ (key, e, ground arith)
  ]

  wrap-ok : (name : String) (r : Result Bytes) (b : Bytes) → r ≡ ok b → wrap name r ≡ ok b
  unfolding wrap
  wrap-ok name r b h = rw h refl

  opens :
      (c : Cipher) (id : String) (nonce ct blob key : Bytes) {plaintext : Bytes}
      → parse_versioned blob ≡ some (id, nonce, ct)
      → key_of id c.keys ≡ some key
      → p.gcm_open key nonce ct ≡ ok plaintext
      → decrypt c blob ≡ ok plaintext
  unfolding decrypt
  opens c id nonce ct blob key {plaintext} parsed held opened =
      rw (parsed, held, decrypt) (wrap-ok "Decrypt versioned" _ plaintext opened)

  -- What one cipher seals, every cipher that holds the sealing key under its id opens, to the same
  -- bytes: so also once another key has become the active one. The active key's
  -- id is the text of its bytes, the random source fills its buffer, and AES-GCM opens what it seals.
  pub decrypt-encrypt :
      (c c' : Cipher) (plaintext : Bytes) (w : World) {blob : Bytes} {w' : World}
      → ((n k : ℕ) (b : Bytes) → p.random n k ≡ ok b → length b ≡ k)
      → ((k n b : Bytes) → p.gcm_open k n (p.gcm_seal k n b) ≡ ok b)
      → p.text (p.utf8 c.active_id) ≡ c.active_id
      → key_of c.active_id c'.keys ≡ key_of c.active_id c.keys
      → encrypt c plaintext w ≡ (ret (ok blob), w')
      → decrypt c' blob ≡ ok plaintext
  decrypt-encrypt c c' plaintext w {blob} {w'} filled opened text_utf8 held h =
      let (key, found, sealed) = encrypt-seals c plaintext w {blob = blob} {w' = w'} h in
      let (valid, nonce, drawn, made) =
        encrypt_with-seals c.active_id plaintext key w {blob = blob} {w' = w'} sealed in
      let parsed =
        parse_versioned-header c.active_id nonce (p.gcm_seal key nonce plaintext) valid text_utf8
          (filled w.step nonce_size nonce drawn) in
      opens c' c.active_id nonce (p.gcm_seal key nonce plaintext) blob key {plaintext = plaintext}
        (ap parse_versioned made ∙ parsed) (held ∙ found) (opened key nonce plaintext)
