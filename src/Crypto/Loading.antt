-- ===== src/Crypto/Loading.antt =====
-- The keys that newCipherWithStore of sidecar/internal/crypto/aesgcm.go loads from the database.
use mcpbouncer.Prelude.{
  String, ◌≡◌, refl, ap, ◌∙◌, inl, inr, true, false, none, some, List, [], ◌∷◌, ◌==◌, eq_iff,
  eq_refl, arith, Bool-cases,
}
use mcpbouncer.Platform.{Platform}
use mcpbouncer.Store.Rows.{Bytes, ok, Result-cases, EncryptionKey, EncryptionKey-keyed}
use mcpbouncer.Store.Table.{find, IsUnique}
use mcpbouncer.Crypto.{Cipher, is_key_id, key_of, load_rows, require_active, load_cipher}

module _ ⦃p : Platform⦄ where
  -- A key of no row stays as it is.
  key_of-others :
      (rows : List EncryptionKey) (c : Cipher) (i : String) {c' : Cipher}
      → load_rows rows c ≡ ok c'
      → find i rows ≡ none
      → key_of i c'.keys ≡ key_of i c.keys
  unfolding load_rows key_of find
  key_of-others [] c i h fresh = ground arith
  key_of-others (row ∷ rows) c i {c'} h fresh =
      let c1 : Cipher = record c { keys = (row.key_id, row.material) ∷ c.keys } in
      let c2 : Cipher = record c1 { active_id = row.key_id } in
      ground (
        arith,
        key_of-others rows c1 i {c' = c'},
        key_of-others rows c2 i {c' = c'},
        eq_iff row.key_id i,
      )

  key_of-loaded :
      (rows : List EncryptionKey) (c : Cipher) (i : String) {row : EncryptionKey} {c' : Cipher}
      → load_rows rows c ≡ ok c'
      → IsUnique rows
      → find i rows ≡ some row
      → key_of i c'.keys ≡ some row.material
  unfolding load_rows key_of find
  key_of-loaded [] c i h u found = ground arith
  key_of-loaded (r ∷ rows) c i {row} {c'} h (alone, u) found =
      let c1 : Cipher = record c { keys = (r.key_id, r.material) ∷ c.keys } in
      let c2 : Cipher = record c1 { active_id = r.key_id } in
      ground (
        arith,
        key_of-loaded rows c1 i {row = row} {c' = c'},
        key_of-loaded rows c2 i {row = row} {c' = c'},
        key_of-others rows c1 i {c' = c'},
        key_of-others rows c2 i {c' = c'},
        u,
        alone,
        eq_iff r.key_id i,
        eq_refl i,
      )

  named-key : (id : String) → p.utf8 "" ≡ [] → is_key_id (p.utf8 id) ≡ true → (id == "") ≡ false
  unfolding is_key_id
  named-key id blank valid = elim (Bool-cases (id == "")) [
    | inr e ↦ e
    | inl e ↦
        let bytes : p.utf8 id ≡ [] = ap p.utf8 ((eq_iff id "").0 e) ∙ blank in ground (arith, bytes)
  ]

  -- Once a key is active, no further row is.
  active-last :
      (rows : List EncryptionKey) (c : Cipher) {c' : Cipher}
      → load_rows rows c ≡ ok c'
      → (c.active_id == "") ≡ false
      → (c'.active_id ≡ c.active_id)
        × ((i : String) (row : EncryptionKey)
            → find i rows ≡ some row
            → (row.status == "active") ≡ false)
  unfolding load_rows find
  active-last [] c h set = ground arith
  active-last (r ∷ rows) c {c'} h set =
      let c1 : Cipher = record c { keys = (r.key_id, r.material) ∷ c.keys } in
      elim (Bool-cases (r.status == "active")) [
        | inl e ↦ ground arith
        | inr e ↦
            let (same, none_else) = active-last rows c1 {c' = c'} (ground arith) set in
            (same, λ i row found. ground (arith, none_else i row))
      ]

  -- The active key is that of the one row with the status "active".
  pub record IsActive (rows : List EncryptionKey) (id : String) : Type 0 where
    pub row : EncryptionKey
    pub stored : find id rows ≡ some row
    pub active : (row.status == "active") ≡ true
    pub only :
        (i : String) (other : EncryptionKey)
        → find i rows ≡ some other
        → (other.status == "active") ≡ true
        → i ≡ id

  the_first :
      (r : EncryptionKey) (rows : List EncryptionKey) (c : Cipher) {c' : Cipher}
      → load_rows (r ∷ rows) c ≡ ok c'
      → (r.status == "active") ≡ true
      → (c.active_id == "") ≡ true
      → (is_key_id (p.utf8 r.key_id) ≡ true)
        × (load_rows rows
              (record c { keys = (r.key_id, r.material) ∷ c.keys; active_id = r.key_id })
            ≡ ok c')
  unfolding load_rows
  the_first r rows c {c'} h e unset = ground arith

  IsActive-found :
      (rows : List EncryptionKey) (c : Cipher) {c' : Cipher}
      → p.utf8 "" ≡ []
      → IsUnique rows
      → load_rows rows c ≡ ok c'
      → (c.active_id == "") ≡ true
      → (c'.active_id == "") ≡ false
      → IsActive rows c'.active_id
  unfolding load_rows find
  IsActive-found [] c blank u h unset set = ground arith
  IsActive-found (r ∷ rows) c {c'} blank (alone, u) h unset set =
      let c1 : Cipher = record c { keys = (r.key_id, r.material) ∷ c.keys } in
      let c2 : Cipher = record c1 { active_id = r.key_id } in
      elim (Bool-cases (r.status == "active")) [
        | inl e ↦
            let (valid, rest) = the_first r rows c {c' = c'} h e unset in
            let (same, none_else) =
              active-last rows c2 {c' = c'} rest (named-key r.key_id blank valid) in
            record {
              row = r;
              stored = ground (arith, same, eq_refl r.key_id);
              active = e;
              only = λ i other found on. ground (arith, none_else i other, eq_iff r.key_id i, same);
            }
        | inr e ↦
            let loaded = IsActive-found rows c1 {c' = c'} blank u (ground arith) unset set in
            let ids = eq_iff r.key_id c'.active_id in
            let found = loaded.stored in
            record {
              row = loaded.row;
              stored = ground (arith, ids, found, alone);
              active = loaded.active;
              only = λ i other at on. ground (arith, loaded.only i other, eq_iff r.key_id i);
            }
      ]

  -- A cipher that is loaded from rows with distinct ids holds the material of every row under the
  -- row's id, and seals with the key of the one row that is active. The empty text has no bytes.
  pub load_cipher-IsActive :
      (legacy : Bytes) (rows : List EncryptionKey) {c : Cipher}
      → p.utf8 "" ≡ []
      → IsUnique rows
      → load_cipher legacy rows ≡ ok c
      → IsActive rows c.active_id
        × ((i : String) (row : EncryptionKey)
            → find i rows ≡ some row
            → key_of i c.keys ≡ some row.material)
  unfolding load_cipher require_active
  load_cipher-IsActive legacy rows {c} blank u h =
      let c0 : Cipher = record { keys = []; active_id = ""; legacy = some legacy } in
      elim (Result-cases (load_rows rows c0)) [
        | inr (e, e') ↦ ground arith
        | inl (c', e) ↦
            let same : (c ≡ c') × ((c'.active_id == "") ≡ false) = ground arith in
            rw (same.0) (
              IsActive-found rows c0 {c' = c'} blank u e refl same.1,
              λ i row found. key_of-loaded rows c0 i {row = row} {c' = c'} e u found,
            )
      ]
