-- ===== src/Keys/Single.antt =====
-- The statuses of the signing keys under the rotation (sidecar/internal/keys/rotator.go).
use mcpbouncer.Prelude.{
  ℕ, suc, ◌+◌, ◌*◌, String, ◌≡◌, refl, sym, ap, ◌∙◌, inl, inr, Option-cases, Bool-cases, true,
  Option, none, some, List, [], ◌∷◌, ◌++◌, map, not, arith, ltb,
}
use mcpbouncer.Platform.{Platform}
use mcpbouncer.Action.{World, ret, ◌>>=◌, pure, attempt_step, now, query, exec, tick}
use mcpbouncer.Action.Keeps.{Keeps, Keeps-exec, Keeps-bind, Keeps-now, attempt-after, step-after}
use mcpbouncer.Store.Rows.{Bytes, next, active, SigningKey, SigningKey-keyed, Db, ok, unix}
use mcpbouncer.Store.Table.{find, insert, keep-IsUnique, insert-IsUnique}
use mcpbouncer.Store.Keys.{
  has_status, scan_signing_key, is_expired_key, insert_signing_key, list_signing_keys,
  delete_expired_signing_keys,
}
use mcpbouncer.Keys.{hour, Rotator, last_with, promote, add_next, prepare_next, rotate}
use mcpbouncer.Keys.HandOver.{IsSettled, hand_over-IsSettled}
use mcpbouncer.Keys.Counts.{count, count-append, count-keep, last_with-found, last_with-none}
use mcpbouncer.Store.Reads.{list_signing_keys-Keeps}
use mcpbouncer.As.Neutral.{generate_ed25519-Keeps}

module _ ⦃p : Platform⦄ where
  deleted-IsSettled : Keeps IsSettled delete_expired_signing_keys
  unfolding delete_expired_signing_keys
  deleted-IsSettled = Keeps-bind _ _ Keeps-now λ t. Keeps-exec _ _ λ d d' h e. ground (
    arith,
    keep-IsUnique (λ (k : SigningKey). not (is_expired_key (unix t) k)) d.signing_keys h.unique,
    count-keep active (λ (k : SigningKey). not (is_expired_key (unix t) k)) d.signing_keys,
    count-keep next (λ (k : SigningKey). not (is_expired_key (unix t) k)) d.signing_keys,
    h.one_active,
    h.one_next,
  )

  appended :
      (row : SigningKey) (ks : List SigningKey) {rows : List SigningKey}
      → insert row ks ≡ some rows
      → rows ≡ ks ++ row ∷ []
  unfolding insert
  appended row ks h = ground arith

  listed :
      (w : World) {keys : List SigningKey} {w' : World}
      → list_signing_keys w ≡ (ret (ok keys), w')
      → (keys ≡ map scan_signing_key w.db.signing_keys) × (w'.db ≡ w.db)
  unfolding list_signing_keys query
  listed w {keys} {w'} h = ground arith

  module _ (r : Rotator) where
    -- What the block that promotes the next key leaves: with no next key, none is stored.
    promote-IsSettled :
        (t : ℕ) (a b : Option SigningKey) (w : World)
        → IsSettled w.db
        → ((k : SigningKey)
            → a ≡ some k
            → (row : SigningKey) × (find k.kid w.db.signing_keys ≡ some row)
              × (has_status active row ≡ true))
        → ((k : SigningKey)
            → b ≡ some k
            → (row : SigningKey) × (find k.kid w.db.signing_keys ≡ some row)
              × (has_status next row ≡ true))
        → (b ≡ none → count next w.db.signing_keys ≡ 0)
        → IsSettled (promote r t a b w).1.db
          × ((c d : Option SigningKey) (w' : World)
              → promote r t a b w ≡ (ret (ok (c, d)), w')
              → d ≡ none
              → count next w'.db.signing_keys ≡ 0)
    unfolding promote pure
    promote-IsSettled t (some old) (some new) w h fa fb free =
        let (ko, found, is_active) = fa old refl in
        let (kn, found', is_next) = fb new refl in
        elim (Bool-cases (ltb (new.created_at + r.overlap) t)) [
          | inl e ↦
              let (s, f) =
                hand_over-IsSettled r t old new w {ko = ko} {kn = kn} h found is_active found'
                  is_next in
              rw (e, promote) (s, λ c d w' k n. f (c, d) w' k)
          | inr e ↦ rw (e, promote) (h, λ c d w' k n. ground arith)
        ]
    promote-IsSettled t none b w h fa fb free = (h, λ c d w' k n. ground (arith, free, k, n))
    promote-IsSettled t (some old) none w h fa fb free =
        (h, λ c d w' k n. ground (arith, free refl, k, n))

    inserted-IsSettled :
        (kid alg : String) (private_pem public_pem : Bytes) (t : ℕ) (w : World)
        → IsSettled w.db
        → count next w.db.signing_keys ≡ 0
        → IsSettled (insert_signing_key kid alg private_pem public_pem t next w).1.db
    unfolding insert_signing_key exec now ◌>>=◌
    inserted-IsSettled kid alg private_pem public_pem t w h free =
        let row : SigningKey = record {
          kid = kid;
          alg = alg;
          private_pem = private_pem;
          public_pem = public_pem;
          created_at = unix (p.clock w.step);
          retires_at = unix t;
          status = next;
        } in
        let ks = w.db.signing_keys in
        elim (Option-cases (p.db_fault (suc w.step))) [
          | inr (cause, e) ↦ rw (e, insert_signing_key, exec) h
          | inl e ↦ elim (Option-cases (insert row ks)) [
            | inl e' ↦ rw (e, insert_signing_key, exec, e') h
            | inr (rows, e') ↦
                rw (e, insert_signing_key, exec, e')
                  (record {
                    unique = insert-IsUnique row ks e' h.unique;
                    one_active =
                        rw (appended row ks e')
                          (omega (arith, count-append active ks row, h.one_active));
                    one_next =
                        rw (appended row ks e') (omega (arith, count-append next ks row, free));
                  })
          ]
        ]

    added :
        (t : ℕ) (w : World)
        → IsSettled w.db
        → count next w.db.signing_keys ≡ 0
        → IsSettled (add_next r t w).1.db
    unfolding add_next pure
    added t w h free =
        let gen = (generate_ed25519-Keeps {P = IsSettled}).at w h in
        let still = (generate_ed25519-Keeps {P = λ d. count next d.signing_keys ≡ 0}).at w free in
        attempt-after IsSettled _ _ _ w gen λ key e.
          let put =
            inserted-IsSettled key.2 "EdDSA" key.0 key.1
              (t + (r.rotation_interval + r.max_token_ttl + 48 * hour)) _ gen still in
          attempt-after IsSettled _ _ _ _ put λ d e'. put

    prepare_next-IsSettled :
        (t : ℕ) (a b : Option SigningKey) (w : World)
        → IsSettled w.db
        → (b ≡ none → count next w.db.signing_keys ≡ 0)
        → IsSettled (prepare_next r t a b w).1.db
    unfolding prepare_next add_next pure
    prepare_next-IsSettled t (some current) none w h free =
        elim (Bool-cases (ltb (current.created_at + r.rotation_interval) t)) [
          | inr e ↦ rw (e, prepare_next) h
          | inl e ↦ rw (e, prepare_next) (added t w h (free refl))
        ]
    prepare_next-IsSettled t (some current) (some k) w h free = h
    prepare_next-IsSettled t none b w h free = h

    -- The two blocks and the DELETE, on the keys that the database holds.
    decided :
        (t : ℕ) (keys : List SigningKey) (w : World)
        → IsSettled w.db
        → keys ≡ map scan_signing_key w.db.signing_keys
        → let a = last_with (has_status active) keys in
          let b = last_with (has_status next) keys in
          IsSettled
            (attempt_step
              (promote r t a b)
              (λ left.
                attempt_step (prepare_next r t left.0 left.1) (λ d. delete_expired_signing_keys))
              w).1.db
    decided t keys w h all =
        let ks = w.db.signing_keys in
        let (s, f) =
          promote-IsSettled t (last_with (has_status active) keys)
            (last_with (has_status next) keys) w h
            (λ k e.
              last_with-found active ks h.unique (ap (last_with (has_status active)) (sym all) ∙ e))
            (λ k e.
              last_with-found next ks h.unique (ap (last_with (has_status next)) (sym all) ∙ e))
            (λ e. last_with-none next ks (ap (last_with (has_status next)) (sym all) ∙ e)) in
        step-after IsSettled _ _ w s λ (c, d) e.
          let more = prepare_next-IsSettled t c d _ s (f c d _ e) in
          step-after IsSettled _ _ _ more λ x e'. deleted-IsSettled.at _ more

    -- The rotation keeps at most one active key and at most one next key, and one row for a key id,
    -- whatever statements or calls fail.
    pub rotate-IsSettled : (w : World) → IsSettled w.db → IsSettled (rotate r w).1.db
    unfolding rotate now ◌>>=◌
    rotate-IsSettled w h =
        let w0 = tick w in
        let kept = (list_signing_keys-Keeps {P = IsSettled}).at w0 h in
        attempt-after IsSettled _ list_signing_keys _ w0 kept λ keys e.
          let (all, same) = listed w0 e in
          decided (p.clock w.step) keys (list_signing_keys w0).1 kept
            (all ∙ ap (λ (d : Db). map scan_signing_key d.signing_keys) (sym same))
