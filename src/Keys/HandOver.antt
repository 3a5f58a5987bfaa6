-- ===== src/Keys/HandOver.antt =====
-- The hand-over from one signing key to the next (sidecar/internal/keys/rotator.go), with the key
-- retired before its successor is promoted.
use mcpbouncer.Prelude.{
  ℕ, ◌+◌, ◌≤◌, String, ◌≡◌, refl, ap, ◌⊎◌, inl, inr, Option-cases, Bool-cases, true, false, Option,
  some, List, ◌==◌, ◌<>◌, eq_iff, arith,
}
use mcpbouncer.Platform.{Platform}
use mcpbouncer.Action.{World, ret, ◌>>=◌, pure, attempt, exec, tick}
use mcpbouncer.Store.Rows.{
  KeyStatus, next, active, retiring, SigningKey, SigningKey-keyed, Db, ok, err, unix,
}
use mcpbouncer.Store.Table.{find, update, IsUnique, find-update, update-IsUnique}
use mcpbouncer.Store.Keys.{has_status, update_signing_key_status}
use mcpbouncer.Keys.{hour, Rotator, hand_over}
use mcpbouncer.Keys.Counts.{
  count, set, count-retired, count-promoted, next-retired, active-promoted,
}

-- At most one key signs, and at most one is ready to follow it.
pub record IsSettled (d : Db) : Type 0 where
  pub unique : IsUnique d.signing_keys
  pub one_active : count active d.signing_keys ≤ 1
  pub one_next : count next d.signing_keys ≤ 1

module _ ⦃p : Platform⦄ where
  -- A row's status is set, or SQLite fails and nothing is.
  updated :
      (i : String) (s : KeyStatus) (t : ℕ) (w : World)
      → ((e : String) × (update_signing_key_status i s t w ≡ (ret (err e), tick w)))
        ⊎ (update_signing_key_status i s t w ≡ (
          ret (ok tt),
          record (tick w) {
            db = record w.db { signing_keys = update i (set s (unix t)) w.db.signing_keys };
          },
        ))
  unfolding update_signing_key_status exec
  updated i s t w = elim (Option-cases (p.db_fault w.step)) [
    | inl e ↦ inr (rw (e, exec, update_signing_key_status) refl)
    | inr (cause, e) ↦
        inl
          ("UpdateSigningKeyStatus" <> ": " <> cause, rw (e, exec, update_signing_key_status) refl)
  ]

  -- One row has one status.
  apart_of :
      (i j : String) (ks : List SigningKey) {ki kj : SigningKey}
      → find i ks ≡ some ki
      → has_status active ki ≡ true
      → find j ks ≡ some kj
      → has_status next kj ≡ true
      → (i == j) ≡ false
  apart_of i j ks {ki} {kj} found a found' n = elim (Bool-cases (i == j)) [
    | inr e ↦ e
    | inl e ↦
        let same = ap (λ k. find k ks) ((eq_iff i j).0 e) in
        ground (arith, same, found, found', a, n)
  ]

  module _ (r : Rotator) where
    -- The key that signs is retired before the next one is promoted.
    pub hand_over-IsSettled :
        (t : ℕ) (old new : SigningKey) (w : World) {ko kn : SigningKey}
        → IsSettled w.db
        → find old.kid w.db.signing_keys ≡ some ko
        → has_status active ko ≡ true
        → find new.kid w.db.signing_keys ≡ some kn
        → has_status next kn ≡ true
        → IsSettled (hand_over r t old new w).1.db
          × ((kept : Option SigningKey × Option SigningKey) (w' : World)
              → hand_over r t old new w ≡ (ret (ok kept), w')
              → count next w'.db.signing_keys ≡ 0)
    unfolding hand_over attempt ◌>>=◌ pure
    hand_over-IsSettled t old new w {ko} {kn} h found is_active found' is_next =
        let ks = w.db.signing_keys in
        let late = unix (t + (r.max_token_ttl + hour)) in
        let ks1 = update old.kid (set retiring late) ks in
        let w1 = record (tick w) { db = record w.db { signing_keys = ks1 } } in
        let unique1 = update-IsUnique old.kid (set retiring late) (λ k _. refl) ks h.unique in
        let none_active = count-retired old.kid late ks {k = ko} h.unique found is_active in
        let few_next = next-retired old.kid late ks in
        let moved = find-update old.kid (set retiring late) (λ k _. refl) new.kid ks in
        let apart : (old.kid == new.kid) ≡ false =
          apart_of old.kid new.kid ks found is_active found' is_next in
        let found1 : find new.kid ks1 ≡ some kn = ground (arith, moved, apart, found') in
        let until = unix new.retires_at in
        let none_next = count-promoted new.kid until ks1 {k = kn} unique1 found1 is_next in
        let one = active-promoted new.kid until ks1 unique1 in
        let unique2 = update-IsUnique new.kid (set active until) (λ k _. refl) ks1 unique1 in
        let settled1 : IsSettled w1.db = record {
          unique = unique1;
          one_active = omega (arith, none_active, h.one_active);
          one_next = omega (arith, few_next, h.one_next);
        } in
        elim (updated old.kid retiring (t + (r.max_token_ttl + hour)) w) [
          | inl (e, eq) ↦ rw (eq, hand_over, attempt) (h, λ kept w' k. ground arith)
          | inr eq ↦ elim (updated new.kid active new.retires_at w1) [
            | inl (e, eq') ↦ rw (eq, eq', hand_over, attempt) (settled1, λ kept w' k. ground arith)
            | inr eq' ↦
                rw (eq, eq', hand_over, attempt)
                  (
                    record {
                      unique = unique2;
                      one_active = omega (arith, one, none_active, h.one_active);
                      one_next = omega (arith, none_next, few_next, h.one_next);
                    },
                    λ kept w' k. ground (arith, none_next, few_next, h.one_next),
                  )
          ]
        ]
