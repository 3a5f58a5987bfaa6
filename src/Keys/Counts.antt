-- ===== src/Keys/Counts.antt =====
-- How many signing keys have a status, under the statements that sidecar/internal/keys/rotator.go runs.
use mcpbouncer.Prelude.{
  ℕ, suc, ◌+◌, ◌≤◌, String, ◌≡◌, refl, sym, ◌∙◌, inl, inr, Option-cases, Bool-cases, Bool, true,
  none, some, List, [], ◌∷◌, ◌++◌, map, eq_iff, eq_refl, arith, if◌then◌else◌, keep,
}
use mcpbouncer.Store.Rows.{KeyStatus, next, active, retiring, SigningKey, SigningKey-keyed}
use mcpbouncer.Store.Table.{find, update, IsUnique}
use mcpbouncer.Store.Keys.{has_status, scan_signing_key}
use mcpbouncer.Keys.{last_with}

abbrev pub count : KeyStatus → List SigningKey → ℕ
count s [] = 0
count s (k ∷ ks) = (if has_status s k then 1 else 0) + count s ks

abbrev pub set : KeyStatus → ℕ → SigningKey → SigningKey
set s t k = record k { status = s; retires_at = t }

update-none :
    (i : String) (f : SigningKey → SigningKey) (ks : List SigningKey)
    → find i ks ≡ none
    → update i f ks ≡ ks
unfolding find update
update-none i f [] h = refl
update-none i f (k ∷ ks) h = ground (arith, update-none i f ks)

-- Once retired, a key that was active is counted no longer.
pub count-retired :
    (i : String) (t : ℕ) (ks : List SigningKey) {k : SigningKey}
    → IsUnique ks
    → find i ks ≡ some k
    → has_status active k ≡ true
    → suc (count active (update i (set retiring t) ks)) ≤ count active ks
unfolding find update
count-retired i t [] u h a = ground arith
count-retired i t (r ∷ ks) {k} (alone, u) h a =
    ground
      (arith, count-retired i t ks {k = k} u, update-none i (set retiring t) ks, eq_iff r.kid i)

-- Once promoted, a key that was next is counted no longer.
pub count-promoted :
    (i : String) (t : ℕ) (ks : List SigningKey) {k : SigningKey}
    → IsUnique ks
    → find i ks ≡ some k
    → has_status next k ≡ true
    → suc (count next (update i (set active t) ks)) ≤ count next ks
unfolding find update
count-promoted i t [] u h a = ground arith
count-promoted i t (r ∷ ks) {k} (alone, u) h a =
    ground (arith, count-promoted i t ks {k = k} u, update-none i (set active t) ks, eq_iff r.kid i)

pub next-retired :
    (i : String) (t : ℕ) (ks : List SigningKey)
    → count next (update i (set retiring t) ks) ≤ count next ks
unfolding update
next-retired i t [] = omega arith
next-retired i t (r ∷ ks) = ground (arith, next-retired i t ks)

pub active-promoted :
    (i : String) (t : ℕ) (ks : List SigningKey)
    → IsUnique ks
    → count active (update i (set active t) ks) ≤ suc (count active ks)
unfolding find update
active-promoted i t [] u = omega arith
active-promoted i t (r ∷ ks) (alone, u) =
    ground (arith, active-promoted i t ks u, update-none i (set active t) ks, eq_iff r.kid i)

pub count-append :
    (s : KeyStatus) (ks : List SigningKey) (k : SigningKey)
    → count s (ks ++ k ∷ []) ≡ count s ks + (if has_status s k then 1 else 0)
count-append s [] k = omega arith
count-append s (r ∷ ks) k = omega (arith, count-append s ks k)

pub count-keep :
    (s : KeyStatus) (p : SigningKey → Bool) (ks : List SigningKey)
    → count s (keep p ks) ≤ count s ks
count-keep s p [] = omega arith
count-keep s p (r ∷ ks) = ground (arith, count-keep s p ks)

scan-status : (s : KeyStatus) (k : SigningKey) → has_status s (scan_signing_key k) ≡ has_status s k
scan-status next k = refl
scan-status active k = refl
scan-status retiring k = refl

-- The key that the loop of `rotate` finds is a row with the status.
pub last_with-found :
    (s : KeyStatus) (ks : List SigningKey) {k : SigningKey}
    → IsUnique ks
    → last_with (has_status s) (map scan_signing_key ks) ≡ some k
    → (row : SigningKey) × (find k.kid ks ≡ some row) × (has_status s row ≡ true)
unfolding last_with find
last_with-found s [] u h = ground arith
last_with-found s (r ∷ ks) {k} (alone, u) h =
    elim (Option-cases (last_with (has_status s) (map scan_signing_key ks))) [
      | inr (l, e) ↦
          let (row, found, has) = last_with-found s ks u e in
          (row, ground (arith, found, e, eq_iff r.kid k.kid, alone), has)
      | inl e ↦ elim (Bool-cases (has_status s (scan_signing_key r))) [
        | inl e' ↦ (r, ground (arith, eq_refl r.kid, eq_refl k.kid), sym (scan-status s r) ∙ e')
        | inr e' ↦ ground arith
      ]
    ]

pub last_with-none :
    (s : KeyStatus) (ks : List SigningKey)
    → last_with (has_status s) (map scan_signing_key ks) ≡ none
    → count s ks ≡ 0
unfolding last_with
last_with-none s [] h = refl
last_with-none s (r ∷ ks) h =
    elim (Option-cases (last_with (has_status s) (map scan_signing_key ks))) [
      | inr (l, e) ↦ ground arith
      | inl e ↦ let rest = last_with-none s ks e in let same = scan-status s r in ground arith
    ]
