-- ===== src/Store/Table.antt =====
-- A table of the SQLite database (sidecar/internal/store): a list of rows in the order of their
-- insertion, with a primary key. The statements of repos.go are these operations on one table.
use mcpbouncer.Prelude.{
  String, ◌≡◌, refl, Bool, false, not, Option, none, some, List, [], ◌∷◌, ◌++◌, arith, ◌==◌, eq_iff,
  eq_refl, if◌then◌else◌, keep,
}

-- What stands for a row's primary key.
pub record Keyed {ℓ} (R : Type ℓ) : Type ℓ where
  pub key : R → String

module _ {ℓ} {R : Type ℓ} ⦃k : Keyed R⦄ where
  -- SELECT ... WHERE pk = ?
  unfoldable pub find : String → List R → Option R
  find i [] = none
  find i (r ∷ rs) = if k.key r == i then some r else find i rs

  -- INSERT: none stands for a violation of the primary key.
  unfoldable pub insert : R → List R → Option (List R)
  unfolding find
  insert r rs = elim (find (k.key r) rs) [ none ↦ some (rs ++ r ∷ []) | some _ ↦ none ]

  -- DELETE ... WHERE pk = ?
  unfoldable pub remove : String → List R → List R
  remove i rs = keep (λ r. not (k.key r == i)) rs

  -- UPDATE ... WHERE pk = ?, with a change that leaves the key alone.
  unfoldable pub update : String → (R → R) → List R → List R
  update i f [] = []
  update i f (r ∷ rs) = (if k.key r == i then f r else r) ∷ update i f rs

  -- The primary key's constraint.
  abbrev pub IsUnique : List R → Type ℓ
  IsUnique [] = Unit
  IsUnique (r ∷ rs) = (find (k.key r) rs ≡ none) × IsUnique rs

  pub find-append :
      (i : String) (xs : List R) (r : R)
      → find i xs ≡ none
      → find i (xs ++ r ∷ []) ≡ (if k.key r == i then some r else none)
  unfolding find
  find-append i [] r h = refl
  find-append i (x ∷ xs) r h = ground (arith, find-append i xs r)

  pub find-append_ne :
      (i : String) (xs : List R) (r : R)
      → (k.key r == i) ≡ false
      → find i (xs ++ r ∷ []) ≡ find i xs
  unfolding find
  find-append_ne i [] r h = ground arith
  find-append_ne i (x ∷ xs) r h = ground (arith, find-append_ne i xs r h)

  pub find-remove :
      (i j : String) (rs : List R) → find j (remove i rs) ≡ (if i == j then none else find j rs)
  unfolding find remove
  find-remove i j [] = ground arith
  find-remove i j (r ∷ rs) =
      ground (arith, find-remove i j rs, eq_iff (k.key r) i, eq_iff (k.key r) j, eq_iff i j)

  pub find-remove_self : (i : String) (rs : List R) → find i (remove i rs) ≡ none
  find-remove_self i rs = ground (arith, find-remove i i rs, eq_refl i)

  pub find-keep-none :
      (p : R → Bool) (i : String) (rs : List R) → find i rs ≡ none → find i (keep p rs) ≡ none
  unfolding find
  find-keep-none p i [] h = refl
  find-keep-none p i (r ∷ rs) h = ground (arith, find-keep-none p i rs)

  -- A key that is found names a row with that key.
  pub key-find : (i : String) (rs : List R) {r : R} → find i rs ≡ some r → k.key r ≡ i
  unfolding find
  key-find i [] h = ground arith
  key-find i (x ∷ rs) {r} h = ground (arith, eq_iff (k.key x) i, key-find i rs {r = r})

  -- The rows that a DELETE leaves are found as before, where the keys are unique.
  pub find-keep :
      (p : R → Bool) (i : String) (rs : List R)
      → IsUnique rs
      → find i (keep p rs)
        ≡ elim (find i rs) [ none ↦ none | some r ↦ if p r then some r else none ]
  unfolding find
  find-keep p i [] u = refl
  find-keep p i (r ∷ rs) (fresh, u) =
      ground (arith, find-keep p i rs u, find-keep-none p i rs, eq_iff (k.key r) i)

  pub keep-IsUnique : (p : R → Bool) (rs : List R) → IsUnique rs → IsUnique (keep p rs)
  keep-IsUnique p [] u = tt
  keep-IsUnique p (r ∷ rs) (fresh, u) =
      ground (arith, keep-IsUnique p rs u, find-keep-none p (k.key r) rs)

  pub remove-IsUnique : (i : String) (rs : List R) → IsUnique rs → IsUnique (remove i rs)
  unfolding remove
  remove-IsUnique i rs u = keep-IsUnique (λ r. not (k.key r == i)) rs u

  append-IsUnique :
      (rs : List R) (r : R) → find (k.key r) rs ≡ none → IsUnique rs → IsUnique (rs ++ r ∷ [])
  unfolding find
  append-IsUnique [] r h u = ground arith
  append-IsUnique (x ∷ rs) r h (fresh, u) = ground (
    arith,
    append-IsUnique rs r,
    find-append (k.key x) rs r fresh,
    eq_iff (k.key x) (k.key r),
    eq_iff (k.key r) (k.key x),
  )

  pub insert-IsUnique :
      (r : R) (rs : List R) {rs' : List R} → insert r rs ≡ some rs' → IsUnique rs → IsUnique rs'
  unfolding insert
  insert-IsUnique r rs h u = ground (arith, append-IsUnique rs r)

  -- After an INSERT the new row is found under its key, and every other key is as before.
  pub find-insert :
      (r : R) (rs : List R) {rs' : List R} (j : String)
      → insert r rs ≡ some rs'
      → find j rs' ≡ (if k.key r == j then some r else find j rs)
  unfolding insert
  find-insert r rs j h =
      ground (arith, find-append j rs r, find-append_ne j rs r, eq_iff (k.key r) j)

  -- An UPDATE that keeps the key changes the row of its key and no other.
  module _ (i : String) (f : R → R) (same : (r : R) → k.key r ≡ i → k.key (f r) ≡ k.key r) where
    pub find-update :
        (j : String) (rs : List R)
        → find j (update i f rs)
          ≡ elim (find j rs) [ none ↦ none | some r ↦ if i == j then some (f r) else some r ]
    unfolding find update
    find-update j [] = refl
    find-update j (r ∷ rs) = ground (
      arith,
      find-update j rs,
      same r,
      eq_iff (k.key r) i,
      eq_iff (k.key r) j,
      eq_iff (k.key (f r)) j,
      eq_iff i j,
    )

    pub update-IsUnique : (rs : List R) → IsUnique rs → IsUnique (update i f rs)
    unfolding update
    update-IsUnique [] u = tt
    update-IsUnique (r ∷ rs) (fresh, u) =
        ground (arith, update-IsUnique rs u, find-update (k.key r) rs, same r, eq_iff (k.key r) i)
