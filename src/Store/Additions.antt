-- ===== src/Store/Additions.antt =====
-- What a handler adds to one table (sidecar/internal/store/repos.go): every row of the table was there
-- before, or is a row that the handler may add.
use mathlib.Core.Option
use mathlib.Core.Path.{subst}
use mcpbouncer.Prelude.{sym, String, ◌≡◌, ◌⊎◌, inl, inr, ap, ◌∙◌, Option, some, List, arith}
use mcpbouncer.Platform.{Platform}
use mcpbouncer.Action.{exec}
use mcpbouncer.Action.Keeps.{Keeps, Keeps-exec}
use mcpbouncer.Store.Rows.{Db}
use mcpbouncer.Store.Table.{Keyed, find, insert, find-insert}
use mcpbouncer.Store.Stable.{Keeps-insert}

module _ {R : Type 0} ⦃k : Keyed R⦄ (rows : Db → List R) (Good : R → Type 0) (d0 : Db) where
  abbrev pub OnlyAdds : Db → Type 0
  OnlyAdds d =
      (i : String) (r : R) → find i (rows d) ≡ some r → (find i (rows d0) ≡ some r) ⊎ Good r

  pub OnlyAdds-start : OnlyAdds d0
  OnlyAdds-start i r found = inl found

  found-insert :
      (x r : R) (rs : List R) {rs' : List R} (i : String)
      → insert x rs ≡ some rs'
      → find i rs' ≡ some r
      → (x ≡ r) ⊎ (find i rs ≡ some r)
  found-insert x r rs i e found = ground (arith, find-insert x rs i e)

  module _ ⦃p : Platform⦄ where
    -- An INSERT of a row that may be added.
    pub insert-OnlyAdds :
        (name : String) (x : R) (set : Db → List R → Db)
        → ((d : Db) (rs : List R) → rows (set d rs) ≡ rs)
        → Good x
        → Keeps OnlyAdds (exec name (λ d. Option.map (set d) (insert x (rows d))))
    insert-OnlyAdds name x set same good = Keeps-insert name x rows set λ d rs h e i r found.
        elim (found-insert x r (rows d) i e (ap (find i) (sym (same d rs)) ∙ found)) [
          | inl is ↦ inr (subst Good is good)
          | inr old ↦ h i r old
        ]

    -- A statement on another table.
    pub elsewhere-OnlyAdds :
        (name : String) (f : Db → Option Db)
        → ((d d' : Db) → f d ≡ some d' → rows d' ≡ rows d)
        → Keeps OnlyAdds (exec name f)
    elsewhere-OnlyAdds name f same =
        Keeps-exec name f λ d d' h e i r found. h i r (ap (find i) (sym (same d d' e)) ∙ found)
