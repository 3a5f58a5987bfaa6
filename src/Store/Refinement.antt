-- ===== src/Store/Refinement.antt =====
-- The table of codes (sidecar/internal/store/repos.go) as a map from codes to grants, which forgets the
-- order of the rows and how they are kept.
use mathlib.Core.Option
use mathlib.Core.Path.{fun_ext}
use mcpbouncer.Prelude.{
  ap, ◌++◌, ℕ, suc, Done, String, ◌≡◌, refl, ◌∙◌, not, Option, none, some, inl, inr, Option-cases,
  List, [], ◌∷◌, arith, ◌==◌, leb, if◌then◌else◌,
}
use mcpbouncer.Platform.{Platform}
use mcpbouncer.Action.{ret, query, Action, World, now, exec, ◌>>=◌}
use mcpbouncer.Store.Table.{
  find, insert, IsUnique, find-insert, find-remove, find-keep, insert-IsUnique, remove-IsUnique,
  keep-IsUnique,
}
use mcpbouncer.Store.Rows.{ok, Result, Code, Code-keyed, unix}
use mcpbouncer.Store.Grants.{
  scan_code, get_code, code_row, insert_code, delete_code, delete_expired_codes,
}

-- The writing statements on the table.
pub data Statement : Type 0 where
  add : Code → Statement
  delete : String → Statement
  expire : Statement

-- What the map holds under each code.
abbrev pub View : Type 0
View = String → Option Code

-- What each statement means for the map, at a time in seconds: a code that is taken is not
-- replaced, and what has expired goes.
abbrev pub meaning : Statement → ℕ → View → View
meaning (add c) t v j = elim (v c.code) [
  | none ↦ (if c.code == j then some (code_row c) else v j)
  | some _ ↦ v j
]
meaning (delete k) t v j = if k == j then none else v j
meaning expire t v j = elim (v j) [
  | none ↦ none
  | some r ↦ if leb r.expires_at t then none else some r
]

insert-fresh :
    (c : Code) (rows : List Code)
    → find c.code rows ≡ none
    → insert (code_row c) rows ≡ some (rows ++ code_row c ∷ [])
unfolding insert
insert-fresh c rows e = rw (e, insert) refl

insert-taken :
    (c : Code) (rows : List Code) (r : Code)
    → find c.code rows ≡ some r
    → insert (code_row c) rows ≡ none
unfolding insert
insert-taken c rows r e = rw (e, insert) refl

module _ ⦃p : Platform⦄ where
  abbrev pub perform : Statement → Action (Result Done)
  perform (add c) = insert_code c
  perform (delete k) = delete_code k
  perform expire = delete_expired_codes

  abbrev pub perform_all : List Statement → World → World
  perform_all [] w = w
  perform_all (s ∷ ss) w = perform_all ss (perform s w).1

  abbrev pub view : World → View
  view w j = find j w.db.codes

  -- The meaning of a run, with the clock of each statement.
  abbrev pub meaning_all : List Statement → World → View → View
  meaning_all [] w v = v
  meaning_all (s ∷ ss) w v = meaning_all ss (perform s w).1 (meaning s (unix (p.clock w.step)) v)

  module _ (calm : (n : ℕ) → p.db_fault n ≡ none) where
    add-view :
        (c : Code) (w : World) (j : String)
        → IsUnique w.db.codes
        → (view (insert_code c w).1 j ≡ meaning (add c) 0 (view w) j)
          × IsUnique (insert_code c w).1.db.codes
    unfolding insert_code exec
    add-view c w j u = elim (Option-cases (find c.code w.db.codes)) [
      | inl e ↦
          let added = insert-fresh c w.db.codes e in
          rw (calm w.step, added, e, insert_code, exec, meaning)
            (
              find-insert (code_row c) w.db.codes j added,
              insert-IsUnique (code_row c) w.db.codes added u,
            )
      | inr (r, e) ↦
          let refused = insert-taken c w.db.codes r e in
          rw (calm w.step, refused, e, insert_code, exec, meaning) (refl, u)
    ]

    delete-view :
        (k : String) (w : World) (j : String)
        → IsUnique w.db.codes
        → (view (delete_code k w).1 j ≡ meaning (delete k) 0 (view w) j)
          × IsUnique (delete_code k w).1.db.codes
    unfolding delete_code exec find
    delete-view k w j u =
        rw (calm w.step, exec) (find-remove k j w.db.codes, remove-IsUnique k w.db.codes u)

    negated :
        (j : String) (w : World)
        → (let t = unix (p.clock w.step) in
            elim (find j w.db.codes) [
              | none ↦ none
              | some r ↦ if not (leb r.expires_at t) then some r else none
            ])
          ≡ meaning expire (unix (p.clock w.step)) (view w) j
    negated j w = elim (Option-cases (find j w.db.codes)) [
      | inl e ↦ rw (e, meaning) refl
      | inr (r, e) ↦ rw (e, meaning) (ground arith)
    ]

    expire-view :
        (w : World) (j : String)
        → IsUnique w.db.codes
        → (view (delete_expired_codes w).1 j ≡ meaning expire (unix (p.clock w.step)) (view w) j)
          × IsUnique (delete_expired_codes w).1.db.codes
    unfolding delete_expired_codes ◌>>=◌ now exec find
    expire-view w j u =
        rw (calm (suc w.step), exec)
          (
            find-keep (λ r. not (leb r.expires_at (unix (p.clock w.step)))) j w.db.codes u
                ∙ negated j w,
            keep-IsUnique (λ r. not (leb r.expires_at (unix (p.clock w.step)))) w.db.codes u,
          )

    perform-view :
        (s : Statement) (w : World) (j : String)
        → IsUnique w.db.codes
        → (view (perform s w).1 j ≡ meaning s (unix (p.clock w.step)) (view w) j)
          × IsUnique (perform s w).1.db.codes
    perform-view (add c) w j u = add-view c w j u
    perform-view (delete k) w j u = delete-view k w j u
    perform-view expire w j u = expire-view w j u

    run-view :
        (ss : List Statement) (w : World) (j : String)
        → IsUnique w.db.codes
        → view (perform_all ss w) j ≡ meaning_all ss w (view w) j
    run-view [] w j u = refl
    run-view (s ∷ ss) w j u =
        run-view ss (perform s w).1 j (perform-view s w j u).1
        ∙ ap (λ v. meaning_all ss (perform s w).1 v j) (fun_ext (λ i. (perform-view s w i u).0))

    -- The table of codes is a map. Where SQLite does not fail, and no two rows have one code at the
    -- start, a lookup after any sequence of insertions, deletions and cleanups answers what the
    -- same sequence makes of the map: a code that is taken is not replaced, a deletion and a cleanup
    -- remove what they name and nothing else, and times are answered in whole seconds.
    pub get_code-perform_all :
        (ss : List Statement) (w : World) (j : String)
        → IsUnique w.db.codes
        → (get_code j (perform_all ss w)).0
          ≡ ret (ok (Option.map scan_code (meaning_all ss w (view w) j)))
    unfolding get_code query
    get_code-perform_all ss w j u =
        rw (calm (perform_all ss w).step, query)
          (ap (λ o. ret (ok (Option.map scan_code o))) (run-view ss w j u))
