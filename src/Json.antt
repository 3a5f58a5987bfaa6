-- ===== src/Json.antt =====
-- JSON values as Go's `map[string]any` holds them (encoding/json). A number is held by what
-- `int64(f)` gives for it, which is all that the program computes with; a map is a list of its
-- members, and a read takes the first.
use mcpbouncer.Prelude.{
  String, Bool, false, Option, none, some, List, [], ◌∷◌, ◌==◌, ◌||◌, if◌then◌else◌,
}
use mcpbouncer.Prelude.Int.{ℤ}

mutual
  pub data Json : Type 0 where
    null : Json
    bool : Bool → Json
    num : ℤ → Json
    str : String → Json
    arr : Items → Json
    obj : Members → Json

  pub data Items : Type 0 where
    nil : Items
    cons : Json → Items → Items

  pub data Members : Type 0 where
    end : Members
    member : String → Json → Members → Members

-- map[string]any
abbrev pub Claims : Type 0
Claims = List (String × Json)

-- claims[k], with the `ok` of the two-value form.
unfoldable pub get_claim : Claims → String → Option Json
get_claim [] k = none
get_claim ((j, v) ∷ m) k = if j == k then some v else get_claim m k

-- delete(m, k) for every key that fails a test.
unfoldable pub retain : (String → Bool) → Claims → Claims
retain p [] = []
retain p ((j, v) ∷ m) = let rest = retain p m in if p j then (j, v) ∷ rest else rest

-- s, _ := v.(string), on a claim that may be missing.
unfoldable pub string_or_empty : Option Json → String
string_or_empty (some (str s)) = s
string_or_empty _ = ""

-- f, ok := v.(float64), on a claim that may be missing.
unfoldable pub as_number : Option Json → Option ℤ
as_number (some (num n)) = some n
as_number _ = none

unfoldable pub items_contain : Items → String → Bool
items_contain nil target = false
items_contain (cons (str s) vs) target = s == target || items_contain vs target
items_contain (cons v vs) target = items_contain vs target
