-- ===== src/Tokens/Merge.antt =====
-- The claims of an access token (sidecar/internal/tokens/issuer.go): what the server sets stands.
use mcpbouncer.Prelude.{
  String, ◌≡◌, refl, inl, inr, none, some, Option-cases, [], ◌∷◌, ◌++◌, ◌==◌, eq_iff, arith,
  if◌then◌else◌,
}
use mcpbouncer.Json.{Json, Claims, get_claim}
use mcpbouncer.Tokens.{add_missing}

get_claim-append :
    (base : Claims) (k j : String) (v : Json)
    → get_claim base k ≡ none
    → get_claim (base ++ (k, v) ∷ []) j
      ≡ elim (get_claim base j) [ some u ↦ some u | none ↦ if k == j then some v else none ]
unfolding get_claim
get_claim-append [] k j v h = refl
get_claim-append ((i, u) ∷ base) k j v h =
    ground (arith, get_claim-append base k j v, eq_iff i j, eq_iff i k)

-- A claim of the finished token is the server's own, where the server sets one, and is otherwise
-- the first of that name among the extra claims: no upstream claim replaces one of the server's.
pub get_claim-add_missing :
    (base extra : Claims) (k : String)
    → get_claim (add_missing base extra) k
      ≡ elim (get_claim base k) [ some v ↦ some v | none ↦ get_claim extra k ]
unfolding add_missing get_claim
get_claim-add_missing base [] k = ground arith
get_claim-add_missing base ((j, v) ∷ extra) k = elim (Option-cases (get_claim base j)) [
  | inr (u, e) ↦ ground (arith, get_claim-add_missing base extra k, eq_iff j k)
  | inl e ↦ ground (
    arith,
    get_claim-add_missing (base ++ (j, v) ∷ []) extra k,
    get_claim-append base j k v e,
    eq_iff j k,
  )
]
