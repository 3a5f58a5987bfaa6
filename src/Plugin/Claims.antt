-- ===== src/Plugin/Claims.antt =====
-- The checks of plugin/mcpbouncer.go on a token's claims. Times are int64 seconds.
use mcpbouncer.Prelude.{
  ◌+◌, String, Bool, false, not, ◌&&◌, Option, none, some, List, [], ◌∷◌, ◌==◌, ◌<>◌, if◌then◌else◌,
  contains_string,
}
use mcpbouncer.Prelude.Int.{wrap64, ℤ, pos, pos_part, neg_part, sub_ℕ, ltb_ℤ}
use mcpbouncer.Prelude.Strings.{fields}
use mcpbouncer.Json.{Json, str, arr, Claims, get_claim, string_or_empty, as_number, items_contain}

-- Why a request is refused.
pub data Reason : Type 0 where
  missing_bearer jwt_parse iss_mismatch aud_mismatch exp_missing exp_expired nbf_future : Reason
  missing_scope : String → Reason

abbrev pub skew : ℤ
skew = pos 60

-- a + b and a - b.
unfoldable pub add64 : ℤ → ℤ → ℤ
unfolding wrap64
add64 a b = wrap64 (sub_ℕ (pos_part a + pos_part b) (neg_part a + neg_part b))

unfoldable pub sub64 : ℤ → ℤ → ℤ
unfolding wrap64
sub64 a b = wrap64 (sub_ℕ (pos_part a + neg_part b) (neg_part a + pos_part b))

-- audContains, of a claim that may be missing.
unfoldable pub aud_contains : Option Json → String → Bool
aud_contains (some (str s)) target = s == target
aud_contains (some (arr vs)) target = items_contain vs target
aud_contains _ target = false

-- The first required scope that is not granted.
unfoldable pub missing_from : List String → List String → Option String
missing_from granted [] = none
missing_from granted (s ∷ ss) =
    if contains_string granted s then missing_from granted ss else some s

unfoldable pub check_required_scopes : String → Claims → Option Reason
check_required_scopes required claims =
    elim (missing_from (fields (string_or_empty (get_claim claims "scope"))) (fields required)) [
      | none ↦ none
      | some s ↦ some (missing_scope s)
    ]

-- `ok && nbf-skew > now`
unfoldable pub is_future : Option ℤ → ℤ → Bool
is_future none now = false
is_future (some nbf) now = ltb_ℤ now (sub64 nbf skew)

unfoldable pub check_times : String → Claims → ℤ → Option ℤ → Option Reason
unfolding is_future
check_times required claims now none = some exp_missing
check_times required claims now (some exp) =
    if ltb_ℤ (add64 exp skew) now
    then some exp_expired
    else if is_future (as_number (get_claim claims "nbf")) now
    then some nbf_future
    else check_required_scopes required claims

-- none: the claims are valid.
unfoldable pub check_claims : String → Claims → (public_base : String) → (now : ℤ) → Option Reason
unfolding check_times
check_claims required claims base now =
    if not (string_or_empty (get_claim claims "iss") == base)
    then some iss_mismatch
    else if not (aud_contains (get_claim claims "aud") base)
        && not (aud_contains (get_claim claims "aud") (base <> "/"))
    then some aud_mismatch
    else check_times required claims now (as_number (get_claim claims "exp"))
