-- ===== src/Plugin/Acceptance.antt =====
-- The claims that plugin/mcpbouncer.go accepts.
use mcpbouncer.Prelude.{
  String, ◌≡◌, refl, ◌⊎◌, inl, inr, Bool, true, false, not, ◌&&◌, Option, none, some, Option-cases,
  List, [], ◌∷◌, ◌==◌, ◌<>◌, eq_iff, arith, Bool-cases, contains_string,
}
use mcpbouncer.Prelude.Int.{ℤ, ltb_ℤ}
use mcpbouncer.Prelude.Strings.{fields}
use mcpbouncer.Json.{Claims, get_claim, string_or_empty, as_number}
use mcpbouncer.Plugin.Claims.{
  skew, add64, sub64, aud_contains, missing_from, check_required_scopes, is_future, check_times,
  check_claims,
}

missing_from-none :
    (granted required : List String) (s : String)
    → missing_from granted required ≡ none
    → contains_string required s ≡ true
    → contains_string granted s ≡ true
unfolding missing_from
missing_from-none granted [] s h k = ground arith
missing_from-none granted (t ∷ ts) s h k =
    ground (arith, missing_from-none granted ts s, eq_iff t s)

missing_from-some :
    (granted required : List String) {s : String}
    → missing_from granted required ≡ some s
    → (contains_string required s ≡ true) × (contains_string granted s ≡ false)
unfolding missing_from
missing_from-some granted [] h = ground arith
missing_from-some granted (t ∷ ts) {s} h =
    ground (arith, missing_from-some granted ts {s = s}, eq_iff t s)

-- What the middleware asks of a token's claims.
pub record IsAcceptable (required : String) (claims : Claims) (base : String) (now : ℤ)
    : Type 0 where
  pub issued_here : string_or_empty (get_claim claims "iss") ≡ base
  pub meant_for_us :
      (aud_contains (get_claim claims "aud") base ≡ true)
      ⊎ (aud_contains (get_claim claims "aud") (base <> "/") ≡ true)
  pub not_expired :
      (exp : ℤ) × (as_number (get_claim claims "exp") ≡ some exp)
      × (ltb_ℤ (add64 exp skew) now ≡ false)
  pub begun :
      (nbf : ℤ) → as_number (get_claim claims "nbf") ≡ some nbf → ltb_ℤ now (sub64 nbf skew) ≡ false
  pub scopes_granted :
      (s : String)
      → contains_string (fields required) s ≡ true
      → contains_string (fields (string_or_empty (get_claim claims "scope"))) s ≡ true

scopes_sound :
    (required : String) (claims : Claims)
    → check_required_scopes required claims ≡ none
    → (s : String) → contains_string (fields required) s ≡ true
    → contains_string (fields (string_or_empty (get_claim claims "scope"))) s ≡ true
unfolding check_required_scopes
scopes_sound required claims h =
    let granted = fields (string_or_empty (get_claim claims "scope")) in
    elim (Option-cases (missing_from granted (fields required))) [
      | inl e ↦ λ s. missing_from-none granted (fields required) s e
      | inr (s, e) ↦ ground arith
    ]

is_future-false :
    (nbf : Option ℤ) (now n : ℤ)
    → is_future nbf now ≡ false
    → nbf ≡ some n
    → ltb_ℤ now (sub64 n skew) ≡ false
unfolding is_future
is_future-false none now n h e = ground arith
is_future-false (some m) now n h e = ground arith

times_sound :
    (required : String) (claims : Claims) (now : ℤ) (exp : Option ℤ)
    → check_times required claims now exp ≡ none
    → ((e : ℤ) × (exp ≡ some e) × (ltb_ℤ (add64 e skew) now ≡ false))
      × (is_future (as_number (get_claim claims "nbf")) now ≡ false)
      × (check_required_scopes required claims ≡ none)
unfolding check_times
times_sound required claims now none h = ground arith
times_sound required claims now (some e) h = elim (Bool-cases (ltb_ℤ (add64 e skew) now)) [
  | inl late ↦ ground arith
  | inr fine ↦ elim (Bool-cases (is_future (as_number (get_claim claims "nbf")) now)) [
    | inl future ↦ ground arith
    | inr begun ↦ ((e, refl, fine), begun, ground arith)
  ]
]

or-cases : (a b : Bool) → (not a && not b) ≡ false → (a ≡ true) ⊎ (b ≡ true)
or-cases true b h = inl refl
or-cases false true h = inr refl
or-cases false false h = ground arith

passed-checks :
    (required : String) (claims : Claims) (base : String) (now : ℤ)
    → check_claims required claims base now ≡ none
    → ((string_or_empty (get_claim claims "iss") == base) ≡ true)
      × ((aud_contains (get_claim claims "aud") base ≡ true)
          ⊎ (aud_contains (get_claim claims "aud") (base <> "/") ≡ true))
      × (check_times required claims now (as_number (get_claim claims "exp")) ≡ none)
unfolding check_claims
passed-checks required claims base now h =
    let a = aud_contains (get_claim claims "aud") base in
    let b = aud_contains (get_claim claims "aud") (base <> "/") in
    elim (Bool-cases (string_or_empty (get_claim claims "iss") == base)) [
      | inr e ↦ ground arith
      | inl e ↦ elim (Bool-cases (not a && not b)) [
        | inl e' ↦ ground arith
        | inr e' ↦ (e, or-cases a b e', ground arith)
      ]
    ]

-- Claims that pass the checks name this server as their issuer and as an audience, have an expiry
-- that is not past and no start that is to come (each with 60 seconds of tolerance, in int64), and
-- grant every required scope.
pub check_claims-IsAcceptable :
    (required : String) (claims : Claims) (base : String) (now : ℤ)
    → check_claims required claims base now ≡ none
    → IsAcceptable required claims base now
check_claims-IsAcceptable required claims base now h =
    let checked = passed-checks required claims base now h in
    let (exp, begun, scopes) = times_sound required claims now _ checked.2 in
    record {
      issued_here = (eq_iff _ _).0 checked.0;
      meant_for_us = checked.1;
      not_expired = exp;
      begun = λ n e. is_future-false _ now n begun e;
      scopes_granted = scopes_sound required claims scopes;
    }

times_complete :
    (required : String) (claims : Claims) (now e : ℤ)
    → ltb_ℤ (add64 e skew) now ≡ false
    → is_future (as_number (get_claim claims "nbf")) now ≡ false
    → check_required_scopes required claims ≡ none
    → check_times required claims now (some e) ≡ none
unfolding check_times
times_complete required claims now e fine begun scopes = rw (fine, begun) scopes

is_future-not :
    (nbf : Option ℤ) (now : ℤ)
    → ((n : ℤ) → nbf ≡ some n → ltb_ℤ now (sub64 n skew) ≡ false)
    → is_future nbf now ≡ false
unfolding is_future
is_future-not none now h = refl
is_future-not (some n) now h = h n refl

scopes_complete :
    (required : String) (claims : Claims)
    → ((s : String)
        → contains_string (fields required) s ≡ true
        → contains_string (fields (string_or_empty (get_claim claims "scope"))) s ≡ true)
    → check_required_scopes required claims ≡ none
unfolding check_required_scopes
scopes_complete required claims h =
    let granted = fields (string_or_empty (get_claim claims "scope")) in
    elim (Option-cases (missing_from granted (fields required))) [
      | inl e ↦ ground arith
      | inr (s, e) ↦
          let (asked, lacking) = missing_from-some granted (fields required) e in
          let k = h s asked in ground arith
    ]

-- Claims that meet all of these conditions pass the checks.
pub check_claims-passes :
    (required : String) (claims : Claims) (base : String) (now : ℤ)
    → IsAcceptable required claims base now
    → check_claims required claims base now ≡ none
unfolding check_claims
check_claims-passes required claims base now ok_claims =
    let (e, found, fine) = ok_claims.not_expired in
    let k =
      times_complete required claims now e fine (is_future-not _ now ok_claims.begun)
        (scopes_complete required claims ok_claims.scopes_granted) in
    let iss = (eq_iff _ _).1 ok_claims.issued_here in
    elim ok_claims.meant_for_us [ inl a ↦ rw (iss, a, found) k | inr a ↦ ground arith ]
