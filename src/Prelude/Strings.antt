-- ===== src/Prelude/Strings.antt =====
-- The functions of Go's package `strings` that the program uses, over texts.
use Prim.Native.Char.{code}
use Prim.Native.String.{String, [], ◌∷◌}
use text.Mathlib.Text.{◌==◌}
use text.Mathlib.TextEquality.{eq_iff}
use text.Mathlib.TextLemmas.{nil-append, cons-append, append_assoc}
use native.Mathlib.Omega.{arith}
use mathlib.Core.Path.{◌≡◌, refl, ap, ◌∙◌}
use mathlib.Core.Bool.{Bool, true, false, ◌&&◌, ◌||◌}
use mathlib.Core.Option
use mathlib.Core.Logic.{inl, inr}
use mathlib.Core.Option.{Option, none, some}
use Prim.Native.Nat.{ℕ, ◌-◌}
use mathlib.Core.List.{List}
use package.mcpbouncer.Prelude.Tests.{leb, Bool-cases, Option-cases, nat_beq, if◌then◌else◌, ◌<>◌}

-- strings.TrimRight(s, "/")
unfoldable pub trim_right_slashes : String → String
trim_right_slashes [] = []
trim_right_slashes (c ∷ s) =
    let rest = trim_right_slashes s in if nat_beq (code c) b'/' && rest == "" then "" else c ∷ rest

-- path[:len(path)-len(s)] where strings.HasSuffix(path, s): what stands before a suffix.
unfoldable pub strip_suffix : String → String → Option String
strip_suffix t [] = if t == "" then some "" else none
strip_suffix t (c ∷ s) =
    if (c ∷ s) == t then some "" else Option.map (λ r. c ∷ r) (strip_suffix t s)

-- strings.TrimPrefix where strings.HasPrefix(s, t).
unfoldable pub strip_prefix : String → String → Option String
strip_prefix [] s = some s
strip_prefix (c ∷ t) [] = none
strip_prefix (c ∷ t) (d ∷ s) = if nat_beq (code c) (code d) then strip_prefix t s else none

-- What stands before the first dot and behind it.
unfoldable pub cut_dot : String → Option (String × String)
cut_dot [] = none
cut_dot (c ∷ s) =
    if nat_beq (code c) b'.'
    then some ("", s)
    else Option.map (λ parts. (c ∷ parts.0, parts.1)) (cut_dot s)

-- strings.Split(token, ".") where it has three parts.
unfoldable pub split_dots : String → Option (String × String × String)
split_dots s = elim (cut_dot s) [
  | none ↦ none
  | some (a, rest) ↦ elim (cut_dot rest) [
    | none ↦ none
    | some (b, last) ↦ elim (cut_dot last) [ none ↦ some (a, b, last) | some _ ↦ none ]
  ]
]

-- strings.ToUpper, on the letters of ASCII.
unfoldable pub to_upper : String → List ℕ
to_upper [] = List.[]
to_upper (c ∷ s) =
    List.◌∷◌ (if leb b'a' (code c) && leb (code c) b'z' then code c - 32 else code c) (to_upper s)

-- unicode.IsSpace
unfoldable pub is_space : ℕ → Bool
is_space c =
    (leb 9 c && leb c 13)
    || nat_beq c 32
    || nat_beq c 0x85
    || nat_beq c 0xA0
    || nat_beq c 0x1680
    || (leb 0x2000 c && leb c 0x200A)
    || nat_beq c 0x2028
    || nat_beq c 0x2029
    || nat_beq c 0x202F
    || nat_beq c 0x205F
    || nat_beq c 0x3000

abbrev end_field : String → List String → List String
end_field word rest = if word == "" then rest else List.◌∷◌ word rest

-- The fields of a text, behind the word that is being read.
unfoldable pub fields_from : String → String → List String
unfolding is_space
fields_from word [] = end_field word List.[]
fields_from word (c ∷ s) =
    let split = end_field word (fields_from "" s) in
    let longer = fields_from (word <> (c ∷ [])) s in if is_space (code c) then split else longer

-- strings.Fields
unfoldable pub fields : String → List String
unfolding fields_from
fields s = fields_from "" s

-- strings.HasPrefix, of the codes of a text.
unfoldable pub begins_with : String → List ℕ → Bool
begins_with [] s = true
begins_with (c ∷ t) List.[] = false
begins_with (c ∷ t) (List.◌∷◌ d s) = nat_beq (code c) d && begins_with t s

-- What is stripped, before the suffix, is the text.
pub strip_suffix-append : (t s : String) {r : String} → strip_suffix t s ≡ some r → s ≡ r <> t
unfolding strip_suffix
strip_suffix-append t [] {r = r} h = elim (Bool-cases (t == "")) [
  | inl e ↦ ground (arith, eq_iff t "", nil-append t)
  | inr e ↦ ground arith
]
strip_suffix-append t (c ∷ s) {r = r} h = elim (Bool-cases ((c ∷ s) == t)) [
  | inl e ↦ ground (arith, eq_iff (c ∷ s) t, nil-append t)
  | inr e ↦ elim (Option-cases (strip_suffix t s)) [
    | inl missed ↦ ground arith
    | inr (q, found) ↦ ground (arith, strip_suffix-append t s {r = q} found, cons-append c q t)
  ]
]

dot : (s : String) → "." <> s ≡ "." ∷ s
dot s = cons-append "." [] s ∙ ap (λ t. "." ∷ t) (nil-append s)

cut_dot-dot : (s : String) → cut_dot ("." <> s) ≡ some ("", s)
unfolding cut_dot
cut_dot-dot s = rw (dot s) refl

cut_dot-cons : (a s : String) → cut_dot a ≡ none → cut_dot (a <> ("." <> s)) ≡ some (a, s)
unfolding cut_dot
cut_dot-cons [] s h = rw (nil-append ("." <> s)) (cut_dot-dot s)
cut_dot-cons (c ∷ a) s h = ground (arith, cons-append c a ("." <> s), cut_dot-cons a s)

-- Three texts without a dot, joined by dots, are split again.
pub split_dots-join :
    (a b s : String)
    → cut_dot a ≡ none
    → cut_dot b ≡ none
    → cut_dot s ≡ none
    → split_dots ((a <> ("." <> b)) <> ("." <> s)) ≡ some (a, b, s)
unfolding split_dots
split_dots-join a b s ha hb hs =
    rw
      (
        append_assoc a ("." <> b) ("." <> s),
        append_assoc "." b ("." <> s),
        split_dots,
        cut_dot-cons a (b <> ("." <> s)) ha,
        cut_dot-cons b s hb,
        hs,
      )
      refl
