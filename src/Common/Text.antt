-- ===== src/Common/Text.antt =====
-- Go's package strings, as far as the SDK uses it. A rune above ASCII has its case from the tables of
-- package unicode, which are an argument.
use Prim.Native.Nat.{ℕ, ◌+◌, ◌-◌, ◌<◌, compare, Ordering}
use Prim.Native.Char.{Char, char, code, nul, IsScalar}
use Prim.Native.String.{String}
use Prim.Native.String.{◌++◌, len, slice}
use mathlib.Core.Path.{◌≡◌, refl, ap, sym, ◌∙◌}
use mathlib.Core.Logic.{inl, inr}
use text.Mathlib.TextEquality.{Char-path}
use text.Mathlib.TextLemmas.{nil-append, cons-append}
use text.Mathlib.TextPositions.{len-append, slice-append_left, eq_refl}
use mathlib.Core.Bool.{Bool, true, false, ◌&&◌, ◌||◌}
use mathlib.Core.List.{List, [], ◌∷◌}
use mathlib.Core.Option.{Option, none, some}
use native.Mathlib.Decide.{dec_lt}
use native.Mathlib.Omega.{arith}
use go_polymarket_sdk.Common.Tests.{
  ◌==◌, string_eq, nat_eq, ltb, leb, Bool-cases, lt→ltb, if◌then◌else◌,
}

abbrev pub is_upper : Char → Bool
is_upper c = leb 65 (code c) && leb (code c) 90

abbrev pub is_lower : Char → Bool
is_lower c = leb 97 (code c) && leb (code c) 122

abbrev below : (a b : ℕ) → a < b → compare a b ≡ Ordering.lt
below a b h = ground arith

abbrev pub ascii-IsScalar : (n : ℕ) → n < 128 → IsScalar n
ascii-IsScalar n h = rw (below n 55296 (omega arith)) tt

abbrev pub ascii_at : (n : ℕ) → Dec (n < 128) → Char
ascii_at n (yes h) = char n (ascii-IsScalar n h)
ascii_at n (no _) = nul

-- The ASCII character of a number.
abbrev pub ascii : ℕ → Char
ascii n = ascii_at n (dec_lt n 128)

-- package unicode, above ASCII.
pub record Unicode : Type 0 where
  pub upper : Char → Char
  pub lower : Char → Char

module _ (u : Unicode) where
  abbrev pub upper_rune : Char → Char
  upper_rune c =
      if ltb (code c) 128 then (if is_lower c then ascii (code c - 32) else c) else u.upper c

  abbrev pub lower_rune : Char → Char
  lower_rune c =
      if ltb (code c) 128 then (if is_upper c then ascii (code c + 32) else c) else u.lower c

  -- strings.ToUpper and strings.ToLower
  abbrev pub to_upper : String → String
  to_upper String.[] = ""
  to_upper (String.◌∷◌ c s) = String.◌∷◌ (upper_rune c) (to_upper s)

  abbrev pub to_lower : String → String
  to_lower String.[] = ""
  to_lower (String.◌∷◌ c s) = String.◌∷◌ (lower_rune c) (to_lower s)

-- What is left of the second text behind the first, where it begins with it.
abbrev pub strip_prefix : String → String → Option String
strip_prefix String.[] s = some s
strip_prefix (String.◌∷◌ d t) String.[] = none
strip_prefix (String.◌∷◌ d t) (String.◌∷◌ c s) = if code c == code d then strip_prefix t s else none

-- strings.Contains
abbrev pub contains_text : String → String → Bool
contains_text String.[] t = t == ""
contains_text (String.◌∷◌ c s) t = elim (strip_prefix t (String.◌∷◌ c s)) [
  | some _ ↦ true
  | none ↦ contains_text s t
]

-- strings.HasSuffix
abbrev pub has_suffix : String → String → Bool
has_suffix String.[] t = t == ""
has_suffix (String.◌∷◌ c s) t = String.◌∷◌ c s == t || has_suffix s t

abbrev pub rest_or : Option String → String → String
rest_or none s = s
rest_or (some rest) s = rest

-- strings.Replace(s, t, "", 1), where `t` is not empty
abbrev pub remove_first : String → String → String
remove_first String.[] t = String.[]
remove_first (String.◌∷◌ c s) t =
    rest_or (strip_prefix t (String.◌∷◌ c s)) (String.◌∷◌ c (remove_first s t))

-- strings.Join
abbrev pub join : List String → String → String
join [] sep = ""
join (s ∷ []) sep = s
join (s ∷ (t ∷ ts)) sep = s ++ sep ++ join (t ∷ ts) sep

-- `s[:len(s)-n]`, by bytes.
abbrev pub cut_last : ℕ → String → String
cut_last n s = slice s 0 (len s - n)

abbrev pub IsAscii : String → Type 0
IsAscii String.[] = Unit
IsAscii (String.◌∷◌ c s) = (code c < 128) × IsAscii s

-- No copy of `t` begins in `s ++ t` before its end.
abbrev pub IsClear : String → String → Type 0
IsClear t String.[] = Unit
IsClear t (String.◌∷◌ c s) = (strip_prefix t (String.◌∷◌ c (s ++ t)) ≡ none) × IsClear t s

code_same : (c : Char) → (code c == code c) ≡ true
code_same c = ground arith

strip_prefix_self : (t : String) → strip_prefix t t ≡ some ""
strip_prefix_self String.[] = refl
strip_prefix_self (String.◌∷◌ c t) = ground (arith, strip_prefix_self t)

remove_first_self :
    (c : Char) (t : String) → remove_first (String.◌∷◌ c t) (String.◌∷◌ c t) ≡ String.[]
remove_first_self c t =
    ap (λ o. rest_or o (String.◌∷◌ c (remove_first t (String.◌∷◌ c t))))
      (strip_prefix_self (String.◌∷◌ c t))

pub remove_first-append : (s t : String) → IsClear t s → remove_first (s ++ t) t ≡ s
remove_first-append String.[] String.[] h = refl
remove_first-append String.[] (String.◌∷◌ c t) h =
    ap (λ s. remove_first s (String.◌∷◌ c t)) (nil-append (String.◌∷◌ c t)) ∙ remove_first_self c t
remove_first-append (String.◌∷◌ c s) t h =
    ap (λ s. remove_first s t) (cons-append c s t)
    ∙ ap (λ o. rest_or o (String.◌∷◌ c (remove_first (s ++ t) t))) (h.0)
    ∙ ap (String.◌∷◌ c) (remove_first-append s t h.1)

code-ascii_at : (n : ℕ) (d : Dec (n < 128)) → n < 128 → code (ascii_at n d) ≡ n
code-ascii_at n (yes i) h = refl
code-ascii_at n (no i) h = absurd (i h)

code-ascii : (n : ℕ) → n < 128 → code (ascii n) ≡ n
code-ascii n h = code-ascii_at n (dec_lt n 128) h

ascii-code : (c : Char) → code c < 128 → ascii (code c) ≡ c
ascii-code c h = Char-path (ascii (code c)) c (code-ascii (code c) h)

ascii_back : (c : Char) → code c < 128 → ascii (code c + 32 - 32) ≡ c
ascii_back c h = ap (λ n. ascii n) (omega arith) ∙ ascii-code c h

raised_small : (n : ℕ) → (leb 65 n && leb n 90) ≡ true → n + 32 < 128
raised_small n e = ground arith

raised_lower :
    (n : ℕ) → (leb 65 n && leb n 90) ≡ true → (leb 97 (n + 32) && leb (n + 32) 122) ≡ true
raised_lower n e = ground arith

upper_not_lower : (n : ℕ) → (leb 65 n && leb n 90) ≡ true → (leb 97 n && leb n 122) ≡ false
upper_not_lower n e = ground arith

upper_rune-lower_rune :
    (u : Unicode) (c : Char) → code c < 128 → upper_rune u (lower_rune u c) ≡ upper_rune u c
upper_rune-lower_rune u c h = elim (Bool-cases (is_upper c)) [
  | inl e ↦
      let small = raised_small (code c) e in
      rw
        (
          lt→ltb (code c) 128 h,
          e,
          code-ascii (code c + 32) small,
          lt→ltb (code c + 32) 128 small,
          raised_lower (code c) e,
          upper_not_lower (code c) e,
        )
        (ascii_back c h)
  | inr e ↦ rw (lt→ltb (code c) 128 h, e, lt→ltb (code c) 128 h) refl
]

pub to_upper-to_lower :
    (u : Unicode) (s : String) → IsAscii s → to_upper u (to_lower u s) ≡ to_upper u s
to_upper-to_lower u String.[] h = refl
to_upper-to_lower u (String.◌∷◌ c s) h =
    rw (upper_rune-lower_rune u c h.0)
      (ap (String.◌∷◌ (upper_rune u c)) (to_upper-to_lower u s h.1))

or_true : (b : Bool) → (b || true) ≡ true
or_true true = refl
or_true false = refl

pub to_lower-append :
    (u : Unicode) (s t : String) → to_lower u (s ++ t) ≡ to_lower u s ++ to_lower u t
to_lower-append u String.[] t = ap (to_lower u) (nil-append t) ∙ sym (nil-append (to_lower u t))
to_lower-append u (String.◌∷◌ c s) t =
    ap (to_lower u) (cons-append c s t)
    ∙ ap (String.◌∷◌ (lower_rune u c)) (to_lower-append u s t)
    ∙ sym (cons-append (lower_rune u c) (to_lower u s) (to_lower u t))

pub cut_last-append : (s t : String) → cut_last (len t) (s ++ t) ≡ s
cut_last-append s t = ap (slice (s ++ t) 0) (omega (arith, len-append s t)) ∙ slice-append_left s t

has_suffix_self : (t : String) → has_suffix t t ≡ true
has_suffix_self String.[] = refl
has_suffix_self (String.◌∷◌ c t) =
    ap (λ b. b || has_suffix t (String.◌∷◌ c t)) (eq_refl (String.◌∷◌ c t))

pub has_suffix-append : (s t : String) → has_suffix (s ++ t) t ≡ true
has_suffix-append String.[] t = ap (λ v. has_suffix v t) (nil-append t) ∙ has_suffix_self t
has_suffix-append (String.◌∷◌ c s) t =
    ap (λ v. has_suffix v t) (cons-append c s t)
    ∙ ap (λ b. (String.◌∷◌ c (s ++ t) == t) || b) (has_suffix-append s t)
    ∙ or_true (String.◌∷◌ c (s ++ t) == t)
