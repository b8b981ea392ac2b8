-- ===== src/Floats/Places.antt =====
-- utils/utils.go: the places that FloatToString leaves of a number.
use go_polymarket_sdk.Common.{
  ℕ, zero, suc, ◌+◌, ◌-◌, ◌*◌, ◌^◌, ◌≤◌, ◌≡◌, refl, ap, sym, ◌∙◌, Bool, true, false, ◌&&◌, Option,
  none, some, String, ◌==◌, string_eq, nat_eq, ltb, Bool-cases, if_both, inl, inr, arith,
}
use Prim.Native.Char.{Char, char, code}
use mathlib.Core.Path.{subst}
use Prim.Native.String.{◌++◌, len}
use Prim.Native.String.len
use text.Mathlib.TextPositions.{len_utf8-pos}
use text.Mathlib.TextLemmas.{nil-append, cons-append}
use go_polymarket_sdk.Common.Int.{pos}
use go_polymarket_sdk.Floats.{
  split_point, trim_zeros, front, FloatText, put_together, cut_places, float_to_string,
}

-- The number of a text's characters.
abbrev pub places : String → ℕ
places String.[] = 0
places (String.◌∷◌ c s) = suc (places s)

-- The number that the first `n` digits make, with zeros where there are fewer.
abbrev pub place_digits : ℕ → String → ℕ
place_digits zero s = 0
place_digits (suc n) String.[] = 0
place_digits (suc n) (String.◌∷◌ c s) = (code c - 48) * 10 ^ n + place_digits n s

abbrev or_no_places : Option String → String
or_no_places none = ""
or_no_places (some frac) = frac

-- What stands before the point of a text, and behind it.
abbrev pub whole_part : String → String
whole_part s = (split_point s).0

abbrev pub fraction : String → String
fraction s = or_no_places ((split_point s).1)

places-front : (n : ℕ) (s : String) → places (front n s) ≤ n
places-front zero s = omega arith
places-front (suc n) String.[] = omega arith
places-front (suc n) (String.◌∷◌ c s) = omega (arith, places-front n s)

place_digits-front : (n : ℕ) (s : String) → place_digits n (front n s) ≡ place_digits n s
place_digits-front zero s = refl
place_digits-front (suc n) String.[] = refl
place_digits-front (suc n) (String.◌∷◌ c s) =
    ap (λ k. (code c - 48) * 10 ^ n + k) (place_digits-front n s)

places-trim_zeros : (s : String) → places (trim_zeros s) ≤ places s
places-trim_zeros String.[] = omega arith
places-trim_zeros (String.◌∷◌ c s) =
    if_both (λ t. places t ≤ suc (places s)) (trim_zeros s == "" && code c == 48) (omega arith)
      (omega (arith, places-trim_zeros s))

place_digits_empty : (n : ℕ) → place_digits n "" ≡ 0
place_digits_empty zero = refl
place_digits_empty (suc n) = refl

both_true : (a b : Bool) → (a && b) ≡ true → (a ≡ true) × (b ≡ true)
both_true true b e = (refl, e)
both_true false b e = absurd (cc)

-- Behind nothing but zeros a zero counts for nothing.
zero_counts_nothing :
    (n : ℕ) (c : Char) (s : String)
    → trim_zeros s ≡ ""
    → code c ≡ 48
    → place_digits n (trim_zeros s) ≡ place_digits n s
    → 0 ≡ (code c - 48) * 10 ^ n + place_digits n s
zero_counts_nothing n c s empty is_zero e =
    rw (is_zero, sym e, empty, place_digits_empty n) (omega arith)

place_digits-trim_zeros : (n : ℕ) (s : String) → place_digits n (trim_zeros s) ≡ place_digits n s
place_digits-trim_zeros zero s = refl
place_digits-trim_zeros (suc n) String.[] = refl
place_digits-trim_zeros (suc n) (String.◌∷◌ c s) =
    elim (Bool-cases (trim_zeros s == "" && code c == 48)) [
      | inl e ↦
          let (empty, is_zero) = both_true (trim_zeros s == "") (code c == 48) e in
          rw e (
            zero_counts_nothing n c s ((string_eq.same_iff (trim_zeros s) "").0 empty)
              ((nat_eq.same_iff (code c) 48).0 is_zero) (place_digits-trim_zeros n s))
      | inr e ↦ rw e (ap (λ k. (code c - 48) * 10 ^ n + k) (place_digits-trim_zeros n s))
    ]

places_below_len : (s : String) → places s ≤ len s
places_below_len String.[] = omega arith
places_below_len (String.◌∷◌ c s) =
    omega (arith, len.cons c s, (len_utf8-pos c).1, places_below_len s)

-- A text that stands before a point: it has none.
abbrev IsWhole : String → Type 0
IsWhole w =
    (split_point w ≡ (w, none))
    × ((t : String) → split_point (w ++ String.◌∷◌ (char 46 tt) t) ≡ (w, some t))

split_at :
    (c : Char) (s : String)
    → (code c == 46) ≡ true
    → split_point (String.◌∷◌ c s) ≡ (String.[], some s)
split_at c s e = rw e refl

split_past :
    (c : Char) (s : String)
    → (code c == 46) ≡ false
    → split_point (String.◌∷◌ c s) ≡ (String.◌∷◌ c (whole_part s), (split_point s).1)
split_past c s e = rw e refl

cons-IsWhole :
    (c : Char) (w : String) → (code c == 46) ≡ false → IsWhole w → IsWhole (String.◌∷◌ c w)
cons-IsWhole c w e (alone, joined) = (
  split_past c w e ∙ ap (λ p. (String.◌∷◌ c (p.0), p.1)) alone,
  λ t.
      ap split_point (cons-append c w (String.◌∷◌ (char 46 tt) t))
      ∙ split_past c (w ++ String.◌∷◌ (char 46 tt) t) e
      ∙ ap (λ p. (String.◌∷◌ c (p.0), p.1)) (joined t),
)

empty-IsWhole : IsWhole ""
empty-IsWhole = (refl, λ t. ap split_point (nil-append (String.◌∷◌ (char 46 tt) t)))

whole_part-IsWhole : (s : String) → IsWhole (whole_part s)
whole_part-IsWhole String.[] = empty-IsWhole
whole_part-IsWhole (String.◌∷◌ c s) = elim (Bool-cases (code c == 46)) [
  | inl e ↦ subst (λ p. IsWhole (p.0)) (sym (split_at c s e)) empty-IsWhole
  | inr e ↦
      subst (λ p. IsWhole (p.0)) (sym (split_past c s e))
        (cons-IsWhole c (whole_part s) e (whole_part-IsWhole s))
]

-- `r` is `s` with at most `n` places, cut off behind them.
abbrev pub IsCutAt : ℕ → String → String → Type 0
IsCutAt n s r =
    (whole_part r ≡ whole_part s)
    × (place_digits n (fraction r) ≡ place_digits n (fraction s))
    × (places (fraction r) ≤ n)

put_together-split :
    (w frac : String)
    → IsWhole w
    → (whole_part (put_together w frac) ≡ w) × (fraction (put_together w frac) ≡ frac)
put_together-split w frac (alone, joined) = elim (Bool-cases (frac == "")) [
  | inl e ↦ rw e (
    ap (λ p. p.0) alone,
    ap (λ p. or_no_places (p.1)) alone ∙ sym ((string_eq.same_iff frac "").0 e),
  )
  | inr e ↦ rw e (ap (λ p. p.0) (joined frac), ap (λ p. or_no_places (p.1)) (joined frac))
]

cut_places-IsCutAt :
    (n : ℕ) (s : String) (p : String × Option String)
    → split_point s ≡ p
    → IsCutAt n s (cut_places n s p)
cut_places-IsCutAt n s (w, none) e = (refl, refl, rw e (omega arith))
cut_places-IsCutAt n s (w, some frac) e = elim (Bool-cases (ltb n (len frac))) [
  | inl cut ↦
      let kept = trim_zeros (front n frac) in
      let chosen : cut_places n s (w, some frac) ≡ put_together w kept = rw cut refl in
      let (whole, behind) =
        put_together-split w kept (subst (λ p. IsWhole (p.0)) e (whole_part-IsWhole s)) in
      subst (IsCutAt n s) (sym chosen) (
        whole ∙ ap (λ p. p.0) (sym e),
        ap (place_digits n) behind
            ∙ place_digits-trim_zeros n (front n frac)
            ∙ place_digits-front n frac
            ∙ ap (λ p. place_digits n (or_no_places (p.1))) (sym e),
        omega (arith, ap places behind, places-trim_zeros (front n frac), places-front n frac),
      )
  | inr fits ↦
      let chosen : cut_places n s (w, some frac) ≡ s = rw fits refl in
      let behind : fraction s ≡ frac = ap (λ p. or_no_places (p.1)) e in
      subst (IsCutAt n s) (sym chosen)
        (refl, refl, ground (arith, ap places behind, places_below_len frac, fits))
]

module _ {F : Type 0} (ft : FloatText F) where
  open ft use {eq, trunc, format_float}

  -- The text of a number that is not whole, at a limit of n > 0 places, is the one that FormatFloat gives cut
  -- off behind n places: it has the same whole part, at most n places, and its places, filled up with zeros,
  -- are the first n of that text.
  pub float_to_string-IsCutAt :
      (num : F) (n : ℕ)
      → eq num (trunc num) ≡ false
      → IsCutAt (suc n) (format_float num) (float_to_string ft num (pos (suc n)))
  unfolding float_to_string
  float_to_string-IsCutAt num n e =
      let text = format_float num in
      let chosen : float_to_string ft num (pos (suc n))
          ≡ cut_places (suc n) text (split_point text) =
        rw e refl in
      subst (IsCutAt (suc n) text) (sym chosen)
        (cut_places-IsCutAt (suc n) text (split_point text) refl)
