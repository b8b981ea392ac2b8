-- ===== src/Decimals/Scale.antt =====
-- utils/utils.go: the rounding helpers give at most the decimal places that they are asked for.
use go_polymarket_sdk.Common.{ℕ, zero, suc, ◌+◌, ◌≤◌, ◌≡◌, refl, true, arith, Bool-cases, inl, inr}
use go_polymarket_sdk.Common.Int.{pos, negsuc, neg_part, ◌≤ℤ◌, parts_zero}
use go_polymarket_sdk.Decimals.{
  Decimal, DecimalLaws, decimal_places, already_within_scale, scale_of, round_normal, round_down,
  round_up,
}

module _ {F : Type 0} (dec : Decimal F) (laws : DecimalLaws dec) where
  open dec use {D, exponent, mul, truncate}

  pub already_within_scale_iff :
      (d : D) (n : ℕ) → already_within_scale dec d n ≡ true → decimal_places dec d ≤ n
  unfolding already_within_scale decimal_places
  already_within_scale_iff d n h = ground arith

  scale_exponent : (n : ℕ) → neg_part (exponent (scale_of dec n)) ≡ n
  scale_exponent zero = rw (laws.exponent-new (pos 1) (pos 0)) refl
  scale_exponent (suc n) = rw (laws.exponent-new (pos 1) (negsuc n)) refl

  pub decimal_places-mul :
      (a b : D) → decimal_places dec (mul a b) ≤ decimal_places dec a + decimal_places dec b
  unfolding decimal_places
  decimal_places-mul a b = omega (arith, laws.exponent-mul a b, parts_zero (exponent (mul a b)))

  -- A whole number times the scale.
  scaled_places :
      (d : D) (n : ℕ) → pos 0 ≤ℤ exponent d → decimal_places dec (mul d (scale_of dec n)) ≤ n
  unfolding decimal_places
  scaled_places d n h =
      omega
        (arith, decimal_places-mul d (scale_of dec n), parts_zero (exponent d), scale_exponent n)

  -- Each helper gives a number of at most `n` decimal places.
  pub round_places :
      (d : D) (n : ℕ)
      → (decimal_places dec (round_normal dec d n) ≤ n)
        × (decimal_places dec (round_down dec d n) ≤ n)
        × (decimal_places dec (round_up dec d n) ≤ n)
  unfolding round_normal round_down round_up
  round_places d n = elim (Bool-cases (already_within_scale dec d n)) [
    | inl h ↦ rw h (let p = already_within_scale_iff d n h in (p, p, p))
    | inr h ↦ rw h (
      scaled_places _ n (laws.round-whole _),
      scaled_places _ n (laws.floor-whole _),
      scaled_places _ n (laws.ceil-whole _),
    )
  ]
