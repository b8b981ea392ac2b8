-- ===== src/Orders/Amounts/Exact.antt =====
-- orders/order_helper.go: with the rounding of a tick size the amounts of a limit order are exact.
use go_polymarket_sdk.Common.{
  ℕ, ◌+◌, ◌≤◌, ◌≡◌, refl, String, ◌==◌, string_eq, if◌then◌else◌, arith, le→not_ltb, Bool-cases,
  inl, inr,
}
use go_polymarket_sdk.Decimals.{
  Decimal, DecimalLaws, decimal_places, round_normal, round_down, round_up,
}
use go_polymarket_sdk.Decimals.Scale.{round_places, decimal_places-mul}
use go_polymarket_sdk.Orders.{Side, buy, sell, RoundConfig}
use go_polymarket_sdk.Orders.Amounts.{
  corrected, get_order_raw_amounts, get_market_order_raw_amounts,
}

module _ {F : Type 0} (dec : Decimal F) (laws : DecimalLaws dec) where
  open dec use {D, new_from_float, mul, div, truncate, to_string}

  -- A correction always brings an amount to the places that it is asked for.
  corrected_places :
      (amount extra : ℕ) (d : D) → decimal_places dec (corrected dec amount extra d) ≤ amount
  unfolding corrected
  corrected_places amount extra d =
      ground (arith, (round_places dec laws (round_up dec d (amount + extra)) amount).1)

  corrected_fits :
      (amount extra : ℕ) (d : D) → decimal_places dec d ≤ amount → corrected dec amount extra d ≡ d
  unfolding corrected
  corrected_fits amount extra d h = rw (le→not_ltb amount (decimal_places dec d) h)

  truncate_fits : (d : D) (n : ℕ) → decimal_places dec d ≤ n → truncate d n ≡ d
  unfolding decimal_places
  truncate_fits d n h = laws.truncate-fits d n h

  -- The amounts of a limit order, with no correction and no truncation.
  abbrev pub exact_amounts : Side → F → F → RoundConfig → Side × String × String
  exact_amounts side size price c =
      let tokens = round_down dec (new_from_float size) c.size in
      let money = mul tokens (round_normal dec (new_from_float price) c.price) in
      if side == buy
      then (buy, to_string money, to_string tokens)
      else (sell, to_string tokens, to_string money)

  -- With a rounding whose amount places are its price places plus its size places, and a decimal
  -- library with the documented exponents, the amounts of a limit order are the size rounded down
  -- and its exact product with the rounded price, for either side: the correction and the
  -- truncation change nothing.
  pub get_order_raw_amounts_exact :
      (side : Side) (size price : F) (c : RoundConfig)
      → c.amount ≡ c.price + c.size
      → get_order_raw_amounts dec side size price c ≡ exact_amounts side size price c
  unfolding get_order_raw_amounts
  get_order_raw_amounts_exact side size price c h =
      let tokens = round_down dec (new_from_float size) c.size in
      let p = round_normal dec (new_from_float price) c.price in
      let ht = (round_places dec laws (new_from_float size) c.size).1 in
      let hp = (round_places dec laws (new_from_float price) c.price).0 in
      let hm : decimal_places dec (mul tokens p) ≤ c.amount =
        omega (arith, decimal_places-mul dec laws tokens p) in
      rw (corrected_fits c.amount 4 (mul tokens p) hm)
        (rw (truncate_fits (mul tokens p) c.amount hm) (rw (truncate_fits tokens c.size ht) refl))

  -- A market order's amounts have at most the places of the rounding on both sides, whatever the
  -- price, so that here too the final truncation cuts nothing off.
  pub get_market_order_raw_amounts_places :
      (side : Side) (amount price : F) (c : RoundConfig)
      → (maker taker : D) × (decimal_places dec maker ≤ c.size)
        × (decimal_places dec taker ≤ c.amount)
        × (get_market_order_raw_amounts dec side amount price c
            ≡ (if side == buy then buy else sell, to_string maker, to_string taker))
  unfolding get_market_order_raw_amounts
  get_market_order_raw_amounts_places side amount price c =
      let p = round_down dec (new_from_float price) c.price in
      let maker = round_down dec (new_from_float amount) c.size in
      let hm = (round_places dec laws (new_from_float amount) c.size).1 in
      let bought = corrected dec c.amount 4 (div maker p) in
      let sold = corrected dec c.amount 0 (mul maker p) in
      elim (Bool-cases (side == buy)) [
        | inl e ↦ (
          maker,
          bought,
          hm,
          corrected_places c.amount 4 (div maker p),
          rw e (
              rw (truncate_fits maker c.size hm) (
                rw (truncate_fits bought c.amount (corrected_places c.amount 4 (div maker p)))
                  refl)),
        )
        | inr e ↦ (
          maker,
          sold,
          hm,
          corrected_places c.amount 0 (mul maker p),
          rw e (
              rw (truncate_fits maker c.size hm) (
                rw (truncate_fits sold c.amount (corrected_places c.amount 0 (mul maker p))) refl)),
        )
      ]
