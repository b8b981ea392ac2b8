-- ===== src/Orders/Amounts.antt =====
-- orders/order_helper.go: the raw amounts of an order, as decimals and as the text that is sent.
pub mod Exact
use go_polymarket_sdk.Common.{
  ℕ, ◌+◌, Bool, true, false, String, ◌==◌, string_eq, if◌then◌else◌, ltb,
}
use go_polymarket_sdk.Decimals.{Decimal, decimal_places, round_normal, round_down, round_up}
use go_polymarket_sdk.Orders.{Side, buy, sell, RoundConfig}

module _ {F : Type 0} (dec : Decimal F) where
  open dec use {D, new_from_float, mul, div, truncate, to_string}

  -- The correction of an amount with too many places: round up `extra` places further, and round
  -- down what is then still too long.
  unfoldable pub corrected : ℕ → ℕ → D → D
  corrected amount extra d =
      if ltb amount (decimal_places dec d)
      then (let up = round_up dec d (amount + extra) in
          if ltb amount (decimal_places dec up) then round_down dec up amount else up)
      else d

  -- The side, and the maker and taker amounts.
  unfoldable pub get_order_raw_amounts : Side → F → F → RoundConfig → Side × String × String
  get_order_raw_amounts side size price c =
      let raw_price = round_normal dec (new_from_float price) c.price in
      if side == buy
      then (let raw_taker = round_down dec (new_from_float size) c.size in
          let raw_maker = corrected c.amount 4 (mul raw_taker raw_price) in
          (buy, to_string (truncate raw_maker c.amount), to_string (truncate raw_taker c.size)))
      else (let raw_maker = round_down dec (new_from_float size) c.size in
          let raw_taker = corrected c.amount 4 (mul raw_maker raw_price) in
          (sell, to_string (truncate raw_maker c.size), to_string (truncate raw_taker c.amount)))

  unfoldable pub get_market_order_raw_amounts : Side → F → F → RoundConfig → Side × String × String
  get_market_order_raw_amounts side amount price c =
      let raw_price = round_down dec (new_from_float price) c.price in
      let raw_maker = round_down dec (new_from_float amount) c.size in
      if side == buy
      then (let raw_taker = corrected c.amount 4 (div raw_maker raw_price) in
          (buy, to_string (truncate raw_maker c.size), to_string (truncate raw_taker c.amount)))
      else (let raw_taker = corrected c.amount 0 (mul raw_maker raw_price) in
          (sell, to_string (truncate raw_maker c.size), to_string (truncate raw_taker c.amount)))
