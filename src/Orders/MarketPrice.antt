-- ===== src/Orders/MarketPrice.antt =====
-- orders/order_helper.go: CalculateBuyMarketPrice and CalculateSellMarketPrice; and
-- CalculateMarketPrice of polymarket/polymarket.go on the book that it is given or fetches.
pub mod Depth
use go_polymarket_sdk.Common.{
  Bool, true, false, Option, none, some, List, [], ◌∷◌, ◌==◌, string_eq, if◌then◌else◌,
}
use mathlib.Core.List.{reverse}
use go_polymarket_sdk.Decimals.{Float64}
use go_polymarket_sdk.Market.{Book}
use go_polymarket_sdk.Orders.{Side, buy, MarketOrderType, market_fok, market_fak}

pub data PriceError : Type 0 where
  no_match no_orderbook : PriceError

pub data Result (A : Type 0) : Type 0 where
  ok : A → Result A
  err : PriceError → Result A

module _ {F : Type 0} (fl : Float64 F) where
  open fl use {zero, add, mul, leb}

  -- The loop from the end of the slice, on the reversed list. `value` is what a level adds.
  unfoldable pub scan : (Book F → F) → F → F → List (Book F) → Option F
  scan value amount sum [] = none
  scan value amount sum (p ∷ ps) =
      let sum' = add sum (value p) in
      let rest = scan value amount sum' ps in if leb amount sum' then some p.price else rest

  -- What follows the loop: `books[0].Price`, or "no match" for a FOK order.
  abbrev pub unmatched : List (Book F) → MarketOrderType → Result F
  unmatched [] t = err no_match
  unmatched (b ∷ bs) market_fok = err no_match
  unmatched (b ∷ bs) market_fak = ok b.price

  abbrev pub matched : Option F → List (Book F) → MarketOrderType → Result F
  matched none books t = unmatched books t
  matched (some p) books t = ok p

  abbrev pub cost : Book F → F
  cost p = mul p.size p.price

  unfoldable pub calculate_buy_market_price : List (Book F) → F → MarketOrderType → Result F
  calculate_buy_market_price books amount t =
      matched (scan cost amount zero (reverse books)) books t

  abbrev pub shares : Book F → F
  shares p = p.size

  unfoldable pub calculate_sell_market_price : List (Book F) → F → MarketOrderType → Result F
  calculate_sell_market_price books amount t =
      matched (scan shares amount zero (reverse books)) books t

  -- The bids and the asks of an OrderBookSummary; a fetch that fails gives `none`.
  abbrev pub Sides : Type 0
  Sides = List (Book F) × List (Book F)

  unfoldable pub calculate_market_price :
      Side → F → MarketOrderType → Option Sides → Option Sides → Result F
  calculate_market_price side amount t given fetched = on_book (or_fetched given fetched)
    where
      or_fetched : Option Sides → Option Sides → Option Sides
      or_fetched none fetched = fetched
      or_fetched (some b) fetched = some b

      on_book : Option Sides → Result F
      on_book none = err no_orderbook
      on_book (some (bids, asks)) =
          if side == buy
          then calculate_buy_market_price asks amount t
          else calculate_sell_market_price bids amount t
