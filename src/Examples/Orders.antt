-- ===== src/Examples/Orders.antt =====
-- Runs of the order arithmetic: utils/utils.go, orders/types_impl.go, orders/order_helper.go.
use go_polymarket_sdk.Common.{ℕ, ◌≡◌, refl, List, [], ◌∷◌, string_eq}
use go_polymarket_sdk.Market.{Book}
use go_polymarket_sdk.Orders.{buy, market_fok, RoundConfig}
use go_polymarket_sdk.Orders.MarketPrice.{cost, calculate_buy_market_price}
use go_polymarket_sdk.Orders.MarketPrice.Depth.{IsMarketPrice, calculate_buy_market_price_lem}
use go_polymarket_sdk.Orders.Amounts.{get_order_raw_amounts}
use go_polymarket_sdk.Orders.Amounts.Exact.{exact_amounts, get_order_raw_amounts_exact}
use go_polymarket_sdk.Examples.Values.{milli, scaled, scaled_laws}

abbrev book_level : ℕ → ℕ → Book ℕ
book_level price size = record { price = price; size = size }

-- Asks, the best one last.
abbrev asks : List (Book ℕ)
asks = book_level 700 9000 ∷ book_level 600 5000 ∷ book_level 550 2000 ∷ []

calculate_buy_market_price_example :
    IsMarketPrice milli
      (cost milli)
      3000
      asks
      market_fok
      (calculate_buy_market_price milli asks 3000 market_fok)
calculate_buy_market_price_example = calculate_buy_market_price_lem milli asks 3000 market_fok

abbrev cents : RoundConfig
cents = record { price = 2; size = 2; amount = 4 }

get_order_raw_amounts_example :
    get_order_raw_amounts scaled buy 12_345 567 cents
    ≡ exact_amounts scaled scaled_laws buy 12_345 567 cents
get_order_raw_amounts_example =
    get_order_raw_amounts_exact scaled scaled_laws buy 12_345 567 cents refl
