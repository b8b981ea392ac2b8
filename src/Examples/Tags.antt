-- ===== src/Examples/Tags.antt =====
-- Runs of polymarket/helper.go and of FetchOpenPrice.
use go_polymarket_sdk.Common.{◌≡◌, ◌⊎◌, true, none, some, String, string_eq}
use go_polymarket_sdk.Common.Int.{pos}
use go_polymarket_sdk.Wire.{Json, cons, nil, str, arr, obj, field, end}
use go_polymarket_sdk.Tags.{Time, symbol_slugs}
use go_polymarket_sdk.Prices.Open.{
  OpenPriceQuery, IsAnswerable, open_price_query, open_price_query-IsAnswerable,
}
use go_polymarket_sdk.Examples.Values.{wire}
use go_polymarket_sdk.Examples.Prices.{ascii_only}

-- 2026-08-31T06:15:00Z
abbrev august_end : Time
august_end = record { year = 2026; month = 8; day = 31; seconds = 22500; nanos = 0; offset = pos 0 }

abbrev tag : String → Json
tag slug = obj (field "slug" (str slug) end)

abbrev bitcoin_market : Json
bitcoin_market = obj (
    field "tags" (arr (cons (tag "Bitcoin") (cons (tag "5M") nil)))
      (field "endDate" (str "2026-08-31T06:15:00Z") end))

open_price_query-IsAnswerable_example :
    (open_price_query
        (wire bitcoin_market)
        ascii_only
        symbol_slugs
        (λ s. some august_end)
        bitcoin_market
        true
        (pos 60)
      ≡ none)
    ⊎ ((q : OpenPriceQuery) × (open_price_query
            (wire bitcoin_market)
            ascii_only
            symbol_slugs
            (λ s. some august_end)
            bitcoin_market
            true
            (pos 60)
          ≡ some q)
        × IsAnswerable q)
open_price_query-IsAnswerable_example =
    open_price_query-IsAnswerable (wire bitcoin_market) ascii_only symbol_slugs
      (λ s. some august_end) bitcoin_market true (pos 60)
