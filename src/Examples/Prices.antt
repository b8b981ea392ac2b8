-- ===== src/Examples/Prices.antt =====
-- Runs of polymarket/crypto_price_monitor.go's monitor.
use go_polymarket_sdk.Common.{
  ℕ, ◌≡◌, refl, true, none, String, [], ◌∷◌, ◌==◌, string_eq, if◌then◌else◌, arith,
}
use go_polymarket_sdk.Common.Int.{pos}
use go_polymarket_sdk.Common.Maps.{empty}
use go_polymarket_sdk.Common.Text.{Unicode}
use native.Mathlib.Decide.{dec_lt}
use go_polymarket_sdk.Chan
use go_polymarket_sdk.Wire.{Json, Gjson, obj, field, end, str, num}
use go_polymarket_sdk.Prices.{
  CryptoPriceMonitor, monitor_all, monitor_binance, new_crypto_price_monitor, subscriptions_of,
  get_external_price, get_twap_price, on_message,
}
use go_polymarket_sdk.Prices.Quotes.{binance}
use go_polymarket_sdk.Prices.Feeds.{messages, getters_show_latest}
use go_polymarket_sdk.Prices.Symbols.{get_external_price-on_message, AsksFor}
use go_polymarket_sdk.Prices.Topics.{
  subscriptions_of-AreHandled, IsHandled, all_distinct, topics_of,
}
use go_polymarket_sdk.Examples.Values.{wire, lookup}

abbrev pub ascii_only : Unicode
ascii_only = record { upper = λ c. c; lower = λ c. c }

abbrev at_path : Json → String → Json
at_path doc path =
    if path == "payload.symbol"
    then lookup (lookup doc "payload") "symbol"
    else if path == "payload.value"
    then lookup (lookup doc "payload") "value"
    else if path == "payload.timestamp"
    then lookup (lookup doc "payload") "timestamp"
    else if path == "payload.window_s"
    then lookup (lookup doc "payload") "window_s"
    else lookup doc path

abbrev price_wire : Json → Gjson ℕ
price_wire doc = record (wire doc) { get = at_path }

abbrev update_message : String → String → Json
update_message topic symbol = obj (
    field "topic" (str topic) (
      field "type" (str "update") (
        field "payload"
          (obj (
            field "symbol" (str symbol)
              (field "value" (num (pos 500)) (field "window_s" (num (pos 60)) end))))
          end)))

abbrev spot : Gjson ℕ
spot = price_wire (update_message "crypto_prices" "btcusdt")

abbrev fresh : CryptoPriceMonitor ℕ
fresh = new_crypto_price_monitor ascii_only monitor_all ("BTC" ∷ [])

abbrev binance_source : String
binance_source = "https://www.binance.com/en/trade/BTC_USDT"

getters_show_latest_example :
    (get_external_price ascii_only 0 "btc" binance_source
        (messages spot ascii_only ("{}" ∷ "PONG" ∷ []) fresh)
      ≡ 500)
    × (get_twap_price ascii_only 0 "btc"
          (pos 30)
          (messages spot ascii_only ("{}" ∷ "PONG" ∷ []) fresh)
        ≡ 0)
unfolding dec_lt
getters_show_latest_example =
    getters_show_latest spot ascii_only ("{}" ∷ "PONG" ∷ []) monitor_all ("BTC" ∷ []) 0 "btc"
      binance_source (pos 30)

abbrev narrow : CryptoPriceMonitor ℕ
narrow = record {
  ws = none;
  binance_prices = empty;
  chainlink_prices = empty;
  chainlink_twap30_prices = empty;
  chainlink_twap60_prices = empty;
  subscriptions = [];
  price_ch = Chan.make 1;
}

get_external_price-on_message_example :
    AsksFor spot ascii_only binance "BTC" "btcusdt"
    × (get_external_price ascii_only 0 "BTC" binance_source (on_message spot ascii_only "{}" narrow)
        ≡ 500)
unfolding dec_lt
get_external_price-on_message_example =
    get_external_price-on_message spot ascii_only "{}" "BTC" binance_source binance 0 narrow refl
      (omega arith, (omega arith, (omega arith, tt))) (refl, (refl, (refl, tt))) refl refl refl refl
      refl

subscriptions_of-AreHandled_example :
    (all_distinct (topics_of (subscriptions_of ascii_only monitor_binance ("btc" ∷ "eth" ∷ [])))
      ≡ true)
    × IsHandled spot ascii_only "{}" narrow
unfolding subscriptions_of
subscriptions_of-AreHandled_example =
    subscriptions_of-AreHandled spot ascii_only monitor_binance ("btc" ∷ "eth" ∷ []) "{}" narrow
      refl refl refl refl
