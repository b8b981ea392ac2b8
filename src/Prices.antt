-- ===== src/Prices.antt =====
-- polymarket/crypto_price_monitor.go: the monitor of crypto prices. `F` is float64; gjson and the case
-- tables of package unicode are libraries'. Its context and its client are in Prices.Open.
pub mod Quotes
pub mod Feeds
pub mod Symbols
pub mod Topics
pub mod Open
pub mod Runs
use go_polymarket_sdk.Common.{
  ℕ, Bool, true, false, not, ◌&&◌, ◌||◌, Option, none, some, String, List, [], ◌∷◌, ◌++◌, map, ◌==◌,
  string_eq, nat_eq, if◌then◌else◌,
}
use Prim.Native.String.{◌++◌ as text_append}
use go_polymarket_sdk.Common.Int.{ℤ, pos, beq_ℤ}
use go_polymarket_sdk.Common.Maps.{Map, empty, insert, value_or}
use go_polymarket_sdk.Common.Text.{
  Unicode, to_upper, to_lower, contains_text, has_suffix, remove_first, join, cut_last,
}
use go_polymarket_sdk.Chan
use go_polymarket_sdk.Chan.{Chan, try_send}
use go_polymarket_sdk.Wire.{Json, Items, Gjson, nil, cons, str, arr, obj, end, field}
use go_polymarket_sdk.WsClient.{WsClient}
use go_polymarket_sdk.Market.Tokens.{send_if_alive, is_empty}

pub data MonitorType : Type 0 where
  monitor_all monitor_binance monitor_chainlink monitor_chainlink_twap : MonitorType
  -- Any other text.
  monitor_other : String → MonitorType

pub record ExternalPrice (F : Type 0) : Type 0 where
  pub symbol : String
  pub price : F
  pub source : String
  pub timestamp : ℤ
  pub window_seconds : ℤ

pub record Subscription : Type 0 where
  pub topic : String
  pub filters : String

pub record CryptoPriceMonitor (F : Type 0) : Type 0 where
  pub ws : Option (WsClient Json)
  pub binance_prices : Map String F
  pub chainlink_prices : Map String F
  pub chainlink_twap30_prices : Map String F
  pub chainlink_twap60_prices : Map String F
  pub subscriptions : List Subscription
  pub price_ch : Chan (ExternalPrice F)

abbrev pub binance_suffix : String
binance_suffix = "usdt"

abbrev pub chainlink_suffix : String
chainlink_suffix = "/usd"

abbrev pub twap_thirty : String
twap_thirty = "crypto_prices_twap_thirty"

abbrev pub twap_sixty : String
twap_sixty = "crypto_prices_twap_sixty"

abbrev pub is_all_or : MonitorType → MonitorType → Bool
is_all_or monitor_all t = true
is_all_or monitor_binance monitor_binance = true
is_all_or monitor_chainlink monitor_chainlink = true
is_all_or monitor_chainlink_twap monitor_chainlink_twap = true
is_all_or _ _ = false

-- "[a,b]", and "" where there is nothing to filter.
abbrev pub filters_of : List String → String
filters_of [] = ""
filters_of (f ∷ fs) = text_append "[" (text_append (join (f ∷ fs) ",") "]")

module _ (u : Unicode) where
  abbrev pub symbol_filter : String → String → String
  symbol_filter suffix symbol =
      text_append "{\"symbol\":\"" (text_append (to_lower u symbol) (text_append suffix "\"}"))

  -- A symbol without its window, and the window's seconds.
  unfoldable pub window_of : String → String × ℕ
  window_of symbol =
      let lower = to_lower u symbol in
      if has_suffix lower "_60"
      then (cut_last 3 symbol, 60)
      else if has_suffix lower "_30"
      then (cut_last 3 symbol, 30)
      else (symbol, 30)

  -- The loop of `buildTwapFilters`: the filters of 30 seconds and those of 60.
  unfoldable pub twap_filters : List String → List String × List String
  twap_filters [] = ([], [])
  twap_filters (symbol ∷ symbols) =
      let (s30, s60) = twap_filters symbols in
      let (base, window) = window_of symbol in
      let f = symbol_filter chainlink_suffix base in
      if window == 60 then (s30, f ∷ s60) else (f ∷ s30, s60)

  unfoldable pub build_twap_filters : List String → String × String
  build_twap_filters symbols =
      let (s30, s60) = twap_filters symbols in (filters_of s30, filters_of s60)

  abbrev pub subscribed : Bool → String → String → List Subscription
  subscribed true topic filters = record { topic = topic; filters = filters } ∷ []
  subscribed false topic filters = []

  abbrev pub twap_subscriptions : MonitorType → List String → List Subscription
  twap_subscriptions monitor_all symbols =
      let sc = filters_of (map (symbol_filter chainlink_suffix) symbols) in
      subscribed true twap_thirty sc ++ subscribed true twap_sixty sc
  twap_subscriptions monitor_chainlink_twap symbols =
      let (filters30, filters60) = build_twap_filters symbols in
      if is_empty symbols
      then subscribed true twap_thirty "" ++ subscribed true twap_sixty ""
      else subscribed (not (filters30 == "")) twap_thirty filters30
        ++ subscribed (not (filters60 == "")) twap_sixty filters60
  twap_subscriptions _ symbols = []

  unfoldable pub subscriptions_of : MonitorType → List String → List Subscription
  subscriptions_of monitor_type symbols =
      subscribed (is_all_or monitor_type monitor_binance) "crypto_prices"
        (filters_of (map (symbol_filter binance_suffix) symbols))
      ++ subscribed (is_all_or monitor_type monitor_chainlink) "crypto_prices_chainlink"
          (filters_of (map (symbol_filter chainlink_suffix) symbols))
      ++ twap_subscriptions monitor_type symbols

  unfoldable pub new_crypto_price_monitor :
      {F : Type 0} → MonitorType → List String → CryptoPriceMonitor F
  new_crypto_price_monitor monitor_type symbols = record {
    ws = none;
    binance_prices = empty;
    chainlink_prices = empty;
    chainlink_twap30_prices = empty;
    chainlink_twap60_prices = empty;
    subscriptions = subscriptions_of monitor_type symbols;
    price_ch = Chan.make 65536;
  }

-- json.Marshal writes a map's keys in their order.
abbrev pub marshal_all : List Subscription → Items
marshal_all [] = nil
marshal_all (s ∷ ss) =
    cons
      (obj (
        field "filters" (str s.filters)
          (field "topic" (str s.topic) (field "type" (str "update") end))))
      (marshal_all ss)

module _ {F : Type 0} where
  -- `OnOpen` and `OnReconnect` do nothing else.
  unfoldable pub subscribe : CryptoPriceMonitor F → CryptoPriceMonitor F
  subscribe m = record m {
    ws =
        send_if_alive
          (obj (
            field "action" (str "subscribe")
              (field "subscriptions" (arr (marshal_all m.subscriptions)) end)))
          m.ws;
  }

  -- A full channel drops the new price.
  unfoldable pub emit_price : ExternalPrice F → CryptoPriceMonitor F → CryptoPriceMonitor F
  emit_price p m = record m { price_ch = (try_send p m.price_ch).0 }

module _ {F : Type 0} (G : Gjson F) (u : Unicode) where
  open G use {Res, parse, get, string, int, float}

  abbrev pub payload_symbol : Res → String → String
  payload_symbol doc suffix = to_upper u (remove_first (string (get doc "payload.symbol")) suffix)

  abbrev pub external_price : Res → String → String → ℤ → ExternalPrice F
  external_price doc symbol source window = record {
    symbol = symbol;
    price = float (get doc "payload.value");
    source = source;
    timestamp = int (get doc "payload.timestamp");
    window_seconds = window;
  }

  unfoldable pub on_binance : Res → CryptoPriceMonitor F → CryptoPriceMonitor F
  on_binance doc m =
      let symbol = payload_symbol doc "usdt" in
      if not (symbol == "")
      then emit_price (external_price doc symbol "Binance" (pos 0)) (record m {
        binance_prices = insert symbol (float (get doc "payload.value")) m.binance_prices;
      })
      else m

  unfoldable pub on_chainlink : Res → CryptoPriceMonitor F → CryptoPriceMonitor F
  on_chainlink doc m =
      let symbol = payload_symbol doc "/usd" in
      if not (symbol == "")
      then emit_price (external_price doc symbol "Chainlink" (pos 0)) (record m {
        chainlink_prices = insert symbol (float (get doc "payload.value")) m.chainlink_prices;
      })
      else m

  -- The text of a window is that of 30 or 60.
  unfoldable pub on_twap : Res → CryptoPriceMonitor F → CryptoPriceMonitor F
  on_twap doc m =
      let symbol = payload_symbol doc "/usd" in
      let price = float (get doc "payload.value") in
      let window = int (get doc "payload.window_s") in
      if not (symbol == "") && (beq_ℤ window (pos 30) || beq_ℤ window (pos 60))
      then (if beq_ℤ window (pos 30)
          then emit_price (external_price doc symbol "ChainlinkTWAP30" window)
              (record m { chainlink_twap30_prices = insert symbol price m.chainlink_twap30_prices })
          else emit_price (external_price doc symbol "ChainlinkTWAP60" window) (record m {
            chainlink_twap60_prices = insert symbol price m.chainlink_twap60_prices;
          }))
      else m

  unfoldable pub handle_message : String → CryptoPriceMonitor F → CryptoPriceMonitor F
  handle_message msg m =
      let doc = parse msg in
      let topic = string (get doc "topic") in
      if not (string (get doc "type") == "update")
      then m
      else if topic == "crypto_prices"
      then on_binance doc m
      else if topic == "crypto_prices_chainlink"
      then on_chainlink doc m
      else if topic == twap_thirty || topic == twap_sixty
      then on_twap doc m
      else m

  unfoldable pub on_message : String → CryptoPriceMonitor F → CryptoPriceMonitor F
  on_message msg m = if not (msg == "PONG") && not (msg == "") then handle_message msg m else m

-- `zero` is the float 0.
module _ {F : Type 0} (u : Unicode) (zero : F) where
  unfoldable pub get_external_price : String → String → CryptoPriceMonitor F → F
  get_external_price symbol resolution_source m =
      if contains_text resolution_source "data.chain.link"
      then value_or zero (m.chainlink_prices (to_upper u symbol))
      else if contains_text resolution_source "www.binance.com"
      then value_or zero (m.binance_prices (to_upper u symbol))
      else zero

  unfoldable pub get_twap_price : String → ℤ → CryptoPriceMonitor F → F
  get_twap_price symbol window_seconds m =
      if beq_ℤ window_seconds (pos 30)
      then value_or zero (m.chainlink_twap30_prices (to_upper u symbol))
      else if beq_ℤ window_seconds (pos 60)
      then value_or zero (m.chainlink_twap60_prices (to_upper u symbol))
      else zero
