-- ===== src/Market/Events.antt =====
-- polymarket/market_monitor.go: `OnMessage` and the handlers of the four events. `now` is the clock
-- in milliseconds, `G` the gjson library. gjson does not panic, so `recover` has nothing to do.
pub mod Stored
pub mod Shown
use go_polymarket_sdk.Common.{
  ℕ, Bool, true, false, not, ◌&&◌, ◌||◌, Option, none, some, String, List, [], ◌∷◌, map, ◌==◌,
  string_eq, nat_eq, if◌then◌else◌,
}
use go_polymarket_sdk.Common.Int.{ℤ, sub64}
use go_polymarket_sdk.Chan.{try_send, emit}
use go_polymarket_sdk.Wire.{Gjson, get_string_array}
use go_polymarket_sdk.Market.{
  Book, OrderBook, ResolvedInfo, PriceChangeItem, PriceChangeInfo, LastTradePriceInfo,
  MarketMonitor,
}
use go_polymarket_sdk.Market.Books.{update_order_book}

-- The event's kind, as `handleMessage` switches on it.
pub data Event : Type 0 where
  book market_resolved price_change last_trade_price other : Event

unfoldable pub event_of : String → Event
event_of s =
    if s == "book"
    then book
    else if s == "market_resolved"
    then market_resolved
    else if s == "price_change"
    then price_change
    else if s == "last_trade_price"
    then last_trade_price
    else other

module _ {F : Type 0} where
  unfoldable pub subscribe_order_book : MarketMonitor F → MarketMonitor F
  subscribe_order_book m = record m { order_book_subscribed = true }

  unfoldable pub subscribe_resolved : MarketMonitor F → MarketMonitor F
  subscribe_resolved m = record m { resolved_subscribed = true }

  unfoldable pub subscribe_price_change : MarketMonitor F → MarketMonitor F
  subscribe_price_change m = record m { price_change_subscribed = true }

  unfoldable pub subscribe_last_trade_price : MarketMonitor F → MarketMonitor F
  subscribe_last_trade_price m = record m { last_trade_price_subscribed = true }

  unfoldable pub unsubscribe_order_book : MarketMonitor F → MarketMonitor F
  unsubscribe_order_book m = record m { order_book_subscribed = false }

  unfoldable pub unsubscribe_resolved : MarketMonitor F → MarketMonitor F
  unsubscribe_resolved m = record m { resolved_subscribed = false }

  unfoldable pub unsubscribe_price_change : MarketMonitor F → MarketMonitor F
  unsubscribe_price_change m = record m { price_change_subscribed = false }

  unfoldable pub unsubscribe_last_trade_price : MarketMonitor F → MarketMonitor F
  unsubscribe_last_trade_price m = record m { last_trade_price_subscribed = false }

  unfoldable pub emit_order_book : OrderBook F → MarketMonitor F → MarketMonitor F
  emit_order_book b m = record m { order_book_ch = (emit b m.order_book_ch).0 }

  unfoldable pub emit_price_change : PriceChangeInfo → MarketMonitor F → MarketMonitor F
  emit_price_change i m = record m { price_change_ch = (emit i m.price_change_ch).0 }

  unfoldable pub emit_last_trade_price : LastTradePriceInfo → MarketMonitor F → MarketMonitor F
  emit_last_trade_price i m = record m { last_trade_price_ch = (emit i m.last_trade_price_ch).0 }

module _ {F : Type 0} (G : Gjson F) where
  open G use {Res, parse_bytes, get, string, int, float, array}

  unfoldable pub resolved_info : Res → ResolvedInfo
  resolved_info info = record {
    event_type = string (get info "event_type");
    id = string (get info "id");
    market = string (get info "market");
    assets_ids = get_string_array G info "assets_ids";
    winning_asset_id = string (get info "winning_asset_id");
    winning_outcome = string (get info "winning_outcome");
    timestamp = int (get info "timestamp");
    tags = get_string_array G info "tags";
  }

  -- A full channel drops the new event.
  unfoldable pub on_market_resolved : Res → MarketMonitor F → MarketMonitor F
  on_market_resolved info m = record m {
    resolved_ch = (try_send (resolved_info info) m.resolved_ch).0;
  }

  abbrev pub level : Res → Book F
  level v = record { price = float (get v "price"); size = float (get v "size") }

  unfoldable pub order_book : ℤ → Res → OrderBook F
  order_book now info =
      let timestamp = int (get info "timestamp") in
      record {
        market = string (get info "market");
        asset_id = string (get info "asset_id");
        timestamp = timestamp;
        latency = sub64 now timestamp;
        bids = map level (array (get info "bids"));
        asks = map level (array (get info "asks"));
      }

  unfoldable pub on_order_book : ℤ → ℤ → Res → MarketMonitor F → MarketMonitor F
  on_order_book now later info m =
      let b = order_book now info in emit_order_book b (update_order_book later b m)

  unfoldable pub price_change_item : Res → PriceChangeItem
  price_change_item v = record {
    asset_id = string (get v "asset_id");
    price = string (get v "price");
    size = string (get v "size");
    side = string (get v "side");
    hash = string (get v "hash");
    best_bid = string (get v "best_bid");
    best_ask = string (get v "best_ask");
  }

  unfoldable pub on_price_change : Res → MarketMonitor F → MarketMonitor F
  unfolding price_change_item
  on_price_change info m =
      emit_price_change
        (record {
          event_type = string (get info "event_type");
          market = string (get info "market");
          price_changes = map price_change_item (array (get info "price_changes"));
          timestamp = int (get info "timestamp");
        })
        m

  unfoldable pub on_last_trade_price : Res → MarketMonitor F → MarketMonitor F
  on_last_trade_price info m =
      emit_last_trade_price
        (record {
          event_type = string (get info "event_type");
          asset_id = string (get info "asset_id");
          market = string (get info "market");
          price = string (get info "price");
          size = string (get info "size");
          fee_rate_bps = string (get info "fee_rate_bps");
          side = string (get info "side");
          transaction_hash = string (get info "transaction_hash");
          timestamp = int (get info "timestamp");
        })
        m

  abbrev pub dispatch : Event → ℤ → ℤ → Res → MarketMonitor F → MarketMonitor F
  dispatch book now later info m =
      if m.order_book_subscribed || m.is_store then on_order_book now later info m else m
  dispatch market_resolved now later info m =
      if m.resolved_subscribed then on_market_resolved info m else m
  dispatch price_change now later info m =
      if m.price_change_subscribed then on_price_change info m else m
  dispatch last_trade_price now later info m =
      if m.last_trade_price_subscribed then on_last_trade_price info m else m
  dispatch other now later info m = m

  -- `now` is the clock when the book is read, `later` when it is stored.
  unfoldable pub handle_message : ℤ → ℤ → List ℕ → MarketMonitor F → MarketMonitor F
  handle_message now later msg m =
      let info = parse_bytes msg in
      dispatch (event_of (string (get info "event_type"))) now later info m

-- The heartbeat "PONG".
abbrev pub is_pong : List ℕ → Bool
is_pong (p ∷ (o ∷ (n ∷ (g ∷ [])))) = p == b'P' && o == b'O' && n == b'N' && g == b'G'
is_pong _ = false

unfoldable pub on_message :
    {F : Type 0} (G : Gjson F) → ℤ → ℤ → List ℕ → MarketMonitor F → MarketMonitor F
on_message G now later msg m = if is_pong msg then m else handle_message G now later msg m
