-- ===== src/Examples/Market.antt =====
-- Runs of polymarket/market_monitor.go's monitor.
use go_polymarket_sdk.Common.{
  ℕ, ◌<◌, ◌++◌, ◌==◌, if◌then◌else◌, ◌≡◌, refl, true, false, none, some, String, List, [], ◌∷◌,
  arith, take, string_eq,
}
use go_polymarket_sdk.Common.Int.{ℤ, pos}
use go_polymarket_sdk.Chan
use go_polymarket_sdk.Chan.{Chan, IsBounded}
use go_polymarket_sdk.Wire.{Json, obj, end, field, str, num, nil, arr}
use go_polymarket_sdk.WsClient.{WsClient}
use go_polymarket_sdk.Market.{OrderBook, MarketMonitor, new_market_monitor}
use go_polymarket_sdk.Market.Books.{stored}
use go_polymarket_sdk.Market.Books.Latest.{
  newer, updates, newest, stored-updates, NoOlder, Dominates, updates_never_roll_back,
}
use go_polymarket_sdk.Market.Tokens.Distinct.{
  IsDistinct, apply_all, apply_all-IsDistinct, subscribes, unsubscribes, resets, opens,
}
use go_polymarket_sdk.Market.Events.{book, event_of, order_book, on_message}
use go_polymarket_sdk.Market.Events.Stored.{kind, on_message_book}
use go_polymarket_sdk.Market.Events.Shown.{
  AllSubscribed, Takes, Shows, messages, messages_show, books_of, changes_of, trades_of,
  resolutions_of,
}
use go_polymarket_sdk.Chan.Oldest.{with_items}
use go_polymarket_sdk.Chan.Latest.{last_n}
use go_polymarket_sdk.Examples.Values.{wire}

abbrev pub book_at : String → ℕ → OrderBook ℕ
book_at token time = record {
  market = "0xm";
  asset_id = token;
  timestamp = pos time;
  latency = pos 0;
  bids = record { price = 40; size = 5 } ∷ record { price = 45; size = 7 } ∷ [];
  asks = record { price = 60; size = 5 } ∷ [];
}

abbrev pub monitor : MarketMonitor ℕ
monitor = new_market_monitor "wss://ws" true true

abbrev arrivals : List (ℤ × OrderBook ℕ)
arrivals =
    (pos 11, book_at "a" 10)
    ∷ (pos 21, book_at "b" 20)
    ∷ (pos 31, book_at "a" 30)
    ∷ (pos 32, book_at "a" 25)
    ∷ []

pub stores : monitor.is_store ≡ true
unfolding new_market_monitor
stores = refl

stored-updates_example :
    stored (updates arrivals monitor) "a" ≡ newest "a" arrivals (stored monitor "a")
stored-updates_example = stored-updates arrivals monitor "a" stores

updates_never_roll_back_example :
    let b = stored (updates arrivals monitor) "a" in
    NoOlder (stored monitor "a") b × Dominates "a" b arrivals
updates_never_roll_back_example = updates_never_roll_back arrivals monitor "a" stores

abbrev socket : WsClient Json
socket = record {
  cfg = record {
    url = "wss://ws/ws/market";
    handshake_timeout = pos 1;
    msg_buffer_size = pos 8;
    worker_num = pos 1;
    read_buffer_size = pos 0;
    write_buffer_size = pos 0;
    ping_interval = pos 1;
    pong_wait = pos 1;
    text_heartbeat = false;
    text_heartbeat_msg = none;
    reconnect = true;
    reconnect_delay = pos 1;
    max_reconnect = pos 3;
  };
  has_handler = true;
  conn = true;
  written = [];
  send_ch = Chan.make 8;
  msg_ch = Chan.make 8;
  ctrl_ch = Chan.make 1;
  alive = true;
  closed = false;
}

abbrev busy : MarketMonitor ℕ
busy = record monitor { ws = some socket; subs_tokens = "a" ∷ "b" ∷ [] }

apply_all-IsDistinct_example :
    IsDistinct
      (apply_all
        (subscribes ("a" ∷ "a" ∷ []) ∷ opens ∷ unsubscribes ("b" ∷ []) ∷ resets true ∷ [])
        (new_market_monitor {F = ℕ} "wss://ws" true false)).subs_tokens
apply_all-IsDistinct_example =
    apply_all-IsDistinct ℕ
      (subscribes ("a" ∷ "a" ∷ []) ∷ opens ∷ unsubscribes ("b" ∷ []) ∷ resets true ∷ []) "wss://ws"
      true false

abbrev book_message : Json
book_message = obj (
    field "event_type" (str "book")
      (field "asset_id" (str "a") (field "timestamp" (num (pos 40)) (field "bids" (arr nil) end))))

is_book : kind (wire book_message) (1 ∷ 2 ∷ []) ≡ book
unfolding event_of
is_book = refl

has_room : IsBounded busy.order_book_ch
unfolding new_market_monitor
has_room = omega arith

has_capacity : 0 < busy.order_book_ch.cap
unfolding new_market_monitor
has_capacity = omega arith

on_message_book_example :
    let b = order_book (wire book_message) (pos 50) book_message in
    let m' = on_message (wire book_message) (pos 50) (pos 51) (1 ∷ 2 ∷ []) busy in
    (stored m' "a" ≡ (if b.asset_id == "a" then newer (stored busy "a") b else stored busy "a"))
    × (m'.order_book_ch.items ≡ last_n busy.order_book_ch.cap (busy.order_book_ch.items ++ b ∷ []))
on_message_book_example =
    on_message_book (wire book_message) (pos 50) (pos 51) (1 ∷ 2 ∷ []) busy "a" refl is_book stores
      has_room has_capacity

-- A monitor that is subscribed to all events.
abbrev listening : MarketMonitor ℕ
listening = record busy {
  order_book_subscribed = true;
  resolved_subscribed = true;
  price_change_subscribed = true;
  last_trade_price_subscribed = true;
}

abbrev two_messages : List (ℤ × ℤ × List ℕ)
two_messages = (pos 50, pos 51, 1 ∷ 2 ∷ []) ∷ (pos 52, pos 53, 3 ∷ []) ∷ []

all_subscribed : AllSubscribed listening
all_subscribed = record { books = refl; changes = refl; trades = refl; resolutions = refl }

book_room : Takes listening.order_book_ch
unfolding new_market_monitor
book_room = (omega arith, omega arith)

change_room : Takes listening.price_change_ch
unfolding new_market_monitor
change_room = (omega arith, omega arith)

trade_room : Takes listening.last_trade_price_ch
unfolding new_market_monitor
trade_room = (omega arith, omega arith)

resolved_fits : IsBounded listening.resolved_ch
unfolding new_market_monitor
resolved_fits = omega arith

messages_show_example :
    let G = wire book_message in
    let m' = messages G two_messages listening in
    Shows listening.order_book_ch (books_of G two_messages) m'.order_book_ch
    × Shows listening.price_change_ch (changes_of G two_messages) m'.price_change_ch
    × Shows listening.last_trade_price_ch (trades_of G two_messages) m'.last_trade_price_ch
    × (m'.resolved_ch
        ≡ with_items listening.resolved_ch (
            take listening.resolved_ch.cap
              (listening.resolved_ch.items ++ resolutions_of G two_messages)))
messages_show_example =
    messages_show (wire book_message) two_messages listening all_subscribed book_room change_room
      trade_room resolved_fits
