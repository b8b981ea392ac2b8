-- ===== src/Market/Events/Shown.antt =====
-- polymarket/market_monitor.go: what the channels hold after messages.
use go_polymarket_sdk.Common.{
  ℕ, ◌≡◌, refl, sym, ap, ◌∙◌, Bool, true, false, List, [], ◌∷◌, map, take, arith, if◌then◌else◌,
  ◌<◌, ◌++◌, string_eq,
}
use go_polymarket_sdk.Common.Int.{ℤ}
use go_polymarket_sdk.Chan.{Chan, IsBounded, try_send, emit, emits}
use go_polymarket_sdk.Chan.Latest.{emits_lem, last_n}
use go_polymarket_sdk.Chan.Oldest.{try_sends, try_sends_lem, with_items}
use go_polymarket_sdk.Wire.{Gjson}
use go_polymarket_sdk.Market.{
  OrderBook, MarketMonitor, PriceChangeInfo, LastTradePriceInfo, ResolvedInfo,
}
use go_polymarket_sdk.Market.Books.{update_order_book}
use go_polymarket_sdk.Market.Events.Stored.{kind}
use go_polymarket_sdk.Market.Events.{
  Event, book, market_resolved, price_change, last_trade_price, other, dispatch, handle_message,
  on_message, is_pong, on_order_book, on_market_resolved, on_price_change, on_last_trade_price,
  order_book, emit_order_book, emit_price_change, emit_last_trade_price, price_change_item,
  resolved_info,
}

-- A channel with room for a value, and not over its capacity.
abbrev pub Takes : {A : Type 0} → Chan A → Type 0
Takes c = IsBounded c × (0 < c.cap)

-- The latest of what a channel held and of `xs`, as many as fit.
abbrev pub Shows : {A : Type 0} → Chan A → List A → Chan A → Type 0
Shows c xs d = d ≡ record c { items = last_n c.cap (c.items ++ xs) }

emits-append :
    {A : Type 0} (xs ys : List A) (c : Chan A) → emits (xs ++ ys) c ≡ emits ys (emits xs c)
unfolding emits
emits-append [] ys c = refl
emits-append (x ∷ xs) ys c = emits-append xs ys (emit x c).0

try_sends-append :
    {A : Type 0} (xs ys : List A) (c : Chan A)
    → try_sends (xs ++ ys) c ≡ try_sends ys (try_sends xs c)
unfolding try_sends
try_sends-append [] ys c = refl
try_sends-append (x ∷ xs) ys c = try_sends-append xs ys (try_send x c).0

module _ {F : Type 0} where
  -- All events are subscribed to.
  pub record AllSubscribed (m : MarketMonitor F) : Type 0 where
    pub books : m.order_book_subscribed ≡ true
    pub changes : m.price_change_subscribed ≡ true
    pub trades : m.last_trade_price_subscribed ≡ true
    pub resolutions : m.resolved_subscribed ≡ true

module _ {F : Type 0} (G : Gjson F) where
  open G use {Res, parse_bytes, get, string, int, array}

  -- The event that a message is handled as: a heartbeat is none.
  abbrev pub handled_as : List ℕ → Event
  handled_as msg = if is_pong msg then other else kind G msg

  -- What a message gives to each of the three channels that drop their oldest values.
  abbrev pub book_in : Event → ℤ → Res → List (OrderBook F)
  book_in book now info = order_book G now info ∷ []
  book_in market_resolved now info = []
  book_in price_change now info = []
  book_in last_trade_price now info = []
  book_in other now info = []

  abbrev pub change_in : Event → Res → List PriceChangeInfo
  change_in book info = []
  change_in market_resolved info = []
  change_in price_change info =
      record {
        event_type = string (get info "event_type");
        market = string (get info "market");
        price_changes = map (price_change_item G) (array (get info "price_changes"));
        timestamp = int (get info "timestamp");
      }
      ∷ []
  change_in last_trade_price info = []
  change_in other info = []

  abbrev pub trade_in : Event → Res → List LastTradePriceInfo
  trade_in book info = []
  trade_in market_resolved info = []
  trade_in price_change info = []
  trade_in last_trade_price info =
      record {
        event_type = string (get info "event_type");
        asset_id = string (get info "asset_id");
        market = string (get info "market");
        price = string (get info "price");
        size = string (get info "size");
        fee_rate_bps = string (get info "fee_rate_bps");
        side = string (get info "side");
        transaction_hash = string (get info "transaction_hash");
        timestamp = int (get info "timestamp");
      }
      ∷ []
  trade_in other info = []

  abbrev pub resolution_in : Event → Res → List ResolvedInfo
  resolution_in book info = []
  resolution_in market_resolved info = resolved_info G info ∷ []
  resolution_in price_change info = []
  resolution_in last_trade_price info = []
  resolution_in other info = []

  -- `n` is `m` after these values went into its channels.
  record Enter (bs : List (OrderBook F)) (cs : List PriceChangeInfo) (ts : List LastTradePriceInfo)
      (rs : List ResolvedInfo) (m n : MarketMonitor F) : Type 0 where
    books : n.order_book_ch ≡ emits bs m.order_book_ch
    changes : n.price_change_ch ≡ emits cs m.price_change_ch
    trades : n.last_trade_price_ch ≡ emits ts m.last_trade_price_ch
    resolutions : n.resolved_ch ≡ try_sends rs m.resolved_ch
    flags : AllSubscribed n

  dispatch-Enter :
      (e : Event) (now later : ℤ) (info : Res) (m : MarketMonitor F)
      → AllSubscribed m
      → Enter
          (book_in e now info)
          (change_in e info)
          (trade_in e info)
          (resolution_in e info)
          m
          (dispatch G e now later info m)
  unfolding emits try_sends on_order_book on_market_resolved on_price_change on_last_trade_price
      emit_order_book emit_price_change emit_last_trade_price update_order_book
  dispatch-Enter book now later info m h =
      ground (arith, h.books, h.changes, h.trades, h.resolutions)
  dispatch-Enter market_resolved now later info m h =
      ground (arith, h.books, h.changes, h.trades, h.resolutions)
  dispatch-Enter price_change now later info m h =
      ground (arith, h.books, h.changes, h.trades, h.resolutions)
  dispatch-Enter last_trade_price now later info m h =
      ground (arith, h.books, h.changes, h.trades, h.resolutions)
  dispatch-Enter other now later info m h =
      ground (arith, h.books, h.changes, h.trades, h.resolutions)

  on_message-Enter :
      (now later : ℤ) (msg : List ℕ) (m : MarketMonitor F)
      → AllSubscribed m
      → let e = handled_as msg in
        let info = parse_bytes msg in
        Enter
          (book_in e now info)
          (change_in e info)
          (trade_in e info)
          (resolution_in e info)
          m
          (on_message G now later msg m)
  unfolding on_message handle_message
  on_message-Enter now later msg m h = go (is_pong msg)
    where
      go :
          (b : Bool)
          → let e = if b then other else kind G msg in
            let info = parse_bytes msg in
            Enter
              (book_in e now info)
              (change_in e info)
              (trade_in e info)
              (resolution_in e info)
              m
              (if b then m else dispatch G (kind G msg) now later info m)
      go true = dispatch-Enter other now later (parse_bytes msg) m h
      go false = dispatch-Enter (kind G msg) now later (parse_bytes msg) m h

  -- Messages as they are handled, each with the two times of its handler.
  unfoldable pub messages : List (ℤ × ℤ × List ℕ) → MarketMonitor F → MarketMonitor F
  messages [] m = m
  messages ((now, later, msg) ∷ ms) m = messages ms (on_message G now later msg m)

  -- The books, the changes of prices and the trades of messages, in their order.
  abbrev pub books_of : List (ℤ × ℤ × List ℕ) → List (OrderBook F)
  books_of [] = []
  books_of ((now, later, msg) ∷ ms) = book_in (handled_as msg) now (parse_bytes msg) ++ books_of ms

  abbrev pub changes_of : List (ℤ × ℤ × List ℕ) → List PriceChangeInfo
  changes_of [] = []
  changes_of ((now, later, msg) ∷ ms) =
      change_in (handled_as msg) (parse_bytes msg) ++ changes_of ms

  abbrev pub trades_of : List (ℤ × ℤ × List ℕ) → List LastTradePriceInfo
  trades_of [] = []
  trades_of ((now, later, msg) ∷ ms) = trade_in (handled_as msg) (parse_bytes msg) ++ trades_of ms

  abbrev pub resolutions_of : List (ℤ × ℤ × List ℕ) → List ResolvedInfo
  resolutions_of [] = []
  resolutions_of ((now, later, msg) ∷ ms) =
      resolution_in (handled_as msg) (parse_bytes msg) ++ resolutions_of ms

  messages-Enter :
      (ms : List (ℤ × ℤ × List ℕ)) (m : MarketMonitor F)
      → AllSubscribed m
      → Enter (books_of ms) (changes_of ms) (trades_of ms) (resolutions_of ms) m (messages ms m)
  unfolding messages emits try_sends
  messages-Enter [] m h = record {
    books = refl;
    changes = refl;
    trades = refl;
    resolutions = refl;
    flags = h;
  }
  messages-Enter ((now, later, msg) ∷ ms) m h =
      let info = parse_bytes msg in
      let e = handled_as msg in
      let one = on_message-Enter now later msg m h in
      let rest = messages-Enter ms (on_message G now later msg m) one.flags in
      record {
        books =
            rest.books
            ∙ ap (emits (books_of ms)) one.books
            ∙ sym (emits-append (book_in e now info) (books_of ms) m.order_book_ch);
        changes =
            rest.changes
            ∙ ap (emits (changes_of ms)) one.changes
            ∙ sym (emits-append (change_in e info) (changes_of ms) m.price_change_ch);
        trades =
            rest.trades
            ∙ ap (emits (trades_of ms)) one.trades
            ∙ sym (emits-append (trade_in e info) (trades_of ms) m.last_trade_price_ch);
        resolutions =
            rest.resolutions
            ∙ ap (try_sends (resolutions_of ms)) one.resolutions
            ∙ sym (try_sends-append (resolution_in e info) (resolutions_of ms) m.resolved_ch);
        flags = rest.flags;
      }

  -- On a monitor that is subscribed to all events, and while nobody receives: after any messages the channels of
  -- books, of changes of prices and of trades, if each has a capacity of at least one, hold the latest of the
  -- values that they held and of those of their own event, and the channel of resolutions the oldest.
  pub messages_show :
      (ms : List (ℤ × ℤ × List ℕ)) (m : MarketMonitor F)
      → AllSubscribed m
      → Takes m.order_book_ch
      → Takes m.price_change_ch
      → Takes m.last_trade_price_ch
      → IsBounded m.resolved_ch
      → let m' = messages ms m in
        Shows m.order_book_ch (books_of ms) m'.order_book_ch
        × Shows m.price_change_ch (changes_of ms) m'.price_change_ch
        × Shows m.last_trade_price_ch (trades_of ms) m'.last_trade_price_ch
        × (m'.resolved_ch
            ≡ with_items m.resolved_ch
                (take m.resolved_ch.cap (m.resolved_ch.items ++ resolutions_of ms)))
  messages_show ms m h (b, b1) (c, c1) (t, t1) r =
      let e = messages-Enter ms m h in
      (
        e.books ∙ emits_lem (books_of ms) m.order_book_ch b b1,
        e.changes ∙ emits_lem (changes_of ms) m.price_change_ch c c1,
        e.trades ∙ emits_lem (trades_of ms) m.last_trade_price_ch t t1,
        e.resolutions ∙ try_sends_lem (resolutions_of ms) m.resolved_ch r,
      )
