-- ===== src/Market/Events/Stored.antt =====
-- polymarket/market_monitor.go: where a message book ends up, in the store and in its channel.
use go_polymarket_sdk.Common.{
  ℕ, ◌≡◌, refl, Bool, true, false, ◌||◌, String, List, [], ◌∷◌, arith, if◌then◌else◌, ◌<◌, ◌++◌,
  ◌==◌, string_eq,
}
use go_polymarket_sdk.Common.Int.{ℤ}
use go_polymarket_sdk.Chan.{IsBounded}
use go_polymarket_sdk.Chan.Latest.{emit_lem, last_n}
use go_polymarket_sdk.Wire.{Gjson}
use go_polymarket_sdk.Market.{OrderBook, MarketMonitor}
use go_polymarket_sdk.Market.Books.{update_order_book, stored}
use go_polymarket_sdk.Market.Books.Latest.{newer, stored-update_order_book}
use go_polymarket_sdk.Market.Events.{
  Event, book, event_of, handle_message, on_message, is_pong, on_order_book, order_book,
  emit_order_book,
}

module _ {F : Type 0} where
  update_order_book-same :
      (now : ℤ) (b : OrderBook F) (m : MarketMonitor F)
      → (update_order_book now b m).order_book_ch ≡ m.order_book_ch
  unfolding update_order_book
  update_order_book-same now b m = ground arith

  stored-emit :
      (now : ℤ) (b : OrderBook F) (m : MarketMonitor F) (token : String)
      → stored (emit_order_book b (update_order_book now b m)) token
        ≡ stored (update_order_book now b m) token
  unfolding emit_order_book
  stored-emit now b m token = refl

  emitted :
      (now : ℤ) (b : OrderBook F) (m : MarketMonitor F)
      → IsBounded m.order_book_ch
      → 0 < m.order_book_ch.cap
      → (emit_order_book b (update_order_book now b m)).order_book_ch ≡ record (m.order_book_ch) {
        items = last_n m.order_book_ch.cap (m.order_book_ch.items ++ b ∷ []);
      }
  unfolding emit_order_book
  emitted now b m h c =
      rw (update_order_book-same now b m) (rw (emit_lem b m.order_book_ch h c) refl)

module _ {F : Type 0} (G : Gjson F) where
  open G use {Res, parse_bytes, get, string}

  -- The event that a message announces.
  abbrev pub kind : List ℕ → Event
  kind msg = event_of (string (get (parse_bytes msg) "event_type"))

  on_message_book_runs :
      (now later : ℤ) (msg : List ℕ) (m : MarketMonitor F)
      → is_pong msg ≡ false
      → kind msg ≡ book
      → m.is_store ≡ true
      → on_message G now later msg m ≡ on_order_book G now later (parse_bytes msg) m
  unfolding on_message handle_message
  on_message_book_runs now later msg m p k s =
      rw (p, k) (wanted m.order_book_subscribed m.is_store s)
    where
      wanted :
          (f st : Bool)
          → st ≡ true
          → (if f || st then on_order_book G now later (parse_bytes msg) m else m)
            ≡ on_order_book G now later (parse_bytes msg) m
      wanted true st e = refl
      wanted false st e = rw e

  -- With books stored, room in a channel of capacity at least one and a message book that is no heartbeat, the
  -- stored book of its token is the newer of this book and the one before, the other tokens keep theirs, and the
  -- channel holds this book as the newest value behind the latest ones before it.
  pub on_message_book :
      (now later : ℤ) (msg : List ℕ) (m : MarketMonitor F) (token : String)
      → is_pong msg ≡ false
      → kind msg ≡ book
      → m.is_store ≡ true
      → IsBounded m.order_book_ch
      → 0 < m.order_book_ch.cap
      → let b = order_book G now (parse_bytes msg) in
        let m' = on_message G now later msg m in
        (stored m' token
          ≡ (if b.asset_id == token then newer (stored m token) b else stored m token))
        × (m'.order_book_ch.items ≡ last_n m.order_book_ch.cap (m.order_book_ch.items ++ b ∷ []))
  unfolding on_order_book order_book
  on_message_book now later msg m token p k s h c =
      let info = parse_bytes msg in
      let b = order_book G now info in
      rw (on_message_book_runs now later msg m p k s) (
        rw (stored-emit later b m token) (stored-update_order_book later b m token s),
        rw (emitted later b m h c) refl,
      )
