-- ===== src/Market/Books.antt =====
-- polymarket/market_monitor.go: the store of order books, one for each token.
pub mod Latest
pub mod Race
pub mod Orderless
pub mod Pooled
use go_polymarket_sdk.Common.{
  Bool, true, false, not, Option, none, some, String, List, [], ◌∷◌, ◌==◌, string_eq, if◌then◌else◌,
  get_last?,
}
use go_polymarket_sdk.Common.Int.{ℤ, pos, ltb_ℤ}
use go_polymarket_sdk.Common.Maps.{Map, insert, delete}
use go_polymarket_sdk.Market.{OrderBook, BookStore, MarketMonitor, PriceData}

pub data BookError : Type 0 where
  token_not_found token_empty : BookError

pub data Result (A : Type 0) : Type 0 where
  ok : A → Result A
  err : BookError → Result A

module _ {F : Type 0} where
  -- `BookStore.Load` and `BookStore.Store`; `now` is the clock in milliseconds.
  unfoldable pub load : BookStore F → Option (OrderBook F)
  load bs = bs.v

  unfoldable pub store : ℤ → OrderBook F → BookStore F → BookStore F
  store now book bs = record { v = some book; last_update = now }

  -- `sync.Map.LoadOrStore` with a new store.
  abbrev pub load_or_store : Option (BookStore F) → BookStore F
  load_or_store none = record { v = none; last_update = pos 0 }
  load_or_store (some bs) = bs

  -- An older book than the stored one is not let in.
  abbrev pub is_stale : OrderBook F → Option (OrderBook F) → Bool
  is_stale book none = false
  is_stale book (some old) = ltb_ℤ book.timestamp old.timestamp

  unfoldable pub update_order_book : ℤ → OrderBook F → MarketMonitor F → MarketMonitor F
  unfolding load store
  update_order_book now book m =
      if not m.is_store
      then m
      else let bs = load_or_store (m.order_books book.asset_id) in
        let m1 = record m { order_books = insert book.asset_id bs m.order_books } in
        if is_stale book (load bs)
        then m1
        else record m1 { order_books = insert book.asset_id (store now book bs) m1.order_books }

  unfoldable pub remove_token_order_book : String → MarketMonitor F → MarketMonitor F
  remove_token_order_book token m = record m { order_books = delete token m.order_books }

  abbrev loaded : Option (BookStore F) → Result (OrderBook F)
  loaded none = err token_not_found
  loaded (some bs) = elim bs.v [ none ↦ err token_empty | some book ↦ ok book ]

  unfoldable pub get_token_order_book : String → MarketMonitor F → Result (OrderBook F)
  get_token_order_book token m = loaded (m.order_books token)

  -- `&books[len(books)-1]` where there is one; `zero` is the float 0.
  unfoldable pub get_token_price : F → String → MarketMonitor F → Result (PriceData F)
  get_token_price zero token m = elim (get_token_order_book token m) [
    | err e ↦ err e
    | ok book ↦ ok (record {
      token_id = token;
      market = book.market;
      best_ask = get_last? book.asks;
      best_bid = get_last? book.bids;
      timestamp = book.timestamp;
      min_order_size = zero;
      tick_size = zero;
      neg_risk = false;
    })
  ]

  -- The book that a reader of a token gets.
  abbrev pub stored : MarketMonitor F → String → Option (OrderBook F)
  stored m token = elim (m.order_books token) [ none ↦ none | some bs ↦ bs.v ]
