-- ===== src/Market.antt =====
-- polymarket/market_monitor.go and the types of polymarket/types.go and orders/types.go that it
-- uses: the state of a MarketMonitor. Its operations and their properties are in the children.
-- `F` is float64. The field pmClient, which the monitor only hands back, is left out; the mutex
-- makes each operation on the tokens one step, and logging is left out throughout.
pub mod Books
pub mod Tokens
pub mod Events
pub mod Runs
use go_polymarket_sdk.Common.{ℕ, Bool, false, ◌++◌, Option, none, List, [], String}
use Prim.Native.String.{◌++◌ as text_append}
use go_polymarket_sdk.Common.Int.{ℤ}
use go_polymarket_sdk.Common.Maps.{Map, empty}
use go_polymarket_sdk.Chan
use go_polymarket_sdk.Chan.{Chan}
use go_polymarket_sdk.Wire.{Json}
use go_polymarket_sdk.WsClient.{WsClient}

pub record Book (F : Type 0) : Type 0 where
  pub price : F
  pub size : F

pub record OrderBook (F : Type 0) : Type 0 where
  pub market : String
  pub asset_id : String
  pub timestamp : ℤ
  pub latency : ℤ
  pub bids : List (Book F)
  pub asks : List (Book F)

pub record ResolvedInfo : Type 0 where
  pub event_type : String
  pub id : String
  pub market : String
  pub assets_ids : List String
  pub winning_asset_id : String
  pub winning_outcome : String
  pub timestamp : ℤ
  pub tags : List String

pub record PriceChangeItem : Type 0 where
  pub asset_id : String
  pub price : String
  pub size : String
  pub side : String
  pub hash : String
  pub best_bid : String
  pub best_ask : String

pub record PriceChangeInfo : Type 0 where
  pub event_type : String
  pub market : String
  pub price_changes : List PriceChangeItem
  pub timestamp : ℤ

pub record LastTradePriceInfo : Type 0 where
  pub event_type : String
  pub asset_id : String
  pub market : String
  pub price : String
  pub size : String
  pub fee_rate_bps : String
  pub side : String
  pub transaction_hash : String
  pub timestamp : ℤ

pub record PriceData (F : Type 0) : Type 0 where
  pub token_id : String
  pub market : String
  pub best_ask : Option (Book F)
  pub best_bid : Option (Book F)
  pub timestamp : ℤ
  pub min_order_size : F
  pub tick_size : F
  pub neg_risk : Bool

-- `v` is nil until the first book is stored.
pub record BookStore (F : Type 0) : Type 0 where
  pub v : Option (OrderBook F)
  pub last_update : ℤ

pub record MarketMonitor (F : Type 0) : Type 0 where
  pub ws : Option (WsClient Json)
  pub order_books : Map String (BookStore F)
  pub clob_market_wss_url : String
  pub custom_feature_enabled : Bool
  pub subs_tokens : List String
  pub order_book_ch : Chan (OrderBook F)
  pub resolved_ch : Chan ResolvedInfo
  pub price_change_ch : Chan PriceChangeInfo
  pub last_trade_price_ch : Chan LastTradePriceInfo
  pub order_book_subscribed : Bool
  pub resolved_subscribed : Bool
  pub price_change_subscribed : Bool
  pub last_trade_price_subscribed : Bool
  pub is_store : Bool

unfoldable pub new_market_monitor : {F : Type 0} → String → Bool → Bool → MarketMonitor F
new_market_monitor ws_base_url is_store custom = record {
  ws = none;
  order_books = empty;
  clob_market_wss_url = text_append ws_base_url "/ws/market";
  custom_feature_enabled = custom;
  subs_tokens = [];
  order_book_ch = Chan.make 4096;
  resolved_ch = Chan.make 4096;
  price_change_ch = Chan.make 4096;
  last_trade_price_ch = Chan.make 4096;
  order_book_subscribed = false;
  resolved_subscribed = false;
  price_change_subscribed = false;
  last_trade_price_subscribed = false;
  is_store = is_store;
}
