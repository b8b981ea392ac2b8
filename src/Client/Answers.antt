-- ===== src/Client/Answers.antt =====
-- polymarket/polymarket.go: what the client reads from the replies to its calls. `F` is float64 and `G` gjson.
use go_polymarket_sdk.Common.{
  ℕ, Bool, Option, none, some, String, List, [], ◌∷◌, map, if◌then◌else◌, leb,
}
use go_polymarket_sdk.Common.Int.{ℤ}
use go_polymarket_sdk.Wire.{Gjson, Items, Fields, nil, cons, arr, obj, field, end, str}
use go_polymarket_sdk.Market.{Book}
use go_polymarket_sdk.Orders.{Side}
use go_polymarket_sdk.Client.Requests.{Marshal, Settings, Called, asks, with_body, post}
use Prim.Native.String.{◌++◌ as text_append}

-- A reply's status and its bytes.
pub record Response : Type 0 where
  pub status : ℕ
  pub bytes : List ℕ

pub record BookParams : Type 0 where
  pub token_id : String
  pub side : Option Side

pub record OrderBookSummary (F : Type 0) : Type 0 where
  pub market : String
  pub asset_id : String
  pub timestamp : ℤ
  pub bids : List (Book F)
  pub asks : List (Book F)
  pub min_order_size : F
  pub tick_size : F
  pub neg_risk : Bool
  pub hash : String

abbrev pub side_field : Option Side → Fields
side_field none = end
side_field (some s) = field "side" (str s) end

-- No parameters make an empty slice here, not a nil one.
abbrev pub book_params : List BookParams → Items
book_params [] = nil
book_params (p ∷ ps) =
    cons (obj (field "token_id" (str p.token_id) (side_field p.side))) (book_params ps)

-- `GetOrderBooks` until its request is sent: it has a nil map of headers.
unfoldable pub get_order_books : Marshal → Settings → List BookParams → Called
get_order_books js s params =
    with_body (js.json (arr (book_params params)))
      (λ body. asks (post (text_append s.clob_base_url "/books") (some body) none))

module _ {F : Type 0} (G : Gjson F) where
  open G use {Res, parse_bytes, get, string, int, float, boolean, array, is_string}

  -- What `Post` and `Del` make of a response: `none` is the error.
  unfoldable pub checked_answer : Option Response → Option Res
  checked_answer none = none
  checked_answer (some r) = if leb 400 r.status then none else some (parse_bytes r.bytes)

  abbrev pub book_of : Res → Book F
  book_of item = record { price = float (get item "price"); size = float (get item "size") }

  unfoldable pub order_book_summary : Res → OrderBookSummary F
  order_book_summary result = record {
    market = string (get result "market");
    asset_id = string (get result "asset_id");
    timestamp = int (get result "timestamp");
    bids = map book_of (array (get result "bids"));
    asks = map book_of (array (get result "asks"));
    min_order_size = float (get result "min_order_size");
    tick_size = float (get result "tick_size");
    neg_risk = boolean (get result "neg_risk");
    hash = string (get result "hash");
  }

  -- The values of `GetOrderBook`, `GetOrderBooks`, `GetServerTime` and `GetApiKeys` from the result of the
  -- request, `none` being its error.
  unfoldable pub got_order_book : Option Res → Option (OrderBookSummary F)
  got_order_book none = none
  got_order_book (some result) = some (order_book_summary result)

  unfoldable pub got_order_books : Option Res → Option (List (OrderBookSummary F))
  got_order_books none = none
  got_order_books (some result) = some (map order_book_summary (array result))

  unfoldable pub got_server_time : Option Res → Option ℤ
  got_server_time none = none
  got_server_time (some result) = some (int result)

  abbrev pub texts_of : List Res → List String
  texts_of [] = []
  texts_of (item ∷ items) = if is_string item then string item ∷ texts_of items else texts_of items

  unfoldable pub got_api_keys : Option Res → Option (List String)
  got_api_keys none = none
  got_api_keys (some result) = some (texts_of (array (get result "apiKeys")))
