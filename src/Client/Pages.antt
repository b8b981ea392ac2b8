-- ===== src/Client/Pages.antt =====
-- polymarket/polymarket.go: GetOpenOrders and SearchPositions, which ask for one page after the
-- other. The server's replies come in a list, `none` being a request that fails; with them goes
-- the list of the queries that were asked.
pub mod Complete
pub mod Positions
use go_polymarket_sdk.Common.{
  Bool, true, false, not, ◌&&◌, ◌||◌, Option, none, some, String, List, [], ◌∷◌, ◌++◌, map, ◌==◌,
  string_eq, if◌then◌else◌,
}
use go_polymarket_sdk.Common.Int.{ℤ, pos, ltb_ℤ}
use go_polymarket_sdk.Wire.{Gjson, get_string_array}

pub record OpenOrderParams : Type 0 where
  pub id : Option String
  pub market : Option String
  pub asset_id : Option String

pub record OpenOrder (F : Type 0) : Type 0 where
  pub id : String
  pub status : String
  pub owner : String
  pub maker_address : String
  pub market : String
  pub asset_id : String
  pub side : String
  pub original_size : F
  pub size_matched : F
  pub price : F
  pub associate_trades : List String
  pub outcome : String
  pub created_at : ℤ
  pub expiration : String
  pub order_type : String

-- The parameters of a GET.
abbrev pub Query : Type 0
Query = List (String × String)

abbrev pub optional : String → Option String → Query
optional key none = []
optional key (some v) = (key, v) ∷ []

-- `if v != "" { pms[key] = v }`
abbrev pub unless_empty : String → String → Query
unless_empty key v = if v == "" then [] else (key, v) ∷ []

pub data Listing (A : Type 0) : Type 0 where
  no_auth no_anchor : Listing A
  -- A request or a decoding fails.
  broken : List Query → Listing A
  -- The replies are used up, and another page is wanted.
  asking : List Query → Listing A
  -- The values, and the cursor that is left.
  listed : List A → String → List Query → Listing A

abbrev pub fields_of : Option OpenOrderParams → Query
fields_of none = []
fields_of (some p) =
    optional "market" p.market ++ optional "id" p.id ++ optional "asset_id" p.asset_id

abbrev pub open_query : Option OpenOrderParams → String → Query
open_query p cursor = ("next_cursor", cursor) ∷ fields_of p

abbrev pub start_cursor : String
start_cursor = "MA=="

abbrev pub end_cursor : String
end_cursor = "LTE="

-- The condition of the loop of GetOpenOrders.
abbrev pub goes_on : Bool → String → Bool
goes_on only_first cursor = not (cursor == end_cursor) && (cursor == start_cursor || not only_first)

abbrev pub cursor_or_start : Option String → String
cursor_or_start none = start_cursor
cursor_or_start (some c) = c

module _ {F : Type 0} (G : Gjson F) where
  open G use {Res, get, string, int, float, array, is_string}

  unfoldable pub open_order : Res → OpenOrder F
  open_order item = record {
    id = string (get item "id");
    status = string (get item "status");
    owner = string (get item "owner");
    maker_address = string (get item "maker_address");
    market = string (get item "market");
    asset_id = string (get item "asset_id");
    side = string (get item "side");
    original_size = float (get item "original_size");
    size_matched = float (get item "size_matched");
    price = float (get item "price");
    associate_trades = get_string_array G item "associate_trades";
    outcome = string (get item "outcome");
    created_at = int (get item "created_at");
    expiration = string (get item "expiration");
    order_type = string (get item "order_type");
  }

  abbrev pub page : Res → List (OpenOrder F)
  page r = map open_order (array (get r "data"))

  abbrev pub next_cursor : Res → String
  next_cursor r = string (get r "next_cursor")

  unfoldable pub open_loop :
      Option OpenOrderParams
      → Bool
      → String
      → List (Option Res)
      → List (OpenOrder F)
      → List Query
      → Listing (OpenOrder F)
  open_loop p only_first cursor [] acc asked =
      if goes_on only_first cursor then asking asked else listed acc cursor asked
  open_loop p only_first cursor (none ∷ rs) acc asked =
      if goes_on only_first cursor
      then broken (asked ++ open_query p cursor ∷ [])
      else listed acc cursor asked
  open_loop p only_first cursor (some r ∷ rs) acc asked =
      let rest =
        open_loop p only_first (next_cursor r) rs (acc ++ page r)
          (asked ++ open_query p cursor ∷ []) in
      if goes_on only_first cursor then rest else listed acc cursor asked

  -- `auth` is HasCLOBAuth.
  unfoldable pub get_open_orders :
      Bool
      → Option OpenOrderParams
      → Bool
      → Option String
      → List (Option Res)
      → Listing (OpenOrder F)
  get_open_orders auth p only_first cursor rs =
      if not auth then no_auth else open_loop p only_first (cursor_or_start cursor) rs [] []
