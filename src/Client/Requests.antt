-- ===== src/Client/Requests.antt =====
-- polymarket/polymarket.go: the calls of the client that send one request, and that request. json.Marshal is an
-- interface, and so are the HMAC and gjson; the address of the signer is taken as its text.
pub mod Signed
use go_polymarket_sdk.Common.{
  ℕ, Bool, true, false, Option, none, some, String, List, [], ◌∷◌, map, ◌==◌, string_eq,
  if◌then◌else◌,
}
use Prim.Native.String.{◌++◌ as text_append}
use go_polymarket_sdk.Common.Int.{ℤ}
use go_polymarket_sdk.Common.Maps.{empty, value_or}
use go_polymarket_sdk.Trades.{ApiKeyCreds}
use go_polymarket_sdk.Wire.{Json, arr, obj, field, end, str, strings}
use go_polymarket_sdk.Orders.{OrderType}
use go_polymarket_sdk.Orders.Build.{EthLib, Order, PostOrderDto, order_to_dto, post_order_payload}
use go_polymarket_sdk.Headers.{
  Hmac, RelayerKey, Headers, create_l2_headers, overload_headers, with_relayer, post_order_headers,
}

pub record Marshal : Type 0 where
  pub json : Json → Option String
  pub order : PostOrderDto → Option String
  pub order_list : List PostOrderDto → Option String

pub record Settings : Type 0 where
  pub clob_base_url : String
  pub gamma_base_url : String
  pub clob_creds : Option ApiKeyCreds
  pub relayer_key : Option RelayerKey
  pub signer_address : String

pub record Request : Type 0 where
  pub method : String
  pub url : String
  pub params : List (String × String)
  pub body : Option String
  pub headers : Headers

pub data Called : Type 0 where
  -- The call returns an error before there is a request: its argument or the credentials are missing, or
  -- json.Marshal fails.
  refuses no_json : Called
  panics : Called
  asks : Request → Called

-- A nil map stays without headers.
unfoldable pub get_request : String → List (String × String) → Option Headers → Request
get_request url params headers = record {
  method = "GET";
  url = url;
  params = params;
  body = none;
  headers = value_or empty (overload_headers "GET" headers);
}

unfoldable pub post : String → Option String → Option Headers → Request
post url body headers = record {
  method = "POST";
  url = url;
  params = [];
  body = body;
  headers = value_or empty (overload_headers "POST" headers);
}

-- The body of each call is a text.
unfoldable pub del : String → List (String × String) → Option String → Option Headers → Request
del url params body headers = record {
  method = "DELETE";
  url = url;
  params = params;
  body = body;
  headers = value_or empty (overload_headers "DELETE" headers);
}

-- `data, err := json.Marshal(v)`
abbrev pub with_body : Option String → (String → Called) → Called
with_body none use_body = no_json
with_body (some body) use_body = use_body body

-- The headers are made, or making them panics.
abbrev pub with_headers : Option Headers → (Option Headers → Request) → Called
with_headers none make = panics
with_headers (some h) make = asks (make (some h))

-- `if HasCLOBAuth() == false { return error }`
abbrev pub with_creds : Option ApiKeyCreds → (ApiKeyCreds → Called) → Called
with_creds none call_for = refuses
with_creds (some c) call_for = call_for c

abbrev pub l2_headers : Hmac → Settings → ℤ → String → String → Option String → Option Headers
l2_headers hm s now method path body =
    create_l2_headers hm now s.signer_address s.clob_creds
      (some (record { method = method; request_path = path; body = body })) none

-- A signed order with the text of its signature, and its type.
pub record PostOrdersArgs (eth : EthLib) : Type 0 where
  pub order : Order eth
  pub signature : String
  pub order_type : OrderType

pub record OrderMarketCancelParams : Type 0 where
  pub market : String
  pub asset_id : String

module _ (hm : Hmac) (js : Marshal) (s : Settings) (now : ℤ) where
  -- A DELETE with a JSON body, signed.
  abbrev pub signed_del : String → Json → Called
  signed_del path payload = with_body (js.json payload) (λ body.
      with_headers (l2_headers hm s now "DELETE" path (some body))
        (λ h. del (text_append s.clob_base_url path) [] (some body) h))

  abbrev pub signed_post : String → Option String → Called
  signed_post path marshalled = with_body marshalled (λ body.
      with_headers (with_relayer s.relayer_key (l2_headers hm s now "POST" path (some body)))
        (λ h. post (text_append s.clob_base_url path) (some body) h))

  -- The order's ID.
  unfoldable pub cancel_order : String → Called
  cancel_order id =
      with_creds s.clob_creds (λ c. signed_del "/order" (obj (field "orderID" (str id) end)))

  -- The list is not nil.
  unfoldable pub cancel_orders : List String → Called
  cancel_orders hashes = with_creds s.clob_creds (λ c. signed_del "/orders" (arr (strings hashes)))

  unfoldable pub cancel_market_orders : OrderMarketCancelParams → Called
  cancel_market_orders p =
      signed_del "/cancel-market-orders"
        (obj (field "market" (str p.market) (field "asset_id" (str p.asset_id) end)))

  unfoldable pub get_api_keys : Called
  get_api_keys = with_creds s.clob_creds (λ c.
      with_headers (l2_headers hm s now "GET" "/auth/api-keys" none)
        (λ h. get_request (text_append s.clob_base_url "/auth/api-keys") [] h))

  -- The request of GetOpenOrders for a page; `query` is that of Client.Pages.
  unfoldable pub open_orders_page : List (String × String) → Called
  open_orders_page query = with_creds s.clob_creds (λ c.
      with_headers (l2_headers hm s now "GET" "/data/orders" none)
        (λ h. get_request (text_append s.clob_base_url "/data/orders") query h))

  module _ (eth : EthLib) where
    unfoldable pub post_order : Order eth → String → OrderType → Bool → Called
    post_order o signature order_type defer = with_creds s.clob_creds (λ c.
        signed_post "/order" (js.order (post_order_payload eth o signature c.key order_type defer)))

    -- No argument makes a nil list.
    unfoldable pub post_orders : List (PostOrdersArgs eth) → Bool → Called
    post_orders args defer = with_creds s.clob_creds (λ c. signed_post "/orders" (
        js.order_list
          (map (λ a. order_to_dto eth a.order a.signature c.key a.order_type defer "0") args)))

unfoldable pub fetch_market_by_slug : Settings → String → Called
fetch_market_by_slug s slug =
    if slug == ""
    then refuses
    else asks (
        get_request
          (text_append s.gamma_base_url
            (text_append "/markets/slug/" (text_append slug "?include_tag=true")))
          [] none)

unfoldable pub fetch_event_by_slug : Settings → String → Called
fetch_event_by_slug s slug =
    if slug == ""
    then refuses
    else asks
        (get_request (text_append s.gamma_base_url (text_append "/events/slug/" slug)) [] none)

unfoldable pub get_server_time : Settings → Called
get_server_time s = asks (get_request (text_append s.clob_base_url "/time") [] none)

unfoldable pub get_order_book : Settings → String → Called
get_order_book s token =
    asks (get_request (text_append s.clob_base_url "/book") (("token_id", token) ∷ []) none)
