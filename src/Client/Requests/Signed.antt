-- ===== src/Client/Requests/Signed.antt =====
-- polymarket/polymarket.go: how the calls that need credentials sign their requests.
use go_polymarket_sdk.Common.{
  Bool, Option, none, some, String, List, [], ◌∷◌, map, ◌≡◌, refl, ap, All, string_eq, inl, inr,
  ◌⊎◌,
}
use Prim.Native.String.{◌++◌ as text_append}
use go_polymarket_sdk.Common.Int.{ℤ}
use go_polymarket_sdk.Common.Maps.{empty, copy}
use go_polymarket_sdk.Trades.{ApiKeyCreds}
use go_polymarket_sdk.Wire.{Json, obj, arr, field, str, end, strings}
use go_polymarket_sdk.Orders.{OrderType}
use go_polymarket_sdk.Orders.Build.{EthLib, Order, PostOrderDto, post_order_payload, order_to_dto}
use go_polymarket_sdk.Headers.{
  Hmac, RelayerKey, Headers, gen_signature, create_l2_headers, create_relayer_headers,
  overload_headers, with_relayer,
}
use go_polymarket_sdk.Headers.Sent.{Has}
use go_polymarket_sdk.Client.Requests.{
  Marshal, Settings, Request, Called, refuses, no_json, panics, asks, get_request, post, del,
  with_body, with_creds, with_headers, l2_headers, PostOrdersArgs, OrderMarketCancelParams,
  signed_del, signed_post, cancel_order, cancel_orders, cancel_market_orders, get_api_keys,
  open_orders_page, post_order, post_orders,
}

-- The calls that need credentials, with their arguments.
pub data Operation (eth : EthLib) : Type 0 where
  cancels : String → Operation eth
  cancels_all : List String → Operation eth
  cancels_market : OrderMarketCancelParams → Operation eth
  lists_keys : Operation eth
  lists_orders : List (String × String) → Operation eth
  posts : Order eth → String → OrderType → Bool → Operation eth
  posts_all : List (PostOrdersArgs eth) → Bool → Operation eth

abbrev pub method_of : {eth : EthLib} → Operation eth → String
method_of (cancels id) = "DELETE"
method_of (cancels_all hashes) = "DELETE"
method_of (cancels_market p) = "DELETE"
method_of lists_keys = "GET"
method_of (lists_orders query) = "GET"
method_of (posts o signature order_type defer) = "POST"
method_of (posts_all args defer) = "POST"

abbrev pub path_of : {eth : EthLib} → Operation eth → String
path_of (cancels id) = "/order"
path_of (cancels_all hashes) = "/orders"
path_of (cancels_market p) = "/cancel-market-orders"
path_of lists_keys = "/auth/api-keys"
path_of (lists_orders query) = "/data/orders"
path_of (posts o signature order_type defer) = "/order"
path_of (posts_all args defer) = "/orders"

-- What json.Marshal gives for the payload of a call, if it has one.
abbrev pub payload_of :
    {eth : EthLib} → Marshal → ApiKeyCreds → Operation eth → Option (Option String)
payload_of js c (cancels id) = some (js.json (obj (field "orderID" (str id) end)))
payload_of js c (cancels_all hashes) = some (js.json (arr (strings hashes)))
payload_of js c (cancels_market p) =
    some (js.json (obj (field "market" (str p.market) (field "asset_id" (str p.asset_id) end))))
payload_of js c lists_keys = none
payload_of js c (lists_orders query) = none
payload_of {eth} js c (posts o signature order_type defer) =
    some (js.order (post_order_payload eth o signature c.key order_type defer))
payload_of {eth} js c (posts_all args defer) = some (
    js.order_list
      (map (λ a. order_to_dto eth a.order a.signature c.key a.order_type defer "0") args))

-- The body is the payload, as far as there is one.
abbrev pub Carries : Option (Option String) → Option String → Type 0
Carries none body = body ≡ none
Carries (some marshalled) body = body ≡ marshalled

-- json.Marshal fails for a value.
abbrev pub Fails : Marshal → Type 0
Fails js =
    ((v : Json) × (js.json v ≡ none))
    ⊎ (((d : PostOrderDto) × (js.order d ≡ none))
        ⊎ ((ds : List PostOrderDto) × (js.order_list ds ≡ none)))

module _ (hm : Hmac) (js : Marshal) (s : Settings) (now : ℤ) where
  abbrev pub credentials_of : ApiKeyCreds → String → String → Option String → List (String × String)
  credentials_of c method path body =
      ("POLY_ADDRESS", s.signer_address)
      ∷ ("POLY_SIGNATURE", gen_signature hm c.secret now method path body)
      ∷ ("POLY_TIMESTAMP", hm.format_int now)
      ∷ ("POLY_API_KEY", c.key)
      ∷ ("POLY_PASSPHRASE", c.passphrase)
      ∷ []

  -- A request with this method to this path and with this payload, whose headers hold the credentials and a
  -- signature over what is sent; without one, json.Marshal fails for the payload.
  abbrev pub IsSigned : ApiKeyCreds → String → String → Option (Option String) → Called → Type 0
  IsSigned c method path payload refuses = ⊥
  IsSigned c method path payload no_json = payload ≡ some none
  IsSigned c method path payload panics = ⊥
  IsSigned c method path payload (asks r) =
      (r.method ≡ method)
      × (r.url ≡ text_append s.clob_base_url path)
      × Carries payload r.body
      × All (Has r.headers) (credentials_of c r.method path r.body)

  abbrev l2_of : ApiKeyCreds → String → String → Option String → Headers
  l2_of c method path body = copy empty (credentials_of c method path body)

  l2_headers_lem :
      (c : ApiKeyCreds) (method path : String) (body : Option String)
      → s.clob_creds ≡ some c
      → l2_headers hm s now method path body ≡ some (l2_of c method path body)
  unfolding create_l2_headers
  l2_headers_lem c method path body e =
      ap
        (λ o.
          create_l2_headers hm now s.signer_address o
            (some (record { method = method; request_path = path; body = body })) none)
        e

  body-IsSigned :
      (c : ApiKeyCreds) (method path : String) (marshalled : Option String)
      (call_for : String → Called)
      → ((body : String) → IsSigned c method path (some (some body)) (call_for body))
      → IsSigned c method path (some marshalled) (with_body marshalled call_for)
  body-IsSigned c method path none call_for h = refl
  body-IsSigned c method path (some body) call_for h = h body

  del-IsSigned :
      (c : ApiKeyCreds) (path body : String)
      → s.clob_creds ≡ some c
      → IsSigned c "DELETE" path (some (some body)) (
          with_headers
            (l2_headers hm s now "DELETE" path (some body))
            (λ h. del (text_append s.clob_base_url path) [] (some body) h))
  unfolding del overload_headers
  del-IsSigned c path body e =
      rw (l2_headers_lem c "DELETE" path (some body) e)
        (refl, refl, refl, (refl, (refl, (refl, (refl, (refl, tt))))))

  signed_del-IsSigned :
      (c : ApiKeyCreds) (path : String) (payload : Json)
      → s.clob_creds ≡ some c
      → IsSigned c "DELETE" path (some (js.json payload)) (signed_del hm js s now path payload)
  signed_del-IsSigned c path payload e =
      body-IsSigned c "DELETE" path (js.json payload) _ (λ body. del-IsSigned c path body e)

  posted-IsSigned :
      (c : ApiKeyCreds) (path body : String) (key : Option RelayerKey)
      → IsSigned c "POST" path (some (some body)) (
          with_headers
            (with_relayer key (some (l2_of c "POST" path (some body))))
            (λ h. post (text_append s.clob_base_url path) (some body) h))
  unfolding post overload_headers create_relayer_headers
  posted-IsSigned c path body none = (refl, refl, refl, (refl, (refl, (refl, (refl, (refl, tt))))))
  posted-IsSigned c path body (some k) =
      (refl, refl, refl, (refl, (refl, (refl, (refl, (refl, tt))))))

  signed_post-IsSigned :
      (c : ApiKeyCreds) (path : String) (marshalled : Option String)
      → s.clob_creds ≡ some c
      → IsSigned c "POST" path (some marshalled) (signed_post hm js s now path marshalled)
  signed_post-IsSigned c path marshalled e = body-IsSigned c "POST" path marshalled _ (λ body.
      rw (l2_headers_lem c "POST" path (some body) e) (posted-IsSigned c path body s.relayer_key))

  creds-IsSigned :
      (c : ApiKeyCreds) (method path : String) (payload : Option (Option String))
      (o : Option ApiKeyCreds) (call_for : ApiKeyCreds → Called)
      → o ≡ some c
      → IsSigned c method path payload (call_for c)
      → IsSigned c method path payload (with_creds o call_for)
  creds-IsSigned c method path payload o call_for e h = rw e h

  got-IsSigned :
      (c : ApiKeyCreds) (path : String) (query : List (String × String))
      → s.clob_creds ≡ some c
      → IsSigned c "GET" path none (
          with_headers
            (l2_headers hm s now "GET" path none)
            (λ h. get_request (text_append s.clob_base_url path) query h))
  unfolding get_request overload_headers
  got-IsSigned c path query e =
      rw (l2_headers_lem c "GET" path none e)
        (refl, refl, refl, (refl, (refl, (refl, (refl, (refl, tt))))))

  body-unsigned :
      (marshalled : Option String) (call_for : String → Called)
      → (marshalled ≡ none → Fails js)
      → ((body : String) → call_for body ≡ panics)
      → (with_body marshalled call_for ≡ panics)
        ⊎ ((with_body marshalled call_for ≡ no_json) × Fails js)
  body-unsigned none call_for fails h = inr (refl, fails refl)
  body-unsigned (some body) call_for fails h = inl (h body)

  headers-unsigned :
      (method path : String) (body : Option String) (make : Option Headers → Request)
      → s.clob_creds ≡ none
      → with_headers (l2_headers hm s now method path body) make ≡ panics
  unfolding create_l2_headers
  headers-unsigned method path body make e = rw e refl

  market-unsigned :
      (p : OrderMarketCancelParams)
      → s.clob_creds ≡ none
      → (cancel_market_orders hm js s now p ≡ panics)
        ⊎ ((cancel_market_orders hm js s now p ≡ no_json) × Fails js)
  unfolding cancel_market_orders
  market-unsigned p e =
      body-unsigned (js.json _) _ (λ none_e. inl (_, none_e))
        (λ body. headers-unsigned "DELETE" "/cancel-market-orders" (some body) _ e)

  module _ (eth : EthLib) where
    abbrev pub perform : Operation eth → Called
    perform (cancels id) = cancel_order hm js s now id
    perform (cancels_all hashes) = cancel_orders hm js s now hashes
    perform (cancels_market p) = cancel_market_orders hm js s now p
    perform lists_keys = get_api_keys hm js s now
    perform (lists_orders query) = open_orders_page hm js s now query
    perform (posts o signature order_type defer) =
        post_order hm js s now eth o signature order_type defer
    perform (posts_all args defer) = post_orders hm js s now eth args defer

    -- With credentials, each call that needs them (CancelOrder, CancelOrders, CancelMarketOrders, GetApiKeys,
    -- each page of GetOpenOrders, PostOrder and PostOrders) sends a request to its path with its payload, whose
    -- headers hold the credentials and a signature over the time, the method, the path and the body that are
    -- sent, unless json.Marshal fails for this payload; neither the relayer's key nor the common headers
    -- overwrite one of them.
    pub perform-IsSigned :
        (c : ApiKeyCreds) (op : Operation eth)
        → s.clob_creds ≡ some c
        → IsSigned c (method_of op) (path_of op) (payload_of js c op) (perform op)
    unfolding cancel_order cancel_orders cancel_market_orders get_api_keys open_orders_page
        post_order post_orders
    perform-IsSigned c (cancels id) e =
        creds-IsSigned c "DELETE" "/order" _ s.clob_creds _ e (signed_del-IsSigned c "/order" _ e)
    perform-IsSigned c (cancels_all hashes) e =
        creds-IsSigned c "DELETE" "/orders" _ s.clob_creds _ e (signed_del-IsSigned c "/orders" _ e)
    perform-IsSigned c (cancels_market p) e = signed_del-IsSigned c "/cancel-market-orders" _ e
    perform-IsSigned c lists_keys e =
        creds-IsSigned c "GET" "/auth/api-keys" none s.clob_creds _ e
          (got-IsSigned c "/auth/api-keys" [] e)
    perform-IsSigned c (lists_orders query) e =
        creds-IsSigned c "GET" "/data/orders" none s.clob_creds _ e
          (got-IsSigned c "/data/orders" query e)
    perform-IsSigned c (posts o signature order_type defer) e =
        creds-IsSigned c "POST" "/order" _ s.clob_creds _ e (signed_post-IsSigned c "/order" _ e)
    perform-IsSigned c (posts_all args defer) e =
        creds-IsSigned c "POST" "/orders" _ s.clob_creds _ e (signed_post-IsSigned c "/orders" _ e)

    -- What a call does without credentials.
    abbrev pub IsRefused : Operation eth → Called → Type 0
    IsRefused (cancels_market p) called = (called ≡ panics) ⊎ ((called ≡ no_json) × Fails js)
    IsRefused op called = called ≡ refuses

    -- Without credentials no call sends a request: each returns an error but CancelMarketOrders, which panics
    -- unless json.Marshal fails.
    pub perform-IsRefused : (op : Operation eth) → s.clob_creds ≡ none → IsRefused op (perform op)
    unfolding cancel_order cancel_orders get_api_keys open_orders_page post_order post_orders
    perform-IsRefused (cancels id) e = rw e refl
    perform-IsRefused (cancels_all hashes) e = rw e refl
    perform-IsRefused (cancels_market p) e = market-unsigned p e
    perform-IsRefused lists_keys e = rw e refl
    perform-IsRefused (lists_orders query) e = rw e refl
    perform-IsRefused (posts o signature order_type defer) e = rw e refl
    perform-IsRefused (posts_all args defer) e = rw e refl
