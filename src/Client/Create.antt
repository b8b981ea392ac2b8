-- ===== src/Client/Create.antt =====
-- polymarket/polymarket.go: CreateOrder and CreateMarketOrder. The replies to the requests that they may
-- make, what other goroutines do in between, the clock and the salt are arguments. Both write into the
-- user's order, which is the second component of what they give.
pub mod Sound
pub mod Market
use go_polymarket_sdk.Common.{
  ℕ, Bool, true, false, Option, none, some, String, List, ◌==◌, string_eq, nat_eq, if◌then◌else◌,
}
use go_polymarket_sdk.Common.Int.{ℤ, pos, beq_ℤ}
use go_polymarket_sdk.Common.Maps.{Map, empty, value_or}
use go_polymarket_sdk.Decimals.{Float64, Decimal}
use go_polymarket_sdk.Wire.{Gjson}
use go_polymarket_sdk.Market.{Book}
use go_polymarket_sdk.Orders.{TickSize, RoundConfig, get_round_config, price_valid}
use go_polymarket_sdk.Orders.MarketPrice.{PriceError, calculate_market_price}
use go_polymarket_sdk.Orders.MarketPrice
use go_polymarket_sdk.Orders.Build.{
  EthLib, UserOrder, UserMarketOrder, OrderData, VerifyingContract, ctf_exchange,
  neg_risk_ctf_exchange, build_order_creation_args, build_market_order_creation_args,
}
use go_polymarket_sdk.Orders.Build.Signed.{
  Curve, TypedData, SignedOrder, SignedError, build_signed_order, poly_1271,
}
use go_polymarket_sdk.Orders.Build.Signed
use go_polymarket_sdk.Client.{Client, ClientError, Result, ok, err, resolve_tick_size, get_neg_risk}

pub record CreateOrderOptions : Type 0 where
  pub tick_size : Option TickSize
  pub signature_type : Option ℕ
  pub neg_risk : Option Bool

-- The settings that the two functions read.
pub record OrderConfig : Type 0 where
  pub chain_id : ℤ
  pub funder_address : String
  pub signature_type : ℕ
  pub builder_code : Option String

pub data CreateError : Type 0 where
  no_chain_id bad_price bad_amounts : CreateError
  client_error : ClientError → CreateError
  price_error : PriceError → CreateError
  not_signed : SignedError → CreateError

pub data Created {ℓ} (A : Type ℓ) : Type ℓ where
  created : A → Created A
  failed : CreateError → Created A
  -- GetRoundConfig panics on a tick size that it does not know.
  panics : Created A

abbrev pub or_else {ℓ} : {A : Type ℓ} → Option A → Option A → Option A
or_else none b = b
or_else (some a) b = some a

-- What the outside does during a call: the two replies, the other goroutines, the salt and the clocks.
pub record Outside {F : Type 0} (G : Gjson F) : Type 0 where
  pub tick_reply : Option G.Res
  pub neg_reply : Option G.Res
  pub book_reply : Option (List (Book F) × List (Book F))
  pub between : Client F → Client F
  pub salt : ℤ
  pub now : ℤ
  pub later : ℤ

module _ {F : Type 0} (G : Gjson F) (fl : Float64 F) (dec : Decimal F) (eth : EthLib)
    (ecc : Curve eth) (td : TypedData eth) where
  open eth use {address_text}

  abbrev pub neg_risk_of : Outside G → Option Bool → String → Client F → Client F × Result Bool
  neg_risk_of out (some b) token c = (c, ok b)
  neg_risk_of out none token c = get_neg_risk G token out.neg_reply out.between c

  abbrev pub contract_of : Bool → VerifyingContract
  contract_of true = neg_risk_ctf_exchange
  contract_of false = ctf_exchange

  abbrev pub maker_of : OrderConfig → ecc.Key → String
  maker_of cfg key =
      if cfg.funder_address == "" then address_text (ecc.address_of key) else cfg.funder_address

  abbrev pub signer_of : OrderConfig → ecc.Key → ℕ → String
  signer_of cfg key signature_type =
      if signature_type == poly_1271 then maker_of cfg key else address_text (ecc.address_of key)

  abbrev pub of_signed : Signed.Result (SignedOrder eth) → Created (SignedOrder eth)
  of_signed (Signed.err e) = failed (not_signed e)
  of_signed (Signed.ok o) = created o

  -- A new builder has no separators yet.
  abbrev pub sign_data :
      Outside G → OrderConfig → ecc.Key → Bool → Option OrderData → Created (SignedOrder eth)
  sign_data out cfg key neg none = failed bad_amounts
  sign_data out cfg key neg (some d) = of_signed (
      (build_signed_order eth ecc td cfg.chain_id key out.salt out.later d (contract_of neg)
        empty).1)

  abbrev pub with_config :
      Option RoundConfig → (RoundConfig → Created (SignedOrder eth)) → Created (SignedOrder eth)
  with_config none f = panics
  with_config (some c) f = f c

  abbrev pub create_with :
      Outside G
      → OrderConfig
      → CreateOrderOptions
      → ecc.Key
      → UserOrder F
      → TickSize
      → Client F × Result Bool
      → (Client F × UserOrder F) × Created (SignedOrder eth)
  create_with out cfg opts key o tick (c, err e) = ((c, o), failed (client_error e))
  create_with out cfg opts key o tick (c, ok neg) =
      let o' : UserOrder F = record o { builder_code = or_else o.builder_code cfg.builder_code } in
      let st = value_or cfg.signature_type opts.signature_type in
      (
        (c, o'),
        with_config (get_round_config tick) (λ rc. sign_data out cfg key neg (
            build_order_creation_args dec eth out.now (signer_of cfg key st) (maker_of cfg key) st
              o' rc)),
      )

  abbrev pub create_at :
      Outside G
      → OrderConfig
      → CreateOrderOptions
      → ecc.Key
      → UserOrder F
      → Client F × Result TickSize
      → (Client F × UserOrder F) × Created (SignedOrder eth)
  create_at out cfg opts key o (c, err e) = ((c, o), failed (client_error e))
  create_at out cfg opts key o (c, ok tick) =
      if price_valid fl o.price tick
      then create_with out cfg opts key o tick (neg_risk_of out opts.neg_risk o.token_id c)
      else ((c, o), failed bad_price)

  unfoldable pub create_order :
      Outside G
      → OrderConfig
      → CreateOrderOptions
      → ecc.Key
      → UserOrder F
      → Client F
      → (Client F × UserOrder F) × Created (SignedOrder eth)
  create_order out cfg opts key o c =
      if beq_ℤ cfg.chain_id (pos 0)
      then ((c, o), failed no_chain_id)
      else create_at out cfg opts key o
          (resolve_tick_size G fl o.token_id opts.tick_size out.tick_reply c)

  -- The price that is set on the user's order, or the calculated one.
  abbrev pub market_price :
      Outside G → UserMarketOrder F → Option (List (Book F) × List (Book F)) → MarketPrice.Result F
  market_price out o book = or_calculated o.price
    where
      or_calculated : Option F → MarketPrice.Result F
      or_calculated (some p) = MarketPrice.ok p
      or_calculated none =
          calculate_market_price fl o.side o.amount o.order_type book out.book_reply

  abbrev pub create_market_with :
      Outside G
      → OrderConfig
      → CreateOrderOptions
      → ecc.Key
      → UserMarketOrder F
      → TickSize
      → Client F × Result Bool
      → (Client F × UserMarketOrder F) × Created (SignedOrder eth)
  create_market_with out cfg opts key o tick (c, err e) = ((c, o), failed (client_error e))
  create_market_with out cfg opts key o tick (c, ok neg) =
      let o' : UserMarketOrder F = record o {
        builder_code = or_else o.builder_code cfg.builder_code;
      } in
      let st = value_or cfg.signature_type opts.signature_type in
      (
        (c, o'),
        with_config (get_round_config tick) (λ rc. sign_data out cfg key neg (
            build_market_order_creation_args dec eth fl.one out.now (signer_of cfg key st)
              (maker_of cfg key) st o' rc)),
      )

  abbrev pub create_market_priced :
      Outside G
      → OrderConfig
      → CreateOrderOptions
      → ecc.Key
      → UserMarketOrder F
      → TickSize
      → Client F
      → MarketPrice.Result F
      → (Client F × UserMarketOrder F) × Created (SignedOrder eth)
  create_market_priced out cfg opts key o tick c (MarketPrice.err e) =
      ((c, o), failed (price_error e))
  create_market_priced out cfg opts key o tick c (MarketPrice.ok p) =
      let o' : UserMarketOrder F = record o { price = some p } in
      if price_valid fl p tick
      then create_market_with out cfg opts key o' tick (neg_risk_of out opts.neg_risk o.token_id c)
      else ((c, o'), failed bad_price)

  abbrev pub create_market_at :
      Outside G
      → OrderConfig
      → CreateOrderOptions
      → ecc.Key
      → UserMarketOrder F
      → Option (List (Book F) × List (Book F))
      → Client F × Result TickSize
      → (Client F × UserMarketOrder F) × Created (SignedOrder eth)
  create_market_at out cfg opts key o book (c, err e) = ((c, o), failed (client_error e))
  create_market_at out cfg opts key o book (c, ok tick) =
      create_market_priced out cfg opts key o tick c (market_price out o book)

  unfoldable pub create_market_order :
      Outside G
      → OrderConfig
      → CreateOrderOptions
      → ecc.Key
      → UserMarketOrder F
      → Option (List (Book F) × List (Book F))
      → Client F
      → (Client F × UserMarketOrder F) × Created (SignedOrder eth)
  create_market_order out cfg opts key o book c =
      if beq_ℤ cfg.chain_id (pos 0)
      then ((c, o), failed no_chain_id)
      else create_market_at out cfg opts key o book
          (resolve_tick_size G fl o.token_id opts.tick_size out.tick_reply c)
