-- ===== src/Client/Create/Market.antt =====
-- polymarket/polymarket.go: what holds of an order that CreateMarketOrder gives, and of the caller's order.
use go_polymarket_sdk.Common.{
  ℕ, ◌≡◌, refl, ap, Bool, true, Option, some, String, List, nat_eq, Bool-cases, inl, inr,
}
use go_polymarket_sdk.Common.Int.{pos, beq_ℤ}
use go_polymarket_sdk.Common.Maps.{value_or}
use go_polymarket_sdk.Decimals.{Float64, Decimal}
use go_polymarket_sdk.Wire.{Gjson}
use go_polymarket_sdk.Market.{Book}
use go_polymarket_sdk.Orders.{TickSize, RoundConfig, price_valid}
use go_polymarket_sdk.Orders.MarketPrice
use go_polymarket_sdk.Orders.Build.{EthLib, UserMarketOrder, build_market_order_creation_args}
use go_polymarket_sdk.Orders.Build.Signed.{Curve, TypedData, SignedOrder}
use go_polymarket_sdk.Client.{Client, Result, ok, err, resolve_tick_size}
use go_polymarket_sdk.Client.Create.{
  CreateOrderOptions, OrderConfig, Created, created, failed, panics, Outside, maker_of, signer_of,
  sign_data, neg_risk_of, or_else, market_price, create_market_with, create_market_priced,
  create_market_at, create_market_order,
}
use go_polymarket_sdk.Client.Create.Sound.{
  OnCreated, IsGood, IsMade, sign_data-with_units, OnCreated-map, with_config-IsMade,
}

module _ {F : Type 0} (G : Gjson F) (fl : Float64 F) (dec : Decimal F) (eth : EthLib)
    (ecc : Curve eth) (td : TypedData eth) where
  abbrev pub Books : Type 0
  Books = Option (List (Book F) × List (Book F))

  -- The user's order at the price `p`, with the builder's code of the settings where it has none.
  abbrev pub at_price : OrderConfig → F → UserMarketOrder F → UserMarketOrder F
  at_price cfg p o = record o {
    price = some p;
    builder_code = or_else o.builder_code cfg.builder_code;
  }

  -- What CreateMarketOrder promises of an order at the price `p`.
  abbrev pub IsMarketSound :
      Outside G
      → OrderConfig
      → CreateOrderOptions
      → ecc.Key
      → UserMarketOrder F
      → F
      → Client F
      → SignedOrder eth
      → Type 0
  IsMarketSound out cfg opts key o p c s =
      IsMade G fl dec eth ecc td out cfg opts key o.token_id p c
        (λ by for type rc.
          build_market_order_creation_args dec eth fl.one out.now by for type (at_price cfg p o) rc)
        s

  sign_market-IsGood :
      (out : Outside G) (cfg : OrderConfig) (key : ecc.Key) (neg : Bool) (maker signer : String)
      (st : ℕ) (o : UserMarketOrder F) (rc : RoundConfig)
      → let args = build_market_order_creation_args dec eth fl.one out.now signer maker st o rc in
        OnCreated
          (IsGood G fl dec eth ecc td out cfg args neg maker signer st)
          (sign_data G fl dec eth ecc td out cfg key neg args)
  unfolding build_market_order_creation_args
  sign_market-IsGood out cfg key neg maker signer st o rc =
      sign_data-with_units G fl dec eth ecc td out cfg key neg maker signer st _ _ (λ m t. refl)
        (λ m t. refl) (λ m t. refl)

  create_market_with-IsMarketSound :
      (out : Outside G) (cfg : OrderConfig) (opts : CreateOrderOptions) (key : ecc.Key)
      (o : UserMarketOrder F) (p : F) (c : Client F) (tick : TickSize) (r : Client F × Result Bool)
      → let resolved = resolve_tick_size G fl o.token_id opts.tick_size out.tick_reply c in
        resolved.1 ≡ ok tick
        → price_valid fl p tick ≡ true
        → (neg_risk_of G fl dec eth ecc td out opts.neg_risk o.token_id resolved.0).1 ≡ r.1
        → OnCreated
            (IsMarketSound out cfg opts key o p c)
            (create_market_with G fl dec eth ecc td out cfg opts key
              (record o { price = some p })
              tick
              r).1
  create_market_with-IsMarketSound out cfg opts key o p c tick (c', err e) t valid n = tt
  create_market_with-IsMarketSound out cfg opts key o p c tick (c', ok neg) t valid n =
      let st = value_or cfg.signature_type opts.signature_type in
      let maker = maker_of G fl dec eth ecc td cfg key in
      let signer = signer_of G fl dec eth ecc td cfg key st in
      with_config-IsMade G fl dec eth ecc td out cfg opts key o.token_id p c
        (λ by for type rc.
          build_market_order_creation_args dec eth fl.one out.now by for type (at_price cfg p o) rc)
        tick neg t valid n
        (λ rc. sign_market-IsGood out cfg key neg maker signer st (at_price cfg p o) rc)

  -- The price is kept in the caller's order.
  abbrev Priced : F → (Client F × UserMarketOrder F) × Created (SignedOrder eth) → Type 0
  Priced p r = r.0.1.price ≡ some p

  create_market_with-Priced :
      (out : Outside G) (cfg : OrderConfig) (opts : CreateOrderOptions) (key : ecc.Key)
      (o : UserMarketOrder F) (p : F) (tick : TickSize) (r : Client F × Result Bool)
      → o.price ≡ some p
      → Priced p (create_market_with G fl dec eth ecc td out cfg opts key o tick r)
  create_market_with-Priced out cfg opts key o p tick (c, err e) h = h
  create_market_with-Priced out cfg opts key o p tick (c, ok neg) h = h

  -- The order is sound at the price that was set or calculated, and the caller's order has this price then.
  abbrev pub IsPriced :
      Outside G
      → OrderConfig
      → CreateOrderOptions
      → ecc.Key
      → UserMarketOrder F
      → Books
      → Client F
      → (Client F × UserMarketOrder F) × Created (SignedOrder eth)
      → Type 0
  IsPriced out cfg opts key o book c r =
      OnCreated
        (λ s.
          (p : F) × (market_price G fl dec eth ecc td out o book ≡ MarketPrice.ok p)
          × (r.0.1.price ≡ some p)
          × IsMarketSound out cfg opts key o p c s)
        r.1

  create_market_priced-IsPriced :
      (out : Outside G) (cfg : OrderConfig) (opts : CreateOrderOptions) (key : ecc.Key)
      (o : UserMarketOrder F) (book : Books) (c : Client F) (tick : TickSize) (c' : Client F)
      (q : MarketPrice.Result F)
      → resolve_tick_size G fl o.token_id opts.tick_size out.tick_reply c ≡ (c', ok tick)
      → market_price G fl dec eth ecc td out o book ≡ q
      → IsPriced out cfg opts key o book c
          (create_market_priced G fl dec eth ecc td out cfg opts key o tick c' q)
  create_market_priced-IsPriced out cfg opts key o book c tick c' (MarketPrice.err e) t h = tt
  create_market_priced-IsPriced out cfg opts key o book c tick c' (MarketPrice.ok p) t h =
      elim (Bool-cases (price_valid fl p tick)) [
        | inl e ↦ rw e (
            let r = neg_risk_of G fl dec eth ecc td out opts.neg_risk o.token_id c' in
            let o' : UserMarketOrder F = record o { price = some p } in
            let made = create_market_with G fl dec eth ecc td out cfg opts key o' tick r in
            OnCreated-map G fl dec eth ecc td made.1
              (λ s sound.
                (p, h, create_market_with-Priced out cfg opts key o' p tick r refl, sound))
              (create_market_with-IsMarketSound out cfg opts key o p c tick r (ap (λ x. x.1) t) e (
                ap (λ x. (neg_risk_of G fl dec eth ecc td out opts.neg_risk o.token_id (x.0)).1)
                  t)))
        | inr e ↦ rw e tt
      ]

  create_market_at-IsPriced :
      (out : Outside G) (cfg : OrderConfig) (opts : CreateOrderOptions) (key : ecc.Key)
      (o : UserMarketOrder F) (book : Books) (c : Client F) (r : Client F × Result TickSize)
      → resolve_tick_size G fl o.token_id opts.tick_size out.tick_reply c ≡ r
      → IsPriced out cfg opts key o book c
          (create_market_at G fl dec eth ecc td out cfg opts key o book r)
  create_market_at-IsPriced out cfg opts key o book c (c', err e) t = tt
  create_market_at-IsPriced out cfg opts key o book c (c', ok tick) t =
      create_market_priced-IsPriced out cfg opts key o book c tick c' _ t refl

  pub create_market_order-IsPriced :
      (out : Outside G) (cfg : OrderConfig) (opts : CreateOrderOptions) (key : ecc.Key)
      (o : UserMarketOrder F) (book : Books) (c : Client F)
      → IsPriced out cfg opts key o book c
          (create_market_order G fl dec eth ecc td out cfg opts key o book c)
  unfolding create_market_order
  create_market_order-IsPriced out cfg opts key o book c =
      elim (Bool-cases (beq_ℤ cfg.chain_id (pos 0))) [
        | inl e ↦ rw e tt
        | inr e ↦ rw e (create_market_at-IsPriced out cfg opts key o book c _ refl)
      ]

  -- A price that is set is not calculated.
  any_book :
      (out : Outside G) (cfg : OrderConfig) (opts : CreateOrderOptions) (key : ecc.Key)
      (o : UserMarketOrder F) (p : F) (book book' : Books) (c : Client F)
      → o.price ≡ some p
      → create_market_order G fl dec eth ecc td out cfg opts key o book c
        ≡ create_market_order G fl dec eth ecc td out cfg opts key o book' c
  unfolding create_market_order
  any_book out cfg opts key o p book book' c e = rw e refl

  price_kept :
      (out : Outside G) (cfg : OrderConfig) (opts : CreateOrderOptions) (key : ecc.Key)
      (o : UserMarketOrder F) (book : Books) (c : Client F)
      (r : (Client F × UserMarketOrder F) × Created (SignedOrder eth))
      (result : Created (SignedOrder eth)) (s : SignedOrder eth)
      → r.1 ≡ result
      → result ≡ created s
      → IsPriced out cfg opts key o book c (r.0, result)
      → (p : F) × (r.0.1.price ≡ some p)
  price_kept out cfg opts key o book c r (created s') s e f h = (h.0, h.2)
  price_kept out cfg opts key o book c r (failed x) s e f h = absurd (cc)
  price_kept out cfg opts key o book c r panics s e f h = absurd (cc)

  -- The bug: where CreateMarketOrder gave an order, a second call with the caller's order gives the same
  -- whatever the book that it is handed.
  pub create_market_order_stale :
      (out out' : Outside G) (cfg : OrderConfig) (opts opts' : CreateOrderOptions) (key : ecc.Key)
      (o : UserMarketOrder F) (book : Books) (c c' : Client F) (s : SignedOrder eth)
      (first second : Books)
      → (create_market_order G fl dec eth ecc td out cfg opts key o book c).1 ≡ created s
      → let o' = (create_market_order G fl dec eth ecc td out cfg opts key o book c).0.1 in
        create_market_order G fl dec eth ecc td out' cfg opts' key o' first c'
        ≡ create_market_order G fl dec eth ecc td out' cfg opts' key o' second c'
  create_market_order_stale out out' cfg opts opts' key o book c c' s first second e =
      let r = create_market_order G fl dec eth ecc td out cfg opts key o book c in
      let (p, kept) =
        price_kept out cfg opts key o book c r r.1 s refl e
          (create_market_order-IsPriced out cfg opts key o book c) in
      any_book out' cfg opts' key r.0.1 p first second c' kept
