-- ===== src/Client/Create/Sound.antt =====
-- polymarket/polymarket.go: what holds of an order that CreateOrder gives.
use go_polymarket_sdk.Common.{
  ℕ, ◌≡◌, refl, ap, Bool, true, Option, none, some, String, List, ◌⊎◌, inl, inr, ◌==◌, nat_eq,
  Bool-cases,
}
use go_polymarket_sdk.Common.Int.{ℤ}
use go_polymarket_sdk.Common.Maps.{Map, empty, value_or}
use go_polymarket_sdk.Decimals.{Float64, Decimal}
use go_polymarket_sdk.Wire.{Gjson}
use go_polymarket_sdk.Orders.{TickSize, RoundConfig, get_round_config, price_valid}
use go_polymarket_sdk.Orders.Signature.{validate_signature}
use go_polymarket_sdk.Orders.Signature
use go_polymarket_sdk.Orders.Build.{
  EthLib, UserOrder, OrderData, Order, VerifyingContract, build_order, order_of, timestamp_of,
  build_order_creation_args, with_units,
}
use go_polymarket_sdk.Orders.Build
use go_polymarket_sdk.Orders.Build.Signed.{
  Curve, TypedData, SignedOrder, build_signed_order, build_order_signature, build_order_hash,
  sign_built, signed_with, curve_of, poly_1271,
}
use go_polymarket_sdk.Orders.Build.Signed
use go_polymarket_sdk.Orders.Build.Signed.Checks.{build_order_signature-validate_signature}
use go_polymarket_sdk.Client.{Client, Result, ok, err, resolve_tick_size}
use go_polymarket_sdk.Client.Create.{
  CreateOrderOptions, OrderConfig, Created, created, failed, panics, Outside, contract_of, maker_of,
  signer_of, of_signed, sign_data, with_config, or_else, neg_risk_of,
}

-- What holds of the order, if there is one.
abbrev pub OnCreated {ℓ κ} : {A : Type ℓ} → (A → Type κ) → Created A → Type κ
OnCreated P (created a) = P a
OnCreated P (failed e) = Unit
OnCreated P panics = Unit

abbrev OnBuilt : {A : Type 0} → (A → Type 0) → Build.Result A → Type 0
OnBuilt P (Build.ok a) = P a
OnBuilt P (Build.err e) = Unit

abbrev OnSigned : {A : Type 0} → (A → Type 0) → Signed.Result A → Type 0
OnSigned P (Signed.ok a) = P a
OnSigned P (Signed.err e) = Unit

module _ (eth : EthLib) where
  open eth use {hex_to_address, big_int}

  abbrev pub IsFrom : String → String → ℕ → Order eth → Type 0
  IsFrom maker signer st o =
      (o.maker ≡ hex_to_address maker)
      × (o.signer ≡ hex_to_address signer)
      × (o.signature_type ≡ st)

  build_order-IsFrom :
      (salt now : ℤ) (d : OrderData) (maker signer : String) (st : ℕ)
      → d.maker ≡ maker
      → d.signer ≡ some signer
      → d.signature_type ≡ some st
      → OnBuilt (IsFrom maker signer st) (build_order eth salt now d)
  unfolding build_order
  build_order-IsFrom salt now d maker signer st m s t =
      go (big_int d.token_id) (big_int d.maker_amount) (big_int d.taker_amount)
        (timestamp_of eth now d.timestamp)
    where
      go : (a b c e : Option ℤ) → OnBuilt (IsFrom maker signer st) (order_of eth salt d a b c e)
      go none b c e = tt
      go (some a) none c e = tt
      go (some a) (some b) none e = tt
      go (some a) (some b) (some c) none = tt
      go (some a) (some b) (some c) (some e) = (ap hex_to_address m, rw s refl, rw t refl)

OnBuilt-self :
    {A : Type 0} (P : A → Type 0) (r : Build.Result A)
    → OnBuilt P r
    → OnBuilt (λ a. (r ≡ Build.ok a) × P a) r
OnBuilt-self P (Build.ok a) h = (refl, h)
OnBuilt-self P (Build.err e) h = tt

module _ (eth : EthLib) (ecc : Curve eth) (td : TypedData eth) (chain : ℤ) where
  -- An order of POLY_1271, or one whose signature ValidateSignature accepts for the order's signer.
  abbrev pub IsSigned : VerifyingContract → SignedOrder eth → Type 0
  IsSigned contract s =
      ((s.order.signature_type == poly_1271) ≡ true)
      ⊎ ((h : eth.Hash) × (build_order_hash eth ecc td chain s.order contract ≡ Signed.ok h)
          × (validate_signature (curve_of eth ecc) s.order.signer h s.signature
              ≡ Signature.ok true))

  abbrev Both : (Order eth → Type 0) → VerifyingContract → SignedOrder eth → Type 0
  Both P contract s = P s.order × IsSigned contract s

  build_signed_order-IsSigned :
      (P : Order eth → Type 0) (key : ecc.Key) (salt now : ℤ) (d : OrderData)
      (contract : VerifyingContract) (seps : Map String eth.Hash)
      → OnBuilt P (build_order eth salt now d)
      → OnSigned
          (Both P contract)
          (build_signed_order eth ecc td chain key salt now d contract seps).1
  unfolding build_signed_order
  build_signed_order-IsSigned P key salt now d contract seps h = go (build_order eth salt now d) h
    where
      signed :
          (o : Order eth) (r : Signed.Result (List ℕ))
          → P o
          → (build_order_signature eth ecc td chain key o contract seps).1 ≡ r
          → OnSigned (Both P contract) (signed_with eth ecc td chain o r)
      signed o (Signed.err e) p given = tt
      signed o (Signed.ok s) p given = (
        p,
        elim (Bool-cases (o.signature_type == poly_1271)) [
          | inl e ↦ inl e
          | inr e ↦ inr (
              build_order_signature-validate_signature eth ecc td chain key o contract seps s e
                given)
        ],
      )

      go :
          (r : Build.Result (Order eth))
          → OnBuilt P r
          → OnSigned (Both P contract) (sign_built eth ecc td chain key contract seps r).1
      go (Build.err e) h = tt
      go (Build.ok o) h =
          signed o (build_order_signature eth ecc td chain key o contract seps).1 h refl

module _ {F : Type 0} (G : Gjson F) (fl : Float64 F) (dec : Decimal F) (eth : EthLib)
    (ecc : Curve eth) (td : TypedData eth) where
  -- An order that BuildOrder makes of `args`, with the maker, the signer and the type that are given, and signed
  -- for an exchange.
  abbrev pub IsGood :
      Outside G
      → OrderConfig
      → Option OrderData
      → Bool
      → String
      → String
      → ℕ
      → SignedOrder eth
      → Type 0
  IsGood out cfg args neg maker signer st s =
      (d : OrderData) × (args ≡ some d)
      × (build_order eth out.salt out.later d ≡ Build.ok s.order)
      × IsFrom eth maker signer st s.order
      × IsSigned eth ecc td cfg.chain_id (contract_of G fl dec eth ecc td neg) s

  -- The creation arguments of an order, from its signer, its maker, its type and a rounding.
  abbrev pub Arguments : Type 0
  Arguments = String → String → ℕ → RoundConfig → Option OrderData

  -- What is promised of an order for a token at a price: it is built of its arguments with the rounding of the
  -- tick size that is resolved for the token, and the price is valid at this tick size; its maker, its signer
  -- and its type are those of the settings and the options; it is signed for the exchange that the negative risk
  -- of the token asks for.
  abbrev pub IsMade :
      Outside G
      → OrderConfig
      → CreateOrderOptions
      → ecc.Key
      → String
      → F
      → Client F
      → Arguments
      → SignedOrder eth
      → Type 0
  IsMade out cfg opts key token price c args s =
      let st = value_or cfg.signature_type opts.signature_type in
      let maker = maker_of G fl dec eth ecc td cfg key in
      let signer = signer_of G fl dec eth ecc td cfg key st in
      let resolved = resolve_tick_size G fl token opts.tick_size out.tick_reply c in
      (tick : TickSize) × (rc : RoundConfig) × (neg : Bool) × (resolved.1 ≡ ok tick)
      × (get_round_config tick ≡ some rc)
      × (price_valid fl price tick ≡ true)
      × ((neg_risk_of G fl dec eth ecc td out opts.neg_risk token resolved.0).1 ≡ ok neg)
      × IsGood out cfg (args signer maker st rc) neg maker signer st s

  abbrev pub IsSound :
      Outside G
      → OrderConfig
      → CreateOrderOptions
      → ecc.Key
      → UserOrder F
      → Client F
      → SignedOrder eth
      → Type 0
  IsSound out cfg opts key o c s =
      let coded : UserOrder F = record o {
        builder_code = or_else o.builder_code cfg.builder_code;
      } in
      IsMade out cfg opts key o.token_id o.price c
        (λ signer maker st rc. build_order_creation_args dec eth out.now signer maker st coded rc) s

  pub OnCreated-map :
      {P Q : SignedOrder eth → Type 0} (r : Created (SignedOrder eth))
      → ((s : SignedOrder eth) → P s → Q s)
      → OnCreated P r
      → OnCreated Q r
  OnCreated-map (created s) f h = f s h
  OnCreated-map (failed e) f h = tt
  OnCreated-map panics f h = tt

  of_signed-OnSigned :
      (P : SignedOrder eth → Type 0) (r : Signed.Result (SignedOrder eth))
      → OnSigned P r
      → OnCreated P (of_signed G fl dec eth ecc td r)
  of_signed-OnSigned P (Signed.err e) h = tt
  of_signed-OnSigned P (Signed.ok s) h = h

  pub sign_data-with_units :
      (out : Outside G) (cfg : OrderConfig) (key : ecc.Key) (neg : Bool) (maker signer : String)
      (st : ℕ) (u : Option (ℤ × ℤ)) (f : ℤ → ℤ → OrderData)
      → ((m t : ℤ) → (f m t).maker ≡ maker)
      → ((m t : ℤ) → (f m t).signer ≡ some signer)
      → ((m t : ℤ) → (f m t).signature_type ≡ some st)
      → OnCreated
          (IsGood out cfg (with_units dec eth u f) neg maker signer st)
          (sign_data G fl dec eth ecc td out cfg key neg (with_units dec eth u f))
  sign_data-with_units out cfg key neg maker signer st none f hm hs ht = tt
  sign_data-with_units out cfg key neg maker signer st (some (m, t)) f hm hs ht =
      let contract = contract_of G fl dec eth ecc td neg in
      let d = f m t in
      let built = build_order eth out.salt out.later d in
      OnCreated-map
        (of_signed G fl dec eth ecc td
          (build_signed_order eth ecc td cfg.chain_id key out.salt out.later d contract empty).1)
        (λ s both. (d, refl, both.0.0, both.0.1, both.1))
        (of_signed-OnSigned
          (λ s.
            ((built ≡ Build.ok s.order) × IsFrom eth maker signer st s.order)
            × IsSigned eth ecc td cfg.chain_id contract s)
          (build_signed_order eth ecc td cfg.chain_id key out.salt out.later d contract empty).1
          (build_signed_order-IsSigned eth ecc td cfg.chain_id
            (λ order. (built ≡ Build.ok order) × IsFrom eth maker signer st order) key out.salt
            out.later d contract empty
            (OnBuilt-self (IsFrom eth maker signer st) built (
              build_order-IsFrom eth out.salt out.later d maker signer st (hm m t) (hs m t)
                (ht m t)))))

  -- A tick size without a rounding gives no order.
  pub with_config-OnCreated :
      (Q : SignedOrder eth → Type 0) (tick : TickSize) (f : RoundConfig → Created (SignedOrder eth))
      → ((rc : RoundConfig) → get_round_config tick ≡ some rc → OnCreated Q (f rc))
      → OnCreated Q (with_config G fl dec eth ecc td (get_round_config tick) f)
  with_config-OnCreated Q tick f h = go (get_round_config tick) h
    where
      go :
          (o : Option RoundConfig)
          → ((rc : RoundConfig) → o ≡ some rc → OnCreated Q (f rc))
          → OnCreated Q (with_config G fl dec eth ecc td o f)
      go none k = tt
      go (some rc) k = k rc refl

  -- An order that is signed with arguments of the rounding of a tick size.
  pub with_config-IsMade :
      (out : Outside G) (cfg : OrderConfig) (opts : CreateOrderOptions) (key : ecc.Key)
      (token : String) (price : F) (c : Client F) (args : Arguments) (tick : TickSize) (neg : Bool)
      → let st = value_or cfg.signature_type opts.signature_type in
        let maker = maker_of G fl dec eth ecc td cfg key in
        let signer = signer_of G fl dec eth ecc td cfg key st in
        let resolved = resolve_tick_size G fl token opts.tick_size out.tick_reply c in
        resolved.1 ≡ ok tick
        → price_valid fl price tick ≡ true
        → (neg_risk_of G fl dec eth ecc td out opts.neg_risk token resolved.0).1 ≡ ok neg
        → ((rc : RoundConfig)
            → OnCreated
                (IsGood out cfg (args signer maker st rc) neg maker signer st)
                (sign_data G fl dec eth ecc td out cfg key neg (args signer maker st rc)))
        → OnCreated (IsMade out cfg opts key token price c args) (
            with_config G fl dec eth ecc td
              (get_round_config tick)
              (λ rc. sign_data G fl dec eth ecc td out cfg key neg (args signer maker st rc)))
  with_config-IsMade out cfg opts key token price c args tick neg t valid n good =
      let st = value_or cfg.signature_type opts.signature_type in
      let maker = maker_of G fl dec eth ecc td cfg key in
      let signer = signer_of G fl dec eth ecc td cfg key st in
      with_config-OnCreated (IsMade out cfg opts key token price c args) tick _ (λ rc e.
        OnCreated-map {P = IsGood out cfg (args signer maker st rc) neg maker signer st}
          {Q = IsMade out cfg opts key token price c args}
          (sign_data G fl dec eth ecc td out cfg key neg (args signer maker st rc))
          (λ s g. (tick, rc, neg, t, e, valid, n, g)) (good rc))
