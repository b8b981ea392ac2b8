-- ===== src/Orders/Build/Sent.antt =====
-- orders/order_helper.go, orders/order_builder_impl.go: what the server is sent for a user's order.
use go_polymarket_sdk.Common.{
  ℕ, ◌≡◌, refl, sym, ap, ◌∙◌, Bool, Option, none, some, String, ◌==◌, string_eq, if◌then◌else◌,
  Bool-cases, inl, inr, arith,
}
use Prim.Native.String.{◌++◌ as text_append}
use go_polymarket_sdk.Common.Int.{ℤ, pos, beq_ℤ}
use go_polymarket_sdk.Decimals.{Decimal}
use go_polymarket_sdk.Orders.{Side, buy, sell, OrderType, RoundConfig}
use go_polymarket_sdk.Orders.Amounts.{get_order_raw_amounts}
use go_polymarket_sdk.Orders.Build.{
  EthLib, OrderData, UserOrder, Order, OrderDto, units, build_order_creation_args, ok, build_order,
  order_to_dto, hash_or, default_builder, post_order_payload, expiration_of, with_units, order_of,
  timestamp_of,
}

-- The side that counts: anything but BUY is SELL.
abbrev pub side_of : Side → Side
side_of s = if s == buy then buy else sell

side-get_order_raw_amounts :
    {F : Type 0} (dec : Decimal F) (s : Side) (size price : F) (c : RoundConfig)
    → (get_order_raw_amounts dec s size price c).0 ≡ side_of s
unfolding get_order_raw_amounts
side-get_order_raw_amounts dec s size price c = elim (Bool-cases (s == buy)) [
  | inl e ↦ rw e refl
  | inr e ↦ rw e refl
]

-- The side goes through the order as a number and comes back.
side_back :
    (s : Side)
    → (if beq_ℤ (if side_of s == sell then pos 1 else pos 0) (pos 0) then buy else sell) ≡ side_of s
side_back s = elim (Bool-cases (s == buy)) [ inl e ↦ rw e refl | inr e ↦ rw e refl ]

module _ {F : Type 0} (dec : Decimal F) (eth : EthLib) where
  open eth use {hex_to_address, address_text, hex_to_hash, hash_text, zero_hash, big_int, big_text}

  -- The number is read back from its text.
  abbrev pub Reads : ℤ → Type 0
  Reads z = big_int (big_text z) ≡ some z

  -- The message for a user's order, with amounts `m` and `t` in units.
  abbrev pub expected :
      ℤ → ℤ → String → String → ℕ → UserOrder F → ℤ → ℤ → ℤ → String → String → OrderDto
  expected salt now signer maker signature_type o token m t signature expiration = record {
    salt = salt;
    maker = address_text (hex_to_address maker);
    signer = address_text (hex_to_address signer);
    token_id = big_text token;
    maker_amount = big_text m;
    taker_amount = big_text t;
    side = side_of o.side;
    signature_type = signature_type;
    timestamp = big_text now;
    expiration = expiration;
    metadata = hash_text (hash_or eth zero_hash o.metadata);
    builder = hash_text (hash_or eth (hex_to_hash (default_builder eth)) o.builder_code);
    signature = text_append "0x" signature;
  }

  -- A user's order whose amounts and token are numbers, where the texts of these amounts and of the
  -- clock are read back as the same numbers, is built without an error, and the message that is
  -- sent has the user's side (anything but BUY being SELL) and token, the raw amounts in units, the
  -- given maker, signer and signature type, and the clock of the first step.
  pub order_to_dto-build_order :
      (salt now later : ℤ) (signer maker : String) (signature_type : ℕ) (o : UserOrder F)
      (c : RoundConfig) (token m t : ℤ) (signature owner : String) (order_type : OrderType)
      (defer : Bool) (expiration : String)
      → (let raw = get_order_raw_amounts dec o.side o.size o.price c in units dec eth raw.1 raw.2)
        ≡ some (m, t)
      → big_int o.token_id ≡ some token
      → Reads m
      → Reads t
      → Reads now
      → (d : OrderData) × (b : Order eth) × (build_order_creation_args dec eth now signer maker
            signature_type o c
          ≡ some d)
        × (build_order eth salt later d ≡ ok b)
        × ((order_to_dto eth b signature owner order_type defer expiration).order
            ≡ expected salt now signer maker signature_type o token m t signature expiration)
  unfolding build_order_creation_args build_order order_to_dto
  order_to_dto-build_order salt now later signer maker signature_type o c token m t signature owner
        order_type defer expiration h k pm pt pn =
      let raw = get_order_raw_amounts dec o.side o.size o.price c in
      let d : OrderData = record {
        maker = maker;
        token_id = o.token_id;
        maker_amount = big_text m;
        taker_amount = big_text t;
        side = raw.0;
        signer = some signer;
        signature_type = some signature_type;
        timestamp = some (big_text now);
        metadata = o.metadata;
        builder = o.builder_code;
        expiration = o.expiration;
      } in
      let b : Order eth = record {
        salt = salt;
        maker = hex_to_address maker;
        signer = hex_to_address signer;
        token_id = token;
        maker_amount = m;
        taker_amount = t;
        side = if raw.0 == sell then pos 1 else pos 0;
        signature_type = signature_type;
        timestamp = now;
        metadata = hash_or eth zero_hash o.metadata;
        builder = hash_or eth (hex_to_hash (default_builder eth)) o.builder_code;
        expiration = expiration_of o.expiration;
      } in
      (
        d,
        b,
        rw h refl,
        rw k (rw pm (rw pt (rw pn refl))),
        rw (side-get_order_raw_amounts dec o.side o.size o.price c) (
            ap
              (λ s.
                record (expected salt now signer maker signature_type o token m t signature
                  expiration) { side = s })
              (side_back o.side)),
      )

  with_units_expiration :
      (u : Option (ℤ × ℤ)) (f : ℤ → ℤ → OrderData) (e : Option String) (d : OrderData)
      → ((m t : ℤ) → (f m t).expiration ≡ e)
      → with_units dec eth u f ≡ some d
      → d.expiration ≡ e
  with_units_expiration none f e d same h = absurd (cc)
  with_units_expiration (some (m, t)) f e d same h =
      let q : f m t ≡ d = cc in sym (ap (λ (x : OrderData). x.expiration) q) ∙ same m t

  order_of_expiration :
      (salt : ℤ) (d : OrderData) (b : Order eth) (a m t time : Option ℤ)
      → order_of eth salt d a m t time ≡ ok b
      → b.expiration ≡ expiration_of d.expiration
  order_of_expiration salt d b none m t time h = absurd (cc)
  order_of_expiration salt d b (some a) none t time h = absurd (cc)
  order_of_expiration salt d b (some a) (some m) none time h = absurd (cc)
  order_of_expiration salt d b (some a) (some m) (some t) none h = absurd (cc)
  order_of_expiration salt d b (some a) (some m) (some t) (some time) h = ground arith

  -- The bug: PostOrder sends the expiration "0" for every order, so that the expiration of the
  -- user's order, which the built order holds, never reaches the server.
  pub post_order_payload_forgets :
      (salt now later : ℤ) (signer maker : String) (signature_type : ℕ) (o : UserOrder F)
      (c : RoundConfig) (d : OrderData) (b : Order eth) (signature key : String)
      (order_type : OrderType) (defer : Bool)
      → build_order_creation_args dec eth now signer maker signature_type o c ≡ some d
      → build_order eth salt later d ≡ ok b
      → (b.expiration ≡ expiration_of o.expiration)
        × ((post_order_payload eth b signature key order_type defer).order.expiration ≡ "0")
  unfolding build_order_creation_args build_order order_to_dto post_order_payload
  post_order_payload_forgets salt now later signer maker signature_type o c d b signature key
        order_type defer h k =
      let raw = get_order_raw_amounts dec o.side o.size o.price c in
      (
        order_of_expiration salt d b (big_int d.token_id) (big_int d.maker_amount)
              (big_int d.taker_amount) (timestamp_of eth later d.timestamp) k
            ∙ ap expiration_of (
                with_units_expiration (units dec eth raw.1 raw.2) _ o.expiration d (λ m t. refl) h),
        refl,
      )
