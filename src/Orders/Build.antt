-- ===== src/Orders/Build.antt =====
-- orders/order_helper.go, orders/order_builder_impl.go and orders/order_builder.go: from a user's
-- order to the order that is signed and to the message that is sent. Addresses and hashes, big
-- integers and their texts are libraries', as an interface.
pub mod Sent
pub mod Signed
use go_polymarket_sdk.Common.{
  ℕ, Bool, true, false, Option, none, some, String, ◌==◌, string_eq, if◌then◌else◌,
}
use Prim.Native.String.{◌++◌ as text_append}
use go_polymarket_sdk.Common.Int.{ℤ, pos, beq_ℤ}
use go_polymarket_sdk.Common.Maps.{Map, insert, value_or}
use go_polymarket_sdk.Decimals.{Decimal, parse_units}
use go_polymarket_sdk.Orders.{Side, buy, sell, OrderType, MarketOrderType, RoundConfig}
use go_polymarket_sdk.Orders.Amounts.{get_order_raw_amounts, get_market_order_raw_amounts}

-- The constants of orders/constants.go.
abbrev pub eoa : ℕ
eoa = 0

pub data VerifyingContract : Type 0 where
  ctf_exchange neg_risk_ctf_exchange : VerifyingContract
  -- Any other number.
  other_contract : ℕ → VerifyingContract

pub record EthLib : Type 1 where
  pub Address : Type 0
  pub Hash : Type 0
  pub hex_to_address : String → Address
  pub address_text : Address → String
  pub hex_to_hash : String → Hash
  pub hash_text : Hash → String
  pub zero_hash : Hash
  -- `SetString(s, 10)` and `String` of a *big.Int, and strconv.FormatInt.
  pub big_int : String → Option ℤ
  pub big_text : ℤ → String
  -- The exchanges of a chain that GetContractConfig knows: for another one the source dereferences nil.
  pub exchange : ℤ → Address
  pub neg_risk_exchange : ℤ → Address

pub record OrderData : Type 0 where
  pub maker : String
  pub token_id : String
  pub maker_amount : String
  pub taker_amount : String
  pub side : Side
  pub signer : Option String
  pub signature_type : Option ℕ
  pub timestamp : Option String
  pub metadata : Option String
  pub builder : Option String
  pub expiration : Option String

pub record UserOrder (F : Type 0) : Type 0 where
  pub token_id : String
  pub price : F
  pub size : F
  pub side : Side
  pub metadata : Option String
  pub builder_code : Option String
  pub expiration : Option String

pub record UserMarketOrder (F : Type 0) : Type 0 where
  pub token_id : String
  pub price : Option F
  pub amount : F
  pub side : Side
  pub order_type : MarketOrderType
  pub metadata : Option String
  pub builder_code : Option String

pub record Order (eth : EthLib) : Type 0 where
  pub salt : ℤ
  pub maker : eth.Address
  pub signer : eth.Address
  pub token_id : ℤ
  pub maker_amount : ℤ
  pub taker_amount : ℤ
  pub side : ℤ
  pub signature_type : ℕ
  pub timestamp : ℤ
  pub metadata : eth.Hash
  pub builder : eth.Hash
  pub expiration : String

pub record OrderDto : Type 0 where
  pub salt : ℤ
  pub maker : String
  pub signer : String
  pub token_id : String
  pub maker_amount : String
  pub taker_amount : String
  pub side : Side
  pub signature_type : ℕ
  pub timestamp : String
  pub expiration : String
  pub metadata : String
  pub builder : String
  pub signature : String

pub record PostOrderDto : Type 0 where
  pub defer_exec : Bool
  pub order : OrderDto
  pub owner : String
  pub order_type : OrderType

module _ {F : Type 0} (dec : Decimal F) (eth : EthLib) where
  open eth use {big_text}

  -- Both amounts in units, `none` where one of them is no number.
  abbrev pub units : String → String → Option (ℤ × ℤ)
  units maker taker = pair (parse_units dec maker (pos 6)) (parse_units dec taker (pos 6))
    where
      pair : Option ℤ → Option ℤ → Option (ℤ × ℤ)
      pair none t = none
      pair (some m) none = none
      pair (some m) (some t) = some (m, t)

  abbrev pub with_units : Option (ℤ × ℤ) → (ℤ → ℤ → OrderData) → Option OrderData
  with_units none f = none
  with_units (some (m, t)) f = some (f m t)

  -- `now` is the clock in milliseconds. `none` is an error of `ParseUnits`.
  unfoldable pub build_order_creation_args :
      ℤ → String → String → ℕ → UserOrder F → RoundConfig → Option OrderData
  build_order_creation_args now signer maker signature_type o c =
      let (side, raw_maker, raw_taker) = get_order_raw_amounts dec o.side o.size o.price c in
      with_units (units raw_maker raw_taker) (λ m t. record {
        maker = maker;
        token_id = o.token_id;
        maker_amount = big_text m;
        taker_amount = big_text t;
        side = side;
        signer = some signer;
        signature_type = some signature_type;
        timestamp = some (big_text now);
        metadata = o.metadata;
        builder = o.builder_code;
        expiration = o.expiration;
      })

  abbrev pub price_or : F → Option F → F
  price_or one none = one
  price_or one (some p) = p

  -- `one` is the float 1.
  unfoldable pub build_market_order_creation_args :
      F → ℤ → String → String → ℕ → UserMarketOrder F → RoundConfig → Option OrderData
  build_market_order_creation_args one now signer maker signature_type o c =
      let (side, raw_maker, raw_taker) =
        get_market_order_raw_amounts dec o.side o.amount (price_or one o.price) c in
      with_units (units raw_maker raw_taker) (λ m t. record {
        maker = maker;
        token_id = o.token_id;
        maker_amount = big_text m;
        taker_amount = big_text t;
        side = side;
        signer = some signer;
        signature_type = some signature_type;
        timestamp = some (big_text now);
        metadata = o.metadata;
        builder = o.builder_code;
        expiration = some "0";
      })

pub data BuildError : Type 0 where
  bad_token_id bad_maker_amount bad_taker_amount bad_timestamp bad_contract : BuildError

pub data Result (A : Type 0) : Type 0 where
  ok : A → Result A
  err : BuildError → Result A

abbrev pub expiration_of : Option String → String
expiration_of none = "0"
expiration_of (some e) = if e == "" then "0" else e

module _ (eth : EthLib) where
  open eth use {
    Address, Hash, hex_to_address, address_text, hex_to_hash, hash_text, zero_hash, big_int,
    big_text,
  }

  abbrev pub hash_or : Hash → Option String → Hash
  hash_or h none = h
  hash_or h (some s) = hex_to_hash s

  abbrev pub default_builder : String
  default_builder = "0x05218f8fe2ecac33c25ead880759a221303d7623f807be8b876a0bff9dd18b7c"

  abbrev pub timestamp_of : ℤ → Option String → Option ℤ
  timestamp_of now none = some now
  timestamp_of now (some s) = big_int s

  -- The order, where its four numbers can be read.
  abbrev pub order_of :
      ℤ → OrderData → Option ℤ → Option ℤ → Option ℤ → Option ℤ → Result (Order eth)
  order_of salt d none m t time = err bad_token_id
  order_of salt d (some token) none t time = err bad_maker_amount
  order_of salt d (some token) (some m) none time = err bad_taker_amount
  order_of salt d (some token) (some m) (some t) none = err bad_timestamp
  order_of salt d (some token) (some m) (some t) (some time) = ok (record {
    salt = salt;
    maker = hex_to_address d.maker;
    signer = hex_to_address (value_or d.maker d.signer);
    token_id = token;
    maker_amount = m;
    taker_amount = t;
    side = if d.side == sell then pos 1 else pos 0;
    signature_type = value_or eoa d.signature_type;
    timestamp = time;
    metadata = hash_or zero_hash d.metadata;
    builder = hash_or (hex_to_hash default_builder) d.builder;
    expiration = expiration_of d.expiration;
  })

  -- `salt` is what the generator gives, and `now` the clock in milliseconds.
  unfoldable pub build_order : ℤ → ℤ → OrderData → Result (Order eth)
  build_order salt now d =
      order_of salt d (big_int d.token_id) (big_int d.maker_amount) (big_int d.taker_amount)
        (timestamp_of now d.timestamp)

  -- `signature` is the signature's hexadecimal text. The salt fits into an int64.
  unfoldable pub order_to_dto :
      Order eth → String → String → OrderType → Bool → String → PostOrderDto
  order_to_dto o signature owner order_type defer expiration = record {
    defer_exec = defer;
    order = record {
      salt = o.salt;
      maker = address_text o.maker;
      signer = address_text o.signer;
      token_id = big_text o.token_id;
      maker_amount = big_text o.maker_amount;
      taker_amount = big_text o.taker_amount;
      side = if beq_ℤ o.side (pos 0) then buy else sell;
      signature_type = o.signature_type;
      timestamp = big_text o.timestamp;
      expiration = expiration;
      metadata = hash_text o.metadata;
      builder = hash_text o.builder;
      signature = text_append "0x" signature;
    };
    owner = owner;
    order_type = order_type;
  }

  unfoldable pub get_verifying_contract_address : ℤ → VerifyingContract → Result Address
  get_verifying_contract_address chain ctf_exchange = ok (eth.exchange chain)
  get_verifying_contract_address chain neg_risk_ctf_exchange = ok (eth.neg_risk_exchange chain)
  get_verifying_contract_address chain (other_contract n) = err bad_contract

  -- What PostOrder sends.
  unfoldable pub post_order_payload : Order eth → String → String → OrderType → Bool → PostOrderDto
  post_order_payload o signature key order_type defer =
      order_to_dto o signature key order_type defer "0"
