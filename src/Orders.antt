-- ===== src/Orders.antt =====
-- orders/types.go, orders/model.go, orders/constants.go, orders/types_impl.go, orders/utils.go: the
-- data of an order and the tick sizes. `F` is float64, an int64 or a *big.Int is an integer.
pub mod MarketPrice
pub mod Amounts
pub mod Signature
pub mod Build
use go_polymarket_sdk.Common.{
  ℕ, ◌+◌, ◌≡◌, arith, refl, sym, Bool, true, false, ◌&&◌, ◌||◌, Option, none, some, String, List,
  ◌==◌, string_eq, if◌then◌else◌,
}
use go_polymarket_sdk.Decimals.{Float64}

abbrev pub Side : Type 0
Side = String

abbrev pub buy : Side
buy = "BUY"

abbrev pub sell : Side
sell = "SELL"

pub data MarketOrderType : Type 0 where
  market_fok market_fak : MarketOrderType

pub data OrderType : Type 0 where
  gtc fok gtd fak : OrderType

pub record RoundConfig : Type 0 where
  pub price : ℕ
  pub size : ℕ
  pub amount : ℕ

abbrev pub TickSize : Type 0
TickSize = String

unfoldable pub is_valid : TickSize → Bool
is_valid t = t == "0.1" || t == "0.01" || t == "0.001" || t == "0.0001"

-- `none` is the error "invalid TickSize".
unfoldable pub new_tick_size : String → Option TickSize
new_tick_size v = if is_valid v then some v else none

-- `none` is the panic "invalid TickSize".
unfoldable pub get_round_config : TickSize → Option RoundConfig
get_round_config t =
    if t == "0.1"
    then some (record { price = 1; size = 2; amount = 3 })
    else if t == "0.01"
    then some (record { price = 2; size = 2; amount = 4 })
    else if t == "0.001"
    then some (record { price = 3; size = 2; amount = 5 })
    else if t == "0.0001"
    then some (record { price = 4; size = 2; amount = 6 })
    else none

-- The rounding of a tick size, by whether it is each of the first three.
abbrev config_of : Bool → Bool → Bool → RoundConfig
config_of true b c = record { price = 1; size = 2; amount = 3 }
config_of false true c = record { price = 2; size = 2; amount = 4 }
config_of false false true = record { price = 3; size = 2; amount = 5 }
config_of false false false = record { price = 4; size = 2; amount = 6 }

config_amount :
    (a b c : Bool) → (config_of a b c).amount ≡ (config_of a b c).price + (config_of a b c).size
config_amount true b c = refl
config_amount false true c = refl
config_amount false false true = refl
config_amount false false false = refl

get_round_config_of :
    (t : TickSize)
    → is_valid t ≡ true
    → get_round_config t ≡ some (config_of (t == "0.1") (t == "0.01") (t == "0.001"))
unfolding is_valid get_round_config
get_round_config_of t h = go (t == "0.1") (t == "0.01") (t == "0.001") (t == "0.0001") h
  where
    go :
        (a b c d : Bool)
        → (a || b || c || d) ≡ true
        → (if a
            then some (record { price = 1; size = 2; amount = 3 })
            else if b
            then some (record { price = 2; size = 2; amount = 4 })
            else if c
            then some (record { price = 3; size = 2; amount = 5 })
            else if d
            then some (record { price = 4; size = 2; amount = 6 })
            else none)
          ≡ some (config_of a b c)
    go true b c d h = refl
    go false true c d h = refl
    go false false true d h = refl
    go false false false true h = refl
    go false false false false h = cc

-- `new_tick_size` gives back the text that it is given, and only a valid one.
new_tick_size_lem :
    (v : String) (t : TickSize) → new_tick_size v ≡ some t → (v ≡ t) × (is_valid v ≡ true)
unfolding new_tick_size
new_tick_size_lem v t h = ground arith

-- Every tick size that is let in is the text that was given, and has a rounding (so that
-- GetRoundConfig does not panic) whose amounts have room for all the places of a price times a size.
pub get_round_config-new_tick_size :
    (v : String) (t : TickSize)
    → new_tick_size v ≡ some t
    → (t ≡ v) × (c : RoundConfig) × (get_round_config t ≡ some c) × (c.amount ≡ c.price + c.size)
get_round_config-new_tick_size v t h =
    let (e, ok) = new_tick_size_lem v t h in
    (
      sym e,
      config_of (v == "0.1") (v == "0.01") (v == "0.001"),
      rw (← e) (get_round_config_of v ok),
      config_amount (v == "0.1") (v == "0.01") (v == "0.001"),
    )

module _ {F : Type 0} (fl : Float64 F) where
  open fl use {zero, one, sub, leb, ltb, parse_float}

  abbrev both_parsed : Option F → Option F → (F → F → Bool) → Bool
  both_parsed none y test = false
  both_parsed (some x) none test = false
  both_parsed (some x) (some y) test = test x y

  unfoldable pub is_tick_size_smaller : TickSize → TickSize → Bool
  is_tick_size_smaller a b = both_parsed (parse_float a) (parse_float b) ltb

  unfoldable pub price_valid : F → TickSize → Bool
  price_valid price tick = elim (parse_float tick) [
    | none ↦ false
    | some t ↦ leb t price && leb price (sub one t)
  ]

  unfoldable pub convert_tick_size : TickSize → F
  convert_tick_size tick = elim (parse_float tick) [ none ↦ zero | some t ↦ t ]
