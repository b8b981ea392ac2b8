-- ===== src/Client.antt =====
-- polymarket/polymarket.go: the client's caches of tick sizes, fee rates and neg-risk flags. A fetch
-- that fails gives `none`; `G` is gjson and `F` float64. Each mutex makes its map's accesses steps.
pub mod Caches
pub mod Pages
pub mod Create
pub mod Requests
pub mod Answers
use go_polymarket_sdk.Common.{
  Bool, true, false, not, ◌&&◌, Option, none, some, String, ◌==◌, string_eq, if◌then◌else◌,
}
use go_polymarket_sdk.Common.Maps.{Map, empty, insert, value_or}
use go_polymarket_sdk.Decimals.{Float64}
use go_polymarket_sdk.Wire.{Gjson}
use go_polymarket_sdk.Orders.{TickSize, new_tick_size, is_tick_size_smaller}

pub record Client (F : Type 0) : Type 0 where
  pub tick_sizes : Map String TickSize
  pub fee_rates : Map String F
  pub neg_risk : Map String Bool

pub data ClientError : Type 0 where
  empty_token fetch_failed bad_tick_size too_small fee_mismatch : ClientError

pub data Result (A : Type 0) : Type 0 where
  ok : A → Result A
  err : ClientError → Result A

module _ {F : Type 0} where
  unfoldable pub new_client : Client F
  new_client = record { tick_sizes = empty; fee_rates = empty; neg_risk = empty }

  unfoldable pub clear_tick_sizes : Client F → Client F
  clear_tick_sizes c = record c { tick_sizes = empty }

  unfoldable pub clear_fee_rates : Client F → Client F
  clear_fee_rates c = record c { fee_rates = empty }

  unfoldable pub clear_neg_risk : Client F → Client F
  clear_neg_risk c = record c { neg_risk = empty }

  abbrev pub enter_tick_size : String → Option TickSize → Client F → Client F × Result TickSize
  enter_tick_size token none c = (c, err bad_tick_size)
  enter_tick_size token (some v) c = (record c { tick_sizes = insert token v c.tick_sizes }, ok v)

  -- `text` is `utils.FloatToString` of the size. The result is the error, if any.
  unfoldable pub set_tick_size : String → String → Client F → Client F × Result TickSize
  set_tick_size token text c = enter_tick_size token (new_tick_size text) c

  unfoldable pub set_fee_rate_bps : String → F → Client F → Client F
  set_fee_rate_bps token rate c = record c { fee_rates = insert token rate c.fee_rates }

  unfoldable pub set_neg_risk : String → Bool → Client F → Client F
  set_neg_risk token flag c = record c { neg_risk = insert token flag c.neg_risk }

module _ {F : Type 0} (G : Gjson F) where
  open G use {Res, get, string, float, boolean}

  abbrev pub fetched_tick_size : String → Option Res → Client F → Client F × Result TickSize
  fetched_tick_size token none c = (c, err fetch_failed)
  fetched_tick_size token (some r) c =
      enter_tick_size token (new_tick_size (string (get r "minimum_tick_size"))) c

  abbrev pub or_fetched_tick_size :
      Option TickSize → String → Option Res → Client F → Client F × Result TickSize
  or_fetched_tick_size none token r c = fetched_tick_size token r c
  or_fetched_tick_size (some v) token r c = (c, ok v)

  unfoldable pub get_tick_size : String → Option Res → Client F → Client F × Result TickSize
  get_tick_size token r c =
      if token == ""
      then (c, err empty_token)
      else or_fetched_tick_size (c.tick_sizes token) token r c

  -- `between` is what other goroutines do to the caches after the map is unlocked and before it is
  -- read again, without the lock, for the result; `zero` is the float 0.
  abbrev pub fetched_fee_rate :
      F → String → Option Res → (Client F → Client F) → Client F → Client F × Result F
  fetched_fee_rate zero token none between c = (c, err fetch_failed)
  fetched_fee_rate zero token (some r) between c =
      let c1 = between (set_fee_rate_bps token (float (get r "base_fee")) c) in
      (c1, ok (value_or zero (c1.fee_rates token)))

  abbrev pub or_fetched_fee_rate :
      Option F → F → String → Option Res → (Client F → Client F) → Client F → Client F × Result F
  or_fetched_fee_rate none zero token r between c = fetched_fee_rate zero token r between c
  or_fetched_fee_rate (some v) zero token r between c = (c, ok v)

  unfoldable pub get_fee_rate_bps :
      F → String → Option Res → (Client F → Client F) → Client F → Client F × Result F
  get_fee_rate_bps zero token r between c =
      if token == ""
      then (c, err empty_token)
      else or_fetched_fee_rate (c.fee_rates token) zero token r between c

  abbrev pub fetched_neg_risk :
      String → Option Res → (Client F → Client F) → Client F → Client F × Result Bool
  fetched_neg_risk token none between c = (c, err fetch_failed)
  fetched_neg_risk token (some r) between c =
      let c1 = between (set_neg_risk token (boolean (get r "neg_risk")) c) in
      (c1, ok (value_or false (c1.neg_risk token)))

  abbrev pub or_fetched_neg_risk :
      Option Bool → String → Option Res → (Client F → Client F) → Client F → Client F × Result Bool
  or_fetched_neg_risk none token r between c = fetched_neg_risk token r between c
  or_fetched_neg_risk (some v) token r between c = (c, ok v)

  unfoldable pub get_neg_risk :
      String → Option Res → (Client F → Client F) → Client F → Client F × Result Bool
  get_neg_risk token r between c =
      if token == ""
      then (c, err empty_token)
      else or_fetched_neg_risk (c.neg_risk token) token r between c

module _ {F : Type 0} (G : Gjson F) (fl : Float64 F) where
  abbrev pub checked_tick_size : Option TickSize → Result TickSize → Result TickSize
  checked_tick_size wanted (err e) = err e
  checked_tick_size none (ok least) = ok least
  checked_tick_size (some t) (ok least) =
      if is_tick_size_smaller fl t least then err too_small else ok t

  unfoldable pub resolve_tick_size :
      String → Option TickSize → Option G.Res → Client F → Client F × Result TickSize
  resolve_tick_size token wanted r c =
      let (c1, least) = get_tick_size G token r c in (c1, checked_tick_size wanted least)

  -- `x != y` on float64, by the order.
  abbrev pub differs : F → F → Bool
  differs x y = not (fl.leb x y && fl.leb y x)

  abbrev pub checked_fee_rate : Option F → Result F → Result F
  checked_fee_rate user (err e) = err e
  checked_fee_rate none (ok market) = ok market
  checked_fee_rate (some u) (ok market) =
      if fl.ltb fl.zero market && differs u market then err fee_mismatch else ok market

  unfoldable pub resolve_fee_rate_bps :
      String → Option F → Option G.Res → (Client F → Client F) → Client F → Client F × Result F
  resolve_fee_rate_bps token user r between c =
      let (c1, market) = get_fee_rate_bps G fl.zero token r between c in
      (c1, checked_fee_rate user market)
