-- ===== src/Client/Caches.antt =====
-- polymarket/polymarket.go: what the client's caches hold and give back.
use go_polymarket_sdk.Common.{
  ◌≡◌, ◌+◌, refl, Bool, true, false, Option, none, some, String, ◌==◌, string_eq, if◌then◌else◌,
  arith, Option-cases, inl, inr, List, [], ◌∷◌, Bool-cases, ◌⊎◌,
}
use text.Mathlib.TextEquality.{eq_iff}
use go_polymarket_sdk.Common.Maps.{insert}
use go_polymarket_sdk.Decimals.{Float64}
use go_polymarket_sdk.Wire.{Gjson}
use go_polymarket_sdk.Orders.{
  TickSize, RoundConfig, is_valid, new_tick_size, is_tick_size_smaller, get_round_config,
  get_round_config-new_tick_size,
}
use go_polymarket_sdk.Client.{
  Client, Result, ok, err, get_tick_size, set_tick_size, clear_tick_sizes, enter_tick_size,
  fetched_tick_size, resolve_tick_size, get_fee_rate_bps, clear_fee_rates, set_fee_rate_bps,
  new_client, or_fetched_tick_size, checked_tick_size,
}

new_tick_size_valid : (v : String) (t : TickSize) → new_tick_size v ≡ some t → is_valid t ≡ true
unfolding new_tick_size
new_tick_size_valid v t h = ground arith

module _ {F : Type 0} where
  -- Only tick sizes that have a rounding are in the cache.
  abbrev pub CacheIsValid : Client F → Type 0
  CacheIsValid c = (token : String) (t : TickSize) → c.tick_sizes token ≡ some t → is_valid t ≡ true

  insert-CacheIsValid :
      (token : String) (v : TickSize) (c : Client F)
      → is_valid v ≡ true
      → CacheIsValid c
      → CacheIsValid (record c { tick_sizes = insert token v c.tick_sizes })
  insert-CacheIsValid token v c h k other t e = go (token == other) e
    where
      go : (b : Bool) → (if b then some v else c.tick_sizes other) ≡ some t → is_valid t ≡ true
      go true e = ground arith
      go false e = k other t e

  enter-CacheIsValid :
      (token text : String) (c : Client F)
      → CacheIsValid c
      → CacheIsValid (enter_tick_size token (new_tick_size text) c).0
  enter-CacheIsValid token text c k = elim (Option-cases (new_tick_size text)) [
    | inl e ↦ rw e k
    | inr (v, e) ↦ rw e (insert-CacheIsValid token v c (new_tick_size_valid text v e) k)
  ]

module _ {F : Type 0} (G : Gjson F) where
  open G use {Res, get, string, float}

  fetched-CacheIsValid :
      (token : String) (r : Option Res) (c : Client F)
      → CacheIsValid c
      → CacheIsValid (fetched_tick_size G token r c).0
  fetched-CacheIsValid token none c k = k
  fetched-CacheIsValid token (some r) c k = enter-CacheIsValid token _ c k

  get_tick_size-CacheIsValid :
      (token : String) (r : Option Res) (c : Client F)
      → CacheIsValid c
      → CacheIsValid (get_tick_size G token r c).0
  unfolding get_tick_size
  get_tick_size-CacheIsValid token r c k = elim (Bool-cases (token == "")) [
    | inl e ↦ rw e k
    | inr e ↦ rw e (go (c.tick_sizes token))
  ]
    where
      go : (o : Option TickSize) → CacheIsValid (or_fetched_tick_size G o token r c).0
      go none = fetched-CacheIsValid token r c k
      go (some v) = k

  cached :
      (v : TickSize) (token : String) (r : Option Res) (c : Client F)
      → (token == "") ≡ false
      → c.tick_sizes token ≡ some v
      → get_tick_size G token r c ≡ (c, ok v)
  unfolding get_tick_size
  cached v token r c h e = rw (h, e) refl

  entered :
      (o : Option TickSize) (v : TickSize) (token : String) (c : Client F)
      → (enter_tick_size token o c).1 ≡ ok v
      → ((enter_tick_size token o c).0).tick_sizes token ≡ some v
  entered none v token c h = absurd (cc)
  entered (some w) v token c h = ground (arith, (eq_iff token token).1 refl)

  got :
      (v : TickSize) (token : String) (r : Option Res) (c : Client F)
      → (get_tick_size G token r c).1 ≡ ok v
      → ((token == "") ≡ false) × ((get_tick_size G token r c).0.tick_sizes token ≡ some v)
  unfolding get_tick_size
  got v token r c h = elim (Bool-cases (token == "")) [
    | inl e ↦ absurd (ground arith)
    | inr e ↦ (e, rw e (go (c.tick_sizes token) refl r (rw e at h)))
  ]
    where
      go :
          (o : Option TickSize)
          → c.tick_sizes token ≡ o
          → (r : Option Res) → (or_fetched_tick_size G o token r c).1 ≡ ok v
          → (or_fetched_tick_size G o token r c).0.tick_sizes token ≡ some v
      go none e none k = absurd (cc)
      go none e (some x) k =
          entered (new_tick_size (string (get x "minimum_tick_size"))) v token c k
      go (some w) e r k = ground arith

  -- A tick size that is got is valid, and the next call gives the same without a request.
  pub get_tick_size_twice :
      (v : TickSize) (token : String) (r later : Option Res) (c : Client F)
      → CacheIsValid c
      → (get_tick_size G token r c).1 ≡ ok v
      → let c' = (get_tick_size G token r c).0 in
        (is_valid v ≡ true) × CacheIsValid c' × (get_tick_size G token later c' ≡ (c', ok v))
  get_tick_size_twice v token r later c k h =
      let (e, g) = got v token r c h in
      let k' = get_tick_size-CacheIsValid token r c k in
      (k' token v g, k', cached v token later _ e g)

  -- A call of an operation on the tick sizes.
  pub data TickOp : Type 0 where
    gets : String → Option Res → TickOp
    sets : String → String → TickOp
    clears : TickOp

  unfoldable pub tick_op : TickOp → Client F → Client F
  tick_op (gets token r) c = (get_tick_size G token r c).0
  tick_op (sets token text) c = (set_tick_size token text c).0
  tick_op clears c = clear_tick_sizes c

  unfoldable pub tick_ops : List TickOp → Client F → Client F
  tick_ops [] c = c
  tick_ops (o ∷ os) c = tick_ops os (tick_op o c)

  tick_op-CacheIsValid : (o : TickOp) (c : Client F) → CacheIsValid c → CacheIsValid (tick_op o c)
  unfolding tick_op set_tick_size clear_tick_sizes
  tick_op-CacheIsValid (gets token r) c k = get_tick_size-CacheIsValid token r c k
  tick_op-CacheIsValid (sets token text) c k = enter-CacheIsValid token text c k
  tick_op-CacheIsValid clears c k = λ token t e. absurd (cc)

  tick_ops-CacheIsValid : (os : List TickOp) → CacheIsValid (tick_ops os new_client)
  unfolding new_client tick_ops
  tick_ops-CacheIsValid os = from os _ (λ token t e. absurd (cc))
    where
      from : (os : List TickOp) (c : Client F) → CacheIsValid c → CacheIsValid (tick_ops os c)
      from [] c k = k
      from (o ∷ os) c k = from os (tick_op o c) (tick_op-CacheIsValid o c k)

  -- Whatever the server answers and the caller sets, every tick size in a new client's cache is one that
  -- GetRoundConfig has a rounding for, and this has as many places for an amount as for a price and a size.
  pub tick_ops_have_rounding :
      (os : List TickOp) (token : String) (t : TickSize)
      → (tick_ops os new_client).tick_sizes token ≡ some t
      → (rc : RoundConfig) × (get_round_config t ≡ some rc) × (rc.amount ≡ rc.price + rc.size)
  unfolding new_tick_size
  tick_ops_have_rounding os token t e =
      let (_, rc, e', f) =
        get_round_config-new_tick_size t t (rw (tick_ops-CacheIsValid os token t e) refl) in
      (rc, e', f)

  -- The bug: the fee rate that was fetched is read again from the map for the result, so that a
  -- call of ClearFeeRates in between has GetFeeRateBps report 0 as the market's fee rate.
  pub get_fee_rate_bps_races :
      (zero : F) (token : String) (r : Res) (c : Client F)
      → (token == "") ≡ false
      → c.fee_rates token ≡ none
      → ((get_fee_rate_bps G zero token (some r) (λ x. x) c).1 ≡ ok (float (get r "base_fee")))
        × ((get_fee_rate_bps G zero token (some r) clear_fee_rates c).1 ≡ ok zero)
  unfolding get_fee_rate_bps clear_fee_rates set_fee_rate_bps
  get_fee_rate_bps_races zero token r c h e =
      (ground (arith, (eq_iff token token).1 refl), rw (h, e) refl)

module _ {F : Type 0} (G : Gjson F) (fl : Float64 F) where
  -- A tick size that is resolved is the market's, or the caller's if that is not smaller.
  pub resolve_tick_size_lem :
      (token : String) (wanted : Option TickSize) (r : Option G.Res) (c : Client F) (t : TickSize)
      → (resolve_tick_size G fl token wanted r c).1 ≡ ok t
      → (least : TickSize) × ((resolve_tick_size G fl token wanted r c).0.tick_sizes token
          ≡ some least)
        × (((wanted ≡ none) × (t ≡ least))
            ⊎ ((wanted ≡ some t) × (is_tick_size_smaller fl t least ≡ false)))
  unfolding resolve_tick_size
  resolve_tick_size_lem token wanted r c t h = go (get_tick_size G token r c).1 refl wanted h
    where
      go :
          (o : Result TickSize)
          → (get_tick_size G token r c).1 ≡ o
          → (wanted : Option TickSize) → checked_tick_size G fl wanted o ≡ ok t
          → (least : TickSize) × ((get_tick_size G token r c).0.tick_sizes token ≡ some least)
            × (((wanted ≡ none) × (t ≡ least))
                ⊎ ((wanted ≡ some t) × (is_tick_size_smaller fl t least ≡ false)))
      go (err x) e wanted k = absurd (cc)
      go (ok least) e none k = (least, (got G least token r c e).1, inl (refl, ground arith))
      go (ok least) e (some w) k = (least, (got G least token r c e).1, inr (ground arith))
