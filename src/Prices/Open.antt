-- ===== src/Prices/Open.antt =====
-- polymarket/crypto_price_monitor.go and polymarket/polymarket.go: FetchOpenPrice and
-- FetchOpenPriceContext. `parse_time` is time.Parse; a query holds its times as instants.
use go_polymarket_sdk.Common.{
  ℕ, ◌-◌, ◌%◌, ◌<◌, ◌≡◌, refl, Bool, true, Option, none, some, String, List, [], ◌∷◌, ◌⊎◌, inl, inr,
  contains, string_eq, All, arith, nat_eq,
}
use go_polymarket_sdk.Common.Int.{ℤ, pos, ◌<ℤ◌, ◌-ℤ◌, parts_sub}
use go_polymarket_sdk.Common.Maps.{value_or}
use go_polymarket_sdk.Common.Text.{Unicode}
use go_polymarket_sdk.Wire.{Gjson}
use go_polymarket_sdk.Tags.{
  zero_time, Time, Instant, time_units, get_symbol, get_time_unit, get_search_time_unit,
  get_start_time, instant, time_parse, slugs_of, first_among,
}
use go_polymarket_sdk.Tags.Units.{first_among-All}
use go_polymarket_sdk.Tags.Start.{get_start_time_before, StartsBefore}

pub record OpenPriceQuery : Type 0 where
  pub symbol : String
  pub event_start_time : Instant
  pub end_date : Instant
  pub variant : String
  pub twap_enabled : Bool
  pub twap_lookback_seconds : ℤ

-- `Truncate(time.Millisecond)` of ToISOString.
abbrev pub to_millis : Instant → Instant
to_millis i = record i { nanos = i.nanos - i.nanos % 1000000 }

-- An error of GetSearchTimeUnit is ignored, which leaves the empty variant.
abbrev pub query_of : Bool → ℤ → Option Time → String → String → OpenPriceQuery
query_of twap lookback end_date symbol unit = record {
  symbol = symbol;
  event_start_time = to_millis (get_start_time unit end_date);
  end_date = to_millis (instant (time_parse end_date));
  variant = value_or "" (get_search_time_unit unit);
  twap_enabled = twap;
  twap_lookback_seconds = lookback;
}

abbrev pub asked : Bool → ℤ → Option Time → Option String → Option String → Option OpenPriceQuery
asked twap lookback end_date none unit = none
asked twap lookback end_date (some symbol) none = none
asked twap lookback end_date (some symbol) (some unit) =
    some (query_of twap lookback end_date symbol unit)

module _ {F : Type 0} (G : Gjson F) (u : Unicode) where
  open G use {Res, get, string, float, array}

  -- What FetchOpenPrice asks, if anything; `order` is that of the keys of the symbols.
  unfoldable pub open_price_query :
      List String → (String → Option Time) → Res → Bool → ℤ → Option OpenPriceQuery
  open_price_query order parse_time market twap lookback =
      let tags = array (get market "tags") in
      asked twap lookback (parse_time (string (get market "endDate"))) (get_symbol G u order tags)
        (get_time_unit G u tags)

  -- `answer` is GetContext's, `none` an error. The prices are the opening and the closing one.
  unfoldable pub fetch_open_price_context : F → Option Res → F × F
  fetch_open_price_context zero none = (zero, zero)
  fetch_open_price_context zero (some r) = (float (get r "openPrice"), float (get r "closePrice"))

  abbrev pub fetched_price : F → (OpenPriceQuery → Option Res) → Option OpenPriceQuery → F × F
  fetched_price zero ask none = (zero, zero)
  fetched_price zero ask (some q) = fetch_open_price_context zero (ask q)

  unfoldable pub fetch_open_price :
      F
      → List String
      → (String → Option Time)
      → (OpenPriceQuery → Option Res)
      → Res
      → Bool
      → ℤ
      → F × F
  fetch_open_price zero order parse_time ask market twap lookback =
      fetched_price zero ask (open_price_query order parse_time market twap lookback)

-- The variants of polymarket/types.go.
abbrev pub variants : List String
variants = "fiveminute" ∷ "fifteen" ∷ "hourly" ∷ "fourhour" ∷ "daily" ∷ "weekly" ∷ "monthly" ∷ []

-- A query that the server can answer.
abbrev pub IsAnswerable : OpenPriceQuery → Type 0
IsAnswerable q =
    (contains variants q.variant ≡ true)
    × ((q.variant ≡ "monthly") ⊎ (q.event_start_time.at <ℤ q.end_date.at))

earlier_less : (z : ℤ) (n : ℕ) → 0 < n → (z -ℤ pos n) <ℤ z
earlier_less z n h = omega (arith, parts_sub z (pos n))

abbrev UnitSound : Option Time → String → Type 0
UnitSound t unit =
    (contains variants (value_or "" (get_search_time_unit unit)) ≡ true)
    × ((value_or "" (get_search_time_unit unit) ≡ "monthly")
        ⊎ ((get_start_time unit t).at <ℤ (instant (time_parse t)).at))

starts_less :
    (unit : String) (n : ℕ) (t : Time)
    → 0 < n
    → StartsBefore t (unit, n)
    → (get_start_time unit (some t)).at <ℤ (instant t).at
starts_less unit n t h e = rw e (earlier_less (instant t).at n h)

units_sound : (t : Time) → All (UnitSound (some t)) time_units
unfolding get_search_time_unit time_parse
units_sound t =
    let b = get_start_time_before t in
    (
      (refl, inr (starts_less "15m" 900 t (omega arith) b.1.0)),
      (
        (refl, inr (starts_less "hourly" 3600 t (omega arith) b.1.1.0)),
        (
          (refl, inr (starts_less "4h" 14400 t (omega arith) b.1.1.1.0)),
          (
            (refl, inr (starts_less "daily" 86400 t (omega arith) b.1.1.1.1.0)),
            (
              (refl, inr (starts_less "weekly" 604800 t (omega arith) b.1.1.1.1.1.0)),
              ((refl, inl refl), ((refl, inr (starts_less "5m" 300 t (omega arith) b.0)), tt)),
            ),
          ),
        ),
      ),
    )

units_sound_at : (o : Option Time) → All (UnitSound o) time_units
unfolding get_search_time_unit time_parse get_start_time
units_sound_at none = units_sound zero_time
units_sound_at (some t) = units_sound t

module _ {F : Type 0} (G : Gjson F) (u : Unicode) where
  open G use {Res, get, string, array}

  -- Whatever the market's tags and its end date, FetchOpenPrice asks nothing or it asks for a variant that
  -- the server knows, from a start before the end unless the market is a monthly one.
  pub open_price_query-IsAnswerable :
      (order : List String) (parse_time : String → Option Time) (market : Res) (twap : Bool)
      (lookback : ℤ)
      → (open_price_query G u order parse_time market twap lookback ≡ none)
        ⊎ ((q : OpenPriceQuery) × (open_price_query G u order parse_time market twap lookback
              ≡ some q)
            × IsAnswerable q)
  unfolding open_price_query get_time_unit
  open_price_query-IsAnswerable order parse_time market twap lookback =
      let tags = array (get market "tags") in
      let t = parse_time (string (get market "endDate")) in
      go t (get_symbol G u order tags) (first_among time_units (slugs_of G u tags))
        (first_among-All (UnitSound t) time_units (slugs_of G u tags) (units_sound_at t))
    where
      go :
          (t : Option Time) (s : Option String) (k : Option String)
          → (k ≡ none) ⊎ ((unit : String) × (k ≡ some unit) × UnitSound t unit)
          → (asked twap lookback t s k ≡ none)
            ⊎ ((q : OpenPriceQuery) × (asked twap lookback t s k ≡ some q) × IsAnswerable q)
      go t none k h = inl refl
      go t (some s) k (inl e) = rw e (inl refl)
      go t (some s) k (inr (unit, e, sound)) =
          rw e (inr (query_of twap lookback t s unit, refl, sound))
