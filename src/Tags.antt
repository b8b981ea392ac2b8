-- ===== src/Tags.antt =====
-- polymarket/helper.go: a market's symbol, its time unit and the start of its time. A time is what
-- time.Parse reads from an RFC 3339 text; the location's offset from UTC is fixed.
pub mod Units
pub mod Start
pub mod Stamp
use go_polymarket_sdk.Common.{
  ℕ, ◌+◌, ◌-◌, ◌*◌, ◌/◌, ◌%◌, Bool, true, false, ◌&&◌, ◌||◌, not, Option, none, some, String, List,
  [], ◌∷◌, map, ◌==◌, string_eq, nat_eq, ltb, if◌then◌else◌, contains,
}
use go_polymarket_sdk.Common.Int.{ℤ, pos, negsuc, sub_ℕ, ◌+ℤ◌, ◌-ℤ◌}
use go_polymarket_sdk.Common.Maps.{Map, empty, copy, value_or}
use go_polymarket_sdk.Common.Text.{Unicode, to_lower}
use go_polymarket_sdk.Wire.{Gjson}

abbrev pub time_units : List String
time_units = "15m" ∷ "hourly" ∷ "4h" ∷ "daily" ∷ "weekly" ∷ "monthly" ∷ "5m" ∷ []

abbrev pub time_unit_map : Map String String
time_unit_map = copy empty (
    ("5m", "fiveminute")
    ∷ ("15m", "fifteen")
    ∷ ("hourly", "hourly")
    ∷ ("4h", "fourhour")
    ∷ ("daily", "daily")
    ∷ ("weekly", "weekly")
    ∷ ("monthly", "monthly")
    ∷ [])

abbrev pub symbol_map : Map String String
symbol_map = copy empty (
    ("sol", "SOL")
    ∷ ("solana", "SOL")
    ∷ ("eth", "ETH")
    ∷ ("ethereum", "ETH")
    ∷ ("btc", "BTC")
    ∷ ("bitcoin", "BTC")
    ∷ ("xrp", "XRP")
    ∷ ("dogecoin", "DOGE")
    ∷ [])

-- The keys of the map; Go gives them in an order of its own, so that the order is an argument below.
abbrev pub symbol_slugs : List String
symbol_slugs = "sol" ∷ "solana" ∷ "eth" ∷ "ethereum" ∷ "btc" ∷ "bitcoin" ∷ "xrp" ∷ "dogecoin" ∷ []

-- The loop of `GetSymbol` and `GetTimeUnit`: the first of the keys that is among the slugs.
unfoldable pub first_among : List String → List String → Option String
first_among [] slugs = none
first_among (key ∷ keys) slugs = if contains slugs key then some key else first_among keys slugs

abbrev pub symbol_at : Option String → Option String
symbol_at none = none
symbol_at (some slug) = some (value_or "" (symbol_map slug))

module _ {F : Type 0} (G : Gjson F) (u : Unicode) where
  open G use {Res, get, string}

  abbrev pub slugs_of : List Res → List String
  slugs_of tags = map (λ t. to_lower u (string (get t "slug"))) tags

  -- `none` is the error.
  unfoldable pub get_symbol : List String → List Res → Option String
  get_symbol order tags = symbol_at (first_among order (slugs_of tags))

  unfoldable pub get_time_unit : List Res → Option String
  get_time_unit tags = first_among time_units (slugs_of tags)

unfoldable pub get_search_time_unit : String → Option String
get_search_time_unit unit = time_unit_map unit

-- A time: its date, the seconds of its day, and its nanoseconds and its offset from UTC in seconds.
pub record Time : Type 0 where
  pub year : ℕ
  pub month : ℕ
  pub day : ℕ
  pub seconds : ℕ
  pub nanos : ℕ
  pub offset : ℤ

-- An instant: the seconds since the beginning of the year 0 in UTC, and the nanoseconds.
pub record Instant : Type 0 where
  pub at : ℤ
  pub nanos : ℕ

abbrev pub is_leap : ℕ → Bool
is_leap y = y % 4 == 0 && (not (y % 100 == 0) || y % 400 == 0)

-- The days of the year before a month, and those before a year.
abbrev pub days_before_month : ℕ → ℕ → ℕ
days_before_month y m =
    let leap = if is_leap y then 1 else 0 in
    if m == 1
    then 0
    else if m == 2
    then 31
    else if m == 3
    then 59 + leap
    else if m == 4
    then 90 + leap
    else if m == 5
    then 120 + leap
    else if m == 6
    then 151 + leap
    else if m == 7
    then 181 + leap
    else if m == 8
    then 212 + leap
    else if m == 9
    then 243 + leap
    else if m == 10
    then 273 + leap
    else if m == 11
    then 304 + leap
    else 334 + leap

abbrev pub days_before_year : ℕ → ℕ
days_before_year y = 365 * y + ((y + 3) / 4 + (y + 399) / 400 - (y + 99) / 100)

-- The seconds from the first day of a month to another one.
abbrev pub day_seconds : ℤ → ℤ
day_seconds (pos d) = sub_ℕ (86400 * d) 86400
day_seconds (negsuc d) = negsuc (86400 * (d + 2) - 1)

-- time.Date, where the month is one of the twelve and the day is any: it is counted from the first.
abbrev pub date : ℕ → ℕ → ℤ → Time → Instant
date y m day t = record {
  at =
      ((pos (86400 * (days_before_year y + days_before_month y m) + t.seconds) +ℤ (day_seconds day))
        -ℤ t.offset);
  nanos = t.nanos;
}

abbrev pub instant : Time → Instant
instant t = date t.year t.month (pos t.day) t

-- `t.Add(-d)`, in seconds.
abbrev pub earlier : ℕ → Time → Instant
earlier d t = record (instant t) { at = ((instant t).at -ℤ pos d) }

-- `t.AddDate(0, 0, -d)` and `t.AddDate(0, 1, 0)`.
abbrev pub days_earlier : ℕ → Time → Instant
days_earlier d t = date t.year t.month (sub_ℕ t.day d) t

abbrev pub month_later : Time → Instant
month_later t =
    if t.month == 12
    then date (t.year + 1) 1 (pos t.day) t
    else date t.year (t.month + 1) (pos t.day) t

-- `time.Parse` gives the zero time with an error, which `TimeParse` ignores.
abbrev pub zero_time : Time
zero_time = record { year = 1; month = 1; day = 1; seconds = 0; nanos = 0; offset = pos 0 }

unfoldable pub time_parse : Option Time → Time
time_parse parsed = value_or zero_time parsed

-- `end_date` is what time.Parse reads.
unfoldable pub get_start_time : String → Option Time → Instant
get_start_time unit end_date =
    let start = time_parse end_date in
    if unit == "15m"
    then earlier (15 * 60) start
    else if unit == "hourly"
    then earlier 3600 start
    else if unit == "4h"
    then earlier (4 * 3600) start
    else if unit == "daily"
    then days_earlier 1 start
    else if unit == "weekly"
    then days_earlier 7 start
    else if unit == "monthly"
    then month_later start
    else if unit == "5m"
    then earlier (5 * 60) start
    else instant start
