-- ===== src/Tags/Start.antt =====
-- polymarket/helper.go: where the time of a market starts.
use go_polymarket_sdk.Common.{
  ℕ, ◌+◌, ◌*◌, ◌≤◌, ◌<◌, ◌≡◌, refl, ap, some, String, arith, ◌==◌, nat_beq_iff, nat_eq, string_eq,
  List, [], ◌∷◌, All, Bool-cases, inl, inr,
}
use go_polymarket_sdk.Common.Int.{
  ℤ, pos, negsuc, pos_part, neg_part, ◌-ℤ◌, parts_add, parts_sub, parts_sub_ℕ, ℤ_ext, ◌+ℤ◌, ◌≤ℤ◌,
  sub_ℕ,
}
use go_polymarket_sdk.Tags.{
  Time, Instant, days_before_month, days_before_year, day_seconds, instant, month_later, time_parse,
  get_start_time,
}

abbrev IsDate : Time → Type 0
IsDate t = (1 ≤ t.month) × (t.month ≤ 12)

-- A month is 28 to 31 days long, and December 31.
month_length :
    (y m : ℕ)
    → 1 ≤ m
    → m < 12
    → (days_before_month y m + 28 ≤ days_before_month y (m + 1))
      × (days_before_month y (m + 1) ≤ days_before_month y m + 31)
month_length y m h k = ground arith

december : (y : ℕ) → days_before_year (y + 1) ≡ days_before_year y + days_before_month y 12 + 31
december y = ground arith

-- A later beginning of the month moves the whole date.
module _ (a b c : ℕ) (x o : ℤ) where
  shift_le : a + c ≤ b → (((pos a +ℤ x) -ℤ o) +ℤ pos c) ≤ℤ ((pos b +ℤ x) -ℤ o)
  shift_le h = omega (
    arith,
    parts_add (pos a) x,
    parts_sub (pos a +ℤ x) o,
    parts_add ((pos a +ℤ x) -ℤ o) (pos c),
    parts_add (pos b) x,
    parts_sub (pos b +ℤ x) o,
  )

  shift_ge : b ≤ a + c → ((pos b +ℤ x) -ℤ o) ≤ℤ (((pos a +ℤ x) -ℤ o) +ℤ pos c)
  shift_ge h = omega (
    arith,
    parts_add (pos a) x,
    parts_sub (pos a +ℤ x) o,
    parts_add ((pos a +ℤ x) -ℤ o) (pos c),
    parts_add (pos b) x,
    parts_sub (pos b +ℤ x) o,
  )

parts_day_seconds :
    (d : ℤ)
    → pos_part (day_seconds d) + 86400 * neg_part d + 86400
      ≡ neg_part (day_seconds d) + 86400 * pos_part d
parts_day_seconds (pos d) = omega (arith, parts_sub_ℕ (86400 * d) 86400)
parts_day_seconds (negsuc d) = omega arith

days_back :
    (a n d : ℕ) (o : ℤ)
    → ((pos a +ℤ day_seconds (sub_ℕ d n)) -ℤ o)
      ≡ (((pos a +ℤ day_seconds (pos d)) -ℤ o) -ℤ pos (86400 * n))
days_back a n d o =
    let x = day_seconds (sub_ℕ d n) in
    let y = day_seconds (pos d) in
    ℤ_ext ((pos a +ℤ x) -ℤ o) (((pos a +ℤ y) -ℤ o) -ℤ pos (86400 * n)) (
      omega (
        arith,
        parts_sub_ℕ d n,
        parts_day_seconds (sub_ℕ d n),
        parts_day_seconds (pos d),
        parts_add (pos a) x,
        parts_sub (pos a +ℤ x) o,
        parts_add (pos a) y,
        parts_sub (pos a +ℤ y) o,
        parts_sub ((pos a +ℤ y) -ℤ o) (pos (86400 * n)),
      ))

-- How long the time of a unit is, where it has one length.
abbrev pub unit_lengths : List (String × ℕ)
unit_lengths =
    ("5m", 300)
    ∷ ("15m", 900)
    ∷ ("hourly", 3600)
    ∷ ("4h", 14400)
    ∷ ("daily", 86400)
    ∷ ("weekly", 604800)
    ∷ []

abbrev pub StartsBefore : Time → String × ℕ → Type 0
StartsBefore t (unit, n) =
    get_start_time unit (some t) ≡ record { at = ((instant t).at -ℤ pos n); nanos = t.nanos }

-- For every unit of one length, the start is that length before the end, with the same nanoseconds.
pub get_start_time_before : (t : Time) → All (StartsBefore t) unit_lengths
unfolding get_start_time time_parse
get_start_time_before t =
    let a = 86400 * (days_before_year t.year + days_before_month t.year t.month) + t.seconds in
    let back = λ (n : ℕ).
      ap {B = Instant} (λ z. record { at = z; nanos = t.nanos }) (days_back a n t.day t.offset) in
    (refl, (refl, (refl, (refl, (back 1, (back 7, tt))))))

later_month :
    (t : Time)
    → IsDate t
    → (((instant t).at +ℤ pos (86400 * 28)) ≤ℤ (month_later t).at)
      × ((month_later t).at ≤ℤ ((instant t).at +ℤ pos (86400 * 31)))
later_month t (lo, hi) =
    let a = 86400 * (days_before_year t.year + days_before_month t.year t.month) + t.seconds in
    let x = day_seconds (pos t.day) in
    elim (Bool-cases (t.month == 12)) [
      | inl e ↦
          let b = 86400 * (days_before_year (t.year + 1) + 0) + t.seconds in
          let last = ap (days_before_month t.year) ((nat_beq_iff t.month 12).0 e) in
          rw e (
            shift_le a b (86400 * 28) x t.offset (omega (arith, last, december t.year)),
            shift_ge a b (86400 * 31) x t.offset (omega (arith, last, december t.year)),
          )
      | inr e ↦
          let b =
            86400 * (days_before_year t.year + days_before_month t.year (t.month + 1))
            + t.seconds in
          let m = month_length t.year t.month lo (ground (arith, e)) in
          rw e (
            shift_le a b (86400 * 28) x t.offset (omega (arith, m)),
            shift_ge a b (86400 * 31) x t.offset (omega (arith, m)),
          )
    ]

-- The start of a monthly market, of a date with one of the twelve months, is 28 to 31 days after its end.
pub get_start_time_monthly :
    (t : Time)
    → IsDate t
    → (((instant t).at +ℤ pos (86400 * 28)) ≤ℤ (get_start_time "monthly" (some t)).at)
      × ((get_start_time "monthly" (some t)).at ≤ℤ ((instant t).at +ℤ pos (86400 * 31)))
unfolding get_start_time time_parse
get_start_time_monthly t h = later_month t h
