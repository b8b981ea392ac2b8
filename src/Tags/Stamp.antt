-- ===== src/Tags/Stamp.antt =====
-- utils/utils.go: ToTimestamp, on the times of helper.go.
use go_polymarket_sdk.Common.{◌+◌, ◌*◌, ◌/◌, Option, none, some}
use go_polymarket_sdk.Common.Int.{ℤ, pos, pos_part, neg_part, ◌-ℤ◌, sub_ℕ}
use go_polymarket_sdk.Tags.{Time, Instant, instant, days_before_year}

-- `Unix`: the seconds since 1970.
abbrev pub unix : Instant → ℤ
unix i = i.at -ℤ pos (86400 * days_before_year 1970)

-- `none` is the error of time.Parse, and the result is `UnixMilli`.
unfoldable pub to_timestamp : Option Time → Option ℤ
to_timestamp none = none
to_timestamp (some t) =
    let seconds = unix (instant t) in
    some (sub_ℕ (1000 * pos_part seconds + t.nanos / 1000000) (1000 * neg_part seconds))
