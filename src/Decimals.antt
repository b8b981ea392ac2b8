-- ===== src/Decimals.antt =====
-- float64 and shopspring/decimal as interfaces, and the rounding helpers of utils/utils.go on them.
pub mod Scale
use go_polymarket_sdk.Common.{
  ℕ, ◌+◌, ◌≤◌, ◌≡◌, Bool, true, false, not, Option, String, if◌then◌else◌, leb,
}
use go_polymarket_sdk.Common.Int.{ℤ, pos, negsuc, pos_part, neg_part, ltb_ℤ, ◌≤ℤ◌}

-- The operations of float64 that the SDK uses. `F` holds the finite numbers: NaN and the infinities, on
-- which decimal.NewFromFloat panics, have no model.
pub record Float64 (F : Type 0) : Type 0 where
  pub zero : F
  pub one : F
  pub add : F → F → F
  pub sub : F → F → F
  pub mul : F → F → F
  pub leb : F → F → Bool
  pub ltb : F → F → Bool
  -- strconv.ParseFloat
  pub parse_float : String → Option F

-- decimal.Decimal; `new v e` is v · 10^e.
pub record Decimal (F : Type 0) : Type 1 where
  pub D : Type 0
  pub new : ℤ → ℤ → D
  pub new_from_float : F → D
  pub new_from_string : String → Option D
  pub exponent : D → ℤ
  pub mul : D → D → D
  pub div : D → D → D
  -- `Round(0)`
  pub round : D → D
  pub floor : D → D
  pub ceil : D → D
  pub truncate : D → ℕ → D
  pub shift : D → ℤ → D
  pub to_string : D → String
  -- `BigInt`
  pub big_int : D → ℤ

module _ {F : Type 0} (dec : Decimal F) where
  open dec use {
    D, new, new_from_float, new_from_string, exponent, mul, div, round, floor, ceil, truncate,
    shift, big_int,
  }

  -- `-exp` of a negative exponent, and 0 of another.
  unfoldable pub decimal_places : D → ℕ
  decimal_places d = neg_part (exponent d)

  unfoldable pub already_within_scale : D → ℕ → Bool
  already_within_scale d decimals =
      if not (ltb_ℤ (exponent d) (pos 0)) then true else leb (neg_part (exponent d)) decimals

  -- `decimal.New(1, int32(-decimals))`
  abbrev pub scale_of : ℕ → D
  scale_of ℕ.zero = new (pos 1) (pos 0)
  scale_of (ℕ.suc n) = new (pos 1) (negsuc n)

  unfoldable pub round_normal : D → ℕ → D
  round_normal d decimals =
      if already_within_scale d decimals
      then d
      else mul (round (div d (scale_of decimals))) (scale_of decimals)

  unfoldable pub round_down : D → ℕ → D
  round_down d decimals =
      if already_within_scale d decimals
      then d
      else mul (floor (div d (scale_of decimals))) (scale_of decimals)

  unfoldable pub round_up : D → ℕ → D
  round_up d decimals =
      if already_within_scale d decimals
      then d
      else mul (ceil (div d (scale_of decimals))) (scale_of decimals)

  abbrev shifted : Option D → ℤ → Option ℤ
  shifted Option.none decimals = Option.none
  shifted (Option.some d) decimals = Option.some (big_int (shift d decimals))

  -- `none` is the error of `decimal.NewFromString`.
  unfoldable pub parse_units : String → ℤ → Option ℤ
  parse_units amount decimals = shifted (new_from_string amount) decimals

-- What the library documents of exponents: a product adds them, whole numbers have none below 0,
-- and `Truncate` leaves a number with few enough places as it is.
pub record DecimalLaws {F : Type 0} (dec : Decimal F) : Type 0 where
  pub exponent-new : (v e : ℤ) → dec.exponent (dec.new v e) ≡ e
  pub exponent-mul :
      (a b : dec.D)
      → pos_part (dec.exponent (dec.mul a b))
          + neg_part (dec.exponent a)
          + neg_part (dec.exponent b)
        ≡ neg_part (dec.exponent (dec.mul a b))
          + pos_part (dec.exponent a)
          + pos_part (dec.exponent b)
  pub round-whole : (a : dec.D) → pos 0 ≤ℤ dec.exponent (dec.round a)
  pub floor-whole : (a : dec.D) → pos 0 ≤ℤ dec.exponent (dec.floor a)
  pub ceil-whole : (a : dec.D) → pos 0 ≤ℤ dec.exponent (dec.ceil a)
  pub truncate-fits : (a : dec.D) (n : ℕ) → neg_part (dec.exponent a) ≤ n → dec.truncate a n ≡ a
