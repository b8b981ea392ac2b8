-- ===== src/Floats.antt =====
-- utils/utils.go: the text of a float64, and an array of numbers.
pub mod Places
use go_polymarket_sdk.Common.{
  ℕ, zero, suc, ◌+◌, ◌-◌, ◌*◌, ◌≤◌, ◌≡◌, refl, ap, sym, ◌∙◌, Bool, true, false, ◌&&◌, Option, none,
  some, String, List, [], ◌∷◌, map, ◌==◌, string_eq, nat_eq, ltb, if◌then◌else◌,
}
use Prim.Native.Char.{Char, char, code}
use Prim.Native.String.{◌++◌, len}
use go_polymarket_sdk.Common.Int.{ℤ, pos, negsuc}
use go_polymarket_sdk.Decimals.{Float64}
use go_polymarket_sdk.Wire.{Gjson, get_string_array}

-- strings.SplitN(s, ".", 2): what stands before the first point, and what stands behind it.
abbrev pub split_point : String → String × Option String
split_point String.[] = (String.[], none)
split_point (String.◌∷◌ c s) =
    let rest = split_point s in
    if code c == 46 then (String.[], some s) else (String.◌∷◌ c (rest.0), rest.1)

-- strings.TrimRight(s, "0")
abbrev pub trim_zeros : String → String
trim_zeros String.[] = String.[]
trim_zeros (String.◌∷◌ c s) =
    let rest = trim_zeros s in if rest == "" && code c == 48 then String.[] else String.◌∷◌ c rest

-- `s[:n]`, where `s` has as many bytes.
abbrev pub front : ℕ → String → String
front zero s = String.[]
front (suc n) String.[] = String.[]
front (suc n) (String.◌∷◌ c s) = String.◌∷◌ c (front n s)

-- Packages math and strconv on float64, and the conversion to int64.
pub record FloatText (F : Type 0) : Type 0 where
  pub eq : F → F → Bool
  pub trunc : F → F
  pub int64 : F → ℤ
  -- `FormatInt(i, 10)`
  pub format_int : ℤ → String
  -- `FormatFloat(x, 'f', -1, 64)`
  pub format_float : F → String

-- The whole part and the places that are left.
abbrev pub put_together : String → String → String
put_together whole frac = if frac == "" then whole else whole ++ String.◌∷◌ (char 46 tt) frac

-- The text `s` with at most `n` places.
abbrev pub cut_places : ℕ → String → String × Option String → String
cut_places n s (whole, none) = s
cut_places n s (whole, some frac) =
    if ltb n (len frac) then put_together whole (trim_zeros (front n frac)) else s

-- `maxDecimals > 0`
abbrev pub limit_places : ℤ → String → String
limit_places (pos zero) s = s
limit_places (pos (suc n)) s = cut_places (suc n) s (split_point s)
limit_places (negsuc n) s = s

module _ {F : Type 0} (ft : FloatText F) where
  open ft use {eq, trunc, int64, format_int, format_float}

  unfoldable pub float_to_string : F → ℤ → String
  float_to_string num max_decimals =
      if eq num (trunc num)
      then format_int (int64 num)
      else limit_places max_decimals (format_float num)

-- What `strconv.ParseFloat` gives, and 0 for its error.
abbrev pub float_or_zero : {F : Type 0} → Float64 F → String → F
float_or_zero fl item = elim (fl.parse_float item) [ some f ↦ f | none ↦ fl.zero ]

-- A nil slice is the empty list.
unfoldable pub get_float_array :
    {F : Type 0} (fl : Float64 F) (G : Gjson F) → G.Res → String → List F
get_float_array fl G o path = elim (get_string_array G o path) [
  | [] ↦ []
  | item ∷ items ↦ map (float_or_zero fl) (item ∷ items)
]
