-- ===== src/Examples/Values.antt =====
-- Concrete stand-ins for the libraries: milli-units for float64, a decimal mantissa with its
-- exponent for decimal.Decimal, and a parsed document for gjson.
use go_polymarket_sdk.Common.{
  ℕ, ◌+◌, ◌-◌, ◌*◌, ◌/◌, ◌^◌, refl, Bool, true, false, none, some, Option, String, List, [], ◌∷◌,
  arith, if◌then◌else◌, leb, ltb, ◌==◌, string_eq, le→not_ltb,
}
use go_polymarket_sdk.Common.Int.{◌+ℤ◌, parts_add, ℤ, pos, negsuc, pos_part, neg_part, sub_ℕ}
use go_polymarket_sdk.Decimals.{Float64, Decimal, DecimalLaws}
use go_polymarket_sdk.Wire.{
  Json, Items, Fields, null, bool, str, num, arr, obj, nil, cons, end, field, Gjson,
}

-- A number of thousandths.
abbrev pub milli : Float64 ℕ
milli = record {
  zero = 0;
  one = 1000;
  add = λ a b. a + b;
  sub = λ a b. a - b;
  mul = λ a b. a * b / 1000;
  leb = leb;
  ltb = ltb;
  parse_float = λ s. if s == "0.01" then some 10 else if s == "0.1" then some 100 else none;
}

-- A mantissa and an exponent.
abbrev pub Scaled : Type 0
Scaled = ℕ × ℤ

abbrev scaled_div : Scaled → Scaled → Scaled
scaled_div (m, e) (n, f) =
    (m * 10 ^ 16 / n, sub_ℕ (pos_part e + neg_part f) (neg_part e + pos_part f + 16))

abbrev scaled_floor : Scaled → Scaled
scaled_floor (m, e) = (m / 10 ^ neg_part e, pos (pos_part e))

abbrev scaled_ceil : Scaled → Scaled
scaled_ceil (m, e) = ((m + 10 ^ neg_part e - 1) / 10 ^ neg_part e, pos (pos_part e))

abbrev scaled_round : Scaled → Scaled
scaled_round (m, e) = ((2 * m + 10 ^ neg_part e) / (2 * 10 ^ neg_part e), pos (pos_part e))

abbrev scaled_truncate : Scaled → ℕ → Scaled
scaled_truncate (m, e) n =
    if ltb n (neg_part e) then (m / 10 ^ (neg_part e - n), sub_ℕ 0 n) else (m, e)

-- The numbers that the texts of the runs stand for.
abbrev pub from_text : String → Option Scaled
from_text s =
    if s == "1.5"
    then some (15, negsuc 0)
    else if s == "fraction"
    then some (1234, negsuc 1)
    else if s == "whole"
    then some (12, pos 0)
    else none

abbrev pub scaled : Decimal ℕ
scaled = record {
  D = Scaled;
  new = λ v e. (pos_part v, e);
  new_from_float = λ x. (x, negsuc 2);
  new_from_string = from_text;
  exponent = λ a. a.1;
  mul = λ a b. (a.0 * b.0, (a.1 +ℤ b.1));
  div = scaled_div;
  round = scaled_round;
  floor = scaled_floor;
  ceil = scaled_ceil;
  truncate = scaled_truncate;
  shift = λ a e. (a.0, (a.1 +ℤ e));
  to_string = λ a. if ltb 0 (neg_part a.1) then "fraction" else "whole";
  big_int = λ a. pos (a.0 * 10 ^ pos_part a.1 / 10 ^ neg_part a.1);
}

abbrev pub scaled_laws : DecimalLaws scaled
scaled_laws = record {
  exponent-new = λ v e. refl;
  exponent-mul = λ a b. parts_add a.1 b.1;
  round-whole = λ a. omega arith;
  floor-whole = λ a. omega arith;
  ceil-whole = λ a. omega arith;
  truncate-fits = λ a n h. rw (le→not_ltb n (neg_part a.1) h);
}

abbrev find : Fields → String → Json
find end key = null
find (field k v fs) key = if k == key then v else find fs key

abbrev entries : Items → List Json
entries nil = []
entries (cons j js) = j ∷ entries js

abbrev pub lookup : Json → String → Json
lookup (obj fs) key = find fs key
lookup _ key = null

abbrev text_of : Json → String
text_of (str s) = s
text_of _ = ""

abbrev int_of : Json → ℤ
int_of (num z) = z
int_of _ = pos 0

abbrev bool_of : Json → Bool
bool_of (bool b) = b
bool_of _ = false

abbrev items_of : Json → List Json
items_of (arr js) = entries js
items_of _ = []

abbrev is_arr : Json → Bool
is_arr (arr js) = true
is_arr _ = false

abbrev is_str : Json → Bool
is_str (str s) = true
is_str _ = false

-- gjson on a wire on which the one document is `doc`.
abbrev pub wire : Json → Gjson ℕ
wire doc = record {
  Res = Json;
  parse_bytes = λ bytes. doc;
  parse = λ s. doc;
  get = lookup;
  string = text_of;
  int = int_of;
  float = λ j. pos_part (int_of j);
  boolean = bool_of;
  array = items_of;
  is_array = is_arr;
  is_string = is_str;
}
