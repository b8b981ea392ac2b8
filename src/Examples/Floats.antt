-- ===== src/Examples/Floats.antt =====
-- A run of FloatToString in utils/utils.go.
use go_polymarket_sdk.Common.{ℕ, ◌*◌, ◌/◌, ◌≡◌, refl, ◌==◌, nat_eq, if◌then◌else◌}
use go_polymarket_sdk.Common.Int.{pos}
use go_polymarket_sdk.Floats.{FloatText, float_to_string}
use go_polymarket_sdk.Floats.Places.{IsCutAt, float_to_string-IsCutAt}

-- Numbers of thousandths, of which two have texts.
abbrev milli_text : FloatText ℕ
milli_text = record {
  eq = λ a b. a == b;
  trunc = λ a. a / 1000 * 1000;
  int64 = λ a. pos (a / 1000);
  format_int = λ i. "7";
  format_float = λ a. if a == 12034 then "12.034" else "0.101";
}

float_to_string-IsCutAt_example : IsCutAt 2 "12.034" (float_to_string milli_text 12034 (pos 2))
float_to_string-IsCutAt_example = float_to_string-IsCutAt milli_text 12034 1 refl

cut_text : float_to_string milli_text 12034 (pos 1) ≡ "12"
unfolding float_to_string
cut_text = refl
