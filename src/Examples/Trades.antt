-- ===== src/Examples/Trades.antt =====
-- Runs of polymarket/trade_monitor.go's monitor.
use go_polymarket_sdk.Common.{
  ◌==◌, nat_eq, if◌then◌else◌, ℕ, ◌≡◌, none, String, List, [], ◌∷◌, ◌++◌, take, ◌⊎◌, inl, inr,
  arith,
}
use go_polymarket_sdk.Common.Int.{ℤ, pos}
use go_polymarket_sdk.Chan
use go_polymarket_sdk.Wire.{Json, obj, field, end, str}
use go_polymarket_sdk.Trades.{TradeMonitor}
use go_polymarket_sdk.Trades.Kept.{events, messages, messages_keep_oldest}
use go_polymarket_sdk.Examples.Values.{wire}

abbrev trade_message : Json
trade_message = obj (field "event_type" (str "trade") end)

-- A message that starts with the byte 0 is a heartbeat.
abbrev trim : List ℕ → String
trim bs = elim bs [ [] ↦ "" | b ∷ rest ↦ if b == 0 then "PONG" else "trade" ]

abbrev decode_trade : List ℕ → String ⊎ ℕ
decode_trade [] = inl "empty"
decode_trade (b ∷ bs) = inr b

abbrev decode_order : List ℕ → String ⊎ ℕ
decode_order bs = inl "no order"

abbrev small : TradeMonitor ℕ ℕ String
small = record {
  ws = none;
  creds = none;
  clob_user_wss_url = "wss://ws/user";
  event_ch = Chan.make 1;
}

abbrev arrivals : List (ℤ × List ℕ)
arrivals = (pos 1, 0 ∷ []) ∷ (pos 2, 5 ∷ []) ∷ (pos 3, 6 ∷ []) ∷ []

messages_keep_oldest_example :
    messages (wire trade_message) trim decode_trade decode_order arrivals small ≡ record small {
      event_ch = record {
        cap = 1;
        items = take 1 ([] ++ events (wire trade_message) trim decode_trade decode_order arrivals);
      };
    }
messages_keep_oldest_example =
    messages_keep_oldest (wire trade_message) trim decode_trade decode_order arrivals small
      (omega arith)
