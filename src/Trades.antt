-- ===== src/Trades.antt =====
-- polymarket/trade_monitor.go: the monitor of a user's trades and orders. `T`, `O` and `E` are the
-- decoded trade, the decoded order and the error of a decoding; gjson, the decoders and
-- strings.TrimSpace are libraries'.
pub mod Kept
pub mod Runs
use go_polymarket_sdk.Common.{
  ℕ, Bool, true, false, ◌||◌, Option, none, some, String, List, [], ◌∷◌, ◌⊎◌, inl, inr, ◌==◌,
  string_eq, if◌then◌else◌,
}
use Prim.Native.String.{◌++◌ as text_append}
use go_polymarket_sdk.Common.Int.{ℤ}
use go_polymarket_sdk.Chan
use go_polymarket_sdk.Chan.{Chan, try_send}
use go_polymarket_sdk.Wire.{Json, Fields, Gjson, null, str, arr, obj, end, field, strings}
use go_polymarket_sdk.WsClient.{WsClient}
use go_polymarket_sdk.Market.Tokens.{send_if_alive, is_empty}

pub data TradeEventType : Type 0 where
  trade_event order_event unknown_event : TradeEventType

pub record TradeEvent (T O E : Type 0) : Type 0 where
  pub event_type : TradeEventType
  pub received_at : ℤ
  pub raw : List ℕ
  pub trade : Option T
  pub order : Option O
  pub parse_err : Option E

pub record ApiKeyCreds : Type 0 where
  pub key : String
  pub secret : String
  pub passphrase : String

pub record TradeMonitor (T O E : Type 0) : Type 0 where
  pub ws : Option (WsClient Json)
  pub creds : Option ApiKeyCreds
  pub clob_user_wss_url : String
  pub event_ch : Chan (TradeEvent T O E)

-- The fields of WSUserAuth, under their JSON names.
abbrev pub auth_of : Option ApiKeyCreds → Json
auth_of none = null
auth_of (some c) = obj (
    field "apiKey" (str c.key)
      (field "secret" (str c.secret) (field "passphrase" (str c.passphrase) end)))

abbrev pub markets_of : List String → Fields
markets_of ms = if is_empty ms then end else field "markets" (arr (strings ms)) end

module _ {T O E : Type 0} where
  unfoldable pub new_trade_monitor : String → Option ApiKeyCreds → TradeMonitor T O E
  new_trade_monitor ws_base_url creds = record {
    ws = none;
    creds = creds;
    clob_user_wss_url = text_append ws_base_url "/ws/user";
    event_ch = Chan.make 4096;
  }

  unfoldable pub subscribe_user_trade : List String → TradeMonitor T O E → TradeMonitor T O E
  subscribe_user_trade ms m = record m {
    ws =
        send_if_alive
          (obj (field "type" (str "user") (field "auth" (auth_of m.creds) (markets_of ms)))) m.ws;
  }

  -- A full channel drops the new event.
  unfoldable pub emit_event : TradeEvent T O E → TradeMonitor T O E → TradeMonitor T O E
  emit_event ev m = record m { event_ch = (try_send ev m.event_ch).0 }

  abbrev pub trade_of : ℤ → List ℕ → E ⊎ T → TradeEvent T O E
  trade_of now msg (inl e) = record {
    event_type = trade_event;
    received_at = now;
    raw = msg;
    trade = none;
    order = none;
    parse_err = some e;
  }
  trade_of now msg (inr t) = record {
    event_type = trade_event;
    received_at = now;
    raw = msg;
    trade = some t;
    order = none;
    parse_err = none;
  }

  abbrev pub order_from : ℤ → List ℕ → E ⊎ O → TradeEvent T O E
  order_from now msg (inl e) = record {
    event_type = order_event;
    received_at = now;
    raw = msg;
    trade = none;
    order = none;
    parse_err = some e;
  }
  order_from now msg (inr o) = record {
    event_type = order_event;
    received_at = now;
    raw = msg;
    trade = none;
    order = some o;
    parse_err = none;
  }

module _ (trim : List ℕ → String) where
  unfoldable pub is_heartbeat_message : List ℕ → Bool
  is_heartbeat_message msg =
      let trimmed = trim msg in trimmed == "" || trimmed == "PONG" || trimmed == "{}"

module _ {F T O E : Type 0} (G : Gjson F) (trim : List ℕ → String) (decode_trade : List ℕ → E ⊎ T)
    (decode_order : List ℕ → E ⊎ O) where
  unfoldable pub proc_trade : ℤ → List ℕ → TradeMonitor T O E → TradeMonitor T O E
  proc_trade now msg m = emit_event (trade_of now msg (decode_trade msg)) m

  unfoldable pub proc_order : ℤ → List ℕ → TradeMonitor T O E → TradeMonitor T O E
  proc_order now msg m = emit_event (order_from now msg (decode_order msg)) m

  unfoldable pub handle_message : ℤ → List ℕ → TradeMonitor T O E → TradeMonitor T O E
  handle_message now msg m =
      let event_type = G.string (G.get (G.parse_bytes msg) "event_type") in
      if event_type == "trade"
      then proc_trade now msg m
      else if event_type == "order"
      then proc_order now msg m
      else emit_event
          (record {
            event_type = unknown_event;
            received_at = now;
            raw = msg;
            trade = none;
            order = none;
            parse_err = none;
          })
          m

  unfoldable pub on_message : ℤ → List ℕ → TradeMonitor T O E → TradeMonitor T O E
  on_message now msg m = if is_heartbeat_message trim msg then m else handle_message now msg m
