-- ===== src/Market/Tokens.antt =====
-- polymarket/market_monitor.go: the tokens that a monitor is subscribed to, and what it asks of the
-- server. `subsTokens[:0]` is filled behind the place that is read, so the filtered slice is the
-- filtered list.
pub mod Distinct
pub mod Messages
use go_polymarket_sdk.Common.{
  ℕ, Bool, true, false, not, ◌&&◌, ◌||◌, Option, none, some, String, List, [], ◌∷◌, ◌++◌, length,
  ltb, leb, string_eq, contains, if◌then◌else◌,
}
use go_polymarket_sdk.Common.Maps.{Map, empty, insert, delete_all}
use go_polymarket_sdk.Wire.{Json, Fields, null, bool, str, arr, obj, end, field, strings}
use go_polymarket_sdk.WsClient.{WsClient, send, reset, close, is_alive}
use go_polymarket_sdk.Market.{MarketMonitor}

abbrev pub Set : Type 0
Set = Map String (Unit {0})

-- `set[t] = struct{}{}` for each token.
abbrev pub set_of : List String → Set → Set
set_of [] set = set
set_of (t ∷ ts) set = set_of ts (insert t tt set)

-- The loop "dedup" of `subscribeMarket`.
unfoldable pub dedup : Set → List String → List String
dedup set [] = []
dedup set (t ∷ ts) = elim (set t) [ some _ ↦ dedup set ts | none ↦ t ∷ dedup (insert t tt set) ts ]

-- The loop of `UnsubscribeTokens`.
unfoldable pub without : Set → List String → List String
without set [] = []
without set (t ∷ ts) = elim (set t) [ some _ ↦ without set ts | none ↦ t ∷ without set ts ]

pub data OperationType : Type 0 where
  dynamic_sub dynamic_unsub : OperationType

abbrev pub operation_name : OperationType → String
operation_name dynamic_sub = "subscribe"
operation_name dynamic_unsub = "unsubscribe"

pub record DynamicSubMarketMessage : Type 0 where
  pub assets_ids : List String
  pub operation : OperationType
  pub custom_feature_enabled : Option Bool

abbrev omit_empty : Option Bool → Fields
omit_empty none = end
omit_empty (some b) = field "custom_feature_enabled" (bool b) end

unfoldable pub marshal : DynamicSubMarketMessage → Json
marshal m = obj (
    field "assets_ids" (arr (strings m.assets_ids))
      (field "operation" (str (operation_name m.operation)) (omit_empty m.custom_feature_enabled)))

-- `MarketMessage` of `Subscribe`, with no token.
unfoldable pub subscribe_message : Bool → Json
subscribe_message custom = obj (
    field "type" (str "market") (
      field "assets_ids" (arr (strings []))
        (field "custom_feature_enabled" (bool custom) (field "initial_dump" (bool false) end))))

abbrev pub is_empty {ℓ} : {A : Type ℓ} → List A → Bool
is_empty [] = true
is_empty (x ∷ xs) = false

-- `pm.ws.Send(data)`, with its error logged only.
abbrev pub send_to : Json → WsClient Json → WsClient Json
send_to msg ws = (send {E = Unit {0}} msg ws).0

-- The guard `pm.ws == nil || !pm.ws.IsAlive()`, and the send behind it.
abbrev pub send_if_alive : Json → Option (WsClient Json) → Option (WsClient Json)
send_if_alive msg none = none
send_if_alive msg (some ws) = if is_alive ws then some (send_to msg ws) else some ws

abbrev pub reset_ws : Bool → Option (WsClient Json) → Option (WsClient Json)
reset_ws is_reconnect none = none
reset_ws is_reconnect (some ws) = if is_reconnect then some (reset {E = Unit {0}} ws).0 else some ws

module _ {F : Type 0} where
  unfoldable pub subscribe : MarketMonitor F → MarketMonitor F
  unfolding subscribe_message
  subscribe m = record m { ws = send_if_alive (subscribe_message m.custom_feature_enabled) m.ws }

  unfoldable pub subscribe_market : List String → MarketMonitor F → MarketMonitor F
  subscribe_market tokens m =
      let subs = if is_empty tokens then m.subs_tokens else dedup empty (m.subs_tokens ++ tokens) in
      record m {
        subs_tokens = subs;
        ws =
            if is_empty subs
            then m.ws
            else send_if_alive
                (marshal (record {
                  assets_ids = subs;
                  operation = dynamic_sub;
                  custom_feature_enabled = some m.custom_feature_enabled;
                }))
                m.ws;
      }

  unfoldable pub subscribe_tokens : List String → MarketMonitor F → MarketMonitor F
  subscribe_tokens tokens m = subscribe_market tokens m

  unfoldable pub unsubscribe_tokens : List String → MarketMonitor F → MarketMonitor F
  unsubscribe_tokens tokens m =
      if is_empty tokens
      then m
      else let dst = without (set_of tokens empty) m.subs_tokens in
        record m {
          order_books = if m.is_store then delete_all tokens m.order_books else m.order_books;
          subs_tokens = dst;
          ws =
              if is_empty dst
              then m.ws
              else send_if_alive
                  (marshal (record {
                    assets_ids = tokens;
                    operation = dynamic_unsub;
                    custom_feature_enabled = some m.custom_feature_enabled;
                  }))
                  m.ws;
        }

  -- `Reset`.
  unfoldable pub reset_monitor : Bool → MarketMonitor F → MarketMonitor F
  reset_monitor is_reconnect m =
      let tokens = m.subs_tokens in
      let m1 = record m { order_books = delete_all tokens m.order_books; subs_tokens = [] } in
      let m2 = unsubscribe_tokens tokens m1 in record m2 { ws = reset_ws is_reconnect m2.ws }

  -- `Disconnect`. The client is closed and dropped.
  unfoldable pub disconnect : MarketMonitor F → MarketMonitor F
  disconnect m = record m { ws = none; subs_tokens = [] }

  -- `OnOpen` and `OnReconnect`.
  unfoldable pub on_open : MarketMonitor F → MarketMonitor F
  on_open m = subscribe_market [] m

  unfoldable pub on_reconnect : MarketMonitor F → MarketMonitor F
  on_reconnect m = subscribe_market [] m
