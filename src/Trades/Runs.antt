-- ===== src/Trades/Runs.antt =====
-- polymarket/trade_monitor.go: `Run` and `Close`, with the monitor as the handler of its client.
use go_polymarket_sdk.Common.{
  ℕ, ◌*◌, ◌≡◌, refl, ap, ◌∙◌, true, Option, none, some, String, List, [], ◌∷◌,
}
use go_polymarket_sdk.Common.Int.{pos}
use go_polymarket_sdk.Wire.{Json, obj, field, str}
use go_polymarket_sdk.WsClient.{WsClient, WsError, close}
use go_polymarket_sdk.WsClient.Config.{WsConfig, second, unset}
use go_polymarket_sdk.WsClient.Loops.{sends}
use go_polymarket_sdk.WsClient.Run.{Round}
use go_polymarket_sdk.WsClient.Listener.{
  Listener, ListenerLaws, Turns, send_if_alive-live, Ran, run_listener,
}
use go_polymarket_sdk.Market.Tokens.{send_if_alive}
use go_polymarket_sdk.Trades.{TradeMonitor, subscribe_user_trade, auth_of, markets_of}

abbrev pub trade_config : String → WsConfig Json
trade_config url = record (unset url) {
  ping_interval = pos (10 * second);
  reconnect = true;
  max_reconnect = pos 20;
  text_heartbeat = true;
}

abbrev close_ws :
    {E : Type 0}
    → Option E
    → Option E
    → Option (WsClient Json)
    → Option (WsClient Json) × Option (WsError E)
close_ws write_fails close_fails none = (none, none)
close_ws write_fails close_fails (some c) =
    let (c', e) = close write_fails close_fails c in (some c', e)

module _ {T O X : Type 0} where
  -- `OnOpen` and `OnReconnect`.
  unfoldable pub on_open : TradeMonitor T O X → TradeMonitor T O X
  on_open m = subscribe_user_trade [] m

  unfoldable pub on_reconnect : TradeMonitor T O X → TradeMonitor T O X
  on_reconnect m = subscribe_user_trade [] m

  abbrev pub trade_listener : Listener (TradeMonitor T O X)
  trade_listener = record {
    get_ws = λ m. m.ws;
    set_ws = λ w m. record m { ws = w };
    opened = on_open;
    reconnected = on_reconnect;
  }

  abbrev message : TradeMonitor T O X → Json
  message m = obj (field "type" (str "user") (field "auth" (auth_of m.creds) (markets_of [])))

  pub sends_the_subscription :
      (m : TradeMonitor T O X) (c : WsClient Json)
      → m.ws ≡ some c
      → c.alive ≡ true
      → (subscribe_user_trade [] m).ws ≡ some (sends (message m ∷ []) c)
  unfolding subscribe_user_trade
  sends_the_subscription m c e a =
      ap (send_if_alive (message m)) e ∙ send_if_alive-live (message m) c a

  unfoldable pub trade_listener_laws : ListenerLaws trade_listener
  unfolding on_open on_reconnect subscribe_user_trade
  trade_listener_laws = record {
    messages_of = λ m. message m ∷ [];
    get-set = λ w m. refl;
    opened_sends = sends_the_subscription;
    reconnected_sends = sends_the_subscription;
    set_keeps = λ w m. refl;
    opened_keeps = λ m. refl;
    reconnected_keeps = λ m. refl;
  }

  -- `Run`: what the client's `Run` returns is returned.
  unfoldable pub run_monitor :
      {E : Type 0}
      → Json
      → ℕ
      → List (Round E)
      → List Turns
      → TradeMonitor T O X
      → Ran (TradeMonitor T O X) E
  run_monitor ping cpus rs turns m =
      run_listener trade_listener ping cpus (trade_config m.clob_user_wss_url) rs turns m

  -- `Close`.
  unfoldable pub close_monitor :
      {E : Type 0}
      → Option E
      → Option E
      → TradeMonitor T O X
      → TradeMonitor T O X × Option (WsError E)
  close_monitor write_fails close_fails m =
      let (w, e) = close_ws write_fails close_fails m.ws in (record m { ws = w }, e)
