-- ===== src/Prices/Runs.antt =====
-- polymarket/crypto_price_monitor.go: `Run`, with the monitor as the handler of its client.
use go_polymarket_sdk.Common.{ℕ, ◌*◌, ◌≡◌, refl, ap, ◌∙◌, true, some, String, List, [], ◌∷◌}
use go_polymarket_sdk.Common.Int.{pos}
use go_polymarket_sdk.Wire.{Json, obj, field, str, arr, end}
use go_polymarket_sdk.WsClient.{WsClient}
use go_polymarket_sdk.WsClient.Config.{WsConfig, second, unset}
use go_polymarket_sdk.WsClient.Loops.{sends}
use go_polymarket_sdk.WsClient.Run.{Round}
use go_polymarket_sdk.WsClient.Listener.{
  Listener, ListenerLaws, Turns, send_if_alive-live, Ran, run_listener,
}
use go_polymarket_sdk.Market.Tokens.{send_if_alive}
use go_polymarket_sdk.Prices.{CryptoPriceMonitor, subscribe, marshal_all}

abbrev pub price_config : String → WsConfig Json
price_config url = record (unset url) {
  ping_interval = pos (5 * second);
  text_heartbeat = true;
  reconnect = true;
  max_reconnect = pos 20;
}

module _ {F : Type 0} where
  unfoldable pub on_open : CryptoPriceMonitor F → CryptoPriceMonitor F
  on_open m = subscribe m

  unfoldable pub on_reconnect : CryptoPriceMonitor F → CryptoPriceMonitor F
  on_reconnect m = subscribe m

  abbrev pub price_listener : Listener (CryptoPriceMonitor F)
  price_listener = record {
    get_ws = λ m. m.ws;
    set_ws = λ w m. record m { ws = w };
    opened = on_open;
    reconnected = on_reconnect;
  }

  abbrev message : CryptoPriceMonitor F → Json
  message m = obj (
      field "action" (str "subscribe")
        (field "subscriptions" (arr (marshal_all m.subscriptions)) end))

  pub sends_the_subscription :
      (m : CryptoPriceMonitor F) (c : WsClient Json)
      → m.ws ≡ some c
      → c.alive ≡ true
      → (subscribe m).ws ≡ some (sends (message m ∷ []) c)
  unfolding subscribe
  sends_the_subscription m c e a =
      ap (send_if_alive (message m)) e ∙ send_if_alive-live (message m) c a

  unfoldable pub price_listener_laws : ListenerLaws price_listener
  unfolding on_open on_reconnect subscribe
  price_listener_laws = record {
    messages_of = λ m. message m ∷ [];
    get-set = λ w m. refl;
    opened_sends = sends_the_subscription;
    reconnected_sends = sends_the_subscription;
    set_keeps = λ w m. refl;
    opened_keeps = λ m. refl;
    reconnected_keeps = λ m. refl;
  }

  -- `Run`, which returns the client's error, and where there is none that of the context: the client's `Run`
  -- returns no other. The URL is the setting's.
  unfoldable pub run_monitor :
      {E : Type 0}
      → String
      → Json
      → ℕ
      → List (Round E)
      → List Turns
      → CryptoPriceMonitor F
      → Ran (CryptoPriceMonitor F) E
  run_monitor url ping cpus rs turns m =
      run_listener price_listener ping cpus (price_config url) rs turns m
