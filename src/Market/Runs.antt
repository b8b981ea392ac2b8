-- ===== src/Market/Runs.antt =====
-- polymarket/market_monitor.go: `Run`, with the monitor as the handler of its client.
use go_polymarket_sdk.Common.{
  ℕ, ◌*◌, ◌≡◌, refl, Bool, true, false, some, String, List, [], ◌∷◌, ap, ◌∙◌, if◌then◌else◌,
}
use go_polymarket_sdk.Common.Int.{pos}
use go_polymarket_sdk.Wire.{Json}
use go_polymarket_sdk.WsClient.{WsClient}
use go_polymarket_sdk.WsClient.Config.{WsConfig, second, unset}
use go_polymarket_sdk.WsClient.Loops.{sends}
use go_polymarket_sdk.WsClient.Run.{Round, Stop, running, returned}
use go_polymarket_sdk.WsClient.Listener.{
  Listener, ListenerLaws, Turns, send_if_alive-live, Ran, busy, panics, ran, run_listener,
}
use go_polymarket_sdk.Market.{MarketMonitor}
use go_polymarket_sdk.Market.Tokens.{
  is_empty, dynamic_sub, marshal, on_open, on_reconnect, subscribe_market, disconnect,
  send_if_alive,
}

abbrev pub market_config : String → WsConfig Json
market_config url = record (unset url) {
  ping_interval = pos (10 * second);
  reconnect = true;
  max_reconnect = pos 20;
  msg_buffer_size = pos 32768;
  read_buffer_size = pos 65536;
  text_heartbeat = true;
}

-- How a call of `Run` ends, or that it goes on.
pub data Ended (E : Type 0) : Type 0 where
  no_error panicked goes_on : Ended E
  stops : Stop E → Ended E

sends_unless :
    (b : Bool) (msg : Json) (c : WsClient Json)
    → c.alive ≡ true
    → (if b then some c else send_if_alive msg (some c))
      ≡ some (sends (if b then [] else msg ∷ []) c)
unfolding sends
sends_unless true msg c a = refl
sends_unless false msg c a = send_if_alive-live msg c a

module _ {F : Type 0} where
  abbrev pub market_listener : Listener (MarketMonitor F)
  market_listener = record {
    get_ws = λ m. m.ws;
    set_ws = λ w m. record m { ws = w };
    opened = on_open;
    reconnected = on_reconnect;
  }

  abbrev message : MarketMonitor F → Json
  message m = marshal (record {
    assets_ids = m.subs_tokens;
    operation = dynamic_sub;
    custom_feature_enabled = some m.custom_feature_enabled;
  })

  -- The message for all tokens of the monitor, where it has one.
  abbrev pub subscription : MarketMonitor F → List Json
  subscription m = if is_empty m.subs_tokens then [] else message m ∷ []

  pub sends_the_subscription :
      (m : MarketMonitor F) (c : WsClient Json)
      → m.ws ≡ some c
      → c.alive ≡ true
      → (subscribe_market [] m).ws ≡ some (sends (subscription m) c)
  unfolding subscribe_market
  sends_the_subscription m c e a =
      ap (λ w. if is_empty m.subs_tokens then w else send_if_alive (message m) w) e
      ∙ sends_unless (is_empty m.subs_tokens) (message m) c a

  unfoldable pub market_listener_laws : ListenerLaws market_listener
  unfolding on_open on_reconnect subscribe_market
  market_listener_laws = record {
    messages_of = subscription;
    get-set = λ w m. refl;
    opened_sends = sends_the_subscription;
    reconnected_sends = sends_the_subscription;
    set_keeps = λ w m. refl;
    opened_keeps = λ m. refl;
    reconnected_keeps = λ m. refl;
  }

  module _ {E : Type 0} where
    abbrev after_run : MarketMonitor F → Ran (MarketMonitor F) E → MarketMonitor F × Ended E
    after_run m busy = (m, no_error)
    after_run m panics = (m, panicked)
    after_run m (ran h (running s)) = (h, goes_on)
    after_run m (ran h (returned s stop)) = (disconnect h, stops stop)

    -- `Run`, with the turns of the client's loop.
    unfoldable pub run_monitor :
        Json → ℕ → List (Round E) → List Turns → MarketMonitor F → MarketMonitor F × Ended E
    run_monitor ping cpus rs turns m =
        after_run m
          (run_listener market_listener ping cpus (market_config m.clob_market_wss_url) rs turns m)
