-- ===== src/Examples/Runs.antt =====
-- A run of a market monitor with two connections, and a connection that stays.
use go_polymarket_sdk.Common.{
  ℕ, ◌≡◌, ◌≤◌, refl, true, false, some, none, String, List, [], ◌∷◌, arith, length, string_eq, ◌⊎◌,
  inr, map,
}
use go_polymarket_sdk.Chan
use go_polymarket_sdk.Wire.{Json, null}
use go_polymarket_sdk.WsClient.{WsClient, new_ws_client, close, write_message}
use go_polymarket_sdk.WsClient.Config.{WsConfig, with_defaults, unset}
use go_polymarket_sdk.WsClient.Connect.{
  Dialer, Conn, Arrival, message_at, pong_at, connect, extend, reads_all,
}
use go_polymarket_sdk.WsClient.Connect.Alive.{ends, message, ping, waiting, pong, connect-stays}
use go_polymarket_sdk.Common.Int.{pos}
use go_polymarket_sdk.WsClient.Loops.{texts}
use go_polymarket_sdk.WsClient.Run.{
  Round, failed, cancelled, state_of, run, rounds, run_round, dial_failed, end_session, shut, call,
  open_session, start,
}
use go_polymarket_sdk.WsClient.Announce.{connects, announced, connections}
use go_polymarket_sdk.WsClient.Listener.{run_listener, ran}
use go_polymarket_sdk.WsClient.Listener.Said.{said, times}
use go_polymarket_sdk.WsClient.Listener.Resubscribed.{takes, all_sent, run_listener-resubscribes}
use go_polymarket_sdk.Market.{MarketMonitor, new_market_monitor}
use go_polymarket_sdk.Market.Runs.{
  market_config, market_listener, market_listener_laws, subscription,
}
use go_polymarket_sdk.Examples.Market.{monitor}

abbrev two_tokens : MarketMonitor ℕ
two_tokens = record monitor { subs_tokens = "a" ∷ "b" ∷ [] }

abbrev turns_of_run : List (Round String)
turns_of_run =
    record { done = false; dial = none; slept = true; session = failed "eof" }
    ∷ record { done = false; dial = some "refused"; slept = true; session = cancelled }
    ∷ record { done = false; dial = none; slept = true; session = cancelled }
    ∷ record { done = true; dial = none; slept = true; session = cancelled }
    ∷ []

abbrev made_client : WsClient Json
made_client = record {
  cfg = with_defaults null 2 (market_config "wss://ws");
  has_handler = true;
  conn = false;
  written = [];
  send_ch = Chan.make 32768;
  msg_ch = Chan.make 32768;
  ctrl_ch = Chan.make 1;
  alive = false;
  closed = false;
}

made : new_ws_client null 2 (market_config "wss://ws") true ≡ some made_client
unfolding new_ws_client with_defaults
made = refl

fits :
    length (said (subscription two_tokens) (state_of (run turns_of_run made_client)).trace) ≤ 32768
unfolding run rounds run_round dial_failed end_session shut close call open_session write_message
    start with_defaults
fits = omega arith

run_listener-resubscribes_example :
    let n = connections turns_of_run (start made_client) 0 in
    (h' : MarketMonitor ℕ) × (d : WsClient Json) × (run_listener market_listener null 2
        (market_config "wss://ws")
        turns_of_run
        (map takes (1 ∷ []))
        two_tokens
      ≡ ran h' (run turns_of_run made_client))
    × (connects (state_of (run turns_of_run made_client)).trace ≡ announced n)
    × (h'.ws ≡ some d)
    × (all_sent d ≡ texts (times n (subscription two_tokens)))
unfolding new_market_monitor market_listener_laws
run_listener-resubscribes_example =
    run_listener-resubscribes market_listener market_listener_laws null 2 (market_config "wss://ws")
      turns_of_run (1 ∷ []) two_tokens made_client refl made fits

two_connections : connections turns_of_run (start made_client) 0 ≡ 2
unfolding connections run_round dial_failed end_session start with_defaults shut close call
    open_session write_message
two_connections = refl

abbrev beats : WsConfig (List ℕ)
beats = record (unset "wss://ws") { ping_interval = pos 10; pong_wait = pos 30 }

abbrev alive_arrivals : List Arrival
alive_arrivals =
    message_at (pos 105) 20
    ∷ message_at (pos 120) 7
    ∷ pong_at (pos 130)
    ∷ message_at (pos 119) 9
    ∷ pong_at (pos 121)
    ∷ []

abbrev dials : Dialer → String → String ⊎ Conn
dials d url = inr (record { read_limit = pos 0; read_deadline = pos 0 })

abbrev fresh_conn : Conn
fresh_conn = record { read_limit = pos 8_388_608; read_deadline = pos 130 }

dialled : connect beats (pos 100) dials none ≡ inr fresh_conn
unfolding connect extend
dialled = refl

connect-stays_example : (c' : Conn) × (reads_all beats alive_arrivals fresh_conn ≡ some c')
connect-stays_example =
    connect-stays beats (pos 100) dials none alive_arrivals fresh_conn (omega arith) dialled (
      message (pos 105) 20 (omega arith) (omega arith) (
        ping (pos 20) (omega arith) (omega arith) (
          waiting (pos 120) 7 (omega arith) (omega arith) (
            pong (
              message (pos 119) 9 (omega arith) (omega arith)
                (ping (pos 1) (omega arith) (omega arith) (pong ends)))))))
