-- ===== src/Examples/WsClient.antt =====
-- Runs of utils/websocket_client.go's client, with texts for messages and for errors.
use go_polymarket_sdk.Common.{
  ℕ, ◌≡◌, refl, Bool, true, false, none, String, List, [], ◌∷◌, ◌++◌, map, arith,
}
use go_polymarket_sdk.Common.Int.{pos}
use go_polymarket_sdk.Chan
use go_polymarket_sdk.Chan.{Chan, IsBounded, recvs, sends as sent, emit_with, emits, make}
use go_polymarket_sdk.Chan.Latest.{emits_lem}
use go_polymarket_sdk.WsClient.{WsClient}
use go_polymarket_sdk.WsClient.Config.{WsConfig}
use go_polymarket_sdk.WsClient.Run.{start, dial_err, returned, state_of, run, Round}
use go_polymarket_sdk.WsClient.Sessions.{IsDownLike, run-IsDownLike}
use go_polymarket_sdk.WsClient.Announce.{connections, connects, announced, run-announced}
use go_polymarket_sdk.WsClient.Retries.{dial_fails, breaks, cancels, finds_cancelled, run-gives_up}

abbrev config : Bool → WsConfig String
config reconnect = record {
  url = "wss://ws";
  handshake_timeout = pos 0;
  msg_buffer_size = pos 0;
  worker_num = pos 0;
  read_buffer_size = pos 0;
  write_buffer_size = pos 0;
  ping_interval = pos 0;
  pong_wait = pos 0;
  text_heartbeat = true;
  text_heartbeat_msg = none;
  reconnect = reconnect;
  reconnect_delay = pos 0;
  max_reconnect = pos 2;
}

abbrev client : Bool → WsClient String
client reconnect = record {
  cfg = config reconnect;
  has_handler = true;
  conn = false;
  written = [];
  send_ch = Chan.make 3;
  msg_ch = Chan.make 2;
  ctrl_ch = Chan.make 1;
  alive = false;
  closed = false;
}

abbrev pair : Chan ℕ
pair = record { cap = 2; items = 1 ∷ 2 ∷ [] }

emits_example : emits (3 ∷ 4 ∷ 5 ∷ []) pair ≡ record { cap = 2; items = 4 ∷ 5 ∷ [] }
emits_example = emits_lem (3 ∷ 4 ∷ 5 ∷ []) pair (omega arith) (omega arith)

abbrev mixed : List (Round String)
mixed = dial_fails "refused" ∷ breaks "reset" ∷ breaks "eof" ∷ cancels ∷ finds_cancelled ∷ []

run-IsDownLike_example : IsDownLike (client true) (state_of (run mixed (client true)))
run-IsDownLike_example = run-IsDownLike (client true) mixed (refl, refl)

run-announced_example :
    connects (state_of (run mixed (client true))).trace
    ≡ announced (connections mixed (start (client true)) 0)
run-announced_example = run-announced (client true) mixed refl

run-gives_up_example :
    run {E = String} (map dial_fails ("a" ∷ "b" ∷ []) ++ dial_fails "c" ∷ []) (client true)
    ≡ returned (record { retry = 2; first = true; client = client true; trace = [] }) (dial_err "c")
run-gives_up_example = run-gives_up 2 ("a" ∷ "b" ∷ []) "c" [] (client true) refl refl refl
