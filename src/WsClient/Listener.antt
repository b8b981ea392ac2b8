-- ===== src/WsClient/Listener.antt =====
-- utils/websocket_client.go with the handlers of polymarket/: what a monitor that is the handler of a client
-- sends when `Run` tells it of a connection. The client that `Run` works on is the one that the monitor holds;
-- of the client, a monitor's calls change the queue of messages only, which `Run` does not read.
pub mod Said
pub mod Resubscribed
use go_polymarket_sdk.Common.{
  ℕ, zero, suc, Bool, true, false, Option, none, some, List, [], ◌∷◌, ◌++◌, ◌≡◌, ap, if◌then◌else◌,
  ◌==◌, string_eq,
}
use go_polymarket_sdk.Chan
use go_polymarket_sdk.Chan.{Chan}
use go_polymarket_sdk.Wire.{Json}
use go_polymarket_sdk.WsClient.{WsClient, WsError, is_alive, send, new_ws_client}
use go_polymarket_sdk.WsClient.Config.{WsConfig}
use go_polymarket_sdk.WsClient.Loops.{write_turns, sends}
use go_polymarket_sdk.Market.Tokens.{send_if_alive}
use go_polymarket_sdk.WsClient.Run.{
  Callback, on_open, on_reconnect, on_close, on_error, Round, Progress, state_of, run,
}

-- A monitor's guard passes on a live connection.
pub send_if_alive-live :
    (msg : Json) (c : WsClient Json)
    → c.alive ≡ true
    → send_if_alive msg (some c) ≡ some (sends (msg ∷ []) c)
unfolding is_alive sends
send_if_alive-live msg c a = ap (λ b. if b then some (send {E = Unit {0}} msg c).0 else some c) a

-- A handler that holds its client.
pub record Listener (H : Type 0) : Type 0 where
  pub get_ws : H → Option (WsClient Json)
  pub set_ws : Option (WsClient Json) → H → H
  pub opened : H → H
  pub reconnected : H → H

-- What the monitors have in common: on a live connection they send the messages of their subscription, and
-- nothing that happens to the connection changes what they subscribe to.
pub record ListenerLaws {H : Type 0} (l : Listener H) : Type 0 where
  pub messages_of : H → List Json
  pub get-set : (w : Option (WsClient Json)) (h : H) → l.get_ws (l.set_ws w h) ≡ w
  pub opened_sends :
      (h : H) (c : WsClient Json)
      → l.get_ws h ≡ some c
      → c.alive ≡ true
      → l.get_ws (l.opened h) ≡ some (sends (messages_of h) c)
  pub reconnected_sends :
      (h : H) (c : WsClient Json)
      → l.get_ws h ≡ some c
      → c.alive ≡ true
      → l.get_ws (l.reconnected h) ≡ some (sends (messages_of h) c)
  pub set_keeps : (w : Option (WsClient Json)) (h : H) → messages_of (l.set_ws w h) ≡ messages_of h
  pub opened_keeps : (h : H) → messages_of (l.opened h) ≡ messages_of h
  pub reconnected_keeps : (h : H) → messages_of (l.reconnected h) ≡ messages_of h

-- What `Run` makes of its client before it calls the handler.
abbrev pub connected : WsClient Json → WsClient Json
connected c = record c { conn = true; alive = true; closed = false }

-- Turns of `writeLoop`: `none` is a frame that the connection takes, `some` a write that fails.
abbrev pub Turns : Type 0
Turns = List (Option (Unit {0}))

abbrev pub write_out : Turns → Option (WsClient Json) → Option (WsClient Json)
write_out k none = none
write_out k (some c) = some (write_turns k (c, Chan.make 1)).0

abbrev pub come_up : Option (WsClient Json) → Option (WsClient Json)
come_up none = none
come_up (some c) = some (connected c)

abbrev pub alive_ws : Option (WsClient Json) → Bool
alive_ws none = false
alive_ws (some c) = is_alive c

pub data Ran (H E : Type 0) : Type 0 where
  -- The monitor was running already.
  busy : Ran H E
  -- The buffer's size is negative: `make` panics.
  panics : Ran H E
  ran : H → Progress Json E → Ran H E

abbrev pub after_call : {H : Type 0} → Listener H → Turns → H → H
after_call l k h = l.set_ws (write_out k (l.get_ws h)) h

module _ {H E : Type 0} (l : Listener H) where
  -- A call of the handler, and the turns of `writeLoop` up to the next call. `OnError` and `OnClose` only log.
  abbrev pub hears_one : Callback E → Turns → H → H
  hears_one on_open k h = after_call l k (l.opened (l.set_ws (come_up (l.get_ws h)) h))
  hears_one on_reconnect k h = after_call l k (l.reconnected (l.set_ws (come_up (l.get_ws h)) h))
  hears_one on_close k h = h
  hears_one (on_error e) k h = h

  -- The calls in their order; where `turns` ends, `writeLoop` has no more turns.
  unfoldable pub hears : List (Callback E) → List Turns → H → H
  hears [] turns h = h
  hears (cb ∷ cbs) [] h = hears cbs [] (hears_one cb [] h)
  hears (cb ∷ cbs) (k ∷ ks) h = hears cbs ks (hears_one cb k h)

  abbrev run_on : List (Round E) → List Turns → H → Option (WsClient Json) → Ran H E
  run_on rs turns h none = panics
  run_on rs turns h (some c) =
      let p = run rs c in ran (hears (state_of p).trace turns (l.set_ws (some c) h)) p

  -- `Run` of a monitor, up to what it does when the client's `Run` has returned.
  unfoldable pub run_listener : Json → ℕ → WsConfig Json → List (Round E) → List Turns → H → Ran H E
  run_listener ping cpus cfg rs turns h =
      if alive_ws (l.get_ws h) then busy else run_on rs turns h (new_ws_client ping cpus cfg true)
