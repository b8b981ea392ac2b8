-- ===== src/WsClient.antt =====
-- utils/websocket_client.go: the client's configuration, state and operations. `Run` is in the
-- child Run, the loops of its goroutines in the child Loops. A frame's payload is of type `M`; the
-- connection (gorilla/websocket) is a flag, with the frames that were written to it.
pub mod Config
pub mod Run
pub mod Loops
pub mod Sessions
pub mod Announce
pub mod Retries
pub mod Workers
pub mod Connect
pub mod Listener
use go_polymarket_sdk.Common.{
  ℕ, zero, ◌≡◌, Bool, true, false, not, ◌&&◌, Option, none, some, List, [], ◌∷◌, ◌++◌,
  if◌then◌else◌,
}
use go_polymarket_sdk.Common.Int.{ℤ, pos, negsuc}
use go_polymarket_sdk.Chan
use go_polymarket_sdk.Chan.{Chan, try_send}
use Config.{WsConfig, with_defaults}

pub data Ctrl : Type 0 where
  ctrl_reconnect ctrl_close : Ctrl

pub data Frame (M : Type 0) : Type 0 where
  text : M → Frame M
  ping_frame : Frame M
  close_frame : Frame M

pub record WsClient (M : Type 0) : Type 0 where
  pub cfg : WsConfig M
  pub has_handler : Bool
  -- `c.conn != nil`, and the frames written so far, the oldest first.
  pub conn : Bool
  pub written : List (Frame M)
  pub send_ch : Chan M
  pub msg_ch : Chan M
  pub ctrl_ch : Chan Ctrl
  pub alive : Bool
  pub closed : Bool

-- The errors that the client makes itself; `io` is one of the connection's.
pub data WsError (E : Type 0) : Type 0 where
  not_alive send_buffer_full control_busy conn_nil manual_reconnect : WsError E
  io : E → WsError E

module _ {M : Type 0} where
  -- `make(chan …, n)` panics if n is negative: `none`.
  abbrev pub new_sized : WsConfig M → Bool → ℤ → Option (WsClient M)
  new_sized cfg h (pos n) = some (record {
    cfg = cfg;
    has_handler = h;
    conn = false;
    written = [];
    send_ch = Chan.make n;
    msg_ch = Chan.make n;
    ctrl_ch = Chan.make 1;
    alive = false;
    closed = false;
  })
  new_sized cfg h (negsuc n) = none

  -- `ping` is the text "PING" and `cpus` the number of processors.
  unfoldable pub new_ws_client : M → ℕ → WsConfig M → Bool → Option (WsClient M)
  new_ws_client ping cpus cfg h =
      let cfg' = with_defaults ping cpus cfg in new_sized cfg' h cfg'.msg_buffer_size

  unfoldable pub is_alive : WsClient M → Bool
  is_alive c = c.alive

module _ {M E : Type 0} where
  -- `writeMessage`; `fails` is what the connection answers.
  unfoldable pub write_message : Option E → Frame M → WsClient M → WsClient M × Option (WsError E)
  write_message fails m c =
      if c.conn
      then (elim fails [
        | none ↦ (record c { written = c.written ++ m ∷ [] }, none)
        | some e ↦ (c, some (io e))
      ])
      else (c, some conn_nil)

  unfoldable pub send : M → WsClient M → WsClient M × Option (WsError E)
  send m c =
      if not c.alive
      then (c, some not_alive)
      else let (ch, sent) = try_send m c.send_ch in
        (record c { send_ch = ch }, if sent then none else some send_buffer_full)

  -- `write_fails` and `close_fails` are what the connection answers.
  unfoldable pub close : Option E → Option E → WsClient M → WsClient M × Option (WsError E)
  close write_fails close_fails c =
      if c.closed
      then (c, none)
      else let c1 = record c { closed = true; alive = false } in
        if c1.conn
        then (let c2 = (write_message write_fails close_frame c1).0 in
            (record c2 { conn = false }, elim close_fails [ none ↦ none | some e ↦ some (io e) ]))
        else (c1, none)

  unfoldable pub reset : WsClient M → WsClient M × Option (WsError E)
  reset c =
      let (ch, sent) = try_send ctrl_reconnect c.ctrl_ch in
      (record c { ctrl_ch = ch }, if sent then none else some control_busy)
