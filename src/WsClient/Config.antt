-- ===== src/WsClient/Config.antt =====
-- utils/websocket_client.go: WSConfig and the defaults that NewWSClient fills in. Durations are in
-- nanoseconds.
use go_polymarket_sdk.Common.{
  ℕ, ◌*◌, ◌≡◌, Bool, ◌&&◌, Option, none, some, String, arith, if◌then◌else◌, ◌≢◌, true, false,
}
use go_polymarket_sdk.Common.Int.{ℤ, pos, beq_ℤ, ltb_ℤ, ◌<ℤ◌}

pub record WsConfig (M : Type 0) : Type 0 where
  pub url : String
  pub handshake_timeout : ℤ
  pub msg_buffer_size : ℤ
  pub worker_num : ℤ
  pub read_buffer_size : ℤ
  pub write_buffer_size : ℤ
  pub ping_interval : ℤ
  pub pong_wait : ℤ
  pub text_heartbeat : Bool
  pub text_heartbeat_msg : Option M
  pub reconnect : Bool
  pub reconnect_delay : ℤ
  pub max_reconnect : ℤ

-- A WSConfig of the URL alone, with the zero values.
abbrev pub unset : {M : Type 0} → String → WsConfig M
unset url = record {
  url = url;
  handshake_timeout = pos 0;
  msg_buffer_size = pos 0;
  worker_num = pos 0;
  read_buffer_size = pos 0;
  write_buffer_size = pos 0;
  ping_interval = pos 0;
  pong_wait = pos 0;
  text_heartbeat = false;
  text_heartbeat_msg = none;
  reconnect = false;
  reconnect_delay = pos 0;
  max_reconnect = pos 0;
}

abbrev pub second : ℕ
second = 1_000_000_000

-- `if x == 0 { x = d }`
abbrev or_default : ℤ → ℤ → ℤ
or_default x d = if beq_ℤ x (pos 0) then d else x

module _ {M : Type 0} where
  unfoldable pub with_defaults : M → ℕ → WsConfig M → WsConfig M
  with_defaults ping cpus c = record c {
    msg_buffer_size = or_default c.msg_buffer_size (pos 8192);
    worker_num = if ltb_ℤ (pos 0) c.worker_num then c.worker_num else pos cpus;
    ping_interval = or_default c.ping_interval (pos (10 * second));
    pong_wait = or_default c.pong_wait (pos (30 * second));
    handshake_timeout = or_default c.handshake_timeout (pos (20 * second));
    reconnect_delay = or_default c.reconnect_delay (pos (5 * second));
    max_reconnect = if c.reconnect && beq_ℤ c.max_reconnect (pos 0) then pos 3 else c.max_reconnect;
    text_heartbeat_msg = elim c.text_heartbeat_msg [ none ↦ some ping | some m ↦ some m ];
  }

  -- What the rest of the client relies on.
  pub record IsComplete (c : WsConfig M) : Type 0 where
    pub buffered : c.msg_buffer_size ≢ pos 0
    pub staffed : pos 0 <ℤ c.worker_num
    pub pings : c.ping_interval ≢ pos 0
    pub waits : c.pong_wait ≢ pos 0
    pub shakes : c.handshake_timeout ≢ pos 0
    pub delays : c.reconnect_delay ≢ pos 0
    pub retries : c.reconnect ≡ true → c.max_reconnect ≢ pos 0
    pub beats : c.text_heartbeat_msg ≢ none

  -- On a machine with a processor every setting that NewWSClient defaults ends up set.
  pub with_defaults-IsComplete :
      (ping : M) (cpus : ℕ) (c : WsConfig M) → cpus ≢ 0 → IsComplete (with_defaults ping cpus c)
  unfolding with_defaults
  with_defaults-IsComplete ping cpus c h = record {
    buffered = ground arith;
    staffed = ground arith;
    pings = ground arith;
    waits = ground arith;
    shakes = ground arith;
    delays = ground arith;
    retries = ground arith;
    beats = ground arith;
  }

  -- A setting that is complete is left alone, so the defaults may be applied again.
  pub with_defaults_idem :
      (ping : M) (cpus : ℕ) (c : WsConfig M)
      → with_defaults ping cpus (with_defaults ping cpus c) ≡ with_defaults ping cpus c
  unfolding with_defaults
  with_defaults_idem ping cpus c = ground arith
