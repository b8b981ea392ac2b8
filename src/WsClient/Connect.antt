-- ===== src/WsClient/Connect.antt =====
-- utils/websocket_client.go: `connect`, and the read deadline that it sets. Times and durations are in
-- nanoseconds. The dialling is gorilla/websocket's; of its connections it documents that reading fails once the
-- read deadline has passed or a message is beyond the read limit, and that a pong calls the pong handler.
pub mod Alive
use go_polymarket_sdk.Common.{
  ℕ, ◌*◌, ◌^◌, ◌≡◌, refl, Bool, true, false, Option, none, some, String, List, [], ◌∷◌, ◌⊎◌, inl,
  inr, All, ◌||◌, arith, ◌∙◌, if◌then◌else◌,
}
use go_polymarket_sdk.Common.Int.{ℤ, pos, pos_part, neg_part, ltb_ℤ, ◌+ℤ◌, ◌≤ℤ◌, ◌<ℤ◌, parts_add}
use go_polymarket_sdk.WsClient.Config.{WsConfig}

-- websocket.Dialer, as far as `connect` sets it.
pub record Dialer : Type 0 where
  pub handshake_timeout : ℤ
  pub read_buffer_size : ℤ
  pub write_buffer_size : ℤ

pub record Conn : Type 0 where
  pub read_limit : ℤ
  pub read_deadline : ℤ

-- What the server sends, and when it arrives.
pub data Arrival : Type 0 where
  pong_at : ℤ → Arrival
  -- A message's time and its bytes.
  message_at : ℤ → ℕ → Arrival

abbrev pub arrives_at : Arrival → ℤ
arrives_at (pong_at t) = t
arrives_at (message_at t size) = t

abbrev pub bytes_of : Arrival → ℕ
bytes_of (pong_at t) = 0
bytes_of (message_at t size) = size

module _ {M : Type 0} where
  abbrev timed : WsConfig M → Option Dialer → Dialer
  timed cfg none = record {
    handshake_timeout = cfg.handshake_timeout;
    read_buffer_size = pos 0;
    write_buffer_size = pos 0;
  }
  timed cfg (some d) = record d { handshake_timeout = cfg.handshake_timeout }

  -- The client's dialer, with the sizes that are set.
  unfoldable pub dialer_for : WsConfig M → Option Dialer → Dialer
  dialer_for cfg dialer =
      let d = timed cfg dialer in
      let d1 =
        if ltb_ℤ (pos 0) cfg.read_buffer_size
        then record d { read_buffer_size = cfg.read_buffer_size }
        else d in
      if ltb_ℤ (pos 0) cfg.write_buffer_size
      then record d1 { write_buffer_size = cfg.write_buffer_size }
      else d1

  -- The pong handler, and the deadline of a new connection.
  unfoldable pub extend : WsConfig M → ℤ → Conn → Conn
  extend cfg now c = record c { read_deadline = now +ℤ cfg.pong_wait }

  abbrev pub set_up : {E : Type 0} → WsConfig M → ℤ → E ⊎ Conn → E ⊎ Conn
  set_up cfg now (inl e) = inl e
  set_up cfg now (inr c) = inr (extend cfg now (record c { read_limit = pos (8 * 2 ^ 20) }))

  -- `dial` is the library's: an error, or a connection.
  unfoldable pub connect :
      {E : Type 0} → WsConfig M → ℤ → (Dialer → String → E ⊎ Conn) → Option Dialer → E ⊎ Conn
  connect cfg now dial dialer = set_up cfg now (dial (dialer_for cfg dialer) cfg.url)

  abbrev pub handled : WsConfig M → Arrival → Conn → Conn
  handled cfg (pong_at t) c = extend cfg t c
  handled cfg (message_at t size) c = c

  -- `none` is the error of a read behind the deadline, or of a message beyond the limit.
  unfoldable pub reads_all : WsConfig M → List Arrival → Conn → Option Conn
  reads_all cfg [] c = some c
  reads_all cfg (a ∷ rest) c =
      let read = reads_all cfg rest (handled cfg a c) in
      if ltb_ℤ c.read_deadline (arrives_at a) || ltb_ℤ c.read_limit (pos (bytes_of a))
      then none
      else read
