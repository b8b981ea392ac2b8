-- ===== src/WsClient/Connect/Alive.antt =====
-- utils/websocket_client.go: how long a connection's reads go on.
use go_polymarket_sdk.Common.{
  ℕ, ◌*◌, ◌^◌, ◌≤◌, none, ◌≡◌, refl, ◌∙◌, Option, some, String, List, [], ◌∷◌, ◌⊎◌, inl, inr, arith,
}
use go_polymarket_sdk.Common.Int.{ℤ, pos, ◌+ℤ◌, ◌≤ℤ◌, parts_add}
use go_polymarket_sdk.WsClient.Config.{WsConfig}
use go_polymarket_sdk.WsClient.Connect.{
  Dialer, Conn, Arrival, pong_at, message_at, arrives_at, bytes_of, handled, extend, set_up,
  dialer_for, connect, reads_all,
}

module _ {M : Type 0} where
  -- The arrivals on a connection whose last ping, or whose start, was at `t`. With `none`, the next ping is to
  -- come; with `some d`, it was sent, an interval behind `t`, and its pong comes `d` behind it. A pong comes
  -- before the wait for it, counted from the ping before, is over. Messages come at any time up to then, each
  -- within the read limit.
  pub data Answered (cfg : WsConfig M) : ℤ → Option ℤ → List Arrival → Type 0 where
    ends : {t : ℤ} {due : Option ℤ} → Answered cfg t due []
    message :
        {t : ℤ} {rest : List Arrival} (s : ℤ) (size : ℕ)
        → s ≤ℤ (t +ℤ cfg.ping_interval)
        → size ≤ 8 * 2 ^ 20
        → Answered cfg t none rest
        → Answered cfg t none (message_at s size ∷ rest)
    ping :
        {t : ℤ} {rest : List Arrival} (d : ℤ)
        → pos 0 ≤ℤ d
        → (cfg.ping_interval +ℤ d) ≤ℤ cfg.pong_wait
        → Answered cfg t (some d) rest
        → Answered cfg t none rest
    waiting :
        {t d : ℤ} {rest : List Arrival} (s : ℤ) (size : ℕ)
        → s ≤ℤ ((t +ℤ cfg.ping_interval) +ℤ d)
        → size ≤ 8 * 2 ^ 20
        → Answered cfg t (some d) rest
        → Answered cfg t (some d) (message_at s size ∷ rest)
    pong :
        {t d : ℤ} {rest : List Arrival}
        → Answered cfg (t +ℤ cfg.ping_interval) none rest
        → Answered cfg t (some d) (pong_at ((t +ℤ cfg.ping_interval) +ℤ d) ∷ rest)

  -- A deadline that is not passed, and a message that is not too long.
  reads-on :
      (cfg : WsConfig M) (a : Arrival) (rest : List Arrival) (c : Conn)
      → arrives_at a ≤ℤ c.read_deadline
      → pos (bytes_of a) ≤ℤ c.read_limit
      → reads_all cfg (a ∷ rest) c ≡ reads_all cfg rest (handled cfg a c)
  unfolding reads_all
  reads-on cfg a rest c h l = ground arith

  -- A pong that is due comes within the wait.
  abbrev IsDue : WsConfig M → Option ℤ → Type 0
  IsDue cfg none = cfg.ping_interval ≤ℤ cfg.pong_wait
  IsDue cfg (some d) = (pos 0 ≤ℤ d) × ((cfg.ping_interval +ℤ d) ≤ℤ cfg.pong_wait)

  answered-reads :
      (cfg : WsConfig M) (t : ℤ) (due : Option ℤ) (arrivals : List Arrival) (c : Conn)
      → cfg.ping_interval ≤ℤ cfg.pong_wait
      → c.read_limit ≡ pos (8 * 2 ^ 20)
      → (t +ℤ cfg.pong_wait) ≤ℤ c.read_deadline
      → Answered cfg t due arrivals
      → IsDue cfg due
      → (c' : Conn) × (reads_all cfg arrivals c ≡ some c')
  unfolding reads_all extend
  answered-reads cfg t due _ c w l h ends i = (c, refl)
  answered-reads cfg t _ _ c w l h (message {rest = rest} s size on small k) i =
      let (c', e) = answered-reads cfg t none rest c w l h k w in
      (
        c',
        reads-on cfg (message_at s size) rest c
              (omega (arith, on, h, w, parts_add t cfg.ping_interval, parts_add t cfg.pong_wait))
              (rw l (omega (arith, small)))
            ∙ e,
      )
  answered-reads cfg t _ _ c w l h (ping {rest = rest} d late soon k) i =
      answered-reads cfg t (some d) rest c w l h k (late, soon)
  answered-reads cfg t _ _ c w l h (waiting {d = d} {rest = rest} s size on small k) (late, soon) =
      let (c', e) = answered-reads cfg t (some d) rest c w l h k (late, soon) in
      (
        c',
        reads-on cfg (message_at s size) rest c
              (omega (
                arith,
                on,
                h,
                soon,
                parts_add t cfg.ping_interval,
                parts_add (t +ℤ cfg.ping_interval) d,
                parts_add cfg.ping_interval d,
                parts_add t cfg.pong_wait,
              ))
              (rw l (omega (arith, small)))
            ∙ e,
      )
  answered-reads cfg t _ _ c w l h (pong {d = d} {rest = rest} k) (late, soon) =
      let next = t +ℤ cfg.ping_interval in
      let (c', e) =
        answered-reads cfg next none rest (extend cfg (next +ℤ d) c) w l
          (omega (
            arith,
            late,
            parts_add next d,
            parts_add (next +ℤ d) cfg.pong_wait,
            parts_add next cfg.pong_wait,
          ))
          k w in
      (
        c',
        reads-on cfg (pong_at (next +ℤ d)) rest c
              (omega (
                arith,
                h,
                soon,
                parts_add t cfg.ping_interval,
                parts_add next d,
                parts_add cfg.ping_interval d,
                parts_add t cfg.pong_wait,
              ))
              (rw l (omega arith))
            ∙ e,
      )

  set_up-deadline :
      {E : Type 0} (cfg : WsConfig M) (now : ℤ) (r : E ⊎ Conn) (c : Conn)
      → set_up cfg now r ≡ inr c
      → (c.read_deadline ≡ now +ℤ cfg.pong_wait) × (c.read_limit ≡ pos (8 * 2 ^ 20))
  unfolding extend
  set_up-deadline cfg now (inl e) c made = absurd (cc)
  set_up-deadline cfg now (inr r) c made = (cc, cc)

  -- A connection that `connect` makes is not given up while each pong comes in time and no message is longer
  -- than 8 MiB, however many pings and messages there are: the interval of the pings and the delay of each pong
  -- are together no longer than the wait for a pong, and the messages come up to the next ping or, behind a
  -- ping, up to its pong.
  pub connect-stays :
      {E : Type 0} (cfg : WsConfig M) (now : ℤ) (dial : Dialer → String → E ⊎ Conn)
      (dialer : Option Dialer) (arrivals : List Arrival) (c : Conn)
      → cfg.ping_interval ≤ℤ cfg.pong_wait
      → connect cfg now dial dialer ≡ inr c
      → Answered cfg now none arrivals
      → (c' : Conn) × (reads_all cfg arrivals c ≡ some c')
  unfolding connect
  connect-stays cfg now dial dialer arrivals c w made k =
      let (deadline, limit) =
        set_up-deadline cfg now (dial (dialer_for cfg dialer) cfg.url) c made in
      answered-reads cfg now none arrivals c w limit (rw deadline (omega arith)) k w
