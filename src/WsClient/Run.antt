-- ===== src/WsClient/Run.antt =====
-- utils/websocket_client.go: `Run`, one turn of its loop at a time. What the network, the context
-- and the other goroutines decide in a turn is the turn's `Round`.
use go_polymarket_sdk.Common.{
  ℕ, ◌+◌, Bool, true, false, not, ◌||◌, Option, none, some, List, [], ◌∷◌, ◌++◌, if◌then◌else◌,
}
use go_polymarket_sdk.Common.Int.{pos, ltb_ℤ}
use go_polymarket_sdk.WsClient.{
  WsClient, Ctrl, ctrl_reconnect, ctrl_close, WsError, manual_reconnect, io, close,
}

-- How the `select` of an open connection ends.
pub data Session (E : Type 0) : Type 0 where
  cancelled : Session E
  control : Ctrl → Session E
  failed : E → Session E

pub record Round (E : Type 0) : Type 0 where
  -- `<-ctx.Done()` is ready at the top of the loop.
  pub done : Bool
  -- What `connect` returns.
  pub dial : Option E
  -- `SleepWithCtx` ran to its end.
  pub slept : Bool
  pub session : Session E

-- The calls of the handler, each through `SafeCall`.
pub data Callback (E : Type 0) : Type 0 where
  on_open on_reconnect on_close : Callback E
  on_error : WsError E → Callback E

pub record RunState (M E : Type 0) : Type 0 where
  pub retry : ℕ
  pub first : Bool
  pub client : WsClient M
  pub trace : List (Callback E)

pub data Stop (E : Type 0) : Type 0 where
  ctx_err : Stop E
  dial_err : E → Stop E

pub data Progress (M E : Type 0) : Type 0 where
  running : RunState M E → Progress M E
  returned : RunState M E → Stop E → Progress M E

module _ {M E : Type 0} where
  abbrev pub state_of : Progress M E → RunState M E
  state_of (running s) = s
  state_of (returned s r) = s

  -- `callOnOpen` and its like.
  unfoldable pub call : Callback E → RunState M E → RunState M E
  call cb s = record s { trace = if s.client.has_handler then s.trace ++ cb ∷ [] else s.trace }

  -- `_ = c.Close()`, with a connection that answers without an error.
  unfoldable pub shut : RunState M E → RunState M E
  shut s = record s { client = (close {E = E} none none s.client).0 }

  -- A `connect` that succeeds, and the start of the session.
  unfoldable pub open_session : RunState M E → RunState M E
  open_session s =
      let s1 = record s {
        retry = 0;
        client = record (s.client) { conn = true; alive = true; closed = false };
      } in
      record (call (if s1.first then on_open else on_reconnect) s1) { first = false }

  -- The end of the session, up to the `return` of the inner function.
  unfoldable pub end_session : Bool → Session E → RunState M E → RunState M E
  end_session slept cancelled s = call on_close (shut s)
  end_session slept (control ctrl_reconnect) s = shut (call (on_error manual_reconnect) s)
  end_session slept (control ctrl_close) s = call on_close (shut s)
  end_session slept (failed e) s =
      let s1 = shut (call (on_error (io e)) s) in
      if not s1.client.cfg.reconnect
      then call on_close s1
      else if not slept
      then call on_close s1
      else s1

  -- `connect` failed.
  unfoldable pub dial_failed : Bool → E → RunState M E → Progress M E
  dial_failed slept e s =
      if not s.client.cfg.reconnect || not (ltb_ℤ (pos s.retry) s.client.cfg.max_reconnect)
      then returned s (dial_err e)
      else let s1 = record s { retry = s.retry + 1 } in
        if not slept then returned (call on_close s1) ctx_err else running s1

  abbrev pub after_dial : Option E → Round E → RunState M E → Progress M E
  after_dial (some e) r s = dial_failed r.slept e s
  after_dial none r s = running (end_session r.slept r.session (open_session s))

  unfoldable pub run_round : Round E → RunState M E → Progress M E
  run_round r s = if r.done then returned (call on_close s) ctx_err else after_dial r.dial r s

  unfoldable pub start : WsClient M → RunState M E
  start c = record { retry = 0; first = true; client = c; trace = [] }

  unfoldable pub rounds : List (Round E) → RunState M E → Progress M E
  rounds [] s = running s
  rounds (r ∷ rs) s = elim (run_round r s) [
    | running s' ↦ rounds rs s'
    | returned s' stop ↦ returned s' stop
  ]

  unfoldable pub run : List (Round E) → WsClient M → Progress M E
  run rs c = rounds rs (start c)
