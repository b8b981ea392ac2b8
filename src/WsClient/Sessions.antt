-- ===== src/WsClient/Sessions.antt =====
-- utils/websocket_client.go: what holds of `Run` over every list of turns.
use go_polymarket_sdk.Common.{
  ◌≡◌, refl, Bool, false, Option, none, some, List, [], ◌∷◌, arith, if_both,
}
use go_polymarket_sdk.WsClient.{
  WsClient, io, close, manual_reconnect, write_message, ctrl_reconnect, ctrl_close,
}
use go_polymarket_sdk.WsClient.Run.{
  Session, cancelled, control, failed, Round, on_error, RunState, Progress, running, returned,
  state_of, after_dial, call, shut, open_session, end_session, dial_failed, run_round, start,
  rounds, run,
}

-- No connection is open and nothing can be sent.
abbrev pub IsDown : {M : Type 0} → WsClient M → Type 0
IsDown c = (c.alive ≡ false) × (c.conn ≡ false)

module _ {M E : Type 0} where
  -- A property that each turn keeps holds when the loop stops, or waits for its next turn.
  pub rounds_inv {ℓ} :
      (P : RunState M E → Type ℓ)
      → ((r : Round E) (s : RunState M E) → P s → P (state_of (run_round r s)))
      → (rs : List (Round E)) (s : RunState M E) → P s
      → P (state_of (rounds rs s))
  unfolding rounds
  rounds_inv P keep [] s h = h
  rounds_inv P keep (r ∷ rs) s h = go (rounds_inv P keep rs) (run_round r s) (keep r s h)
    where
      go :
          ((s' : RunState M E) → P s' → P (state_of (rounds rs s')))
          → (p : Progress M E) → P (state_of p)
          → P (
              state_of (elim p [ running s' ↦ rounds rs s' | returned s' stop ↦ returned s' stop ]))
      go later (running s') k = later s' k
      go later (returned s' stop) k = k

  -- The client of `s` is down, and has the settings of `c`.
  abbrev pub IsDownLike : WsClient M → RunState M E → Type 0
  IsDownLike c s = IsDown s.client × (s.client.cfg ≡ c.cfg) × (s.client.has_handler ≡ c.has_handler)

  shut-IsDown : (s : RunState M E) → s.client.closed ≡ false → IsDownLike s.client (shut s)
  unfolding shut close write_message
  shut-IsDown s h = ground arith

  end_session-IsDownLike :
      (c : WsClient M) (slept : Bool) (e : Session E) (s : RunState M E)
      → s.client.closed ≡ false
      → s.client.cfg ≡ c.cfg
      → s.client.has_handler ≡ c.has_handler
      → IsDownLike c (end_session slept e s)
  unfolding end_session call
  end_session-IsDownLike c slept cancelled s o f g = ground (arith, shut-IsDown s)
  end_session-IsDownLike c slept (control ctrl_reconnect) s o f g =
      ground (arith, shut-IsDown (call (on_error manual_reconnect) s))
  end_session-IsDownLike c slept (control ctrl_close) s o f g = ground (arith, shut-IsDown s)
  end_session-IsDownLike c slept (failed e) s o f g =
      ground (arith, shut-IsDown (call (on_error (io e)) s))

  dial_failed-IsDownLike :
      (c : WsClient M) (slept : Bool) (e : E) (s : RunState M E)
      → IsDownLike c s
      → IsDownLike c (state_of (dial_failed slept e s))
  unfolding dial_failed call
  dial_failed-IsDownLike c slept e s h = ground arith

  after_dial-IsDownLike :
      (c : WsClient M) (o : Option E) (r : Round E) (s : RunState M E)
      → IsDownLike c s
      → IsDownLike c (state_of (after_dial o r s))
  unfolding open_session call
  after_dial-IsDownLike c (some e) r s h = dial_failed-IsDownLike c r.slept e s h
  after_dial-IsDownLike c none r s h =
      end_session-IsDownLike c r.slept r.session (open_session s) refl h.1 h.2

  run_round-IsDownLike :
      (c : WsClient M) (r : Round E) (s : RunState M E)
      → IsDownLike c s
      → IsDownLike c (state_of (run_round r s))
  unfolding run_round call
  run_round-IsDownLike c r s h =
      if_both (λ p. IsDownLike c (state_of p)) r.done h (after_dial-IsDownLike c r.dial r s h)

  -- A client that starts without a connection has none open, and is not alive, whenever Run returns
  -- or is about to dial again, and its settings are unchanged.
  pub run-IsDownLike :
      (c : WsClient M) (rs : List (Round E)) → IsDown c → IsDownLike c (state_of (run rs c))
  unfolding run start
  run-IsDownLike c rs h =
      rounds_inv (IsDownLike c) (run_round-IsDownLike c) rs (start c) (h, refl, refl)
