-- ===== src/WsClient/Retries.antt =====
-- utils/websocket_client.go: how often `Run` dials, and what becomes of a session that fails.
use go_polymarket_sdk.Common.{
  ℕ, ◌+◌, ◌≤◌, ◌<◌, ◌≡◌, ap, ◌∙◌, sym, true, false, none, some, List, [], ◌∷◌, ◌++◌, map, arith,
  length,
}
use mathlib.Core.List.{append-nil}
use native.Mathlib.Nat.{add-zero}
use go_polymarket_sdk.Common.Int.{pos}
use go_polymarket_sdk.WsClient.{WsClient, io, close, write_message}
use go_polymarket_sdk.WsClient.Run.{
  cancelled, failed, Round, on_open, on_reconnect, on_close, on_error, RunState, Stop, ctx_err,
  dial_err, running, returned, state_of, call, shut, open_session, end_session, dial_failed,
  run_round, start, rounds, run,
}

module _ {E : Type 0} where
  -- A turn whose `connect` fails with `e`, after which the pause runs to its end.
  abbrev pub dial_fails : E → Round E
  dial_fails e = record { done = false; dial = some e; slept = true; session = cancelled }

  -- A turn whose session breaks with `e`, after which the pause runs to its end.
  abbrev pub breaks : E → Round E
  breaks e = record { done = false; dial = none; slept = true; session = failed e }

  -- A turn whose context is cancelled during the session, and one that finds it cancelled.
  abbrev pub cancels : Round E
  cancels = record { done = false; dial = none; slept = true; session = cancelled }

  abbrev pub finds_cancelled : Round E
  finds_cancelled = record { done = true; dial = none; slept = true; session = cancelled }

module _ {M E : Type 0} where
  rounds_running :
      (r : Round E) (rs : List (Round E)) (s s' : RunState M E)
      → run_round r s ≡ running s'
      → rounds (r ∷ rs) s ≡ rounds rs s'
  unfolding rounds
  rounds_running r rs s s' e = rw (e, rounds)

  rounds_returned :
      (r : Round E) (rs : List (Round E)) (s s' : RunState M E) (stop : Stop E)
      → run_round r s ≡ returned s' stop
      → rounds (r ∷ rs) s ≡ returned s' stop
  unfolding rounds
  rounds_returned r rs s s' stop e = rw (e, rounds)

  retry_once :
      (m : ℕ) (e : E) (s : RunState M E)
      → s.client.cfg.reconnect ≡ true
      → s.client.cfg.max_reconnect ≡ pos m
      → s.retry < m
      → run_round (dial_fails e) s ≡ running (record s { retry = s.retry + 1 })
  unfolding run_round dial_failed
  retry_once m e s r c h = ground arith

  give_up_now :
      (m : ℕ) (e : E) (s : RunState M E)
      → s.client.cfg.max_reconnect ≡ pos m
      → m ≤ s.retry
      → run_round (dial_fails e) s ≡ returned s (dial_err e)
  unfolding run_round dial_failed
  give_up_now m e s c h = ground arith

  rounds_fail :
      (m : ℕ) (es : List E) (rest : List (Round E)) (s : RunState M E)
      → s.client.cfg.reconnect ≡ true
      → s.client.cfg.max_reconnect ≡ pos m
      → s.retry + length es ≤ m
      → rounds (map dial_fails es ++ rest) s
        ≡ rounds rest (record s { retry = s.retry + length es })
  rounds_fail m [] rest s r c h = rw add-zero
  rounds_fail m (e ∷ es) rest s r c h =
      rounds_running (dial_fails e) (map dial_fails es ++ rest) s _
        (retry_once m e s r c (omega arith))
      ∙ rounds_fail m es rest (record s { retry = s.retry + 1 }) r c (omega arith)
      ∙ ap (λ n. rounds rest (record s { retry = n })) (omega arith)

  -- With reconnection on and a bound of m, Run dials again after each of m failures in a row,
  -- without a call of the handler, and returns the error of the next failure.
  pub run-gives_up :
      (m : ℕ) (es : List E) (e : E) (rest : List (Round E)) (c : WsClient M)
      → c.cfg.reconnect ≡ true
      → c.cfg.max_reconnect ≡ pos m
      → length es ≡ m
      → run (map dial_fails es ++ dial_fails e ∷ rest) c
        ≡ returned (record { retry = m; first = true; client = c; trace = [] }) (dial_err e)
  unfolding run start
  run-gives_up m es e rest c r x h =
      rounds_fail m es (dial_fails e ∷ rest) (start c) r x (omega arith)
      ∙ ap (λ n. rounds (dial_fails e ∷ rest) (record (start {E = E} c) { retry = n })) {y = m}
          (omega arith)
      ∙ rounds_returned (dial_fails e) rest (record (start c) { retry = m }) _ _
          (give_up_now m e _ x (omega arith))

  -- Fewer failures than that leave it dialling.
  pub run-keeps_trying :
      (m : ℕ) (es : List E) (c : WsClient M)
      → c.cfg.reconnect ≡ true
      → c.cfg.max_reconnect ≡ pos m
      → length es ≤ m
      → run (map dial_fails es) c
        ≡ running (record { retry = length es; first = true; client = c; trace = [] })
  unfolding run start rounds
  run-keeps_trying m es c r x h =
      sym (ap (λ l. rounds l (start {E = E} c)) (append-nil (map dial_fails es)))
      ∙ rounds_fail m es [] (start c) r x (omega arith)
      ∙ ap (λ n. rounds [] (record (start {E = E} c) { retry = n })) (omega arith)

  -- The bug: with reconnection switched off, a session that breaks is reported to the handler as
  -- closed, and `Run` still dials again and opens another session.
  pub run_reconnects_anyway :
      (e e' : E) (c : WsClient M)
      → c.cfg.reconnect ≡ false
      → c.has_handler ≡ true
      → let p = run (breaks e ∷ breaks e' ∷ []) c in
        (p ≡ running (state_of p))
        × ((state_of p).trace
            ≡ on_open
              ∷ on_error (io e)
              ∷ on_close
              ∷ on_reconnect
              ∷ on_error (io e')
              ∷ on_close
              ∷ [])
  unfolding run start rounds run_round end_session open_session shut call close write_message
  run_reconnects_anyway e e' c r h = ground arith

  -- The bug: a context that is cancelled during a session has `OnClose` called twice.
  pub run_closes_twice :
      (c : WsClient M)
      → c.has_handler ≡ true
      → let p = run {E = E} (cancels ∷ finds_cancelled ∷ []) c in
        (p ≡ returned (state_of p) ctx_err)
        × ((state_of p).trace ≡ on_open ∷ on_close ∷ on_close ∷ [])
  unfolding run start rounds run_round end_session open_session shut call close write_message
  run_closes_twice c h = ground arith
