-- ===== src/WsClient/Announce.antt =====
-- utils/websocket_client.go: what `Run` tells its handler.
use go_polymarket_sdk.Common.{
  ℕ, zero, suc, ◌+◌, ◌≡◌, refl, ap, ◌∙◌, Bool, true, false, not, ◌||◌, Option, none, some, List, [],
  ◌∷◌, ◌++◌, arith, replicate, if◌then◌else◌, Bool-cases, inl, inr, if_both,
}
use mathlib.Core.Path.{ap₂}
use mathlib.Core.List.{append-nil}
use go_polymarket_sdk.Common.Int.{pos, ltb_ℤ}
use go_polymarket_sdk.WsClient.{
  WsClient, io, close, manual_reconnect, write_message, ctrl_reconnect, ctrl_close,
}
use go_polymarket_sdk.WsClient.Run.{
  Session, cancelled, control, failed, Round, Callback, on_open, on_reconnect, on_close, on_error,
  RunState, state_of, Progress, ctx_err, running, returned, rounds, after_dial, call, shut,
  open_session, end_session, dial_failed, run_round, start, run,
}

abbrev is_zero : ℕ → Bool
is_zero zero = true
is_zero (suc n) = false

module _ {E : Type 0} where
  -- The announcements of connections among the handler's calls.
  abbrev pub connects : List (Callback E) → List (Callback E)
  connects [] = []
  connects (on_open ∷ cs) = on_open ∷ connects cs
  connects (on_reconnect ∷ cs) = on_reconnect ∷ connects cs
  connects (on_close ∷ cs) = connects cs
  connects (on_error e ∷ cs) = connects cs

  -- One `OnOpen` and then `OnReconnect` for each later connection.
  abbrev pub announced : ℕ → List (Callback E)
  announced zero = []
  announced (suc n) = on_open ∷ replicate n on_reconnect

  connects-append : (xs ys : List (Callback E)) → connects (xs ++ ys) ≡ connects xs ++ connects ys
  connects-append [] ys = refl
  connects-append (on_open ∷ xs) ys = ap (◌∷◌ on_open) (connects-append xs ys)
  connects-append (on_reconnect ∷ xs) ys = ap (◌∷◌ on_reconnect) (connects-append xs ys)
  connects-append (on_close ∷ xs) ys = connects-append xs ys
  connects-append (on_error e ∷ xs) ys = connects-append xs ys

  replicate_snoc : (n : ℕ) (cb : Callback E) → replicate n cb ++ cb ∷ [] ≡ cb ∷ replicate n cb
  replicate_snoc zero cb = refl
  replicate_snoc (suc n) cb = ap (◌∷◌ cb) (replicate_snoc n cb)

  -- A call that announces no connection.
  abbrev IsQuiet : Callback E → Type 0
  IsQuiet cb = connects (cb ∷ []) ≡ []

  -- One connection more where `connect` gives no error.
  abbrev dialled : Option E → ℕ → ℕ
  dialled none n = suc n
  dialled (some e) n = n

  abbrev pub counted : Round E → ℕ → ℕ
  counted r n = if r.done then n else dialled r.dial n

module _ {M E : Type 0} where
  -- `n` connections were announced so far.
  abbrev pub Announced : ℕ → RunState M E → Type 0
  Announced n s =
      (connects s.trace ≡ announced n) × (s.first ≡ is_zero n) × (s.client.has_handler ≡ true)

  -- The trace grows by a call exactly if there is a handler.
  call_trace :
      (cb : Callback E) (s : RunState M E)
      → s.client.has_handler ≡ true
      → connects (call cb s).trace ≡ connects s.trace ++ connects (cb ∷ [])
  unfolding call
  call_trace cb s h = rw h (connects-append s.trace (cb ∷ []))

  call-Announced :
      (n : ℕ) (cb : Callback E) (s : RunState M E)
      → IsQuiet cb
      → Announced n s
      → Announced n (call cb s)
  unfolding call
  call-Announced n cb s q (t, f, h) =
      (call_trace cb s h ∙ ap (◌++◌ (connects s.trace)) q ∙ append-nil _ ∙ t, f, h)

  shut-Announced : (n : ℕ) (s : RunState M E) → Announced n s → Announced n (shut s)
  unfolding shut close write_message
  shut-Announced n s (t, f, h) = (t, f, ground arith)

  opened_trace :
      (s : RunState M E)
      → s.client.has_handler ≡ true
      → connects (open_session s).trace
        ≡ connects s.trace ++ (if s.first then on_open else on_reconnect) ∷ []
  unfolding open_session call
  opened_trace s h = elim (Bool-cases s.first) [
    | inl f ↦ rw (h, f) (connects-append s.trace (on_open ∷ []))
    | inr f ↦ rw (h, f) (connects-append s.trace (on_reconnect ∷ []))
  ]

  open_session-Announced :
      (n : ℕ) (s : RunState M E) → Announced n s → Announced (suc n) (open_session s)
  unfolding open_session call
  open_session-Announced zero s (t, f, h) =
      (opened_trace s h ∙ ap₂ (λ l b. l ++ (if b then on_open else on_reconnect) ∷ []) t f, refl, h)
  open_session-Announced (suc n) s (t, f, h) = (
    opened_trace s h
        ∙ ap₂ (λ l b. l ++ (if b then on_open else on_reconnect) ∷ []) t f
        ∙ ap (◌∷◌ on_open) (replicate_snoc n on_reconnect),
    refl,
    h,
  )

  end_session-Announced :
      (n : ℕ) (slept : Bool) (e : Session E) (s : RunState M E)
      → Announced n s
      → Announced n (end_session slept e s)
  unfolding end_session
  end_session-Announced n slept cancelled s a =
      call-Announced n on_close _ refl (shut-Announced n s a)
  end_session-Announced n slept (control ctrl_reconnect) s a =
      shut-Announced n _ (call-Announced n (on_error manual_reconnect) s refl a)
  end_session-Announced n slept (control ctrl_close) s a =
      call-Announced n on_close _ refl (shut-Announced n s a)
  end_session-Announced n slept (failed e) s a =
      let s1 = shut (call (on_error (io e)) s) in
      let a1 = shut-Announced n _ (call-Announced n (on_error (io e)) s refl a) in
      let a2 = call-Announced n on_close s1 refl a1 in
      if_both (Announced n) (not s1.client.cfg.reconnect) a2
        (if_both (Announced n) (not slept) a2 a1)

  -- The connections that a run makes, beside the `n` that were made before.
  unfoldable pub connections : List (Round E) → RunState M E → ℕ → ℕ
  connections [] s n = n
  connections (r ∷ rs) s n = elim (run_round r s) [
    | running s' ↦ connections rs s' (counted r n)
    | returned s' stop ↦ counted r n
  ]

  after_dial-Announced :
      (n : ℕ) (o : Option E) (r : Round E) (s : RunState M E)
      → Announced n s
      → Announced (dialled o n) (state_of (after_dial o r s))
  unfolding dial_failed
  after_dial-Announced n (some e) r s a =
      if_both (λ p. Announced n (state_of p))
        (not s.client.cfg.reconnect || not (ltb_ℤ (pos s.retry) s.client.cfg.max_reconnect)) a
        (if_both (λ p. Announced n (state_of p)) (not r.slept)
          (call-Announced n on_close (record s { retry = s.retry + 1 }) refl a) a)
  after_dial-Announced n none r s a =
      end_session-Announced (suc n) r.slept r.session _ (open_session-Announced n s a)

  run_round-Announced :
      (n : ℕ) (r : Round E) (s : RunState M E)
      → Announced n s
      → Announced (counted r n) (state_of (run_round r s))
  unfolding run_round
  run_round-Announced n r s a = go r.done
    where
      go :
          (b : Bool)
          → Announced
              (if b then n else dialled r.dial n)
              (state_of (if b then returned (call on_close s) ctx_err else after_dial r.dial r s))
      go true = call-Announced n on_close s refl a
      go false = after_dial-Announced n r.dial r s a

  rounds-Announced :
      (n : ℕ) (rs : List (Round E)) (s : RunState M E)
      → Announced n s
      → Announced (connections rs s n) (state_of (rounds rs s))
  unfolding rounds connections
  rounds-Announced n [] s a = a
  rounds-Announced n (r ∷ rs) s a =
      go (λ s' h. rounds-Announced (counted r n) rs s' h) (run_round r s)
        (run_round-Announced n r s a)
    where
      go :
          ((s' : RunState M E)
            → Announced (counted r n) s'
            → Announced (connections rs s' (counted r n)) (state_of (rounds rs s')))
          → (p : Progress M E) → Announced (counted r n) (state_of p)
          → Announced
              (elim p [
                | running s' ↦ connections rs s' (counted r n)
                | returned s' stop ↦ counted r n
              ])
              (state_of
                (elim p [ running s' ↦ rounds rs s' | returned s' stop ↦ returned s' stop ]))
      go later (running s') h = later s' h
      go later (returned s' stop) h = h

  -- However the turns of Run go, a client that has a handler tells it of its connections, as many as there are
  -- turns in which `connect` succeeds: of the first by one OnOpen, and of each later one by one OnReconnect.
  pub run-announced :
      (c : WsClient M) (rs : List (Round E))
      → c.has_handler ≡ true
      → connects (state_of (run rs c)).trace ≡ announced (connections rs (start c) 0)
  unfolding run start
  run-announced c rs h = (rounds-Announced 0 rs (start c) (refl, refl, h)).0
