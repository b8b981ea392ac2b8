-- ===== src/WsClient/Loops.antt =====
-- utils/websocket_client.go: the goroutines of a session. Each function is one turn of a loop; its
-- `Bool` says that the loop goes on. `err_ch` is the session's error channel, of capacity 1.
use go_polymarket_sdk.Common.{
  ℕ, ◌+◌, zero, suc, ◌≤◌, ◌<◌, ◌≡◌, refl, Bool, true, false, Option, none, some, List, [], ◌∷◌,
  ◌++◌, arith, length, if◌then◌else◌, ap, ◌∙◌, length-append,
}
use mathlib.Core.List.{append-nil, append_assoc}
use go_polymarket_sdk.Chan.{Chan, IsBounded, try_send, try_recv, emit, emits}
use go_polymarket_sdk.Chan.Latest.{emits_lem, last_n}
use go_polymarket_sdk.WsClient.{WsClient, WsError, Frame, text, ping_frame, write_message, send}

-- What `ReadMessage` gives.
pub data Read (M E : Type 0) : Type 0 where
  message : M → Read M E
  broken : E → Read M E

module _ {M E : Type 0} where
  -- A turn of `readLoop`. `done` says that the select took `<-ctx.Done()`. A full buffer gives up
  -- its oldest message.
  unfoldable pub read_turn : Bool → Read M E → WsClient M × Chan E → WsClient M × Chan E × Bool
  read_turn done (broken e) (c, err_ch) = (c, (try_send e err_ch).0, false)
  read_turn done (message m) (c, err_ch) =
      if done then (c, err_ch, false) else (record c { msg_ch = (emit m c.msg_ch).0 }, err_ch, true)

  report : WsClient M → Chan (WsError E) → Option (WsError E) → WsClient M × Chan (WsError E) × Bool
  report c err_ch none = (c, err_ch, true)
  report c err_ch (some e) = (c, (try_send e err_ch).0, false)

  take_message :
      Option E
      → WsClient M
      → Chan (WsError E)
      → Chan M × Option M
      → WsClient M × Chan (WsError E) × Bool
  unfolding report
  take_message fails c err_ch (ch, none) = (c, err_ch, true)
  take_message fails c err_ch (ch, some m) =
      let (c1, err) = write_message fails (text m) (record c { send_ch = ch }) in
      report c1 err_ch err

  -- A turn of `writeLoop` that finds a message, or waits (and changes nothing) on an empty queue.
  unfoldable pub write_turn :
      Bool → Option E → WsClient M × Chan (WsError E) → WsClient M × Chan (WsError E) × Bool
  unfolding take_message
  write_turn done fails (c, err_ch) =
      if done then (c, err_ch, false) else take_message fails c err_ch (try_recv c.send_ch)

  heartbeat :
      Option M → Option E → WsClient M → Chan (WsError E) → WsClient M × Chan (WsError E) × Bool
  unfolding report
  heartbeat none fails c err_ch = (c, err_ch, true)
  heartbeat (some m) fails c err_ch =
      let (c1, err) = write_message fails (text m) c in report c1 err_ch err

  after_ping :
      Option E
      → WsClient M
      → Chan (WsError E)
      → Option (WsError E)
      → WsClient M × Chan (WsError E) × Bool
  unfolding heartbeat
  after_ping fails c err_ch (some e) = (c, (try_send e err_ch).0, false)
  after_ping fails c err_ch none =
      if c.cfg.text_heartbeat
      then heartbeat c.cfg.text_heartbeat_msg fails c err_ch
      else (c, err_ch, true)

  -- A turn of `pingLoop` at a tick.
  unfoldable pub ping_turn :
      Bool
      → Option E
      → Option E
      → WsClient M × Chan (WsError E)
      → WsClient M × Chan (WsError E) × Bool
  unfolding after_ping
  ping_turn done fails fails' (c, err_ch) =
      if done
      then (c, err_ch, false)
      else let (c1, err) = write_message fails ping_frame c in after_ping fails' c1 err_ch err

  unfoldable pub reads : List M → WsClient M × Chan E → WsClient M × Chan E
  unfolding read_turn
  reads [] (c, err_ch) = (c, err_ch)
  reads (m ∷ ms) (c, err_ch) =
      let (c1, err_ch1, _) = read_turn false (message m) (c, err_ch) in reads ms (c1, err_ch1)

  reads-emits :
      (ms : List M) (c : WsClient M) (err_ch : Chan E)
      → reads ms (c, err_ch) ≡ (record c { msg_ch = emits ms c.msg_ch }, err_ch)
  unfolding reads emits
  reads-emits [] c err_ch = refl
  reads-emits (m ∷ ms) c err_ch = reads-emits ms (record c { msg_ch = (emit m c.msg_ch).0 }) err_ch

  -- However many messages a session reads before a worker takes one, the buffer holds the latest
  -- of them, as many as fit, in the order of arrival; nothing else of the client changes, and no
  -- error is reported.
  pub reads_keep_latest :
      (ms : List M) (c : WsClient M) (err_ch : Chan E)
      → IsBounded c.msg_ch
      → 0 < c.msg_ch.cap
      → reads ms (c, err_ch) ≡ (
        record c {
          msg_ch = record (c.msg_ch) { items = last_n c.msg_ch.cap (c.msg_ch.items ++ ms) };
        },
        err_ch,
      )
  reads_keep_latest ms c err_ch h p =
      reads-emits ms c err_ch
      ∙ ap (λ ch. (record c { msg_ch = ch }, err_ch)) (emits_lem ms c.msg_ch h p)

module _ {M : Type 0} where
  -- A run of calls of `Send` (the errors' type does not matter to the client's state).
  unfoldable pub sends : List M → WsClient M → WsClient M
  sends [] c = c
  sends (m ∷ ms) c = sends ms (send {E = Unit {0}} m c).0

  abbrev pub texts : List M → List (Frame M)
  texts [] = []
  texts (m ∷ ms) = text m ∷ texts ms

module _ {M E : Type 0} where
  -- `n` turns of `writeLoop` in which the connection takes every frame.
  unfoldable pub writes : ℕ → WsClient M × Chan (WsError E) → WsClient M × Chan (WsError E)
  writes zero (c, err_ch) = (c, err_ch)
  writes (suc n) (c, err_ch) =
      let (c1, err_ch1, _) = write_turn false none (c, err_ch) in writes n (c1, err_ch1)

  -- Turns of `writeLoop`, with what each write gives, up to the first that ends the loop. A message whose write
  -- fails is lost.
  unfoldable pub write_turns :
      List (Option E) → WsClient M × Chan (WsError E) → WsClient M × Chan (WsError E)
  write_turns [] p = p
  write_turns (fails ∷ rest) p =
      let (c, err_ch, goes_on) = write_turn false fails p in
      let later = write_turns rest (c, err_ch) in if goes_on then later else (c, err_ch)

  pub write_once :
      (x : M) (xs : List M) (n : ℕ) (c : WsClient M) (err_ch : Chan (WsError E))
      → c.conn ≡ true
      → c.send_ch ≡ record { cap = n; items = x ∷ xs }
      → write_turn {E = E} false none (c, err_ch) ≡ (
        record c { written = c.written ++ text x ∷ []; send_ch = record { cap = n; items = xs } },
        err_ch,
        true,
      )
  unfolding write_turn write_message try_recv
  write_once x xs n c err_ch o e = rw e (rw o refl)

  writes_drain :
      (xs : List M) (n : ℕ) (c : WsClient M) (err_ch : Chan (WsError E))
      → c.conn ≡ true
      → c.send_ch ≡ record { cap = n; items = xs }
      → writes (length xs) (c, err_ch) ≡ (
        record c { written = c.written ++ texts xs; send_ch = record { cap = n; items = [] } },
        err_ch,
      )
  unfolding writes
  writes_drain [] n c err_ch o e = ground (arith, append-nil c.written)
  writes_drain (x ∷ xs) n c err_ch o e =
      rw (write_once x xs n c err_ch o e, writes)
        (writes_drain xs n
            (record c {
              written = c.written ++ text x ∷ [];
              send_ch = record { cap = n; items = xs };
            })
            err_ch o refl
          ∙ ap (λ w. (record c { written = w; send_ch = record { cap = n; items = [] } }, err_ch))
              (append_assoc c.written (text x ∷ []) (texts xs)))

module _ {M : Type 0} where
  send_once :
      (m : M) (xs : List M) (n : ℕ) (c : WsClient M)
      → c.alive ≡ true
      → c.send_ch ≡ record { cap = n; items = xs }
      → length xs < n
      → (send {E = Unit {0}} m c).0
        ≡ record c { send_ch = record { cap = n; items = xs ++ m ∷ [] } }
  unfolding send try_send
  send_once m xs n c a e h = ground arith

  pub sends_fits :
      (ms xs : List M) (n : ℕ) (c : WsClient M)
      → c.alive ≡ true
      → c.send_ch ≡ record { cap = n; items = xs }
      → length xs + length ms ≤ n
      → sends ms c ≡ record c { send_ch = record { cap = n; items = xs ++ ms } }
  unfolding sends
  sends_fits [] xs n c a e h = ground (arith, append-nil xs)
  sends_fits (m ∷ ms) xs n c a e h = rw (send_once m xs n c a e (omega arith)) (
      sends_fits ms (xs ++ m ∷ []) n
        (record c { send_ch = record { cap = n; items = xs ++ m ∷ [] } }) a refl
        (omega (arith, length-append xs (m ∷ [])))
      ∙ ap (λ l. record c { send_ch = record { cap = n; items = l } })
          (append_assoc xs (m ∷ []) ms))

-- Messages that are sent while there is room for all of them reach the connection, each once and
-- in the order of the calls, behind those that were already waiting; the queue is then empty.
pub sends_delivered :
    {M E : Type 0} (ms : List M) (c : WsClient M) (err_ch : Chan (WsError E))
    → c.alive ≡ true
    → c.conn ≡ true
    → length c.send_ch.items + length ms ≤ c.send_ch.cap
    → let r = writes (length (c.send_ch.items ++ ms)) (sends ms c, err_ch) in
      (r.0.written ≡ c.written ++ texts (c.send_ch.items ++ ms))
      × (r.0.send_ch.items ≡ [])
      × (r.1 ≡ err_ch)
sends_delivered ms c err_ch a o h =
    let e = sends_fits ms c.send_ch.items c.send_ch.cap c a refl h in
    let q = c.send_ch.items ++ ms in
    let d =
      writes_drain q c.send_ch.cap
        (record c { send_ch = record { cap = c.send_ch.cap; items = q } }) err_ch o refl in
    rw (e, d) (refl, refl, refl)
