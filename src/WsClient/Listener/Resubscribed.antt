-- ===== src/WsClient/Listener/Resubscribed.antt =====
-- utils/websocket_client.go with a handler: each connection of a run is subscribed to.
use go_polymarket_sdk.Common.{
  ℕ, zero, suc, ◌≤◌, true, false, none, some, List, [], ◌∷◌, ◌++◌, ◌≡◌, refl, ap, sym, ◌∙◌, arith,
  map, replicate, length, length-append,
}
use mathlib.Core.List.{append-nil, append_assoc}
use go_polymarket_sdk.Chan.{Chan, try_recv}
use go_polymarket_sdk.Common.Int.{ℤ, pos, negsuc}
use go_polymarket_sdk.Wire.{Json}
use go_polymarket_sdk.WsClient.{WsClient, WsError, Frame, text, new_sized, new_ws_client}
use go_polymarket_sdk.WsClient.Config.{WsConfig, with_defaults}
use go_polymarket_sdk.WsClient.Loops.{write_turns, write_turn, write_once, sends, sends_fits, texts}
use go_polymarket_sdk.WsClient.Run.{
  Callback, on_open, on_reconnect, on_close, on_error, Round, state_of, start, run,
}
use go_polymarket_sdk.WsClient.Announce.{connects, announced, connections, run-announced}
use go_polymarket_sdk.WsClient.Listener.{
  ran, run_listener, alive_ws, Listener, ListenerLaws, connected, write_out, come_up, after_call,
  hears_one, hears, Turns,
}
use go_polymarket_sdk.WsClient.Listener.Said.{times, said, said-cons, said-announced, first_fits}

module _ {M : Type 0} where
  texts-append : (xs ys : List M) → texts (xs ++ ys) ≡ texts xs ++ texts ys
  texts-append [] ys = refl
  texts-append (x ∷ xs) ys = ap (◌∷◌ (text x)) (texts-append xs ys)

  -- Everything that was sent: what is written, then what waits.
  abbrev pub all_sent : WsClient M → List (Frame M)
  all_sent c = c.written ++ texts c.send_ch.items

  -- Writing moves messages from the queue to the connection.
  record Writes (c d : WsClient M) : Type 0 where
    same_sent : all_sent d ≡ all_sent c
    same_conn : d.conn ≡ c.conn
    same_cap : d.send_ch.cap ≡ c.send_ch.cap
    no_longer : length d.send_ch.items ≤ length c.send_ch.items

  write_idle :
      {E : Type 0} (n : ℕ) (c : WsClient M) (err_ch : Chan (WsError E))
      → c.send_ch ≡ record { cap = n; items = [] }
      → write_turn {E = E} false none (c, err_ch) ≡ (c, err_ch, true)
  unfolding write_turn try_recv
  write_idle n c err_ch e = rw e refl

  write_turns-Writes :
      {E : Type 0} (k : ℕ) (n : ℕ) (xs : List M) (c : WsClient M) (err_ch : Chan (WsError E))
      → c.conn ≡ true
      → c.send_ch ≡ record { cap = n; items = xs }
      → Writes c (write_turns (replicate k none) (c, err_ch)).0
  unfolding write_turns
  write_turns-Writes zero n xs c err_ch o e = record {
    same_sent = refl;
    same_conn = refl;
    same_cap = refl;
    no_longer = omega arith;
  }
  write_turns-Writes (suc k) n [] c err_ch o e =
      rw (write_idle n c err_ch e, write_turns) (write_turns-Writes k n [] c err_ch o e)
  write_turns-Writes (suc k) n (x ∷ xs) c err_ch o e =
      let c1 = record c {
        written = c.written ++ text x ∷ [];
        send_ch = record { cap = n; items = xs };
      } in
      let w = write_turns-Writes k n xs c1 err_ch o refl in
      rw (write_once x xs n c err_ch o e, write_turns)
        (record {
          same_sent =
              w.same_sent
              ∙ append_assoc c.written (text x ∷ []) (texts xs)
              ∙ ap (λ ch. c.written ++ texts ch.items) (sym e);
          same_conn = w.same_conn;
          same_cap = w.same_cap ∙ ap (λ ch. ch.cap) (sym e);
          no_longer = omega (arith, w.no_longer, ap (λ ch. length ch.items) e);
        })

-- `k` turns of `writeLoop` in which no write fails.
abbrev pub takes : ℕ → Turns
takes k = replicate k none

sent_more :
    (ws : List (Frame Json)) (is msgs ss : List Json)
    → ws ++ texts is ≡ texts ss
    → ws ++ texts (is ++ msgs) ≡ texts (ss ++ msgs)
sent_more ws is msgs ss e =
    ap (◌++◌ ws) (texts-append is msgs)
    ∙ sym (append_assoc ws (texts is) (texts msgs))
    ∙ ap (λ fs. fs ++ texts msgs) e
    ∙ sym (texts-append ss msgs)

sized-empty :
    (cfg : WsConfig Json) (z : ℤ) (c : WsClient Json)
    → new_sized cfg true z ≡ some c
    → (c.has_handler ≡ true) × (all_sent c ≡ []) × (c.send_ch.items ≡ [])
sized-empty cfg (pos n) c e =
    let written : c.written ≡ [] = cc in
    let items : c.send_ch.items ≡ [] = cc in (cc, rw (written, items) refl, items)
sized-empty cfg (negsuc n) c e = absurd (cc)

new-empty :
    (ping : Json) (cpus : ℕ) (cfg : WsConfig Json) (c : WsClient Json)
    → new_ws_client ping cpus cfg true ≡ some c
    → (c.has_handler ≡ true) × (all_sent c ≡ []) × (c.send_ch.items ≡ [])
unfolding new_ws_client
new-empty ping cpus cfg c e = sized-empty (with_defaults ping cpus cfg) _ c e

module _ {H : Type 0} (l : Listener H) (laws : ListenerLaws l) where
  open laws use {
    messages_of, get-set, opened_sends, reconnected_sends, set_keeps, opened_keeps,
    reconnected_keeps,
  }

  -- The handler's client has sent `ss` so far, and its buffer holds `cap` messages.
  record Sent (msgs : List Json) (cap : ℕ) (ss : List Json) (h : H) : Type 0 where
    client : WsClient Json
    held : l.get_ws h ≡ some client
    sent : all_sent client ≡ texts ss
    room : client.send_ch.cap ≡ cap
    waiting : length client.send_ch.items ≤ length ss
    same : messages_of h ≡ msgs

  -- A call that sends the messages of the subscription, and the writing behind it.
  call-Sent :
      (call : H → H)
      → ((h : H) (c : WsClient Json)
          → l.get_ws h ≡ some c
          → c.alive ≡ true
          → l.get_ws (call h) ≡ some (sends (messages_of h) c))
      → ((h : H) → messages_of (call h) ≡ messages_of h)
      → (msgs : List Json) (cap k : ℕ) (ss : List Json) (h : H) → length (ss ++ msgs) ≤ cap
      → Sent msgs cap ss h
      → Sent msgs cap
          (ss ++ msgs)
          (after_call l (replicate k none) (call (l.set_ws (come_up (l.get_ws h)) h)))
  call-Sent call sends_all keeps msgs cap k ss h fits s =
      let c = s.client in
      let h0 = l.set_ws (come_up (l.get_ws h)) h in
      let e0 = get-set (come_up (l.get_ws h)) h ∙ ap come_up s.held in
      let m0 = set_keeps (come_up (l.get_ws h)) h ∙ s.same in
      let c1 = record (connected c) {
        send_ch = record { cap = c.send_ch.cap; items = c.send_ch.items ++ msgs };
      } in
      let e1 =
        sends_all h0 (connected c) e0 refl
        ∙ ap (λ ms. some (sends ms (connected c))) m0
        ∙ ap (λ d. some d)
            (sends_fits msgs c.send_ch.items c.send_ch.cap (connected c) refl refl
              (omega (arith, s.waiting, s.room, fits, length-append ss msgs))) in
      let w =
        write_turns-Writes {E = Unit {0}} k c.send_ch.cap (c.send_ch.items ++ msgs) c1
          (record { cap = 1; items = [] }) refl refl in
      record {
        client = (write_turns (replicate k none) (c1, record { cap = 1; items = [] })).0;
        held = get-set _ _ ∙ ap (write_out (replicate k none)) e1;
        sent = w.same_sent ∙ sent_more c.written c.send_ch.items msgs ss s.sent;
        room = w.same_cap ∙ s.room;
        waiting = omega (
          arith,
          w.no_longer,
          s.waiting,
          length-append c.send_ch.items msgs,
          length-append ss msgs,
        );
        same = set_keeps _ _ ∙ keeps h0 ∙ m0;
      }

  hears_one-Sent :
      {E : Type 0} (cb : Callback E) (msgs : List Json) (cap k : ℕ) (ss : List Json) (h : H)
      → length (ss ++ said msgs (cb ∷ [])) ≤ cap
      → Sent msgs cap ss h
      → Sent msgs cap (ss ++ said msgs (cb ∷ [])) (hears_one l cb (replicate k none) h)
  hears_one-Sent on_open msgs cap k ss h fits s = rw (append-nil msgs) (
      call-Sent l.opened opened_sends opened_keeps msgs cap k ss h (rw (append-nil msgs) at fits) s)
  hears_one-Sent on_reconnect msgs cap k ss h fits s = rw (append-nil msgs) (
      call-Sent l.reconnected reconnected_sends reconnected_keeps msgs cap k ss h
        (rw (append-nil msgs) at fits) s)
  hears_one-Sent on_close msgs cap k ss h fits s = rw (append-nil ss) s
  hears_one-Sent (on_error e) msgs cap k ss h fits s = rw (append-nil ss) s

  -- The rest of the calls, behind the first.
  hears-Sent :
      {E : Type 0} (cbs : List (Callback E)) (ks : List ℕ) (msgs : List Json) (size : ℕ)
      (ss : List Json) (h : H)
      → length (ss ++ said msgs cbs) ≤ size
      → Sent msgs size ss h
      → Sent msgs size (ss ++ said msgs cbs) (hears l cbs (map takes ks) h)
  unfolding hears
  hears-Sent [] ks msgs size ss h fits s = rw (append-nil ss) s
  hears-Sent (cb ∷ cbs) [] msgs size ss h fits s = rw⁻¹ (said-cons msgs ss cb cbs) (
      hears-Sent cbs [] msgs size (ss ++ said msgs (cb ∷ [])) (hears_one l cb [] h)
        (rw (sym (said-cons msgs ss cb cbs)) at fits)
        (hears_one-Sent cb msgs size 0 ss h (first_fits msgs size ss cb cbs fits) s))
  hears-Sent (cb ∷ cbs) (k ∷ ks) msgs size ss h fits s = rw⁻¹ (said-cons msgs ss cb cbs) (
      hears-Sent cbs ks msgs size (ss ++ said msgs (cb ∷ [])) (hears_one l cb (takes k) h)
        (rw (sym (said-cons msgs ss cb cbs)) at fits)
        (hears_one-Sent cb msgs size k ss h (first_fits msgs size ss cb cbs fits) s))

  -- A monitor that is not running and whose client can be made: its Run tells it of as many connections as it
  -- makes and, where the buffer has room for the messages of all of them, sends those of its subscription once
  -- for each, each time in their order: whatever the number of turns of writeLoop in between, as long as no
  -- write fails; what is not written at last waits in the queue.
  pub run_listener-resubscribes :
      {E : Type 0} (ping : Json) (cpus : ℕ) (cfg : WsConfig Json) (rs : List (Round E))
      (ks : List ℕ) (h : H) (c : WsClient Json)
      → alive_ws (l.get_ws h) ≡ false
      → new_ws_client ping cpus cfg true ≡ some c
      → length (said (messages_of h) (state_of (run rs c)).trace) ≤ c.send_ch.cap
      → let n = connections rs (start c) 0 in
        (h' : H) × (d : WsClient Json) × (run_listener l ping cpus cfg rs (map takes ks) h
          ≡ ran h' (run rs c))
        × (connects (state_of (run rs c)).trace ≡ announced n)
        × (l.get_ws h' ≡ some d)
        × (all_sent d ≡ texts (times n (messages_of h)))
  unfolding run_listener
  run_listener-resubscribes {E} ping cpus cfg rs ks h c idle made fits =
      let (handler, nothing, empty) = new-empty ping cpus cfg c made in
      let trace = (state_of (run rs c)).trace in
      let e = run-announced c rs handler in
      let h0 = l.set_ws (some c) h in
      let s = hears-Sent trace ks (messages_of h) c.send_ch.cap [] h0 fits (record {
        client = c;
        held = get-set (some c) h;
        sent = nothing;
        room = refl;
        waiting = rw empty (omega arith);
        same = set_keeps (some c) h;
      }) in
      (
        hears l trace (map takes ks) h0,
        s.client,
        rw (idle, made) refl,
        e,
        s.held,
        s.sent ∙ ap texts (said-announced (messages_of h) (connections rs (start c) 0) trace e),
      )
