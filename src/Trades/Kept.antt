-- ===== src/Trades/Kept.antt =====
-- polymarket/trade_monitor.go: which messages reach the channel.
use go_polymarket_sdk.Common.{
  ℕ, ◌≡◌, refl, ap, ◌∙◌, none, String, List, [], ◌∷◌, ◌++◌, ◌⊎◌, take, if◌then◌else◌, ◌==◌,
  string_eq, Bool-cases, inl, inr,
}
use go_polymarket_sdk.Common.Int.{ℤ}
use go_polymarket_sdk.Chan.{IsBounded, try_send}
use go_polymarket_sdk.Chan.Oldest.{try_sends, with_items, try_sends_lem}
use go_polymarket_sdk.Wire.{Gjson}
use go_polymarket_sdk.Trades.{
  TradeEvent, TradeMonitor, unknown_event, trade_of, order_from, emit_event, proc_trade, proc_order,
  handle_message, is_heartbeat_message, on_message,
}

module _ {F T O E : Type 0} (G : Gjson F) (trim : List ℕ → String) (decode_trade : List ℕ → E ⊎ T)
    (decode_order : List ℕ → E ⊎ O) where
  -- What a message that is no heartbeat is passed on as.
  abbrev pub event_for : ℤ → List ℕ → TradeEvent T O E
  event_for now msg =
      let kind = G.string (G.get (G.parse_bytes msg) "event_type") in
      if kind == "trade"
      then trade_of now msg (decode_trade msg)
      else if kind == "order"
      then order_from now msg (decode_order msg)
      else record {
        event_type = unknown_event;
        received_at = now;
        raw = msg;
        trade = none;
        order = none;
        parse_err = none;
      }

  -- Messages with the times at which they are handled, and the events of those that count.
  unfoldable pub messages : List (ℤ × List ℕ) → TradeMonitor T O E → TradeMonitor T O E
  messages [] m = m
  messages ((now, msg) ∷ ms) m = messages ms (on_message G trim decode_trade decode_order now msg m)

  abbrev pub events : List (ℤ × List ℕ) → List (TradeEvent T O E)
  events [] = []
  events ((now, msg) ∷ ms) =
      if is_heartbeat_message trim msg then events ms else event_for now msg ∷ events ms

  emit_event-event_for :
      (now : ℤ) (msg : List ℕ) (m : TradeMonitor T O E)
      → handle_message G trim decode_trade decode_order now msg m ≡ emit_event (event_for now msg) m
  unfolding handle_message proc_trade proc_order
  emit_event-event_for now msg m =
      let kind = G.string (G.get (G.parse_bytes msg) "event_type") in
      elim (Bool-cases (kind == "trade")) [
        | inl e ↦ rw e refl
        | inr e ↦ elim (Bool-cases (kind == "order")) [
          | inl f ↦ rw (e, f) refl
          | inr f ↦ rw (e, f) refl
        ]
      ]

  -- The messages that count are sent to the channel, one after the other.
  messages_send :
      (ms : List (ℤ × List ℕ)) (m : TradeMonitor T O E)
      → messages ms m ≡ record m { event_ch = try_sends (events ms) m.event_ch }
  unfolding messages on_message emit_event try_sends
  messages_send [] m = refl
  messages_send ((now, msg) ∷ ms) m = elim (Bool-cases (is_heartbeat_message trim msg)) [
    | inl e ↦ rw e (messages_send ms m)
    | inr e ↦
        rw (e, emit_event-event_for now msg m)
          (messages_send ms (record m { event_ch = (try_send (event_for now msg) m.event_ch).0 }))
  ]

  -- While nobody receives, a channel within its capacity ends up with the oldest events, as many as
  -- fit, in the order of their messages: every message but the heartbeats gives one event, and
  -- those that find no room are dropped; nothing else of the monitor changes.
  pub messages_keep_oldest :
      (ms : List (ℤ × List ℕ)) (m : TradeMonitor T O E)
      → IsBounded m.event_ch
      → messages ms m ≡ record m {
        event_ch = with_items m.event_ch (take m.event_ch.cap (m.event_ch.items ++ events ms));
      }
  messages_keep_oldest ms m h =
      messages_send ms m
      ∙ ap (λ c. record m { event_ch = c }) (try_sends_lem (events ms) m.event_ch h)
