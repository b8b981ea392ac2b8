-- ===== src/Market/Tokens/Messages.antt =====
-- polymarket/market_monitor.go: what an operation on the tokens asks of the server, and what it
-- leaves of the order books.
use go_polymarket_sdk.Common.{
  ◌<◌, ◌≡◌, refl, ◌∙◌, ap, Bool, true, false, ◌||◌, Option, none, some, String, List, [], ◌∷◌, ◌++◌,
  string_eq, contains, length, if◌then◌else◌, arith, ◌==◌, Bool-cases, inl, inr,
}
use go_polymarket_sdk.Common.Maps.{Map, delete, delete_all}
use go_polymarket_sdk.Chan.{try_send}
use go_polymarket_sdk.Wire.{Json}
use go_polymarket_sdk.WsClient.{WsClient, send, reset, is_alive}
use go_polymarket_sdk.Market.{MarketMonitor, BookStore}
use go_polymarket_sdk.Market.Tokens.{
  without, is_empty, marshal, dynamic_sub, send_if_alive, subscribe_market, unsubscribe_tokens,
  reset_monitor, reset_ws, on_reconnect,
}

-- The waiting messages of a client with one more.
abbrev pub queued : WsClient Json → Json → WsClient Json
queued w msg = record w { send_ch = record (w.send_ch) { items = w.send_ch.items ++ msg ∷ [] } }

-- The messages that wait to be written.
abbrev pub waiting : Option (WsClient Json) → List Json
waiting none = []
waiting (some w) = w.send_ch.items

send_to_lem :
    (msg : Json) (w : WsClient Json)
    → w.alive ≡ true
    → length w.send_ch.items < w.send_ch.cap
    → send_if_alive msg (some w) ≡ some (queued w msg)
unfolding send try_send is_alive
send_to_lem msg w a h = ground arith

waiting-reset_ws : (b : Bool) (ws : Option (WsClient Json)) → waiting (reset_ws b ws) ≡ waiting ws
unfolding reset
waiting-reset_ws b none = refl
waiting-reset_ws true (some w) = refl
waiting-reset_ws false (some w) = refl

module _ {F : Type 0} where
  -- While the client is alive and has room, subscribing asks the server for the whole list as it
  -- is after the call, and so does a reconnection, which changes no token.
  pub subscribe_market_sends :
      (tokens : List String) (m : MarketMonitor F) (w : WsClient Json)
      → m.ws ≡ some w
      → w.alive ≡ true
      → length w.send_ch.items < w.send_ch.cap
      → is_empty (subscribe_market tokens m).subs_tokens ≡ false
      → let m' = subscribe_market tokens m in
        (m'.ws
          ≡ some (
              queued w (
                marshal (record {
                  assets_ids = m'.subs_tokens;
                  operation = dynamic_sub;
                  custom_feature_enabled = some m.custom_feature_enabled;
                }))))
        × ((on_reconnect m).subs_tokens ≡ m.subs_tokens)
  unfolding subscribe_market on_reconnect
  subscribe_market_sends tokens m w e a h k = (rw (k, e) (send_to_lem _ w a h), refl)

  -- The bug: `Reset` empties the list before it unsubscribes, and so nothing is ever sent: the
  -- server goes on sending events of the dropped tokens.
  pub reset_monitor_silent :
      (b : Bool) (m : MarketMonitor F) → waiting (reset_monitor b m).ws ≡ waiting m.ws
  unfolding reset_monitor unsubscribe_tokens without reset
  reset_monitor_silent b m = elim (Bool-cases (is_empty m.subs_tokens)) [
    | inl e ↦ rw e (waiting-reset_ws b m.ws)
    | inr e ↦ rw e (waiting-reset_ws b m.ws)
  ]

  -- The same happens where a call of `UnsubscribeTokens` names every token that is left.
  pub unsubscribe_last_silent :
      (tokens : List String) (m : MarketMonitor F)
      → (unsubscribe_tokens tokens m).subs_tokens ≡ []
      → (unsubscribe_tokens tokens m).ws ≡ m.ws
  unfolding unsubscribe_tokens
  unsubscribe_last_silent [] m h = refl
  unsubscribe_last_silent (t ∷ ts) m h = rw h refl

  delete_all_lem :
      (ks : List String) (books : Map String (BookStore F)) (t : String)
      → delete_all ks books t ≡ (if contains ks t then none else books t)
  delete_all_lem [] books t = refl
  delete_all_lem (k ∷ ks) books t =
      delete_all_lem ks (delete k books) t ∙ go (k == t) (contains ks t)
    where
      go :
          (a b : Bool)
          → (if b then none else if a then none else books t) ≡ (if a || b then none else books t)
      go true true = refl
      go true false = refl
      go false true = refl
      go false false = refl

  if_again :
      (c : Bool) (o : Option (BookStore F))
      → (if c then none else if c then none else o) ≡ (if c then none else o)
  if_again true o = refl
  if_again false o = refl

  delete_again :
      (s : Bool) (ks : List String) (books : Map String (BookStore F)) (t : String)
      → (if s then delete_all ks (delete_all ks books) else delete_all ks books) t
        ≡ (if contains ks t then none else books t)
  delete_again false ks books t = delete_all_lem ks books t
  delete_again true ks books t =
      delete_all_lem ks (delete_all ks books) t
      ∙ ap (λ o. if contains ks t then none else o) (delete_all_lem ks books t)
      ∙ if_again (contains ks t) (books t)

  -- `Reset` drops the books of the tokens that were subscribed to, and no other.
  pub order_books-reset_monitor :
      (b : Bool) (m : MarketMonitor F) (t : String)
      → (reset_monitor b m).order_books t
        ≡ (if contains m.subs_tokens t then none else m.order_books t)
  unfolding reset_monitor unsubscribe_tokens without
  order_books-reset_monitor b m t = elim (Bool-cases (is_empty m.subs_tokens)) [
    | inl e ↦ rw e (delete_all_lem m.subs_tokens m.order_books t)
    | inr e ↦ rw e (delete_again m.is_store m.subs_tokens m.order_books t)
  ]
