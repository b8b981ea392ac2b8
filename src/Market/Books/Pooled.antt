-- ===== src/Market/Books/Pooled.antt =====
-- polymarket/market_monitor.go behind the worker pool of utils/websocket_client.go: messages are order books,
-- with the time at which each is stored, and a call of the handler is `updateOrderBook`.
use go_polymarket_sdk.Common.{◌≡◌, sym, ◌∙◌, true, String, [], ℕ}
use mathlib.Core.List.{Permᴰ, append-nil}
use go_polymarket_sdk.Common.Int.{ℤ}
use go_polymarket_sdk.Market.{OrderBook, MarketMonitor}
use go_polymarket_sdk.Market.Books.{stored}
use go_polymarket_sdk.Market.Books.Latest.{updates, newest, stored-updates}
use go_polymarket_sdk.Market.Books.Orderless.{Consistent, stored-updates-perm}
use go_polymarket_sdk.WsClient.Workers.{Pool, Reach}
use go_polymarket_sdk.WsClient.Workers.Conserved.{held, busy, Kept, Reach-Kept}

-- Every message that was read has been handled, and none was given up.
pub record IsSettled {M : Type 0} (p : Pool M) : Type 0 where
  pub idle : busy p.workers ≡ []
  pub drained : p.msg_ch.items ≡ []
  pub empty_handed : held p.reader ≡ []
  pub complete : p.dropped ≡ []

settled-perm : {M : Type 0} (p : Pool M) → IsSettled p → Kept p → Permᴰ p.arrived p.handled
settled-perm p s k = rw (s.idle, s.drained, s.empty_handed, s.complete, append-nil p.handled) at k

-- Whatever the workers' schedule, once every book that was read has been handled and none was given up, and
-- where the calls of the handler ran one after the other, the stored book of a token is the newest that was
-- read or stored before, as if the books had been handled in the order in which they were read: books of the
-- token that differ have different times.
pub settled-stored :
    {F : Type 0} {cap : ℕ} (p : Pool (ℤ × OrderBook F)) (m : MarketMonitor F) (token : String)
    → Reach cap p
    → IsSettled p
    → m.is_store ≡ true
    → Consistent token p.arrived
    → (stored (updates p.handled m) token ≡ stored (updates p.arrived m) token)
      × (stored (updates p.handled m) token ≡ newest token p.arrived (stored m token))
settled-stored p m token r s is_store h =
    let same = sym (
      stored-updates-perm p.arrived p.handled m token is_store (settled-perm p s (Reach-Kept r))
        h) in
    (same, same ∙ stored-updates p.arrived m token is_store)
