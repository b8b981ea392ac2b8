-- ===== src/Market/Books/Race.antt =====
-- polymarket/market_monitor.go: `updateOrderBook` as its workers run it. `messageLoop` calls the
-- handler from several goroutines, and `Load`, the comparison and `Store` are separate steps.
use go_polymarket_sdk.Common.{
  ◌≡◌, Bool, true, false, Option, some, List, [], ◌∷◌, if◌then◌else◌, arith,
}
use go_polymarket_sdk.Common.Int.{ℤ, ◌<ℤ◌}
use go_polymarket_sdk.Market.{OrderBook, BookStore}
use go_polymarket_sdk.Market.Books.{is_stale, load, store}

-- A worker has its book, then also what it loaded, then is done.
pub data Worker (F : Type 0) : Type 0 where
  holding : OrderBook F → Worker F
  compared : OrderBook F → Option (OrderBook F) → Worker F
  done : Worker F

-- Two workers with books of one token, and the token's store.
pub record Racing (F : Type 0) : Type 0 where
  pub cell : BookStore F
  pub left : Worker F
  pub right : Worker F

module _ {F : Type 0} where
  abbrev advance : ℤ → Worker F → BookStore F → Worker F × BookStore F
  advance now (holding book) bs = (compared book (load bs), bs)
  advance now (compared book old) bs = (done, if is_stale book old then bs else store now book bs)
  advance now done bs = (done, bs)

  -- One step of the left worker (`true`) or of the right one.
  unfoldable pub step : ℤ → Bool → Racing F → Racing F
  step now true r = let (w, bs) = advance now r.left r.cell in record r { cell = bs; left = w }
  step now false r = let (w, bs) = advance now r.right r.cell in record r { cell = bs; right = w }

  unfoldable pub schedule : List (ℤ × Bool) → Racing F → Racing F
  schedule [] r = r
  schedule ((now, who) ∷ ss) r = schedule ss (step now who r)

  abbrev pub racing : BookStore F → OrderBook F → OrderBook F → Racing F
  racing bs a b = record { cell = bs; left = holding a; right = holding b }

  -- Where each worker runs undisturbed, in either order, the newer book ends up in the store.
  pub schedule_atomic :
      (s t u v : ℤ) (bs : BookStore F) (a b : OrderBook F)
      → a.timestamp <ℤ b.timestamp
      → is_stale b bs.v ≡ false
      → ((schedule ((s, true) ∷ (t, true) ∷ (u, false) ∷ (v, false) ∷ []) (racing bs a b)).cell.v
          ≡ some b)
        × ((schedule ((s, false) ∷ (t, false) ∷ (u, true) ∷ (v, true) ∷ []) (racing bs a b)).cell.v
            ≡ some b)
  unfolding schedule step load store
  schedule_atomic s t u v bs a b h k = ground arith

  -- The bug: if the worker with the older book loads the store before the newer book is stored, and
  -- stores after it, the older book overwrites the newer one, although each worker compared times.
  pub schedule_rolls_back :
      (s t u v : ℤ) (bs : BookStore F) (a b : OrderBook F)
      → a.timestamp <ℤ b.timestamp
      → is_stale a bs.v ≡ false
      → is_stale b bs.v ≡ false
      → let r = schedule ((s, true) ∷ (t, false) ∷ (u, false) ∷ []) (racing bs a b) in
        (r.cell.v ≡ some b) × ((step v true r).cell.v ≡ some a)
  unfolding schedule step load store
  schedule_rolls_back s t u v bs a b h k l = ground arith
