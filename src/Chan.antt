-- ===== src/Chan.antt =====
-- Go's buffered channel and the non-blocking `select`s that the SDK does on it:
-- polymarket/market_monitor.go (emit*), polymarket/trade_monitor.go, utils/websocket_client.go.
-- A list holds the buffered values, the oldest first.
pub mod Bounded
pub mod Latest
pub mod Oldest
use go_polymarket_sdk.Common.{
  ℕ, ◌≤◌, Bool, true, false, Option, none, some, List, [], ◌∷◌, ◌++◌, length, ltb, if◌then◌else◌,
}

pub record Chan {ℓ} (A : Type ℓ) : Type ℓ where
  pub cap : ℕ
  pub items : List A

-- What other goroutines may do to a channel between two selects.
pub data Op {ℓ} (A : Type ℓ) : Type ℓ where
  sends : A → Op A
  recvs : Op A

module _ {ℓ} {A : Type ℓ} where
  -- `make(chan A, n)`
  abbrev pub make : ℕ → Chan A
  make n = record { cap = n; items = [] }

  abbrev pub IsBounded : Chan A → Type 0
  IsBounded c = length c.items ≤ c.cap

  -- `select { case c <- x: default: }`; the Boolean tells which case was taken.
  unfoldable pub try_send : A → Chan A → Chan A × Bool
  try_send x c =
      if ltb (length c.items) c.cap
      then (record c { items = c.items ++ x ∷ [] }, true)
      else (c, false)

  abbrev recv_from : Chan A → List A → Chan A × Option A
  recv_from c [] = (c, none)
  recv_from c (x ∷ xs) = (record c { items = xs }, some x)

  -- `select { case x := <-c: default: }`
  unfoldable pub try_recv : Chan A → Chan A × Option A
  try_recv c = recv_from c c.items

  unfoldable pub op : Op A → Chan A → Chan A
  op (sends x) c = (try_send x c).0
  op recvs c = (try_recv c).0

  unfoldable pub ops : List (Op A) → Chan A → Chan A
  ops [] c = c
  ops (o ∷ os) c = ops os (op o c)

  -- The three selects of `emitOrderBook`: send; if the buffer is full, drop the oldest value and
  -- send again. `first` and `second` run between them. The Boolean is true if "full" is logged.
  unfoldable pub emit_with : List (Op A) → List (Op A) → A → Chan A → Chan A × Bool
  emit_with first second x c =
      let (c1, sent) = try_send x c in
      if sent
      then (c1, false)
      else let c2 = (try_recv (ops first c1)).0 in
        let (c3, again) = try_send x (ops second c2) in if again then (c3, false) else (c3, true)

  -- The same where no other goroutine runs in between.
  unfoldable pub emit : A → Chan A → Chan A × Bool
  emit x c = emit_with [] [] x c

  unfoldable pub emits : List A → Chan A → Chan A
  emits [] c = c
  emits (x ∷ xs) c = emits xs (emit x c).0
