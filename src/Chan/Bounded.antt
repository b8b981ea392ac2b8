-- ===== src/Chan/Bounded.antt =====
-- No select idiom lets a buffer grow past its capacity, whatever runs in between.
use go_polymarket_sdk.Common.{ℕ, ◌≤◌, List, [], ◌∷◌, arith, length, length-append}
use go_polymarket_sdk.Chan.{
  Chan, IsBounded, try_send, try_recv, Op, sends, recvs, op, ops, emit_with, emit,
}

module _ {ℓ} {A : Type ℓ} where
  pub try_send-IsBounded : (x : A) (c : Chan A) → IsBounded c → IsBounded (try_send x c).0
  unfolding try_send
  try_send-IsBounded x c h = ground (arith, length-append c.items (x ∷ []))

  recv_items :
      (n : ℕ) (xs : List A)
      → length xs ≤ n
      → IsBounded (try_recv (record { cap = n; items = xs })).0
  unfolding try_recv
  recv_items n [] h = h
  recv_items n (x ∷ xs) h = omega arith

  pub try_recv-IsBounded : (c : Chan A) → IsBounded c → IsBounded (try_recv c).0
  try_recv-IsBounded c h = recv_items c.cap c.items h

  op-IsBounded : (o : Op A) (c : Chan A) → IsBounded c → IsBounded (op o c)
  unfolding op
  op-IsBounded (sends x) c h = try_send-IsBounded x c h
  op-IsBounded recvs c h = try_recv-IsBounded c h

  pub ops-IsBounded : (os : List (Op A)) (c : Chan A) → IsBounded c → IsBounded (ops os c)
  unfolding ops
  ops-IsBounded [] c h = h
  ops-IsBounded (o ∷ os) c h = ops-IsBounded os (op o c) (op-IsBounded o c h)

  -- Whatever other goroutines send and receive between the selects of an emission, the buffer
  -- stays within its capacity.
  pub emit_with-IsBounded :
      (first second : List (Op A)) (x : A) (c : Chan A)
      → IsBounded c
      → IsBounded (emit_with first second x c).0
  unfolding emit_with
  emit_with-IsBounded first second x c h = ground (
    arith,
    try_send-IsBounded x c h,
    ops-IsBounded first (try_send x c).0,
    try_recv-IsBounded (ops first (try_send x c).0),
    ops-IsBounded second (try_recv (ops first (try_send x c).0)).0,
    try_send-IsBounded x (ops second (try_recv (ops first (try_send x c).0)).0),
  )

  pub emit-IsBounded : (x : A) (c : Chan A) → IsBounded c → IsBounded (emit x c).0
  unfolding emit
  emit-IsBounded x c h = emit_with-IsBounded [] [] x c h
