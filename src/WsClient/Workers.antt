-- ===== src/WsClient/Workers.antt =====
-- utils/websocket_client.go: the message buffer between `readLoop` and the goroutines of `messageLoop`, one
-- select or one call of the handler at a time. A goroutine of an earlier session may still be in the handler
-- when the next session starts its own. One reader runs at a time.
pub mod Conserved
pub mod Ordered
use go_polymarket_sdk.Common.{
  ℕ, ◌≡◌, true, false, Option, none, some, List, [], ◌∷◌, ◌++◌, replicate,
}
use go_polymarket_sdk.Chan.{Chan, try_send, try_recv}

-- `readLoop` reads, found the buffer full, or has also given up the oldest message.
pub data Reader (M : Type 0) : Type 0 where
  reading : Reader M
  full : M → Reader M
  freed : M → Reader M

pub record Pool (M : Type 0) : Type 0 where
  pub msg_ch : Chan M
  pub reader : Reader M
  -- The goroutines of `messageLoop`: each waits, or is in the handler with a message.
  pub workers : List (Option M)
  -- What was read, what the workers received, the calls of the handler that returned, and what was given
  -- up, the first first.
  pub arrived : List M
  pub taken : List M
  pub handled : List M
  pub dropped : List M

module _ {M : Type 0} where
  abbrev pub given_up : Option M → List M
  given_up none = []
  given_up (some m) = m ∷ []

  abbrev pub new_pool : ℕ → Pool M
  new_pool cap = record {
    msg_ch = record { cap = cap; items = [] };
    reader = reading;
    workers = [];
    arrived = [];
    taken = [];
    handled = [];
    dropped = [];
  }

  pub data Step (p : Pool M) : Pool M → Type 0 where
    -- A session starts its worker pool.
    staffs : (n : ℕ) → Step p (record p { workers = p.workers ++ replicate n none })
    -- `readLoop`: `case <-ctx.Done()`, `case c.msgCh <- msg`, `default`.
    abandons :
        (m : M)
        → p.reader ≡ reading
        → Step p (record p { arrived = p.arrived ++ m ∷ []; dropped = p.dropped ++ m ∷ [] })
    enters :
        (m : M)
        → p.reader ≡ reading
        → (try_send m p.msg_ch).1 ≡ true
        → Step p (record p { arrived = p.arrived ++ m ∷ []; msg_ch = (try_send m p.msg_ch).0 })
    overflows :
        (m : M)
        → p.reader ≡ reading
        → (try_send m p.msg_ch).1 ≡ false
        → Step p (record p { arrived = p.arrived ++ m ∷ []; reader = full m })
    -- `select { case <-c.msgCh: default: }`
    frees :
        (m : M)
        → p.reader ≡ full m
        → Step p (record p {
          reader = freed m;
          msg_ch = (try_recv p.msg_ch).0;
          dropped = p.dropped ++ given_up (try_recv p.msg_ch).1;
        })
    -- `select { case c.msgCh <- msg: default: }`
    retries :
        (m : M)
        → p.reader ≡ freed m
        → (try_send m p.msg_ch).1 ≡ true
        → Step p (record p { reader = reading; msg_ch = (try_send m p.msg_ch).0 })
    loses :
        (m : M)
        → p.reader ≡ freed m
        → (try_send m p.msg_ch).1 ≡ false
        → Step p (record p { reader = reading; dropped = p.dropped ++ m ∷ [] })
    -- `messageLoop`: `case msg := <-c.msgCh`, the end of `callOnMessage`, and `case <-ctx.Done()`.
    takes :
        (l r : List (Option M)) (m : M) (ms : List M)
        → p.workers ≡ l ++ none ∷ r
        → p.msg_ch.items ≡ m ∷ ms
        → Step p (record p {
          workers = l ++ some m ∷ r;
          msg_ch = record (p.msg_ch) { items = ms };
          taken = p.taken ++ m ∷ [];
        })
    handles :
        (l r : List (Option M)) (m : M)
        → p.workers ≡ l ++ some m ∷ r
        → Step p (record p { workers = l ++ none ∷ r; handled = p.handled ++ m ∷ [] })
    quits :
        (l r : List (Option M)) → p.workers ≡ l ++ none ∷ r → Step p (record p { workers = l ++ r })

  pub data Reach (cap : ℕ) : Pool M → Type 0 where
    made : Reach cap (new_pool cap)
    next : {p q : Pool M} → Reach cap p → Step p q → Reach cap q
