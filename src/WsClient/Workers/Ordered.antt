-- ===== src/WsClient/Workers/Ordered.antt =====
-- utils/websocket_client.go: the order in which the workers receive the messages that `readLoop` reads.
use go_polymarket_sdk.Common.{ℕ, ◌≡◌, sym, Option, none, some, List, [], ◌∷◌, ◌++◌}
use mathlib.Core.List.{append-nil, append_assoc, Sublist, sublist-append_left, sublist-cons_self}
use mathlib.Core.List.Sublist
use go_polymarket_sdk.Chan.{try_recv}
use go_polymarket_sdk.WsClient.Workers.{
  Reader, Pool, given_up, Step, staffs, abandons, enters, overflows, frees, retries, loses, takes,
  handles, quits, Reach, made, next,
}
use go_polymarket_sdk.WsClient.Workers.Conserved.{held, Kept, Reach-Kept, try_send-sent, received}

module _ {M : Type 0} where
  -- What the workers received, then the buffer, then what the reader holds, is in the order of arrival.
  abbrev pub Ordered : Pool M → Type 0
  Ordered p = Sublist (p.taken ++ (p.msg_ch.items ++ held p.reader)) p.arrived

  -- The list grows at its end.
  grown :
      (ts is olds : List M) (m : M)
      → Sublist (ts ++ (is ++ [])) olds
      → Sublist (ts ++ (is ++ m ∷ [])) (olds ++ m ∷ [])
  grown ts is olds m h =
      rw⁻¹ (append_assoc ts is (m ∷ []))
        (Sublist.append (rw (append-nil is) at h) (Sublist.refl (m ∷ [])))

  shrunk : (ts is js hs : List M) → Sublist is js → Sublist (ts ++ (is ++ hs)) (ts ++ (js ++ hs))
  shrunk ts is js hs h = Sublist.append (Sublist.refl ts) (Sublist.append h (Sublist.refl hs))

  received_sublist : (g : Option M) (is js : List M) → js ≡ given_up g ++ is → Sublist is js
  received_sublist none is js e = rw e (Sublist.refl is)
  received_sublist (some x) is js e = rw e (sublist-cons_self x is)

  with_reader :
      (p : Pool M) {r : Reader M} → p.reader ≡ r → Ordered p → Ordered (record p { reader = r })
  with_reader p e k = rw (sym e) k

  Step-Ordered : {p q : Pool M} → Step p q → Ordered p → Ordered q
  Step-Ordered {p} (staffs n) k = k
  Step-Ordered {p} (abandons m e) k = Sublist.trans k (sublist-append_left p.arrived (m ∷ []))
  Step-Ordered {p} (enters m e s) k =
      rw (e, try_send-sent m p.msg_ch s, append-nil (p.msg_ch.items ++ m ∷ []))
        (grown p.taken p.msg_ch.items p.arrived m (with_reader p e k))
  Step-Ordered {p} (overflows m e s) k =
      grown p.taken p.msg_ch.items p.arrived m (with_reader p e k)
  Step-Ordered {p} (frees m e) k =
      Sublist.trans
        (shrunk p.taken (try_recv p.msg_ch).0.items p.msg_ch.items (m ∷ [])
          (received_sublist (try_recv p.msg_ch).1 _ _ (received p.msg_ch.cap p.msg_ch.items)))
        (with_reader p e k)
  Step-Ordered {p} (retries m e s) k =
      rw (try_send-sent m p.msg_ch s, append-nil (p.msg_ch.items ++ m ∷ [])) (with_reader p e k)
  Step-Ordered {p} (loses m e s) k =
      Sublist.trans
        (Sublist.append (Sublist.refl p.taken)
          (Sublist.append (Sublist.refl p.msg_ch.items) (sublist-append_left [] (m ∷ []))))
        (with_reader p e k)
  Step-Ordered {p} (takes l r m ms e f) k =
      rw (append_assoc p.taken (m ∷ []) (ms ++ held p.reader)) (rw f at k)
  Step-Ordered {p} (handles l r m e) k = k
  Step-Ordered {p} (quits l r e) k = k

  Reach-Ordered : {cap : ℕ} {p : Pool M} → Reach cap p → Ordered p
  Reach-Ordered made = Sublist.refl []
  Reach-Ordered (next r s) = Step-Ordered s (Reach-Ordered r)

  -- However the reader, the workers and the sessions interleave, each message that was read is, as often as it
  -- was read, handled, in the handler, in the buffer, with the reader, or given up; and the workers receive
  -- messages in the order in which they were read.
  pub messages-Kept : {cap : ℕ} {p : Pool M} → Reach cap p → Kept p × Ordered p
  messages-Kept r = (Reach-Kept r, Reach-Ordered r)
