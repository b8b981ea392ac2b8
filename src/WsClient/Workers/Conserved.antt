-- ===== src/WsClient/Workers/Conserved.antt =====
-- utils/websocket_client.go: what becomes of the messages that `readLoop` reads.
use go_polymarket_sdk.Common.{
  ℕ, ◌≡◌, refl, sym, ap, ◌∙◌, true, Option, none, some, List, [], ◌∷◌, ◌++◌, replicate, zero, suc,
  arith,
}
use mathlib.Core.List.{Permᴰ, append-nil, append_assoc}
use mathlib.Core.List.Permᴰ
use go_polymarket_sdk.Common.Perms.{
  here, there, Adds, Adds-left, Adds-right, Adds-last, moves, grows,
}
use go_polymarket_sdk.Chan.{Chan, try_send, try_recv}
use go_polymarket_sdk.WsClient.Workers.{
  Reader, reading, full, freed, Pool, given_up, Step, staffs, abandons, enters, overflows, frees,
  retries, loses, takes, handles, quits, Reach, made, next,
}

module _ {M : Type 0} where
  abbrev pub held : Reader M → List M
  held reading = []
  held (full m) = m ∷ []
  held (freed m) = m ∷ []

  -- The messages that are in the handler.
  abbrev pub busy : List (Option M) → List M
  busy [] = []
  busy (none ∷ ws) = busy ws
  busy (some m ∷ ws) = m ∷ busy ws

  busy-append : (l r : List (Option M)) → busy (l ++ r) ≡ busy l ++ busy r
  busy-append [] r = refl
  busy-append (none ∷ l) r = busy-append l r
  busy-append (some m ∷ l) r = ap (◌∷◌ m) (busy-append l r)

  busy-replicate : (n : ℕ) → busy (replicate n none) ≡ []
  busy-replicate zero = refl
  busy-replicate (suc n) = busy-replicate n

  busy-staffed : (ws : List (Option M)) (n : ℕ) → busy (ws ++ replicate n none) ≡ busy ws
  busy-staffed ws n =
      busy-append ws (replicate n none)
      ∙ ap (◌++◌ (busy ws)) (busy-replicate n)
      ∙ append-nil (busy ws)

  pub try_send-sent :
      (m : M) (c : Chan M) → (try_send m c).1 ≡ true → (try_send m c).0.items ≡ c.items ++ m ∷ []
  unfolding try_send
  try_send-sent m c h = ground arith

  pub received :
      (n : ℕ) (xs : List M)
      → let r = try_recv (record { cap = n; items = xs }) in xs ≡ given_up r.1 ++ r.0.items
  unfolding try_recv
  received n [] = refl
  received n (x ∷ xs) = refl

  -- Where the messages are: handled, in the handler, in the buffer, with the reader, or given up.
  abbrev pub places : Pool M → List M
  places p = p.handled ++ (busy p.workers ++ (p.msg_ch.items ++ (held p.reader ++ p.dropped)))

  -- A parcel in the buffer, or behind it.
  at_buffer :
      (p : Pool M) {x : M} {xs ys : List M}
      → Adds x xs ys
      → Adds x (p.handled ++ (busy p.workers ++ xs)) (p.handled ++ (busy p.workers ++ ys))
  at_buffer p a = Adds-left p.handled (Adds-left (busy p.workers) a)

  abbrev pub Kept : Pool M → Type 0
  Kept p = Permᴰ p.arrived (places p)

  -- The oldest message leaves the buffer for those given up, past what the reader holds.
  gave_up :
      (p : Pool M) (m : M) (g : Option M) (ms : List M)
      → p.msg_ch.items ≡ given_up g ++ ms
      → Permᴰ
          (p.handled ++ (busy p.workers ++ (p.msg_ch.items ++ m ∷ p.dropped)))
          (p.handled ++ (busy p.workers ++ (ms ++ m ∷ (p.dropped ++ given_up g))))
  gave_up p m none ms e = rw (e, append-nil p.dropped) (Permᴰ.refl _)
  gave_up p m (some x) ms e =
      rw e (moves (at_buffer p here) (at_buffer p (Adds-left ms (there (Adds-last p.dropped)))))

  with_reader : (p : Pool M) {r : Reader M} → p.reader ≡ r → Kept p → Kept (record p { reader = r })
  with_reader p e k = rw (sym e) k

  with_workers :
      (p : Pool M) {ws : List (Option M)}
      → p.workers ≡ ws
      → Kept p
      → Kept (record p { workers = ws })
  with_workers p e k = rw (sym e) k

  Step-Kept : {p q : Pool M} → Step p q → Kept p → Kept q
  Step-Kept {p} (staffs n) k = rw (busy-staffed p.workers n) k
  Step-Kept {p} (abandons m e) k =
      grows k (Adds-last p.arrived)
        (at_buffer p (Adds-left p.msg_ch.items (Adds-left (held p.reader) (Adds-last p.dropped))))
  Step-Kept {p} (enters m e s) k =
      rw (try_send-sent m p.msg_ch s)
        (grows k (Adds-last p.arrived) (at_buffer p (Adds-right _ (Adds-last p.msg_ch.items))))
  Step-Kept {p} (overflows m e s) k =
      grows (with_reader p e k) (Adds-last p.arrived) (at_buffer p (Adds-left p.msg_ch.items here))
  Step-Kept {p} (frees m e) k = Permᴰ.trans (with_reader p e k) (
      gave_up p m (try_recv p.msg_ch).1 (try_recv p.msg_ch).0.items
        (received p.msg_ch.cap p.msg_ch.items))
  Step-Kept {p} (retries m e s) k =
      rw (try_send-sent m p.msg_ch s, append_assoc p.msg_ch.items (m ∷ []) p.dropped)
        (with_reader p e k)
  Step-Kept {p} (loses m e s) k = Permᴰ.trans (with_reader p e k) (
      moves (at_buffer p (Adds-left p.msg_ch.items here))
        (at_buffer p (Adds-left p.msg_ch.items (Adds-last p.dropped))))
  Step-Kept {p} (takes l r m ms e f) k = Permᴰ.trans (with_workers p e k) (
      rw (busy-append l (none ∷ r), busy-append l (some m ∷ r), f)
        (moves (Adds-left p.handled (Adds-left (busy l ++ busy r) here))
          (Adds-left p.handled (Adds-right _ (Adds-left (busy l) here)))))
  Step-Kept {p} (handles l r m e) k = Permᴰ.trans (with_workers p e k) (
      rw (busy-append l (none ∷ r), busy-append l (some m ∷ r))
        (moves (Adds-left p.handled (Adds-right _ (Adds-left (busy l) here)))
          (Adds-right _ (Adds-last p.handled))))
  Step-Kept {p} (quits l r e) k =
      rw (busy-append l r ∙ sym (busy-append l (none ∷ r))) (with_workers p e k)

  -- Each message that was read is, as often as it was read, handled, in the handler, in the buffer, with the
  -- reader, or given up.
  pub Reach-Kept : {cap : ℕ} {p : Pool M} → Reach cap p → Kept p
  Reach-Kept made = Permᴰ.nil
  Reach-Kept (next r s) = Step-Kept s (Reach-Kept r)
