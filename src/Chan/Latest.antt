-- ===== src/Chan/Latest.antt =====
-- What a drop-oldest channel holds: the latest events, as many as fit, in order.
use go_polymarket_sdk.Common.{
  ℕ, zero, suc, ◌+◌, ◌-◌, ◌≤◌, ◌<◌, ◌≡◌, refl, ap, ◌∙◌, sym, List, [], ◌∷◌, ◌++◌, arith, length,
  length-append, length-drop, drop, get_last?, some, true, false, lt→ltb, le→not_ltb, replicate,
}
use native.Mathlib.Decide.{dec_lt}
use mathlib.Core.List.{append_assoc, append-nil}
use native.Mathlib.Nat.{suc-add}
use go_polymarket_sdk.Chan.{
  Chan, IsBounded, try_send, try_recv, recvs, op, ops, emit_with, emit, emits,
}

module _ {ℓ} {A : Type ℓ} where
  -- The last `n` values of a list.
  abbrev pub last_n : ℕ → List A → List A
  last_n n xs = drop (length xs - n) xs

  drop-append : (k : ℕ) (xs ys : List A) → k ≤ length xs → drop k xs ++ ys ≡ drop k (xs ++ ys)
  drop-append zero xs ys h = refl
  drop-append (suc k) [] ys h = elim h [ ]
  drop-append (suc k) (x ∷ xs) ys h = drop-append k xs ys (omega arith)

  drop-nil : (n : ℕ) → drop {A = A} n [] ≡ []
  drop-nil zero = refl
  drop-nil (suc n) = refl

  drop-drop : (j k : ℕ) (xs : List A) → drop j (drop k xs) ≡ drop (k + j) xs
  drop-drop j zero xs = ap (λ n. drop n xs) (omega arith)
  drop-drop j (suc k) [] = drop-nil j ∙ sym (drop-nil (suc k + j))
  drop-drop j (suc k) (x ∷ xs) = rw suc-add (drop-drop j k xs)

  last_n_fits : (n : ℕ) (xs : List A) → length xs ≤ n → last_n n xs ≡ xs
  last_n_fits n xs h = let e : length xs - n ≡ 0 = omega arith in rw e

  last_n_over : (n : ℕ) (x : A) (xs : List A) → length xs ≡ n → last_n n (x ∷ xs) ≡ xs
  last_n_over n x xs h = let e : suc (length xs) - n ≡ 1 = omega arith in rw e

  try_send_fits :
      (x : A) (n : ℕ) (xs : List A)
      → length xs < n
      → try_send x (record { cap = n; items = xs })
        ≡ (record { cap = n; items = xs ++ x ∷ [] }, true)
  unfolding try_send
  try_send_fits x n xs h = rw (lt→ltb (length xs) n h)

  try_send_full :
      (x : A) (n : ℕ) (xs : List A)
      → n ≤ length xs
      → try_send x (record { cap = n; items = xs }) ≡ (record { cap = n; items = xs }, false)
  unfolding try_send
  try_send_full x n xs h = rw (le→not_ltb (length xs) n h)

  emit_fits :
      (x : A) (n : ℕ) (xs : List A)
      → length xs < n
      → emit x (record { cap = n; items = xs }) ≡ (record { cap = n; items = xs ++ x ∷ [] }, false)
  unfolding emit emit_with ops
  emit_fits x n xs h = rw (try_send_fits x n xs h)

  emit_full :
      (x y : A) (n : ℕ) (ys : List A)
      → suc (length ys) ≡ n
      → emit x (record { cap = n; items = y ∷ ys })
        ≡ (record { cap = n; items = ys ++ x ∷ [] }, false)
  unfolding emit emit_with try_recv ops
  emit_full x y n ys h =
      rw (try_send_full x n (y ∷ ys) (omega arith)) (rw (try_send_fits x n ys (omega arith)))

  emit_items :
      (x : A) (n : ℕ) (xs : List A)
      → length xs ≤ n
      → 0 < n
      → emit x (record { cap = n; items = xs })
        ≡ (record { cap = n; items = last_n n (xs ++ x ∷ []) }, false)
  emit_items x n [] h p =
      emit_fits x n [] p
      ∙ ap (λ l. (record { cap = n; items = l }, false)) (sym (last_n_fits n (x ∷ []) p))
  emit_items x n (y ∷ ys) h p = elim (dec_lt (suc (length ys)) n) [
    | yes fits ↦
        emit_fits x n (y ∷ ys) fits
        ∙ ap (λ l. (record { cap = n; items = l }, false))
            (sym (last_n_fits n (y ∷ ys ++ x ∷ []) (omega (arith, length-append ys (x ∷ [])))))
    | no full ↦
        emit_full x y n ys (omega arith)
        ∙ ap (λ l. (record { cap = n; items = l }, false))
            (sym (last_n_over n y (ys ++ x ∷ []) (omega (arith, length-append ys (x ∷ [])))))
  ]

  -- With room for one value, an emission always enters its value, drops the oldest one only when
  -- the buffer is full, and never reports a full buffer.
  pub emit_lem :
      (x : A) (c : Chan A)
      → IsBounded c
      → 0 < c.cap
      → emit x c ≡ (record c { items = last_n c.cap (c.items ++ x ∷ []) }, false)
  emit_lem x c h p = emit_items x c.cap c.items h p

  pub length-last_n : (n : ℕ) (xs : List A) → length (last_n n xs) ≤ n
  length-last_n n xs = omega (arith, length-drop (length xs - n) xs)

  last_n-append : (n : ℕ) (xs ys : List A) → last_n n (last_n n xs ++ ys) ≡ last_n n (xs ++ ys)
  last_n-append n xs ys =
      rw (drop-append (length xs - n) xs ys (omega arith), drop-drop)
        (ap (λ k. drop k (xs ++ ys))
          (omega (arith, length-append xs ys, length-drop (length xs - n) (xs ++ ys))))

  -- Entering a list of events into a channel with room for at least one leaves its latest values,
  -- as many as the capacity, in order: those it held followed by the events, cut to the last ones.
  pub emits_lem :
      (xs : List A) (c : Chan A)
      → IsBounded c
      → 0 < c.cap
      → emits xs c ≡ record c { items = last_n c.cap (c.items ++ xs) }
  unfolding emits
  emits_lem [] c h p =
      ap (λ l. record c { items = l })
        (sym (ap (last_n c.cap) (append-nil c.items) ∙ last_n_fits c.cap c.items h))
  emits_lem (x ∷ xs) c h p = rw (emit_lem x c h p) (
      emits_lem xs (record c { items = last_n c.cap (c.items ++ x ∷ []) })
        (length-last_n c.cap (c.items ++ x ∷ [])) p
      ∙ ap (λ l. record c { items = l })
          (last_n-append c.cap (c.items ++ x ∷ []) xs
            ∙ ap (last_n c.cap) (append_assoc c.items (x ∷ []) xs)))

  get_last?-append : (xs : List A) (x : A) → get_last? (xs ++ x ∷ []) ≡ some x
  get_last?-append [] x = refl
  get_last?-append (y ∷ []) x = refl
  get_last?-append (y ∷ (z ∷ zs)) x = get_last?-append (z ∷ zs) x

  -- A channel of capacity `n` with at most `k` values.
  abbrev Holds : ℕ → ℕ → Chan A → Type 0
  Holds n k c = (c.cap ≡ n) × (length c.items ≤ k)

  recv_Holds :
      (n k : ℕ) (xs : List A)
      → length xs ≤ suc k
      → Holds n k (try_recv (record { cap = n; items = xs })).0
  unfolding try_recv
  recv_Holds n k [] h = (refl, omega arith)
  recv_Holds n k (x ∷ xs) h = (refl, omega arith)

  recvs_Holds :
      (m n k : ℕ) (xs : List A)
      → length xs ≤ k
      → Holds n k (ops (replicate m recvs) (record { cap = n; items = xs }))
  unfolding ops op try_recv
  recvs_Holds zero n k xs h = (refl, h)
  recvs_Holds (suc m) n k [] h = recvs_Holds m n k [] h
  recvs_Holds (suc m) n k (x ∷ xs) h = recvs_Holds m n k xs (omega arith)

  -- Where consumers alone run between the selects, as many receives as they like, the value that
  -- is emitted is always entered, as the newest one, and "full" is never logged.
  pub emit_with-enters :
      (m n : ℕ) (x : A) (c : Chan A)
      → IsBounded c
      → 0 < c.cap
      → let r = emit_with (replicate m recvs) (replicate n recvs) x c in
        (get_last? r.0.items ≡ some x) × (r.1 ≡ false)
  unfolding emit_with
  emit_with-enters m n x c h p = elim (dec_lt (length c.items) c.cap) [
    | yes fits ↦ rw (try_send_fits x c.cap c.items fits) (get_last?-append c.items x, refl)
    | no full ↦ rw (try_send_full x c.cap c.items (omega arith)) (
        let c1 = ops (replicate m recvs) c in
        let h1 = recvs_Holds m c.cap c.cap c.items h in
        let c2 = (try_recv c1).0 in
        let h2 = recv_Holds c1.cap (c.cap - 1) c1.items (omega (arith, h1.1)) in
        let c3 = ops (replicate n recvs) c2 in
        let h3 = recvs_Holds n c2.cap (c.cap - 1) c2.items h2.1 in
        rw (try_send_fits x c3.cap c3.items (omega (arith, h3.0, h3.1, h2.0, h1.0)))
          (get_last?-append c3.items x, refl))
  ]
