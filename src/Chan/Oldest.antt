-- ===== src/Chan/Oldest.antt =====
-- A channel into which values are sent by a `select` with a default, while nobody receives.
use go_polymarket_sdk.Common.{
  ℕ, zero, suc, ◌≤◌, ◌<◌, ◌≡◌, refl, sym, ap, ◌∙◌, List, [], ◌∷◌, ◌++◌, length, take, arith, lt→ltb,
  le→not_ltb, length-append, take-length-append,
}
use native.Mathlib.Decide.{dec_lt}
use mathlib.Core.List.{append_assoc, append-nil}
use go_polymarket_sdk.Chan.{Chan, IsBounded, try_send}

take_fits {ℓ} : {A : Type ℓ} (xs : List A) (n : ℕ) → length xs ≤ n → take n xs ≡ xs
take_fits [] zero h = refl
take_fits [] (suc n) h = refl
take_fits (x ∷ xs) zero h = absurd (omega arith)
take_fits (x ∷ xs) (suc n) h = ap (◌∷◌ x) (take_fits xs n (omega arith))

take_full {ℓ} : {A : Type ℓ} (xs ys : List A) (n : ℕ) → length xs ≡ n → take n (xs ++ ys) ≡ xs
take_full xs ys n h = ap (λ k. take k (xs ++ ys)) (sym h) ∙ take-length-append xs ys

module _ {ℓ} {A : Type ℓ} where
  unfoldable pub try_sends : List A → Chan A → Chan A
  try_sends [] c = c
  try_sends (x ∷ xs) c = try_sends xs (try_send x c).0

  -- The channel with these values in it.
  abbrev pub with_items : Chan A → List A → Chan A
  with_items c xs = record c { items = xs }

  send_fits :
      (x : A) (c : Chan A)
      → length c.items < c.cap
      → (try_send x c).0 ≡ with_items c (c.items ++ x ∷ [])
  unfolding try_send
  send_fits x c h = rw (lt→ltb (length c.items) c.cap h) refl

  send_full : (x : A) (c : Chan A) → c.cap ≤ length c.items → (try_send x c).0 ≡ c
  unfolding try_send
  send_full x c h = rw (le→not_ltb (length c.items) c.cap h) refl

  -- A channel within its capacity keeps the oldest values, as many as fit.
  pub try_sends_lem :
      (xs : List A) (c : Chan A)
      → IsBounded c
      → try_sends xs c ≡ with_items c (take c.cap (c.items ++ xs))
  unfolding try_sends
  try_sends_lem [] c h =
      ap (with_items c) (sym (ap (take c.cap) (append-nil c.items) ∙ take_fits c.items c.cap h))
  try_sends_lem (x ∷ xs) c h = elim (dec_lt (length c.items) c.cap) [
    | yes fits ↦ rw (send_fits x c fits) (
        try_sends_lem xs (with_items c (c.items ++ x ∷ []))
          (omega (arith, length-append c.items (x ∷ [])))
        ∙ ap (λ l. with_items c (take c.cap l)) (append_assoc c.items (x ∷ []) xs))
    | no full ↦ rw (send_full x c (omega arith)) (
        try_sends_lem xs c h
        ∙ ap (with_items c) (
            take_full c.items xs c.cap (omega arith)
            ∙ sym (take_full c.items (x ∷ xs) c.cap (omega arith))))
  ]
