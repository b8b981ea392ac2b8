-- ===== src/Market/Books/Orderless.antt =====
-- polymarket/market_monitor.go: how far the order in which books arrive matters to what is stored at last.
use go_polymarket_sdk.Common.{
  ◌≡◌, refl, sym, ap, ◌∙◌, true, Option, none, some, String, List, ◌∷◌, ◌==◌, string_eq,
  if◌then◌else◌, arith, Bool-cases, inl, inr, All,
}
use mathlib.Core.Path.{ap₂}
use mathlib.Core.List.{Permᴰ}
use go_polymarket_sdk.Common.Perms.{All-perm, All-map}
use mathlib.Core.List.Permᴰ.{nil, cons, swap, trans}
use go_polymarket_sdk.Common.Int.{ℤ}
use text.Mathlib.TextEquality.{eq_iff}
use go_polymarket_sdk.Market.{OrderBook, MarketMonitor}
use go_polymarket_sdk.Market.Books.{stored}
use go_polymarket_sdk.Market.Books.Latest.{newer, updates, newest, stored-updates}

module _ {F : Type 0} where
  -- Two books of the token that carry the same time are one book.
  abbrev pub Agree : String → ℤ × OrderBook F → ℤ × OrderBook F → Type 0
  Agree token x y =
      x.1.asset_id ≡ token → y.1.asset_id ≡ token → x.1.timestamp ≡ y.1.timestamp → x.1 ≡ y.1

  abbrev pub Consistent : String → List (ℤ × OrderBook F) → Type 0
  Consistent token us = All (λ x. All (Agree token x) us) us

  newer_comm :
      (old : Option (OrderBook F)) (a b : OrderBook F)
      → (a.timestamp ≡ b.timestamp → a ≡ b)
      → newer (newer old a) b ≡ newer (newer old b) a
  newer_comm none a b h = ground arith
  newer_comm (some o) a b h = ground arith

  abbrev put : String → Option (OrderBook F) → OrderBook F → Option (OrderBook F)
  put token old book = if book.asset_id == token then newer old book else old

  put_comm :
      (token : String) (old : Option (OrderBook F)) (a b : OrderBook F)
      → (a.asset_id ≡ token → b.asset_id ≡ token → a.timestamp ≡ b.timestamp → a ≡ b)
      → put token (put token old a) b ≡ put token (put token old b) a
  put_comm token old a b h = elim (Bool-cases (a.asset_id == token)) [
    | inl e ↦ (elim (Bool-cases (b.asset_id == token)) [
      | inl e' ↦
          rw (e, e')
            (newer_comm old a b
              (h ((eq_iff a.asset_id token).0 e) ((eq_iff b.asset_id token).0 e')))
      | inr e' ↦ rw (e, e') refl
    ])
    | inr e ↦ rw e refl
  ]

  Consistent-tail :
      (token : String) (u : ℤ × OrderBook F) (us : List (ℤ × OrderBook F))
      → Consistent token (u ∷ us)
      → Consistent token us
  Consistent-tail token u us h = All-map us (λ x k. k.1) h.1

  Consistent-perm :
      (token : String) {us vs : List (ℤ × OrderBook F)}
      → Permᴰ us vs
      → Consistent token us
      → Consistent token vs
  Consistent-perm token {us} {vs} d h =
      All-perm (λ x. All (Agree token x) vs) d (All-map us (λ x k. All-perm (Agree token x) d k) h)

  -- The newest of a token's books does not depend on the order in which they come.
  pub newest-perm :
      (token : String) {us vs : List (ℤ × OrderBook F)} (old : Option (OrderBook F))
      → Permᴰ us vs
      → Consistent token us
      → newest token us old ≡ newest token vs old
  unfolding newest
  newest-perm token old nil h = refl
  newest-perm token old (cons {a = a} {b = b} {l₁ = us} {l₂ = vs} e d) h =
      newest-perm token (put token old a.1) d (Consistent-tail token a us h)
      ∙ ap (λ u. newest token vs (put token old u.1)) e
  newest-perm token old (swap {a = a} {b = b} {a' = a'} {b' = b'} {l = l} e e') h =
      ap (newest token l)
        (put_comm token old a.1 b.1 h.0.1.0 ∙ ap₂ (λ x y. put token (put token old x.1) y.1) e' e)
  newest-perm token old (trans d d') h =
      newest-perm token old d h ∙ newest-perm token old d' (Consistent-perm token d h)

  -- A monitor that stores books ends up with the same book of a token whatever the order of the updates,
  -- where books of the token that differ have different times.
  pub stored-updates-perm :
      (us vs : List (ℤ × OrderBook F)) (m : MarketMonitor F) (token : String)
      → m.is_store ≡ true
      → Permᴰ us vs
      → Consistent token us
      → stored (updates us m) token ≡ stored (updates vs m) token
  stored-updates-perm us vs m token s d h =
      stored-updates us m token s
      ∙ newest-perm token (stored m token) d h
      ∙ sym (stored-updates vs m token s)
