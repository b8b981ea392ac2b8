-- ===== src/Orders/MarketPrice/Depth.antt =====
-- orders/order_helper.go: the market price against the depth of the book.
use go_polymarket_sdk.Common.{
  ◌≡◌, refl, sym, ap, ◌⊎◌, inl, inr, true, false, none, some, List, [], ◌∷◌, ◌++◌, arith,
  Bool-cases, Option-cases, All,
}
use mathlib.Core.List.{reverse}
use go_polymarket_sdk.Decimals.{Float64}
use go_polymarket_sdk.Market.{Book}
use go_polymarket_sdk.Orders.{MarketOrderType, market_fok, market_fak}
use go_polymarket_sdk.Orders.MarketPrice.{
  Result, ok, err, no_match, scan, cost, shares, matched, unmatched, calculate_buy_market_price,
  calculate_sell_market_price,
}

module _ {F : Type 0} (fl : Float64 F) where
  open fl use {zero, add, mul, leb}

  -- The value of levels, added up in order.
  unfoldable pub depth : (Book F → F) → F → List (Book F) → F
  depth value sum [] = sum
  depth value sum (p ∷ ps) = depth value (add sum (value p)) ps

  -- No level of `ps` brings the depth to `amount`.
  abbrev pub FallsShort : (Book F → F) → F → F → List (Book F) → Type 0
  FallsShort value amount sum [] = Unit {0}
  FallsShort value amount sum (p ∷ ps) =
      (leb amount (add sum (value p)) ≡ false) × FallsShort value amount (add sum (value p)) ps

  -- `b` is the first level of `levels` with which the depth reaches `amount`.
  pub record Reaches (value : Book F → F) (amount sum : F) (levels : List (Book F)) (b : Book F)
      : Type 0 where
    pub before : List (Book F)
    pub after : List (Book F)
    pub split : levels ≡ before ++ b ∷ after
    pub short : FallsShort value amount sum before
    pub enough : leb amount (depth value sum (before ++ b ∷ [])) ≡ true

  scan-Reaches :
      (value : Book F → F) (amount sum : F) (ps : List (Book F)) (x : F)
      → scan fl value amount sum ps ≡ some x
      → (b : Book F) × (x ≡ b.price) × Reaches value amount sum ps b
  unfolding scan depth
  scan-Reaches value amount sum [] x h = absurd (cc)
  scan-Reaches value amount sum (p ∷ ps) x h = elim (Bool-cases (leb amount (add sum (value p)))) [
    | inl e ↦
        (p, ground arith, record { before = []; after = ps; split = refl; short = tt; enough = e })
    | inr e ↦
        let (b, q, r) = scan-Reaches value amount (add sum (value p)) ps x (ground arith) in
        (
          b,
          q,
          record {
            before = p ∷ r.before;
            after = r.after;
            split = ap (◌∷◌ p) r.split;
            short = (e, r.short);
            enough = r.enough;
          },
        )
  ]

  scan_short :
      (value : Book F → F) (amount sum : F) (ps : List (Book F))
      → scan fl value amount sum ps ≡ none
      → FallsShort value amount sum ps
  unfolding scan
  scan_short value amount sum [] h = tt
  scan_short value amount sum (p ∷ ps) h = elim (Bool-cases (leb amount (add sum (value p)))) [
    | inl e ↦ absurd (ground arith)
    | inr e ↦ (e, scan_short value amount (add sum (value p)) ps (ground arith))
  ]

  -- Where the levels fall short: "no match" for an empty book and for FOK, and else the first level's price.
  abbrev pub IsShortPrice : List (Book F) → MarketOrderType → Result F → Type 0
  IsShortPrice books t r =
      ((books ≡ []) × (r ≡ err no_match))
      ⊎ (((t ≡ market_fok) × (r ≡ err no_match))
          ⊎ ((b : Book F) × (bs : List (Book F)) × (books ≡ b ∷ bs)
              × (t ≡ market_fak)
              × (r ≡ ok b.price)))

  unmatched-IsShortPrice :
      (books : List (Book F)) (t : MarketOrderType) → IsShortPrice books t (unmatched fl books t)
  unmatched-IsShortPrice [] t = inl (refl, refl)
  unmatched-IsShortPrice (b ∷ bs) market_fok = inr (inl (refl, refl))
  unmatched-IsShortPrice (b ∷ bs) market_fak = inr (inr (b, bs, refl, refl, refl))

  -- What the price of a market order is to be, for levels that are taken from the end of `books`.
  abbrev pub IsMarketPrice : (Book F → F) → F → List (Book F) → MarketOrderType → Result F → Type 0
  IsMarketPrice value amount books t r =
      ((b : Book F) × Reaches value amount zero (reverse books) b × (r ≡ ok b.price))
      ⊎ (FallsShort value amount zero (reverse books) × IsShortPrice books t r)

  matched-IsMarketPrice :
      (value : Book F → F) (amount : F) (books : List (Book F)) (t : MarketOrderType)
      → IsMarketPrice value amount books t
          (matched fl (scan fl value amount zero (reverse books)) books t)
  matched-IsMarketPrice value amount books t =
      elim (Option-cases (scan fl value amount zero (reverse books))) [
        | inl e ↦
            rw e
              (inr (scan_short value amount zero (reverse books) e, unmatched-IsShortPrice books t))
        | inr (x, e) ↦
            let (b, q, r) = scan-Reaches value amount zero (reverse books) x e in
            rw e (inl (b, r, ap ok q))
      ]

  -- A buy order is priced at the first ask, read from the end of the list, with which the cost added up so far
  -- reaches the amount; where all asks together fall short, FOK and an empty book give the error "no match" and
  -- FAK the price of the list's first ask.
  pub calculate_buy_market_price_lem :
      (books : List (Book F)) (amount : F) (t : MarketOrderType)
      → IsMarketPrice
          (λ b. mul b.size b.price)
          amount
          books
          t
          (calculate_buy_market_price fl books amount t)
  unfolding calculate_buy_market_price
  calculate_buy_market_price_lem books amount t = matched-IsMarketPrice (cost fl) amount books t

  -- The same of a sell order, by the shares of the bids.
  pub calculate_sell_market_price_lem :
      (books : List (Book F)) (amount : F) (t : MarketOrderType)
      → IsMarketPrice (λ b. b.size) amount books t (calculate_sell_market_price fl books amount t)
  unfolding calculate_sell_market_price
  calculate_sell_market_price_lem books amount t = matched-IsMarketPrice (shares fl) amount books t

  -- Each price stands in `R` to every later one.
  abbrev pub Ordered : (F → F → Type 0) → List (Book F) → Type 0
  Ordered R [] = Unit {0}
  Ordered R (p ∷ ps) = All (λ (q : Book F). R p.price q.price) ps × Ordered R ps

  All_split :
      (P : Book F → Type 0) (xs ys : List (Book F)) (b : Book F) → All P (xs ++ b ∷ ys) → P b
  All_split P [] ys b h = h.0
  All_split P (x ∷ xs) ys b h = All_split P xs ys b h.1

  Ordered-before :
      (R : F → F → Type 0) (xs ys : List (Book F)) (b : Book F)
      → Ordered R (xs ++ b ∷ ys)
      → All (λ (q : Book F). R q.price b.price) xs
  Ordered-before R [] ys b h = tt
  Ordered-before R (x ∷ xs) ys b h =
      (All_split (λ (q : Book F). R x.price q.price) xs ys b h.0, Ordered-before R xs ys b h.1)

  -- On a book whose asks are in order, a FOK buy order that gets a price has enough depth at that
  -- price: the asks up to one of exactly this price cost the amount, and none of those taken
  -- before it is priced beyond it.
  pub calculate_buy_market_price_covers :
      (R : F → F → Type 0) (books : List (Book F)) (amount x : F)
      → Ordered R (reverse books)
      → calculate_buy_market_price fl books amount market_fok ≡ ok x
      → (b : Book F) × (r : Reaches (cost fl) amount zero (reverse books) b) × (x ≡ b.price)
        × All (λ (q : Book F). R q.price x) r.before
  calculate_buy_market_price_covers R books amount x o h =
      elim (calculate_buy_market_price_lem books amount market_fok) [
        | inl (b, r, e) ↦
            let q : b.price ≡ x = ground arith in
            (b, r, sym q, rw (← q) (Ordered-before R r.before r.after b (rw r.split at o)))
        | inr (s, e) ↦ absurd (no_fok e)
      ]
    where
      no_fok :
          IsShortPrice books market_fok (calculate_buy_market_price fl books amount market_fok) → ⊥
      no_fok (inl (n, e)) = cc
      no_fok (inr (inl (n, e))) = cc
      no_fok (inr (inr (b, bs, n, f, e))) = cc
