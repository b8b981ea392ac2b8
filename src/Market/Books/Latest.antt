-- ===== src/Market/Books/Latest.antt =====
-- polymarket/market_monitor.go: what the store of order books holds after any run of updates.
use go_polymarket_sdk.Common.{
  ◌≡◌, refl, ◌∙◌, ap, true, false, Option, none, some, String, List, [], ◌∷◌, ◌==◌, string_eq,
  if◌then◌else◌, arith, ◌↔◌, get_last?, if_both,
}
use go_polymarket_sdk.Common.Int.{ℤ, ◌≤ℤ◌, ltb_ℤ}
use text.Mathlib.TextEquality.{eq_iff}
use go_polymarket_sdk.Market.{OrderBook, MarketMonitor}
use go_polymarket_sdk.Market.Books.{
  ok, update_order_book, get_token_order_book, get_token_price, stored,
}

module _ {F : Type 0} where
  -- The newer of what is stored and what arrives; on equal times, what arrives.
  abbrev pub newer : Option (OrderBook F) → OrderBook F → Option (OrderBook F)
  newer none book = some book
  newer (some old) book = if ltb_ℤ book.timestamp old.timestamp then some old else some book

  pub stored-update_order_book :
      (now : ℤ) (book : OrderBook F) (m : MarketMonitor F) (token : String)
      → m.is_store ≡ true
      → stored (update_order_book now book m) token
        ≡ (if book.asset_id == token then newer (stored m token) book else stored m token)
  unfolding update_order_book
  stored-update_order_book now book m token h = ground (arith, eq_iff book.asset_id token)

  is_store-update_order_book :
      (now : ℤ) (book : OrderBook F) (m : MarketMonitor F)
      → (update_order_book now book m).is_store ≡ m.is_store
  unfolding update_order_book
  is_store-update_order_book now book m = ground arith

  -- Updates as the workers make them, each with the time of its store.
  unfoldable pub updates : List (ℤ × OrderBook F) → MarketMonitor F → MarketMonitor F
  updates [] m = m
  updates ((now, book) ∷ us) m = updates us (update_order_book now book m)

  -- The abstract view: the newest of a token's books.
  unfoldable pub newest :
      String → List (ℤ × OrderBook F) → Option (OrderBook F) → Option (OrderBook F)
  newest token [] old = old
  newest token ((now, book) ∷ us) old =
      newest token us (if book.asset_id == token then newer old book else old)

  -- On a monitor that stores books, the book that a reader of a token finds after any list of
  -- updates is the newest of that token's books in the list and of the one stored before, where of
  -- books of equal time the later arrival counts.
  pub stored-updates :
      (us : List (ℤ × OrderBook F)) (m : MarketMonitor F) (token : String)
      → m.is_store ≡ true
      → stored (updates us m) token ≡ newest token us (stored m token)
  unfolding updates newest
  stored-updates [] m token h = refl
  stored-updates ((now, book) ∷ us) m token h =
      stored-updates us (update_order_book now book m) token
        (is_store-update_order_book now book m ∙ h)
      ∙ ap (newest token us) (stored-update_order_book now book m token h)

  -- `b` is stored, and is no older than any time in `old`.
  abbrev pub NoOlder : Option (OrderBook F) → Option (OrderBook F) → Type 0
  NoOlder none b = Unit {0}
  NoOlder (some a) none = ⊥
  NoOlder (some a) (some b) = a.timestamp ≤ℤ b.timestamp

  NoOlder-trans : (a b c : Option (OrderBook F)) → NoOlder a b → NoOlder b c → NoOlder a c
  NoOlder-trans none b c h k = tt
  NoOlder-trans (some a) none c h k = absurd h
  NoOlder-trans (some a) (some b) none h k = absurd k
  NoOlder-trans (some a) (some b) (some c) h k = omega arith

  NoOlder-refl : (a : Option (OrderBook F)) → NoOlder a a
  NoOlder-refl none = tt
  NoOlder-refl (some a) = omega arith

  newer-NoOlder :
      (old : Option (OrderBook F)) (book : OrderBook F)
      → NoOlder old (newer old book) × NoOlder (some book) (newer old book)
  newer-NoOlder none book = (tt, omega arith)
  newer-NoOlder (some old) book = ground arith

  newest-NoOlder :
      (token : String) (us : List (ℤ × OrderBook F)) (old : Option (OrderBook F))
      → NoOlder old (newest token us old)
  unfolding newest
  newest-NoOlder token [] old = NoOlder-refl old
  newest-NoOlder token ((now, book) ∷ us) old =
      let old' = if book.asset_id == token then newer old book else old in
      NoOlder-trans old old' (newest token us old')
        (if_both (NoOlder old) (book.asset_id == token) (newer-NoOlder old book).0
          (NoOlder-refl old))
        (newest-NoOlder token us old')

  -- Every book of `token` in `us` is no newer than `b`.
  abbrev pub Dominates : String → Option (OrderBook F) → List (ℤ × OrderBook F) → Type 0
  Dominates token b [] = Unit {0}
  Dominates token b ((now, book) ∷ us) =
      (book.asset_id ≡ token → NoOlder (some book) b) × Dominates token b us

  newest-Dominates :
      (token : String) (us : List (ℤ × OrderBook F)) (old : Option (OrderBook F))
      → Dominates token (newest token us old) us
  unfolding newest
  newest-Dominates token [] old = tt
  newest-Dominates token ((now, book) ∷ us) old = (
    λ e. rw (((eq_iff book.asset_id token).1 e)) (
        NoOlder-trans (some book) (newer old book) _ (newer-NoOlder old book).1
          (newest-NoOlder token us (newer old book))),
    newest-Dominates token us (if book.asset_id == token then newer old book else old),
  )

  -- Whatever order books arrive in, where updates run one after the other the stored book of a
  -- token is at the end no older than the one stored before and than any book of the token that
  -- arrived.
  pub updates_never_roll_back :
      (us : List (ℤ × OrderBook F)) (m : MarketMonitor F) (token : String)
      → m.is_store ≡ true
      → let b = stored (updates us m) token in NoOlder (stored m token) b × Dominates token b us
  updates_never_roll_back us m token h =
      rw (stored-updates us m token h)
        (newest-NoOlder token us (stored m token), newest-Dominates token us (stored m token))

  -- A reader gets exactly the stored book; where there is none it gets an error, and which one
  -- tells whether the token has an entry.
  pub get_token_order_book_lem :
      (token : String) (m : MarketMonitor F) (b : OrderBook F)
      → (get_token_order_book token m ≡ ok b) ↔ (stored m token ≡ some b)
  unfolding get_token_order_book
  get_token_order_book_lem token m b = (λ h. ground arith, λ h. ground arith)

  -- The price of a token is read off the newest of its books: the last bid and the last ask, with
  -- that book's market and time.
  pub get_token_price-updates :
      (zero : F) (us : List (ℤ × OrderBook F)) (m : MarketMonitor F) (token : String)
      (b : OrderBook F)
      → m.is_store ≡ true
      → newest token us (stored m token) ≡ some b
      → get_token_price zero token (updates us m)
        ≡ ok (record {
          token_id = token;
          market = b.market;
          best_ask = get_last? b.asks;
          best_bid = get_last? b.bids;
          timestamp = b.timestamp;
          min_order_size = zero;
          tick_size = zero;
          neg_risk = false;
        })
  unfolding get_token_price
  get_token_price-updates zero us m token b h e = rw (
    ((get_token_order_book_lem token (updates us m) b).1 (stored-updates us m token h ∙ e)),
    get_token_price,
  )
