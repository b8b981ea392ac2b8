-- ===== src/Prices/Quotes.antt =====
-- polymarket/crypto_price_monitor.go: described by the quotes that its messages
-- carry. Here: what a message does is to enter its quote.
use go_polymarket_sdk.Common.{
  ℕ, ◌≡◌, refl, ap, ◌∙◌, Bool, true, false, ◌&&◌, ◌||◌, Option, none, some, String, List, [], ◌∷◌,
  ◌==◌, string_eq, if◌then◌else◌, Bool-cases, inl, inr, arith,
}
use go_polymarket_sdk.Common.Int.{ℤ, pos, negsuc, beq_ℤ}
use go_polymarket_sdk.Common.Maps.{Map, insert, value_or}
use go_polymarket_sdk.Common.Text.{to_upper, Unicode, contains_text}
use go_polymarket_sdk.Wire.{Gjson}
use go_polymarket_sdk.Prices.{
  ExternalPrice, CryptoPriceMonitor, twap_thirty, twap_sixty, emit_price, payload_symbol,
  external_price, on_binance, on_chainlink, on_twap, handle_message, on_message, get_external_price,
  get_twap_price,
}

pub data Feed : Type 0 where
  binance chainlink twap30 twap60 : Feed

abbrev pub same_feed : Feed → Feed → Bool
same_feed binance binance = true
same_feed chainlink chainlink = true
same_feed twap30 twap30 = true
same_feed twap60 twap60 = true
same_feed _ _ = false

abbrev pub suffix_of : Feed → String
suffix_of binance = "usdt"
suffix_of _ = "/usd"

abbrev pub source_of : Feed → String
source_of binance = "Binance"
source_of chainlink = "Chainlink"
source_of twap30 = "ChainlinkTWAP30"
source_of twap60 = "ChainlinkTWAP60"

abbrev pub seconds_of : Feed → ℤ
seconds_of twap30 = pos 30
seconds_of twap60 = pos 60
seconds_of _ = pos 0

-- The feed of a window, and the feed of a market's resolution source.
abbrev pub window_feed : ℤ → Option Feed
window_feed z =
    if beq_ℤ z (pos 30) then some twap30 else if beq_ℤ z (pos 60) then some twap60 else none

abbrev pub source_feed : String → Option Feed
source_feed s =
    if contains_text s "data.chain.link"
    then some chainlink
    else if contains_text s "www.binance.com"
    then some binance
    else none

pub record Quote (F : Type 0) : Type 0 where
  pub feed : Feed
  pub price : ExternalPrice F

pub same_feed_self : (f : Feed) → same_feed f f ≡ true
same_feed_self binance = refl
same_feed_self chainlink = refl
same_feed_self twap30 = refl
same_feed_self twap60 = refl

beq_ℤ_pos : (z : ℤ) (n : ℕ) → beq_ℤ z (pos n) ≡ true → z ≡ pos n
beq_ℤ_pos (pos m) n e = ap pos (ground arith)
beq_ℤ_pos (negsuc m) n e = absurd (ground arith)

same_feed_eq : (g f : Feed) → same_feed g f ≡ true → g ≡ f
same_feed_eq binance binance e = refl
same_feed_eq binance chainlink e = absurd (ground arith)
same_feed_eq binance twap30 e = absurd (ground arith)
same_feed_eq binance twap60 e = absurd (ground arith)
same_feed_eq chainlink binance e = absurd (ground arith)
same_feed_eq chainlink chainlink e = refl
same_feed_eq chainlink twap30 e = absurd (ground arith)
same_feed_eq chainlink twap60 e = absurd (ground arith)
same_feed_eq twap30 binance e = absurd (ground arith)
same_feed_eq twap30 chainlink e = absurd (ground arith)
same_feed_eq twap30 twap30 e = refl
same_feed_eq twap30 twap60 e = absurd (ground arith)
same_feed_eq twap60 binance e = absurd (ground arith)
same_feed_eq twap60 chainlink e = absurd (ground arith)
same_feed_eq twap60 twap30 e = absurd (ground arith)
same_feed_eq twap60 twap60 e = refl

module _ {F : Type 0} where
  abbrev pub prices : Feed → CryptoPriceMonitor F → Map String F
  prices binance m = m.binance_prices
  prices chainlink m = m.chainlink_prices
  prices twap30 m = m.chainlink_twap30_prices
  prices twap60 m = m.chainlink_twap60_prices

  abbrev pub recorded : Feed → Map String F → CryptoPriceMonitor F → CryptoPriceMonitor F
  recorded binance t m = record m { binance_prices = t }
  recorded chainlink t m = record m { chainlink_prices = t }
  recorded twap30 t m = record m { chainlink_twap30_prices = t }
  recorded twap60 t m = record m { chainlink_twap60_prices = t }

  -- The last price that is quoted for a symbol, or else the earlier one.
  abbrev pub latest : Feed → String → Option F → List (Quote F) → Option F
  latest f s o [] = o
  latest f s o (q ∷ qs) =
      latest f s (if same_feed q.feed f && q.price.symbol == s then some q.price.price else o) qs

  abbrev pub enter : Option (Quote F) → CryptoPriceMonitor F → CryptoPriceMonitor F
  enter none m = m
  enter (some q) m =
      emit_price q.price (recorded q.feed (insert q.price.symbol q.price.price (prices q.feed m)) m)

  prices-recorded :
      (g f : Feed) (t : Map String F) (m : CryptoPriceMonitor F) (s : String)
      → prices f (recorded g t m) s ≡ (if same_feed g f then t s else prices f m s)
  prices-recorded binance binance t m s = refl
  prices-recorded binance chainlink t m s = refl
  prices-recorded binance twap30 t m s = refl
  prices-recorded binance twap60 t m s = refl
  prices-recorded chainlink binance t m s = refl
  prices-recorded chainlink chainlink t m s = refl
  prices-recorded chainlink twap30 t m s = refl
  prices-recorded chainlink twap60 t m s = refl
  prices-recorded twap30 binance t m s = refl
  prices-recorded twap30 chainlink t m s = refl
  prices-recorded twap30 twap30 t m s = refl
  prices-recorded twap30 twap60 t m s = refl
  prices-recorded twap60 binance t m s = refl
  prices-recorded twap60 chainlink t m s = refl
  prices-recorded twap60 twap30 t m s = refl
  prices-recorded twap60 twap60 t m s = refl

  prices-emit_price :
      (f : Feed) (p : ExternalPrice F) (m : CryptoPriceMonitor F)
      → prices f (emit_price p m) ≡ prices f m
  unfolding emit_price
  prices-emit_price binance p m = refl
  prices-emit_price chainlink p m = refl
  prices-emit_price twap30 p m = refl
  prices-emit_price twap60 p m = refl

  pub prices-enter :
      (q : Quote F) (m : CryptoPriceMonitor F) (f : Feed) (s : String)
      → prices f (enter (some q) m) s
        ≡ (if same_feed q.feed f && q.price.symbol == s then some q.price.price else prices f m s)
  prices-enter q m f s =
      let t = insert q.price.symbol q.price.price (prices q.feed m) in
      ap (λ k. k s) (prices-emit_price f q.price (recorded q.feed t m))
      ∙ prices-recorded q.feed f t m s
      ∙ elim (Bool-cases (same_feed q.feed f)) [
        | inl e ↦ rw (e, same_feed_eq q.feed f e) refl
        | inr e ↦ rw e refl
      ]

module _ {F : Type 0} (u : Unicode) (zero : F) where
  -- What a feed shows for a symbol, 0 where there is no such feed or no such price.
  abbrev pub shows : String → CryptoPriceMonitor F → Option Feed → F
  shows symbol m none = zero
  shows symbol m (some f) = value_or zero (prices f m (to_upper u symbol))

  pub get_external_price-shows :
      (symbol source : String) (m : CryptoPriceMonitor F)
      → get_external_price u zero symbol source m ≡ shows symbol m (source_feed source)
  unfolding get_external_price
  get_external_price-shows symbol source m =
      elim (Bool-cases (contains_text source "data.chain.link")) [
        | inl e ↦ rw e refl
        | inr e ↦ elim (Bool-cases (contains_text source "www.binance.com")) [
          | inl g ↦ rw (e, g) refl
          | inr g ↦ rw (e, g) refl
        ]
      ]

  pub get_twap_price-shows :
      (symbol : String) (window : ℤ) (m : CryptoPriceMonitor F)
      → get_twap_price u zero symbol window m ≡ shows symbol m (window_feed window)
  unfolding get_twap_price
  get_twap_price-shows symbol window m = elim (Bool-cases (beq_ℤ window (pos 30))) [
    | inl e ↦ rw e refl
    | inr e ↦ elim (Bool-cases (beq_ℤ window (pos 60))) [
      | inl g ↦ rw (e, g) refl
      | inr g ↦ rw (e, g) refl
    ]
  ]

module _ {F : Type 0} (G : Gjson F) (u : Unicode) where
  open G use {Res, parse, get, string, int}

  abbrev pub quote_in : Res → Option Feed → Option (Quote F)
  quote_in doc none = none
  quote_in doc (some f) =
      let symbol = payload_symbol G u doc (suffix_of f) in
      if symbol == ""
      then none
      else some
          (record { feed = f; price = external_price G u doc symbol (source_of f) (seconds_of f) })

  abbrev pub topic_feed : Res → Option Feed
  topic_feed doc =
      let topic = string (get doc "topic") in
      if topic == "crypto_prices"
      then some binance
      else if topic == "crypto_prices_chainlink"
      then some chainlink
      else if topic == twap_thirty || topic == twap_sixty
      then window_feed (int (get doc "payload.window_s"))
      else none

  -- What a message quotes, if anything.
  abbrev pub quote_of : String → Option (Quote F)
  quote_of msg =
      if msg == "PONG" || msg == ""
      then none
      else if string (get (parse msg) "type") == "update"
      then quote_in (parse msg) (topic_feed (parse msg))
      else none

  on_binance-enter :
      (doc : Res) (m : CryptoPriceMonitor F)
      → on_binance G u doc m ≡ enter (quote_in doc (some binance)) m
  unfolding on_binance
  on_binance-enter doc m = elim (Bool-cases (payload_symbol G u doc "usdt" == "")) [
    | inl e ↦ rw e refl
    | inr e ↦ rw e refl
  ]

  on_chainlink-enter :
      (doc : Res) (m : CryptoPriceMonitor F)
      → on_chainlink G u doc m ≡ enter (quote_in doc (some chainlink)) m
  unfolding on_chainlink
  on_chainlink-enter doc m = elim (Bool-cases (payload_symbol G u doc "/usd" == "")) [
    | inl e ↦ rw e refl
    | inr e ↦ rw e refl
  ]

  on_twap-enter :
      (doc : Res) (m : CryptoPriceMonitor F)
      → on_twap G u doc m ≡ enter (quote_in doc (window_feed (int (get doc "payload.window_s")))) m
  unfolding on_twap
  on_twap-enter doc m =
      let window = int (get doc "payload.window_s") in
      elim (Bool-cases (payload_symbol G u doc "/usd" == "")) [
        | inl e ↦ elim (Bool-cases (beq_ℤ window (pos 30))) [
          | inl f ↦ rw (e, f, e) refl
          | inr f ↦ elim (Bool-cases (beq_ℤ window (pos 60))) [
            | inl g ↦ rw (e, f, g, e) refl
            | inr g ↦ rw (e, f, g) refl
          ]
        ]
        | inr e ↦ elim (Bool-cases (beq_ℤ window (pos 30))) [
          | inl f ↦ rw (e, f, e, beq_ℤ_pos window 30 f) refl
          | inr f ↦ elim (Bool-cases (beq_ℤ window (pos 60))) [
            | inl g ↦ rw (e, f, g, e, beq_ℤ_pos window 60 g) refl
            | inr g ↦ rw (e, f, g) refl
          ]
        ]
      ]

  pub on_message-enter :
      (msg : String) (m : CryptoPriceMonitor F) → on_message G u msg m ≡ enter (quote_of msg) m
  unfolding on_message handle_message
  on_message-enter msg m =
      let doc = parse msg in
      let topic = string (get doc "topic") in
      elim (Bool-cases (msg == "PONG")) [
        | inl p ↦ rw p refl
        | inr p ↦ elim (Bool-cases (msg == "")) [
          | inl q ↦ rw (p, q) refl
          | inr q ↦ elim (Bool-cases (string (get doc "type") == "update")) [
            | inr t ↦ rw (p, q, t) refl
            | inl t ↦ elim (Bool-cases (topic == "crypto_prices")) [
              | inl b ↦ rw (p, q, t, b) (on_binance-enter doc m)
              | inr b ↦ elim (Bool-cases (topic == "crypto_prices_chainlink")) [
                | inl c ↦ rw (p, q, t, b, c) (on_chainlink-enter doc m)
                | inr c ↦ elim (Bool-cases (topic == twap_thirty || topic == twap_sixty)) [
                  | inl w ↦ rw (p, q, t, b, c, w) (on_twap-enter doc m)
                  | inr w ↦ rw (p, q, t, b, c, w) refl
                ]
              ]
            ]
          ]
        ]
      ]
