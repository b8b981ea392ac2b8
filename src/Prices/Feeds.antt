-- ===== src/Prices/Feeds.antt =====
-- polymarket/crypto_price_monitor.go: the prices that the monitor gives, and those that it passes on,
-- described by the quotes that its messages carry.
use go_polymarket_sdk.Common.{
  ◌≡◌, refl, ap, ◌∙◌, Option, none, some, String, List, [], ◌∷◌, ◌++◌, map, take, string_eq,
}
use go_polymarket_sdk.Common.Int.{ℤ}
use go_polymarket_sdk.Common.Maps.{insert, value_or}
use go_polymarket_sdk.Common.Text.{Unicode, to_upper}
use go_polymarket_sdk.Chan.{IsBounded, try_send}
use go_polymarket_sdk.Chan.Oldest.{try_sends, with_items, try_sends_lem}
use go_polymarket_sdk.Wire.{Gjson}
use go_polymarket_sdk.Prices.{
  MonitorType, new_crypto_price_monitor, ExternalPrice, CryptoPriceMonitor, emit_price, on_message,
  get_external_price, get_twap_price,
}
use go_polymarket_sdk.Prices.Quotes.{
  Feed, Quote, binance, chainlink, twap30, twap60, window_feed, source_feed, prices, recorded,
  latest, shows, get_external_price-shows, get_twap_price-shows, enter, prices-enter, quote_of,
  on_message-enter,
}

module _ {F : Type 0} (G : Gjson F) (u : Unicode) where
  unfoldable pub messages : List String → CryptoPriceMonitor F → CryptoPriceMonitor F
  messages [] m = m
  messages (msg ∷ msgs) m = messages msgs (on_message G u msg m)

  abbrev put : Option (Quote F) → List (Quote F) → List (Quote F)
  put none qs = qs
  put (some q) qs = q ∷ qs

  -- What the messages quote, in their order.
  abbrev pub quotes : List String → List (Quote F)
  quotes [] = []
  quotes (msg ∷ msgs) = put (quote_of G u msg) (quotes msgs)

  latest-put :
      (q : Option (Quote F)) (m : CryptoPriceMonitor F) (f : Feed) (s : String)
      (qs : List (Quote F))
      → latest f s (prices f (enter q m) s) qs ≡ latest f s (prices f m s) (put q qs)
  latest-put none m f s qs = refl
  latest-put (some q) m f s qs = ap (λ o. latest f s o qs) (prices-enter q m f s)

  latest-messages :
      (msgs : List String) (m : CryptoPriceMonitor F) (f : Feed) (s : String)
      → prices f (messages msgs m) s ≡ latest f s (prices f m s) (quotes msgs)
  unfolding messages
  latest-messages [] m f s = refl
  latest-messages (msg ∷ msgs) m f s = rw (on_message-enter G u msg m) (
      latest-messages msgs (enter (quote_of G u msg) m) f s
      ∙ latest-put (quote_of G u msg) m f s (quotes msgs))

  -- What is shown for a symbol of a feed, the monitor having no price at first.
  abbrev pub shown : F → String → List (Quote F) → Option Feed → F
  shown zero symbol qs none = zero
  shown zero symbol qs (some f) = value_or zero (latest f (to_upper u symbol) none qs)

  no_prices :
      (t : MonitorType) (symbols : List String) (s : String) (f : Feed)
      → prices f (new_crypto_price_monitor u {F = F} t symbols) s ≡ none
  unfolding new_crypto_price_monitor
  no_prices t symbols s binance = refl
  no_prices t symbols s chainlink = refl
  no_prices t symbols s twap30 = refl
  no_prices t symbols s twap60 = refl

  at_feed :
      (msgs : List String) (t : MonitorType) (symbols : List String) (zero : F) (s : String)
      (f : Feed)
      → value_or zero (prices f (messages msgs (new_crypto_price_monitor u t symbols)) s)
        ≡ value_or zero (latest f s none (quotes msgs))
  at_feed msgs t symbols zero s f = ap (value_or zero) (
      latest-messages msgs (new_crypto_price_monitor u t symbols) f s
      ∙ ap (λ o. latest f s o (quotes msgs)) (no_prices t symbols s f))

  -- Whatever messages a new monitor has handled, GetExternalPrice and GetTwapPrice give for each
  -- symbol the last price that was quoted for it in the feed of the resolution source or the window,
  -- and 0 where there is no such feed or no such price.
  pub getters_show_latest :
      (msgs : List String) (t : MonitorType) (symbols : List String) (zero : F)
      (symbol source : String) (window : ℤ)
      → let m = messages msgs (new_crypto_price_monitor u t symbols) in
        (get_external_price u zero symbol source m
          ≡ shown zero symbol (quotes msgs) (source_feed source))
        × (get_twap_price u zero symbol window m
            ≡ shown zero symbol (quotes msgs) (window_feed window))
  getters_show_latest msgs t symbols zero symbol source window =
      let m = messages msgs (new_crypto_price_monitor u t symbols) in
      (
        get_external_price-shows u zero symbol source m ∙ shown-shows (source_feed source),
        get_twap_price-shows u zero symbol window m ∙ shown-shows (window_feed window),
      )
    where
      shown-shows :
          (f : Option Feed)
          → shows u zero symbol (messages msgs (new_crypto_price_monitor u t symbols)) f
            ≡ shown zero symbol (quotes msgs) f
      shown-shows none = refl
      shown-shows (some f) = at_feed msgs t symbols zero (to_upper u symbol) f

  abbrev price_of : Quote F → ExternalPrice F
  price_of q = q.price

  price_ch-put :
      (q : Option (Quote F)) (m : CryptoPriceMonitor F) (qs : List (Quote F))
      → try_sends (map price_of qs) (enter q m).price_ch
        ≡ try_sends (map price_of (put q qs)) m.price_ch
  unfolding try_sends emit_price
  price_ch-put none m qs = refl
  price_ch-put (some q) m qs = ap (try_sends (map price_of qs)) (sent q.feed)
    where
      sent :
          (f : Feed)
          → (emit_price q.price
              (recorded f (insert q.price.symbol q.price.price (prices f m)) m)).price_ch
            ≡ (try_send q.price m.price_ch).0
      sent binance = refl
      sent chainlink = refl
      sent twap30 = refl
      sent twap60 = refl

  price_ch_sent :
      (msgs : List String) (m : CryptoPriceMonitor F)
      → (messages msgs m).price_ch ≡ try_sends (map price_of (quotes msgs)) m.price_ch
  unfolding messages try_sends
  price_ch_sent [] m = refl
  price_ch_sent (msg ∷ msgs) m =
      ap (λ k. (messages msgs k).price_ch) (on_message-enter G u msg m)
      ∙ price_ch_sent msgs (enter (quote_of G u msg) m)
      ∙ price_ch-put (quote_of G u msg) m (quotes msgs)

  -- While nobody receives, a price channel within its capacity ends up with the oldest quotes, as many
  -- as fit, in the order of their messages.
  pub price_ch-messages :
      (msgs : List String) (m : CryptoPriceMonitor F)
      → IsBounded m.price_ch
      → (messages msgs m).price_ch
        ≡ with_items m.price_ch
            (take m.price_ch.cap (m.price_ch.items ++ map price_of (quotes msgs)))
  price_ch-messages msgs m h =
      price_ch_sent msgs m ∙ try_sends_lem (map price_of (quotes msgs)) m.price_ch h
