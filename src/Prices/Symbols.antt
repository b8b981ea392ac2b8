-- ===== src/Prices/Symbols.antt =====
-- polymarket/crypto_price_monitor.go: the symbols on the way to the server and back.
use go_polymarket_sdk.Common.{
  ℕ, [], ◌∷◌, get_elem?, ◌≡◌, refl, sym, ap, ◌∙◌, false, ◌||◌, some, String, ◌==◌, string_eq,
}
use Prim.Native.String.{◌++◌}
use Prim.Native.String.compare
use Prim.Native.String
use text.Mathlib.Text.{is_eq}
use text.Mathlib.TextLemmas.{append_assoc}
use text.Mathlib.TextPositions.{eq_refl}
use go_polymarket_sdk.Common.Int.{ℤ}
use go_polymarket_sdk.Common.Maps.{value_or}
use go_polymarket_sdk.Common.Text.{
  Unicode, upper_rune, IsAscii, IsClear, to_upper, to_lower, remove_first, remove_first-append,
  to_upper-to_lower, to_lower-append, cut_last-append, has_suffix-append,
}
use go_polymarket_sdk.Wire.{Gjson}
use go_polymarket_sdk.Prices.{
  CryptoPriceMonitor, monitor_all, subscriptions_of, payload_symbol, external_price, on_message,
  get_external_price, get_twap_price, window_of,
}
use go_polymarket_sdk.Prices.Quotes.{
  Feed, binance, chainlink, twap30, twap60, Quote, source_of, seconds_of, same_feed_self, suffix_of,
  window_feed, source_feed, prices, shows, get_external_price-shows, get_twap_price-shows, quote_in,
  topic_feed, enter, prices-enter, quote_of, on_message-enter,
}

module _ {F : Type 0} (G : Gjson F) (u : Unicode) where
  open G use {Res, parse, get, string, float}

  payload_symbol-to_lower :
      (doc : Res) (symbol suffix : String)
      → IsAscii symbol
      → IsClear suffix (to_lower u symbol)
      → string (get doc "payload.symbol") ≡ to_lower u symbol ++ suffix
      → payload_symbol G u doc suffix ≡ to_upper u symbol
  payload_symbol-to_lower doc symbol suffix a c e =
      ap (λ s. to_upper u (remove_first s suffix)) e
      ∙ ap (to_upper u) (remove_first-append (to_lower u symbol) suffix c)
      ∙ to_upper-to_lower u symbol a

  upper_filled : (s : String) → (s == "") ≡ false → (to_upper u s == "") ≡ false
  upper_filled String.[] h = h
  upper_filled (String.◌∷◌ c s) h =
      ap is_eq (String.compare.cons-nil (upper_rune u c) (to_upper u s))

  quoted :
      (msg : String)
      → (msg == "PONG" || msg == "") ≡ false
      → string (get (parse msg) "type") ≡ "update"
      → quote_of G u msg ≡ quote_in G u (parse msg) (topic_feed G u (parse msg))
  quoted msg heard update = rw (heard, update) refl

  entered :
      (doc : Res) (f : Feed) (m : CryptoPriceMonitor F)
      → (payload_symbol G u doc (suffix_of f) == "") ≡ false
      → prices f (enter (quote_in G u doc (some f)) m) (payload_symbol G u doc (suffix_of f))
        ≡ some (float (get doc "payload.value"))
  entered doc f m h =
      let s = payload_symbol G u doc (suffix_of f) in
      let q : Quote F = record {
        feed = f;
        price = external_price G u doc s (source_of f) (seconds_of f);
      } in
      rw h (prices-enter q m f s ∙ rw (same_feed_self f, eq_refl s) refl)

  prices-on_message :
      (msg symbol : String) (f : Feed) (m : CryptoPriceMonitor F)
      → (symbol == "") ≡ false
      → IsAscii symbol
      → IsClear (suffix_of f) (to_lower u symbol)
      → (msg == "PONG" || msg == "") ≡ false
      → string (get (parse msg) "type") ≡ "update"
      → topic_feed G u (parse msg) ≡ some f
      → string (get (parse msg) "payload.symbol") ≡ to_lower u symbol ++ suffix_of f
      → prices f (on_message G u msg m) (to_upper u symbol)
        ≡ some (float (get (parse msg) "payload.value"))
  prices-on_message msg symbol f m filled a c heard update topic e =
      let doc = parse msg in
      let up = to_upper u symbol in
      ap (λ k. prices f k up) (on_message-enter G u msg m)
      ∙ ap (λ q. prices f (enter q m) up) (quoted msg heard update ∙ ap (quote_in G u doc) topic)
      ∙ ap (prices f (enter (quote_in G u doc (some f)) m))
          (sym (payload_symbol-to_lower doc symbol (suffix_of f) a c e))
      ∙ entered doc f m (
          ap (λ s. s == "") (payload_symbol-to_lower doc symbol (suffix_of f) a c e)
          ∙ upper_filled symbol filled)

  abbrev pub topic_of : Feed → String
  topic_of binance = "crypto_prices"
  topic_of chainlink = "crypto_prices_chainlink"
  topic_of twap30 = "crypto_prices_twap_thirty"
  topic_of twap60 = "crypto_prices_twap_sixty"

  -- A monitor of all types for this symbol subscribes to the topic of the feed for this text.
  abbrev pub AsksFor : Feed → String → String → Type 0
  AsksFor f symbol text =
      (i : ℕ) × (get_elem? (subscriptions_of u monitor_all (symbol ∷ [])) i
        ≡ some (record {
          topic = topic_of f;
          filters = "[" ++ (("{\"symbol\":\"" ++ (text ++ "\"}")) ++ "]");
        }))

  filter_for :
      (f : Feed) (symbol text : String)
      → text ≡ to_lower u symbol ++ suffix_of f
      → AsksFor f symbol text
  unfolding subscriptions_of
  filter_for f symbol text e =
      go f (ap (λ t. t ++ "\"}") e ∙ append_assoc (to_lower u symbol) (suffix_of f) "\"}")
    where
      go :
          (f : Feed)
          → text ++ "\"}" ≡ to_lower u symbol ++ (suffix_of f ++ "\"}")
          → AsksFor f symbol text
      go binance q = (0, rw q refl)
      go chainlink q = (1, rw q refl)
      go twap30 q = (2, rw q refl)
      go twap60 q = (3, rw q refl)

  -- A symbol in ASCII whose lower case the suffix of the feed does not stand in is asked for in lower case
  -- and with that suffix, by a subscription of a monitor of all types to the feed's topic; the value of an
  -- update that comes back for this text is what GetExternalPrice gives for the symbol, where the update's topic
  -- is of the feed of the resolution source.
  pub get_external_price-on_message :
      (msg symbol source : String) (f : Feed) (zero : F) (m : CryptoPriceMonitor F)
      → (symbol == "") ≡ false
      → IsAscii symbol
      → IsClear (suffix_of f) (to_lower u symbol)
      → source_feed source ≡ some f
      → (msg == "PONG" || msg == "") ≡ false
      → string (get (parse msg) "type") ≡ "update"
      → topic_feed G u (parse msg) ≡ some f
      → string (get (parse msg) "payload.symbol") ≡ to_lower u symbol ++ suffix_of f
      → AsksFor f symbol (string (get (parse msg) "payload.symbol"))
        × (get_external_price u zero symbol source (on_message G u msg m)
            ≡ float (get (parse msg) "payload.value"))
  get_external_price-on_message msg symbol source f zero m filled a c src heard update topic e = (
    filter_for f symbol (string (get (parse msg) "payload.symbol")) e,
    get_external_price-shows u zero symbol source (on_message G u msg m)
        ∙ ap (shows u zero symbol (on_message G u msg m)) src
        ∙ ap (value_or zero) (prices-on_message msg symbol f m filled a c heard update topic e),
  )

  -- The same of GetTwapPrice and the feed of its window.
  pub get_twap_price-on_message :
      (msg symbol : String) (window : ℤ) (f : Feed) (zero : F) (m : CryptoPriceMonitor F)
      → (symbol == "") ≡ false
      → IsAscii symbol
      → IsClear (suffix_of f) (to_lower u symbol)
      → window_feed window ≡ some f
      → (msg == "PONG" || msg == "") ≡ false
      → string (get (parse msg) "type") ≡ "update"
      → topic_feed G u (parse msg) ≡ some f
      → string (get (parse msg) "payload.symbol") ≡ to_lower u symbol ++ suffix_of f
      → get_twap_price u zero symbol window (on_message G u msg m)
        ≡ float (get (parse msg) "payload.value")
  get_twap_price-on_message msg symbol window f zero m filled a c src heard update topic e =
      get_twap_price-shows u zero symbol window (on_message G u msg m)
      ∙ ap (shows u zero symbol (on_message G u msg m)) src
      ∙ ap (value_or zero) (prices-on_message msg symbol f m filled a c heard update topic e)

-- A symbol with the suffix "_60" is one of 60 seconds, without its suffix.
pub window_of_sixty : (u : Unicode) (s : String) → window_of u (s ++ "_60") ≡ (s, 60)
unfolding window_of
window_of_sixty u s =
    rw (to_lower-append u s "_60", has_suffix-append (to_lower u s) "_60", cut_last-append s "_60")
      refl
