-- ===== src/Prices/Topics.antt =====
-- polymarket/crypto_price_monitor.go: the topics that a monitor subscribes to. Of two subscriptions to
-- one topic only one has an effect, as the source says.
use go_polymarket_sdk.Common.{
  ◌≡◌, refl, Bool, true, false, ◌||◌, String, List, [], ◌∷◌, ◌==◌, string_eq, contains, Bool-cases,
  inl, inr, if◌then◌else◌, ◌⊎◌, arith,
}
use mathlib.Core.Path.{subst}
use go_polymarket_sdk.Common.Text.{Unicode}
use go_polymarket_sdk.Wire.{Gjson}
use go_polymarket_sdk.Prices.{
  MonitorType, Subscription, monitor_all, monitor_binance, monitor_chainlink,
  monitor_chainlink_twap, monitor_other, subscriptions_of, build_twap_filters, twap_thirty,
  twap_sixty, CryptoPriceMonitor, on_binance, on_chainlink, on_twap, handle_message, on_message,
}
use go_polymarket_sdk.Market.Tokens.{is_empty}

abbrev pub topics_of : List Subscription → List String
topics_of [] = []
topics_of (s ∷ ss) = s.topic ∷ topics_of ss

abbrev pub all_distinct : List String → Bool
all_distinct [] = true
all_distinct (t ∷ ts) = if contains ts t then false else all_distinct ts

-- The four topics of updates.
abbrev is_known : String → Bool
is_known t =
    t == "crypto_prices" || t == "crypto_prices_chainlink" || t == twap_thirty || t == twap_sixty

abbrev pub all_known : List String → Bool
all_known [] = true
all_known (t ∷ ts) = if is_known t then all_known ts else false

-- No topic twice, and each one of the four.
abbrev AreSound : List Subscription → Type 0
AreSound ss = (all_distinct (topics_of ss) ≡ true) × (all_known (topics_of ss) ≡ true)

subscriptions_of-AreSound :
    (u : Unicode) (t : MonitorType) (symbols : List String)
    → AreSound (subscriptions_of u t symbols)
unfolding subscriptions_of
subscriptions_of-AreSound u monitor_all symbols = (refl, refl)
subscriptions_of-AreSound u monitor_binance symbols = (refl, refl)
subscriptions_of-AreSound u monitor_chainlink symbols = (refl, refl)
subscriptions_of-AreSound u (monitor_other t) symbols = (refl, refl)
subscriptions_of-AreSound u monitor_chainlink_twap symbols =
    let (filters30, filters60) = build_twap_filters u symbols in
    elim (Bool-cases (is_empty symbols)) [
      | inl e ↦ rw e (refl, refl)
      | inr e ↦ rw e (elim (Bool-cases (filters30 == "")) [
        | inl f ↦ elim (Bool-cases (filters60 == "")) [
          | inl g ↦ rw (f, g) (refl, refl)
          | inr g ↦ rw (f, g) (refl, refl)
        ]
        | inr f ↦ elim (Bool-cases (filters60 == "")) [
          | inl g ↦ rw (f, g) (refl, refl)
          | inr g ↦ rw (f, g) (refl, refl)
        ]
      ])
    ]

known-contains :
    (ts : List String) (t : String) → all_known ts ≡ true → contains ts t ≡ true → is_known t ≡ true
known-contains [] t h c = absurd (cc)
known-contains (x ∷ xs) t h c = elim (Bool-cases (is_known x)) [
  | inr e ↦ absurd (ground (arith, h, e))
  | inl e ↦ elim (Bool-cases (x == t)) [
    | inl q ↦ subst (λ s. is_known s ≡ true) ((string_eq.same_iff x t).0 q) e
    | inr q ↦ known-contains xs t (rw e at h) (rw q at c)
  ]
]

module _ {F : Type 0} (G : Gjson F) (u : Unicode) where
  open G use {Res, parse, get, string}

  -- The message is handed to the handler of its topic.
  abbrev pub IsHandled : String → CryptoPriceMonitor F → Type 0
  IsHandled msg m =
      let doc = parse msg in
      let topic = string (get doc "topic") in
      ((topic ≡ "crypto_prices") × (on_message G u msg m ≡ on_binance G u doc m))
      ⊎ (((topic ≡ "crypto_prices_chainlink") × (on_message G u msg m ≡ on_chainlink G u doc m))
          ⊎ (((topic ≡ "crypto_prices_twap_thirty") ⊎ (topic ≡ "crypto_prices_twap_sixty"))
              × (on_message G u msg m ≡ on_twap G u doc m)))

  known-IsHandled :
      (msg : String) (m : CryptoPriceMonitor F)
      → (msg == "PONG") ≡ false
      → (msg == "") ≡ false
      → (string (get (parse msg) "type") == "update") ≡ true
      → is_known (string (get (parse msg) "topic")) ≡ true
      → IsHandled msg m
  unfolding on_message handle_message
  known-IsHandled msg m heard filled update known =
      let topic = string (get (parse msg) "topic") in
      elim (Bool-cases (topic == "crypto_prices")) [
        | inl a ↦
            inl ((string_eq.same_iff topic "crypto_prices").0 a, rw (heard, filled, update, a) refl)
        | inr a ↦ elim (Bool-cases (topic == "crypto_prices_chainlink")) [
          | inl b ↦ inr (
              inl (
                (string_eq.same_iff topic "crypto_prices_chainlink").0 b,
                rw (heard, filled, update, a, b) refl,
              ))
          | inr b ↦ elim (Bool-cases (topic == "crypto_prices_twap_thirty")) [
            | inl c ↦ inr (
                inr (
                  inl ((string_eq.same_iff topic "crypto_prices_twap_thirty").0 c),
                  rw (heard, filled, update, a, b, c) refl,
                ))
            | inr c ↦
                let d : (topic == "crypto_prices_twap_sixty") ≡ true = rw (a, b, c) at known in
                inr (
                  inr (
                    inr ((string_eq.same_iff topic "crypto_prices_twap_sixty").0 d),
                    rw (heard, filled, update, a, b, c, d) refl,
                  ))
          ]
        ]
      ]

  -- Whatever the type of the monitor and its symbols, no topic is subscribed to twice, and an update of a topic
  -- that is subscribed to is handed to the handler of that topic.
  pub subscriptions_of-AreHandled :
      (t : MonitorType) (symbols : List String) (msg : String) (m : CryptoPriceMonitor F)
      → (msg == "PONG") ≡ false
      → (msg == "") ≡ false
      → (string (get (parse msg) "type") == "update") ≡ true
      → contains (topics_of (subscriptions_of u t symbols)) (string (get (parse msg) "topic"))
        ≡ true
      → (all_distinct (topics_of (subscriptions_of u t symbols)) ≡ true) × IsHandled msg m
  subscriptions_of-AreHandled t symbols msg m heard filled update asked =
      let (distinct, known) = subscriptions_of-AreSound u t symbols in
      (
        distinct,
        known-IsHandled msg m heard filled update (
            known-contains (topics_of (subscriptions_of u t symbols))
              (string (get (parse msg) "topic")) known asked),
      )
