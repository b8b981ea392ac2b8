-- ===== src/Headers/Sent.antt =====
-- headers/headers.go: which headers a posted order is sent with.
use go_polymarket_sdk.Common.{◌≡◌, refl, some, String, List, [], ◌∷◌, string_eq, All}
use go_polymarket_sdk.Common.Int.{ℤ}
use go_polymarket_sdk.Trades.{ApiKeyCreds}
use go_polymarket_sdk.Headers.{
  Hmac, RelayerKey, Headers, gen_signature, create_l2_headers, create_relayer_headers,
  overload_headers, post_order_headers,
}

abbrev pub Has : Headers → String × String → Type 0
Has h (key, value) = h key ≡ some value

-- What a posted order has to be sent with.
abbrev pub wanted :
    Hmac → ℤ → String → ApiKeyCreds → RelayerKey → String → String → List (String × String)
wanted hm now address c k path body =
    ("POLY_ADDRESS", address)
    ∷ ("POLY_SIGNATURE", gen_signature hm c.secret now "POST" path (some body))
    ∷ ("POLY_TIMESTAMP", hm.format_int now)
    ∷ ("POLY_API_KEY", c.key)
    ∷ ("POLY_PASSPHRASE", c.passphrase)
    ∷ ("RELAYER_API_KEY", k.api_key)
    ∷ ("RELAYER_API_KEY_ADDRESS", k.api_key_address)
    ∷ ("Content-Type", "application/json")
    ∷ ("Accept-Encoding", "gzip")
    ∷ []

-- With credentials and a relayer's key, a posted order is sent with the five headers of the credentials, whose
-- signature is over the time, the method, the path and the body that are sent, with the two of the key, and
-- as gzip and JSON: none of them overwrites another.
pub post_order_headers-Has :
    (hm : Hmac) (now : ℤ) (address : String) (c : ApiKeyCreds) (k : RelayerKey) (path body : String)
    → (h : Headers) × (post_order_headers hm now address (some c) (some k) path body ≡ some h)
      × All (Has h) (wanted hm now address c k path body)
unfolding post_order_headers create_l2_headers create_relayer_headers overload_headers
post_order_headers-Has hm now address c k path body =
    (_, refl, (refl, (refl, (refl, (refl, (refl, (refl, (refl, (refl, (refl, tt))))))))))
