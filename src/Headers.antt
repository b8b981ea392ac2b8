-- ===== src/Headers.antt =====
-- headers/headers.go and signature/sign.go: the headers of a request, as a map, with `none` for a nil map.
-- HMAC-SHA256, base64 and strconv.FormatInt are an interface.
pub mod Sent
use go_polymarket_sdk.Common.{
  ℕ, Bool, true, false, ◌||◌, Option, none, some, String, List, [], ◌∷◌, ◌==◌, string_eq,
  if◌then◌else◌,
}
use Prim.Native.String.{◌++◌ as text_append}
use go_polymarket_sdk.Common.Int.{ℤ}
use go_polymarket_sdk.Common.Maps.{Map, empty, copy, value_or}
use go_polymarket_sdk.Trades.{ApiKeyCreds}

pub record Hmac : Type 0 where
  pub decode_base64 : String → Option (List ℕ)
  pub bytes_of : String → List ℕ
  -- The sum for a key and a message, in URL-safe base64.
  pub sum_text : List ℕ → List ℕ → String
  pub format_int : ℤ → String

pub record L2HeaderArgs : Type 0 where
  pub method : String
  pub request_path : String
  pub body : Option String

pub record RelayerKey : Type 0 where
  pub api_key : String
  pub api_key_address : String

-- A pointer is dereferenced or the function panics (`none`).
abbrev pub Headers : Type 0
Headers = Map String String

module _ (hm : Hmac) where
  open hm use {decode_base64, bytes_of, sum_text, format_int}

  -- A secret that is no base64 is taken for the key itself.
  unfoldable pub gen_signature : String → ℤ → String → String → Option String → String
  gen_signature secret timestamp method path body =
      sum_text (value_or (bytes_of secret) (decode_base64 secret)) (
        bytes_of (
          text_append (text_append (format_int timestamp) (text_append method path))
            (value_or "" body)))

  -- `now` is the clock, read where there is no time.
  unfoldable pub create_l2_headers :
      ℤ → String → Option ApiKeyCreds → Option L2HeaderArgs → Option ℤ → Option Headers
  create_l2_headers now address none args timestamp = none
  create_l2_headers now address (some c) none timestamp = none
  create_l2_headers now address (some c) (some args) timestamp =
      let time = value_or now timestamp in
      some (
        copy empty (
          ("POLY_ADDRESS", address)
          ∷ ("POLY_SIGNATURE", gen_signature c.secret time args.method args.request_path args.body)
          ∷ ("POLY_TIMESTAMP", format_int time)
          ∷ ("POLY_API_KEY", c.key)
          ∷ ("POLY_PASSPHRASE", c.passphrase)
          ∷ []))

  unfoldable pub create_builder_headers :
      ℤ → Option ApiKeyCreds → String → String → Option String → Option ℤ → Option Headers
  create_builder_headers now none method path body timestamp = none
  create_builder_headers now (some c) method path body timestamp =
      let time = value_or now timestamp in
      some (
        copy empty (
          ("POLY_BUILDER_API_KEY", c.key)
          ∷ ("POLY_BUILDER_PASSPHRASE", c.passphrase)
          ∷ ("POLY_BUILDER_SIGNATURE", gen_signature c.secret time method path body)
          ∷ ("POLY_BUILDER_TIMESTAMP", format_int time)
          ∷ []))

unfoldable pub create_relayer_headers : Option RelayerKey → Option (List (String × String))
create_relayer_headers none = none
create_relayer_headers (some k) =
    some (("RELAYER_API_KEY", k.api_key) ∷ ("RELAYER_API_KEY_ADDRESS", k.api_key_address) ∷ [])

abbrev pub common_headers : List (String × String)
common_headers =
    (
      "User-Agent",
      "Mozilla/5.0 (Macintosh; Intel Mac OS X 10_15_7) AppleWebKit/537.36 (KHTML, like Gecko) Chrome/143.0.0.0 Safari/537.36",
    )
    ∷ ("Accept", "*/*")
    ∷ ("Connection", "keep-alive")
    ∷ ("Content-Type", "application/json")
    ∷ []

abbrev pub relay_headers : List (String × String)
relay_headers =
    ("User-Agent", "@polymarket/relay-client")
    ∷ ("Accept", "*/*")
    ∷ ("Connection", "keep-alive")
    ∷ ("Content-Type", "application/json")
    ∷ ("Access-Control-Allow-Credentials", "true")
    ∷ []

-- The caller's map after the call: what is written into the map that is made for a nil one is lost.
unfoldable pub overload_headers : String → Option Headers → Option Headers
overload_headers method none = none
overload_headers method (some h) =
    if method == "GET" || method == "POST"
    then some (copy (copy h common_headers) (("Accept-Encoding", "gzip") ∷ []))
    else some (copy h common_headers)

unfoldable pub overload_relay_headers : String → Option Headers → Option Headers
overload_relay_headers method none = none
overload_relay_headers method (some h) =
    if method == "GET"
    then some (copy (copy h relay_headers) (("Accept-Encoding", "gzip") ∷ []))
    else some (copy h relay_headers)

-- The headers of PostOrder and PostOrders, as `Post` sends them: those of the user's credentials, those of the
-- relayer's key where there is one, and the common ones.
abbrev pub with_relayer : Option RelayerKey → Option Headers → Option Headers
with_relayer key none = none
with_relayer none (some h) = some h
with_relayer (some k) (some h) = some (copy h (value_or [] (create_relayer_headers (some k))))

module _ (hm : Hmac) where
  unfoldable pub post_order_headers :
      ℤ → String → Option ApiKeyCreds → Option RelayerKey → String → String → Option Headers
  post_order_headers now address creds relayer path body = overload_headers "POST" (
      with_relayer relayer (
        create_l2_headers hm now address creds
          (some (record { method = "POST"; request_path = path; body = some body })) none))
