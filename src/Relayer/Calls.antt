-- ===== src/Relayer/Calls.antt =====
-- relayer/relay_client.go: the requests that a RelayClient sends, and what it reads from their replies. An
-- address is its text; `G` is gjson.
pub mod Submitted
pub mod Exchange
use go_polymarket_sdk.Common.{
  ℕ, Bool, Option, none, some, String, List, [], ◌∷◌, string_eq, if◌then◌else◌, leb,
}
use go_polymarket_sdk.Common.Int.{ℤ}
use go_polymarket_sdk.Common.Maps.{empty, copy, value_or}
use go_polymarket_sdk.Wire.{Gjson}
use go_polymarket_sdk.Trades.{ApiKeyCreds}
use go_polymarket_sdk.Headers.{
  Hmac, RelayerKey, Headers, create_builder_headers, create_relayer_headers, overload_relay_headers,
}
use go_polymarket_sdk.Client.Requests.{Request}
use go_polymarket_sdk.Client.Answers.{Response}
use Prim.Native.String.{◌++◌ as text_append}

pub record RelaySettings : Type 0 where
  pub relayer_base_url : String
  pub builder_creds : Option ApiKeyCreds
  pub relayer_key : Option RelayerKey

pub data TransactionType : Type 0 where
  tt_safe tt_proxy tt_safe_create : TransactionType

abbrev pub transaction_type_text : TransactionType → String
transaction_type_text tt_safe = "SAFE"
transaction_type_text tt_proxy = "PROXY"
transaction_type_text tt_safe_create = "SAFE-CREATE"

-- `Get`, until it sends. A nil map stays without headers; others get those that a POST has.
unfoldable pub relay_get : String → List (String × String) → Option Headers → Request
relay_get url params headers = record {
  method = "GET";
  url = url;
  params = params;
  body = none;
  headers = value_or empty (overload_relay_headers "POST" headers);
}

-- `Post`, until it sends.
unfoldable pub relay_post : String → Option String → Option Headers → Request
relay_post url body headers = record {
  method = "POST";
  url = url;
  params = [];
  body = body;
  headers = value_or empty (overload_relay_headers "POST" headers);
}

unfoldable pub nonce_request : RelaySettings → String → TransactionType → Request
nonce_request s address type =
    relay_get (text_append s.relayer_base_url "/nonce")
      (("address", address) ∷ ("type", transaction_type_text type) ∷ []) none

unfoldable pub deployed_request : RelaySettings → String → Request
deployed_request s address =
    relay_get (text_append s.relayer_base_url "/deployed") (("address", address) ∷ []) none

unfoldable pub relay_payload_request : RelaySettings → String → String → Request
relay_payload_request s address type =
    relay_get (text_append s.relayer_base_url "/relay-payload")
      (("address", address) ∷ ("type", type) ∷ []) none

module _ {F : Type 0} (G : Gjson F) where
  open G use {Res, parse_bytes, get, string, boolean}

  -- What `Get` and `Post` make of a response: `none` is the error.
  unfoldable pub relay_answer : Option Response → Option Res
  relay_answer none = none
  relay_answer (some r) = if leb 400 r.status then none else some (parse_bytes r.bytes)

  abbrev parsed_nonce : (String → Option ℤ) → Option Res → Option ℤ
  parsed_nonce big_int none = none
  parsed_nonce big_int (some r) = big_int (string (get r "nonce"))

  -- `big_int` is `SetString` in base 10.
  unfoldable pub get_nonce : (String → Option ℤ) → Option Response → Option ℤ
  get_nonce big_int reply = parsed_nonce big_int (relay_answer reply)

  unfoldable pub get_deployed : Option Response → Option Bool
  get_deployed reply = elim (relay_answer reply) [
    | none ↦ none
    | some r ↦ some (boolean (get r "deployed"))
  ]

  pub record RelayPayload : Type 0 where
    pub address : String
    pub nonce : String

  unfoldable pub get_relay_payload : Option Response → Option RelayPayload
  get_relay_payload reply = elim (relay_answer reply) [
    | none ↦ none
    | some r ↦ some (record { address = string (get r "address"); nonce = string (get r "nonce") })
  ]

  pub record RelayerTransactionResponse : Type 0 where
    pub transaction_id : String
    pub state : String
    pub hash : String
    pub transaction_hash : String

  unfoldable pub transaction_response : Option Response → Option RelayerTransactionResponse
  transaction_response reply = elim (relay_answer reply) [
    | none ↦ none
    | some r ↦ some (record {
      transaction_id = string (get r "transactionID");
      state = string (get r "state");
      hash = string (get r "hash");
      transaction_hash = string (get r "transactionHash");
    })
  ]

-- The key's headers, over those of the builder's credentials where there are some.
abbrev pub with_relayer_key : Option RelayerKey → Option Headers → Option Headers
with_relayer_key none builder = builder
with_relayer_key (some k) none = some (copy empty (value_or [] (create_relayer_headers (some k))))
with_relayer_key (some k) (some builder) =
    some (copy builder (value_or [] (create_relayer_headers (some k))))

abbrev pub builder_headers : Hmac → ℤ → Option ApiKeyCreds → String → Option Headers
builder_headers hm now none body = none
builder_headers hm now (some c) body =
    create_builder_headers hm now (some c) "POST" "/submit" (some body) none

-- The last request of EexecuteSafeTransactions; `body` is the request for the Safe as JSON.
unfoldable pub submission : Hmac → ℤ → RelaySettings → String → Request
submission hm now s body =
    relay_post (text_append s.relayer_base_url "/submit") (some body)
      (with_relayer_key s.relayer_key (builder_headers hm now s.builder_creds body))
