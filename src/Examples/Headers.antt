-- ===== src/Examples/Headers.antt =====
-- Runs of headers/headers.go and of the calls that need credentials.
use go_polymarket_sdk.Common.{refl, some, none, [], ◌∷◌}
use go_polymarket_sdk.Common.Int.{pos}
use go_polymarket_sdk.Trades.{ApiKeyCreds}
use go_polymarket_sdk.Headers.{Hmac, RelayerKey}
use go_polymarket_sdk.Client.Requests.{Marshal, Settings}
use go_polymarket_sdk.Client.Requests.Signed.{IsSigned, perform, cancels_all, perform-IsSigned}
use go_polymarket_sdk.Examples.Build.{names}

abbrev pub plain : Hmac
plain = record {
  decode_base64 = λ s. none;
  bytes_of = λ s. [];
  sum_text = λ key message. "sum";
  format_int = λ z. "12";
}

abbrev credentials : ApiKeyCreds
credentials = record { key = "k"; secret = "s"; passphrase = "p" }

abbrev relayer_key : RelayerKey
relayer_key = record { api_key = "r"; api_key_address = "0xr" }

abbrev marshaller : Marshal
marshaller = record { json = λ v. some "{}"; order = λ d. some d.owner; order_list = λ ds. none }

abbrev settings : Settings
settings = record {
  clob_base_url = "https://clob";
  gamma_base_url = "https://gamma";
  clob_creds = some credentials;
  relayer_key = some relayer_key;
  signer_address = "0xs";
}

perform-IsSigned_example :
    IsSigned plain marshaller settings
      (pos 12)
      credentials
      "DELETE"
      "/orders"
      (some (some "{}"))
      (perform plain marshaller settings (pos 12) names (cancels_all ("h" ∷ [])))
perform-IsSigned_example =
    perform-IsSigned plain marshaller settings (pos 12) names credentials (cancels_all ("h" ∷ []))
      refl
