-- ===== src/Relayer/Calls/Submitted.antt =====
-- relayer/relay_client.go: the headers of a submitted request.
use go_polymarket_sdk.Common.{
  ◌≡◌, refl, Option, none, some, String, List, [], ◌∷◌, ◌++◌, string_eq, All,
}
use go_polymarket_sdk.Common.Int.{ℤ}
use go_polymarket_sdk.Trades.{ApiKeyCreds}
use go_polymarket_sdk.Headers.{
  Hmac, RelayerKey, gen_signature, relay_headers, create_builder_headers, create_relayer_headers,
  overload_relay_headers,
}
use go_polymarket_sdk.Headers.Sent.{Has}
use go_polymarket_sdk.Client.Requests.{Request}
use go_polymarket_sdk.Relayer.Calls.{RelaySettings, relay_post, submission}
use Prim.Native.String.{◌++◌ as text_append}

-- What a submission has to be sent with, for each of the credentials and the key that there is.
abbrev pub of_builder : Hmac → ℤ → Option ApiKeyCreds → String → List (String × String)
of_builder hm now none body = []
of_builder hm now (some c) body =
    ("POLY_BUILDER_API_KEY", c.key)
    ∷ ("POLY_BUILDER_PASSPHRASE", c.passphrase)
    ∷ ("POLY_BUILDER_SIGNATURE", gen_signature hm c.secret now "POST" "/submit" (some body))
    ∷ ("POLY_BUILDER_TIMESTAMP", hm.format_int now)
    ∷ []

abbrev pub of_key : Option RelayerKey → List (String × String)
of_key none = []
of_key (some k) =
    ("RELAYER_API_KEY", k.api_key) ∷ ("RELAYER_API_KEY_ADDRESS", k.api_key_address) ∷ []

abbrev pub common_to : Option ApiKeyCreds → Option RelayerKey → List (String × String)
common_to none none = []
common_to (some c) key = relay_headers
common_to none (some k) = relay_headers

abbrev pub IsSubmission : Hmac → ℤ → RelaySettings → String → Request → Type 0
IsSubmission hm now s body r =
    (r.method ≡ "POST")
    × (r.url ≡ text_append s.relayer_base_url "/submit")
    × (r.body ≡ some body)
    × All (Has r.headers) (
        of_builder hm now s.builder_creds body
        ++ of_key s.relayer_key
        ++ common_to s.builder_creds s.relayer_key)

abbrev relay_settings_of : String → Option ApiKeyCreds → Option RelayerKey → RelaySettings
relay_settings_of url creds key = record {
  relayer_base_url = url;
  builder_creds = creds;
  relayer_key = key;
}

submission_of :
    (hm : Hmac) (now : ℤ) (url : String) (creds : Option ApiKeyCreds) (key : Option RelayerKey)
    (body : String)
    → IsSubmission hm now
        (relay_settings_of url creds key)
        body
        (submission hm now (relay_settings_of url creds key) body)
unfolding submission relay_post create_builder_headers create_relayer_headers overload_relay_headers
submission_of hm now url none none body = (refl, refl, refl, tt)
submission_of hm now url none (some k) body =
    (refl, refl, refl, (refl, (refl, (refl, (refl, (refl, (refl, (refl, tt))))))))
submission_of hm now url (some c) none body =
    (refl, refl, refl, (refl, (refl, (refl, (refl, (refl, (refl, (refl, (refl, (refl, tt))))))))))
submission_of hm now url (some c) (some k) body = (
  refl,
  refl,
  refl,
  (refl, (refl, (refl, (refl, (refl, (refl, (refl, (refl, (refl, (refl, (refl, tt))))))))))),
)

-- Whatever credentials of a builder and key of a relayer there are, a request for a Safe is posted to the path
-- /submit with the four headers of the credentials, whose signature is over the time, the method, the path and
-- the body that are sent, with the two of the key, and, where there is one of both, with the common ones: none
-- of them overwrites another.
pub submission-IsSubmission :
    (hm : Hmac) (now : ℤ) (s : RelaySettings) (body : String)
    → IsSubmission hm now s body (submission hm now s body)
submission-IsSubmission hm now s body =
    submission_of hm now s.relayer_base_url s.builder_creds s.relayer_key body
