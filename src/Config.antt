-- ===== src/Config.antt =====
-- polymarket/config.go and polymarket/config_impl.go: the settings, and what each part of the SDK reads of
-- them. Times are in nanoseconds.
pub mod Defaults
use go_polymarket_sdk.Common.{ℕ, Bool, true, false, Option, none, some, String}
use go_polymarket_sdk.Common.Int.{ℤ, pos}
use go_polymarket_sdk.Trades.{ApiKeyCreds}
use go_polymarket_sdk.Headers.{RelayerKey}
use go_polymarket_sdk.Retry.{Policy}
use go_polymarket_sdk.Client.Requests.{Settings}
use go_polymarket_sdk.Client.Create.{OrderConfig}

pub record PolymarketConfig : Type 0 where
  pub chain_id : ℤ
  pub funder_address : String
  pub clob_base_url : String
  pub clob_ws_base_url : String
  pub live_ws_base_url : String
  pub gamma_base_url : String
  pub relayer_base_url : String
  pub data_api_base_url : String
  pub signature_type : ℕ
  pub crypto_price_url : String
  pub owner_key : String
  pub builder_code : Option String
  pub clob_creds : Option ApiKeyCreds
  pub builder_creds : Option ApiKeyCreds
  pub relayer_key : Option RelayerKey

pub record Config : Type 0 where
  pub http_timeout : ℤ
  pub socks_proxy : String
  pub http_debug : Bool
  pub disable_http2 : Bool
  pub rate_limit_max_retries : ℤ
  pub rate_limit_base_delay : ℤ
  pub rate_limit_retry_budget : ℤ
  pub polymarket : PolymarketConfig

abbrev is_some {ℓ} : {A : Type ℓ} → Option A → Bool
is_some none = false
is_some (some a) = true

abbrev pub has_clob_auth : PolymarketConfig → Bool
has_clob_auth c = is_some c.clob_creds

abbrev pub has_builder_auth : PolymarketConfig → Bool
has_builder_auth c = is_some c.builder_creds

abbrev pub has_relayer_auth : PolymarketConfig → Bool
has_relayer_auth c = is_some c.relayer_key

-- POLY_GNOSIS_SAFE is 2. A field that is not set is zero.
unfoldable pub default_config : Config
default_config = record {
  http_timeout = pos 10_000_000_000;
  socks_proxy = "";
  http_debug = false;
  disable_http2 = true;
  rate_limit_max_retries = pos 3;
  rate_limit_base_delay = pos 500_000_000;
  rate_limit_retry_budget = pos 0;
  polymarket = record {
    chain_id = pos 137;
    funder_address = "";
    clob_base_url = "https://clob.polymarket.com";
    clob_ws_base_url = "wss://ws-subscriptions-clob.polymarket.com";
    live_ws_base_url = "wss://ws-live-data.polymarket.com";
    gamma_base_url = "https://gamma-api.polymarket.com";
    relayer_base_url = "https://relayer-v2.polymarket.com";
    data_api_base_url = "https://data-api.polymarket.com";
    signature_type = 2;
    crypto_price_url = "https://polymarket.com/api/crypto/crypto-price";
    owner_key = "1111111111111111111111111111111111111111111111111111111111111111";
    builder_code = none;
    clob_creds = none;
    builder_creds = none;
    relayer_key = none;
  };
}

-- What GetContext reads of the settings.
abbrev pub policy_of : Config → Policy
policy_of c = record {
  max_retries = c.rate_limit_max_retries;
  base_delay = c.rate_limit_base_delay;
  budget = c.rate_limit_retry_budget;
}

-- What the calls of one request read, with the signer's address.
abbrev pub settings_of : String → PolymarketConfig → Settings
settings_of address c = record {
  clob_base_url = c.clob_base_url;
  gamma_base_url = c.gamma_base_url;
  clob_creds = c.clob_creds;
  relayer_key = c.relayer_key;
  signer_address = address;
}

-- What CreateOrder and CreateMarketOrder read.
abbrev pub order_config_of : PolymarketConfig → OrderConfig
order_config_of c = record {
  chain_id = c.chain_id;
  funder_address = c.funder_address;
  signature_type = c.signature_type;
  builder_code = c.builder_code;
}
