-- ===== src/Config/Defaults.antt =====
-- polymarket/config_impl.go: what the SDK does with the settings of DefaultConfig.
use go_polymarket_sdk.Common.{ℕ, ◌<◌, ◌≡◌, refl, Option, String, List, length}
use go_polymarket_sdk.Common.Int.{ℤ}
use go_polymarket_sdk.Headers.{Hmac}
use go_polymarket_sdk.Orders.Build.{EthLib}
use go_polymarket_sdk.Retry.{Try, Loop, Answer, answered, or_defaults, get_context}
use go_polymarket_sdk.Retry.Bounds.{get_context-answers}
use go_polymarket_sdk.Client.Requests.{Marshal}
use go_polymarket_sdk.Client.Requests.Signed.{Operation, IsRefused, perform, perform-IsRefused}
use go_polymarket_sdk.Config.{default_config, policy_of, settings_of}

-- With the settings of DefaultConfig, GetContext gives an answer after at most four requests.
pub default_config-answers :
    {E B : Type 0} (atoi : String → Option ℤ) (ctx : Option ℤ) (count : ℕ) (ts : List (Try E B))
    → 3 < length ts
    → (s : Loop) × (a : Answer E B) × (get_context atoi (policy_of default_config) ctx count ts
        ≡ answered s a)
unfolding default_config or_defaults
default_config-answers atoi ctx count ts l =
    get_context-answers atoi (policy_of default_config) ctx 3 count ts refl l

-- With the settings of DefaultConfig no call that needs credentials sends a request.
pub default_config-IsRefused :
    (hm : Hmac) (js : Marshal) (address : String) (now : ℤ) (eth : EthLib) (op : Operation eth)
    → let s = settings_of address default_config.polymarket in
      IsRefused hm js s now eth op (perform hm js s now eth op)
unfolding default_config
default_config-IsRefused hm js address now eth op =
    perform-IsRefused hm js (settings_of address default_config.polymarket) now eth op refl
