-- ===== src/Examples/Relayer.antt =====
-- Runs of the relayer's client, on stand-ins for go-ethereum.
use go_polymarket_sdk.Common.{
  ℕ, ◌≡◌, refl, Bool, true, false, none, some, List, length, map, [], ◌∷◌, replicate, arith,
}
use go_polymarket_sdk.Common.Int.{pos}
use go_polymarket_sdk.Wire.{Json, obj, field, str, bool, end}
use go_polymarket_sdk.Relayer.{Ethereum, SafeTransaction, pack_transactions, aggregate_transaction}
use go_polymarket_sdk.Relayer.Packing.{read_calls, read_calls-pack_transactions}
use go_polymarket_sdk.Relayer.Execute.{
  SafeSigning, SafeContractConfig, RelayClient, Replies, eexecute_safe_transactions,
  build_safe_transaction_request,
}
use go_polymarket_sdk.Relayer.Calls.{RelaySettings}
use go_polymarket_sdk.Relayer.Calls.Exchange.{
  http_request_of, IsExchange, eexecute_safe_transactions-IsExchange,
}
use go_polymarket_sdk.Client.Requests.{Request}
use go_polymarket_sdk.Examples.Headers.{plain}
use go_polymarket_sdk.Relayer.Actions.{Contracts, Calldata, built}
use go_polymarket_sdk.Examples.Values.{wire}

-- An address is one number, and its bytes are 20 copies of it.
abbrev copies : Ethereum
copies = record {
  Address = ℕ;
  address_bytes = λ a. replicate 20 a;
  bytes_to_address = λ bs. 7;
  zero_address = 0;
  keccak256 = λ bs. bs;
  pack_multi_send = λ bs. some bs;
}

abbrev first_transaction : SafeTransaction copies
first_transaction = record { to = 3; operation = 0; data_bytes = 1 ∷ 2 ∷ []; value = pos 300 }

abbrev second_transaction : SafeTransaction copies
second_transaction = record { to = 4; operation = 1; data_bytes = []; value = pos 0 }

read_calls-pack_transactions_example :
    read_calls copies 2 (pack_transactions copies (first_transaction ∷ second_transaction ∷ []))
    ≡ record { operation = 0; to = replicate 20 3; value = 300; payload = 1 ∷ 2 ∷ [] }
      ∷ record { operation = 1; to = replicate 20 4; value = 0; payload = [] }
      ∷ []
read_calls-pack_transactions_example =
    read_calls-pack_transactions copies (first_transaction ∷ second_transaction ∷ [])
      ((refl, omega arith, omega arith), ((refl, omega arith, omega arith), tt))

-- A key of 0 cannot sign.
abbrev signing : SafeSigning copies
signing = record {
  Key = Bool;
  domain_hash = λ t. some (1 ∷ []);
  message_hash = λ t. some (2 ∷ []);
  personal_sign = λ k bs. elim k [ true ↦ some (5 ∷ 28 ∷ []) | false ↦ none ];
}

abbrev safe_config : SafeContractConfig copies
safe_config = record { safe_factory = 8; safe_multisend = 9 }

abbrev relay_reply : Json
relay_reply = obj (field "deployed" (bool true) (field "nonce" (str "4") end))

abbrev replies : Replies (wire relay_reply)
replies = record { deployed = some relay_reply; nonce = some relay_reply; submit = none }

abbrev relay_client : RelayClient copies signing
relay_client = record {
  chain_id = pos 137;
  signer = some (true, 2);
  safe_contract_config = some safe_config;
}

abbrev relay_settings : RelaySettings
relay_settings = record {
  relayer_base_url = "https://relayer";
  builder_creds = some (record { key = "k"; secret = "s"; passphrase = "p" });
  relayer_key = some (record { api_key = "r"; api_key_address = "0xr" });
}

abbrev exchanged : List Request
exchanged =
    map (http_request_of copies (λ a. "0x") (λ r. "{}") plain (pos 12) relay_settings)
      (eexecute_safe_transactions (wire relay_reply) copies signing (λ s. some (pos 4)) (0 ∷ [])
        relay_client replies (first_transaction ∷ [])).0

eexecute_safe_transactions-IsExchange_example :
    IsExchange copies
      (λ a. "0x")
      (λ r. "{}")
      plain
      (pos 12)
      relay_settings
      (wire relay_reply)
      signing
      (λ s. some (pos 4))
      (0 ∷ [])
      2
      safe_config
      replies
      exchanged
eexecute_safe_transactions-IsExchange_example =
    eexecute_safe_transactions-IsExchange copies (λ a. "0x") (λ r. "{}") plain (pos 12)
      relay_settings (wire relay_reply) signing (λ s. some (pos 4)) (0 ∷ []) relay_client replies
      (first_transaction ∷ []) true 2 safe_config refl refl

three_requests : length exchanged ≡ 3
unfolding eexecute_safe_transactions build_safe_transaction_request aggregate_transaction
    http_request_of
three_requests = refl

abbrev contracts : Contracts copies
contracts = record {
  collateral_token = 10;
  neg_risk_ctf_collateral_adapter = 11;
  ctf_collateral_adapter = 12;
}

abbrev packs : Calldata copies
packs = record {
  hex_to_address = λ s. 1;
  redeem_neg_risk = λ id ams. built (1 ∷ []);
  redeem = λ token id. built (2 ∷ []);
  split = λ token id z. built [];
  merge = λ token id z. built [];
  transfer = λ a z. built [];
  approve = λ a z. built [];
  contract_config = λ chain. some contracts;
  split_adapter = 13;
  split_adapter_neg_risk = 14;
}
