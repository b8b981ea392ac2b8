-- ===== src/Relayer/Execute.antt =====
-- relayer/safe.go and relayer/relay_client.go: the request for a Safe's transactions, its signature, and the
-- requests that EexecuteSafeTransactions makes one after the other. A request holds addresses, bytes and
-- numbers where the SDK writes their texts; its headers are those of Relayer.Calls.
use go_polymarket_sdk.Common.{
  ℕ, Bool, false, Option, none, some, String, List, [], ◌∷◌, ◌++◌, nat_eq, if◌then◌else◌,
}
use go_polymarket_sdk.Common.Int.{ℤ}
use go_polymarket_sdk.Common.Maps.{value_or}
use go_polymarket_sdk.Wire.{Gjson}
use go_polymarket_sdk.Relayer.{
  Ethereum, SafeTransaction, aggregate_transaction, derive_safe, with_safe_v,
}

pub record TransactionRequest (eth : Ethereum) : Type 0 where
  pub from : eth.Address
  pub to : eth.Address
  pub proxy_wallet : eth.Address
  pub data_bytes : List ℕ
  pub nonce : ℤ
  pub signature : List ℕ
  pub operation : ℕ

-- What the typed data of a Safe's transaction are made of; gas and refund are zero.
pub record SafeTyped (eth : Ethereum) : Type 0 where
  pub chain_id : ℤ
  pub safe : eth.Address
  pub transaction : SafeTransaction eth
  pub nonce : ℤ

-- eip712's two `HashStruct`s, and `PersonalSign`.
pub record SafeSigning (eth : Ethereum) : Type 1 where
  pub Key : Type 0
  pub domain_hash : SafeTyped eth → Option (List ℕ)
  pub message_hash : SafeTyped eth → Option (List ℕ)
  pub personal_sign : Key → List ℕ → Option (List ℕ)

pub record SafeContractConfig (eth : Ethereum) : Type 0 where
  pub safe_factory : eth.Address
  pub safe_multisend : eth.Address

pub data Requested (eth : Ethereum) : Type 0 where
  deployed_of : eth.Address → Requested eth
  nonce_of : eth.Address → Requested eth
  submitted : TransactionRequest eth → Requested eth

pub data Executed (R : Type 0) : Type 0 where
  answered : R → Executed R
  failed : Executed R
  panics : Executed R

module _ (eth : Ethereum) (ss : SafeSigning eth) where
  open eth use {Address, keccak256}
  open ss use {Key, domain_hash, message_hash, personal_sign}

  abbrev pub sign_digest : Key → Option (List ℕ) → Option (List ℕ) → Option (List ℕ)
  sign_digest key none message = none
  sign_digest key (some domain) none = none
  sign_digest key (some domain) (some message) =
      personal_sign key (keccak256 (25 ∷ (1 ∷ (domain ++ message))))

  abbrev pub for_safe : Option (List ℕ) → Option (List ℕ)
  for_safe none = none
  for_safe (some s) = with_safe_v s

  unfoldable pub sign_typed_data : Key → SafeTyped eth → Option (List ℕ)
  sign_typed_data key typed = for_safe (sign_digest key (domain_hash typed) (message_hash typed))

  abbrev pub typed_of :
      List ℕ → Address → ℤ → ℤ → SafeContractConfig eth → SafeTransaction eth → SafeTyped eth
  typed_of init from chain nonce config tx = record {
    chain_id = chain;
    safe = derive_safe eth init from config.safe_factory;
    transaction = tx;
    nonce = nonce;
  }

  abbrev pub request_for :
      List ℕ
      → Key
      → Address
      → ℤ
      → ℤ
      → SafeContractConfig eth
      → Option (SafeTransaction eth)
      → Option (TransactionRequest eth)
  request_for init key from chain nonce config none = none
  request_for init key from chain nonce config (some tx) = some (record {
    from = from;
    to = tx.to;
    proxy_wallet = derive_safe eth init from config.safe_factory;
    data_bytes = tx.data_bytes;
    nonce = nonce;
    signature = value_or [] (sign_typed_data key (typed_of init from chain nonce config tx));
    operation = tx.operation;
  })

  -- `init` is the hash of the Safe's init code. An error of the signing is ignored.
  unfoldable pub build_safe_transaction_request :
      List ℕ
      → Key
      → Address
      → ℤ
      → ℤ
      → SafeContractConfig eth
      → List (SafeTransaction eth)
      → Option (TransactionRequest eth)
  build_safe_transaction_request init key from chain nonce config txs =
      request_for init key from chain nonce config
        (aggregate_transaction eth txs config.safe_multisend)

  pub record RelayClient : Type 0 where
    pub chain_id : ℤ
    pub signer : Option (Key × Address)
    pub safe_contract_config : Option (SafeContractConfig eth)

-- The server's replies to the three requests; `none` is an error.
pub record Replies {F : Type 0} (G : Gjson F) : Type 0 where
  pub deployed : Option G.Res
  pub nonce : Option G.Res
  pub submit : Option G.Res

module _ {F : Type 0} (G : Gjson F) (eth : Ethereum) (ss : SafeSigning eth)
    (big_int : String → Option ℤ) (init : List ℕ) where
  abbrev pub on_submit :
      TransactionRequest eth → Option G.Res → List (Requested eth) × Executed G.Res
  on_submit request none = (submitted request ∷ [], failed)
  on_submit request (some r) = (submitted request ∷ [], answered r)

  abbrev pub on_request :
      Replies G → Option (TransactionRequest eth) → List (Requested eth) × Executed G.Res
  on_request replies none = ([], failed)
  on_request replies (some request) = on_submit request replies.submit

  abbrev pub after :
      Requested eth → List (Requested eth) × Executed G.Res → List (Requested eth) × Executed G.Res
  after r (rs, result) = (r ∷ rs, result)

  abbrev pub nonce_in : Option G.Res → Option ℤ
  nonce_in none = none
  nonce_in (some r) = big_int (G.string (G.get r "nonce"))

  abbrev pub is_deployed : Option G.Res → Bool
  is_deployed none = false
  is_deployed (some r) = G.boolean (G.get r "deployed")

  abbrev pub with_nonce :
      ss.Key
      → eth.Address
      → ℤ
      → SafeContractConfig eth
      → Replies G
      → List (SafeTransaction eth)
      → Option ℤ
      → List (Requested eth) × Executed G.Res
  with_nonce key from chain config replies txs none = ([], failed)
  with_nonce key from chain config replies txs (some nonce) =
      on_request replies
        (build_safe_transaction_request eth ss init key from chain nonce config txs)

  -- The settings are read for the Safe's address, before they are checked.
  abbrev pub execute_for :
      ℤ
      → SafeContractConfig eth
      → Replies G
      → List (SafeTransaction eth)
      → ss.Key
      → eth.Address
      → List (Requested eth) × Executed G.Res
  execute_for chain config replies txs key from =
      after (deployed_of (derive_safe eth init from config.safe_factory)) (
        if is_deployed replies.deployed
        then after (nonce_of from)
            (with_nonce key from chain config replies txs (nonce_in replies.nonce))
        else ([], failed))

  abbrev pub execute_with :
      Option (ss.Key × eth.Address)
      → Option (SafeContractConfig eth)
      → ℤ
      → Replies G
      → List (SafeTransaction eth)
      → List (Requested eth) × Executed G.Res
  execute_with none config chain replies txs = ([], failed)
  execute_with (some (key, from)) none chain replies txs = ([], panics)
  execute_with (some (key, from)) (some config) chain replies txs =
      execute_for chain config replies txs key from

  unfoldable pub eexecute_safe_transactions :
      RelayClient eth ss
      → Replies G
      → List (SafeTransaction eth)
      → List (Requested eth) × Executed G.Res
  eexecute_safe_transactions c replies txs =
      execute_with c.signer c.safe_contract_config c.chain_id replies txs
