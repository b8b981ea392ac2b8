-- ===== src/Relayer/Actions.antt =====
-- relayer/relay_client.go: RedeemBatch, SplitTokens, MergeTokens, Transfer and Approve: the transactions that each
-- makes, and the call of EexecuteSafeTransactions with them. The calldata are packed by go-ethereum.
pub mod Redeem
use go_polymarket_sdk.Common.{
  ℕ, suc, Bool, true, false, not, ◌&&◌, ◌||◌, Option, none, some, String, List, [], ◌∷◌, length,
  get_elem?, ◌==◌, string_eq, nat_eq, if◌then◌else◌,
}
use go_polymarket_sdk.Common.Int.{ℤ, pos}
use go_polymarket_sdk.Decimals.{Decimal, parse_units}
use go_polymarket_sdk.Wire.{Gjson}
use go_polymarket_sdk.Relayer.{Ethereum, SafeTransaction}
use go_polymarket_sdk.Relayer.Execute
use go_polymarket_sdk.Relayer.Execute.{
  SafeSigning, RelayClient, Replies, Requested, Executed, eexecute_safe_transactions,
}

pub data Built {ℓ} (A : Type ℓ) : Type ℓ where
  built : A → Built A
  failed : Built A
  -- An index out of range, the settings of a chain that has none, or a panic of a `Pack`.
  panics : Built A

-- The contracts of a chain, as far as they are used here.
pub record Contracts (eth : Ethereum) : Type 0 where
  pub collateral_token : eth.Address
  pub neg_risk_ctf_collateral_adapter : eth.Address
  pub ctf_collateral_adapter : eth.Address

-- What go-ethereum and the contracts' bindings give: `failed` is an error of a `Pack`. An amount may be nil.
pub record Calldata (eth : Ethereum) : Type 0 where
  pub hex_to_address : String → eth.Address
  pub redeem_neg_risk : String → List (Option ℤ) → Built (List ℕ)
  pub redeem : eth.Address → String → Built (List ℕ)
  pub split : eth.Address → String → ℤ → Built (List ℕ)
  pub merge : eth.Address → String → ℤ → Built (List ℕ)
  pub transfer : eth.Address → ℤ → Built (List ℕ)
  pub approve : eth.Address → ℤ → Built (List ℕ)
  -- `GetContractConfig`, which gives nil for a chain that it does not know.
  pub contract_config : ℤ → Option (Contracts eth)
  -- The adapters of constants/constants.go.
  pub split_adapter : eth.Address
  pub split_adapter_neg_risk : eth.Address

module _ (eth : Ethereum) (cd : Calldata eth) where
  open cd use {hex_to_address, contract_config}

  abbrev pub call : eth.Address → List ℕ → SafeTransaction eth
  call to payload = record { to = to; operation = 0; data_bytes = payload; value = pos 0 }

  abbrev pub cons_call :
      eth.Address
      → Built (List ℕ)
      → Built (List (SafeTransaction eth))
      → Built (List (SafeTransaction eth))
  cons_call to failed rest = failed
  cons_call to panics rest = panics
  cons_call to (built payload) (built txs) = built (call to payload ∷ txs)
  cons_call to (built payload) failed = failed
  cons_call to (built payload) panics = panics

  -- The address of a nil contract is read behind `Pack`.
  abbrev pub cons_known :
      Option (Contracts eth)
      → (Contracts eth → eth.Address)
      → Built (List ℕ)
      → Built (List (SafeTransaction eth))
      → Built (List (SafeTransaction eth))
  cons_known contracts to failed rest = failed
  cons_known contracts to panics rest = panics
  cons_known none to (built payload) rest = panics
  cons_known (some k) to (built payload) rest = cons_call (to k) (built payload) rest

  abbrev pub redeem_one :
      Option (Contracts eth)
      → String
      → Option Bool
      → Option (List (Option ℤ))
      → Built (List (SafeTransaction eth))
      → Built (List (SafeTransaction eth))
  redeem_one contracts id none amounts rest = panics
  redeem_one contracts id (some true) none rest = panics
  redeem_one contracts id (some true) (some ams) rest =
      cons_known contracts (λ k. k.neg_risk_ctf_collateral_adapter) (cd.redeem_neg_risk id ams) rest
  redeem_one none id (some false) amounts rest = panics
  redeem_one (some k) id (some false) amounts rest =
      cons_call k.ctf_collateral_adapter (cd.redeem k.collateral_token id) rest

  -- The loop, from the index `i` on.
  unfoldable pub redeem_loop :
      Option (Contracts eth)
      → ℕ
      → List String
      → List Bool
      → List (List (Option ℤ))
      → Built (List (SafeTransaction eth))
  redeem_loop contracts i [] neg_risks amounts = built []
  redeem_loop contracts i (id ∷ ids) neg_risks amounts =
      redeem_one contracts id (get_elem? neg_risks i) (get_elem? amounts i)
        (redeem_loop contracts (suc i) ids neg_risks amounts)

  -- RedeemBatch until its transactions are made. A nil slice is `none`.
  unfoldable pub redeem_transactions :
      ℤ
      → Option (List String)
      → List Bool
      → List (List (Option ℤ))
      → Built (List (SafeTransaction eth))
  redeem_transactions chain none neg_risks amounts = failed
  redeem_transactions chain (some ids) neg_risks amounts =
      if not (length ids == length neg_risks) || not (length ids == length amounts)
      then failed
      else redeem_loop (contract_config chain) 0 ids neg_risks amounts

  abbrev pub one_call : eth.Address → Built (List ℕ) → Built (List (SafeTransaction eth))
  one_call to payload = cons_call to payload (built [])

  -- The collateral's address is read from the chain's contracts.
  abbrev pub with_collateral :
      Option (Contracts eth)
      → (eth.Address → Built (List (SafeTransaction eth)))
      → Built (List (SafeTransaction eth))
  with_collateral none f = panics
  with_collateral (some k) f = f k.collateral_token

  abbrev pub with_amount :
      Option ℤ → (ℤ → Built (List (SafeTransaction eth))) → Built (List (SafeTransaction eth))
  with_amount none f = failed
  with_amount (some z) f = f z

  abbrev pub adapter : Bool → eth.Address
  adapter true = cd.split_adapter_neg_risk
  adapter false = cd.split_adapter

  module _ {F : Type 0} (dec : Decimal F) where
    unfoldable pub split_transactions :
        ℤ → String → String → Bool → Built (List (SafeTransaction eth))
    split_transactions chain id amount neg_risk =
        if id == "" || amount == ""
        then failed
        else with_amount (parse_units dec amount (pos 6)) (λ z.
          with_collateral (contract_config chain)
            (λ token. one_call (adapter neg_risk) (cd.split token id z)))

    unfoldable pub merge_transactions :
        ℤ → String → String → Bool → Built (List (SafeTransaction eth))
    merge_transactions chain id amount neg_risk =
        if id == "" || amount == ""
        then failed
        else with_amount (parse_units dec amount (pos 6)) (λ z.
          with_collateral (contract_config chain)
            (λ token. one_call (adapter neg_risk) (cd.merge token id z)))

    unfoldable pub transfer_transactions :
        String → String → String → ℤ → Built (List (SafeTransaction eth))
    transfer_transactions token to amount decimals =
        with_amount (parse_units dec amount decimals)
          (λ z. one_call (hex_to_address token) (cd.transfer (hex_to_address to) z))

    unfoldable pub approve_transactions :
        String → String → String → ℤ → Built (List (SafeTransaction eth))
    approve_transactions token spender amount decimals =
        with_amount (parse_units dec amount decimals)
          (λ z. one_call (hex_to_address token) (cd.approve (hex_to_address spender) z))

module _ {F : Type 0} (G : Gjson F) (eth : Ethereum) (cd : Calldata eth) (ss : SafeSigning eth)
    (big_int : String → Option ℤ) (init : List ℕ) where
  -- The call of EexecuteSafeTransactions, where the transactions could be made.
  abbrev pub act :
      RelayClient eth ss
      → Replies G
      → Built (List (SafeTransaction eth))
      → List (Requested eth) × Executed G.Res
  act c replies (built txs) = eexecute_safe_transactions G eth ss big_int init c replies txs
  act c replies failed = ([], Execute.failed)
  act c replies panics = ([], Execute.panics)

  unfoldable pub redeem_batch :
      RelayClient eth ss
      → Replies G
      → Option (List String)
      → List Bool
      → List (List (Option ℤ))
      → List (Requested eth) × Executed G.Res
  redeem_batch c replies ids neg_risks amounts =
      act c replies (redeem_transactions eth cd c.chain_id ids neg_risks amounts)

  module _ (dec : Decimal F) (c : RelayClient eth ss) (replies : Replies G) where
    unfoldable pub split_tokens : String → String → Bool → List (Requested eth) × Executed G.Res
    split_tokens id amount neg_risk =
        act c replies (split_transactions eth cd dec c.chain_id id amount neg_risk)

    unfoldable pub merge_tokens : String → String → Bool → List (Requested eth) × Executed G.Res
    merge_tokens id amount neg_risk =
        act c replies (merge_transactions eth cd dec c.chain_id id amount neg_risk)

    unfoldable pub transfer : String → String → String → ℤ → List (Requested eth) × Executed G.Res
    transfer token to amount decimals =
        act c replies (transfer_transactions eth cd dec token to amount decimals)

    unfoldable pub approve : String → String → String → ℤ → List (Requested eth) × Executed G.Res
    approve token spender amount decimals =
        act c replies (approve_transactions eth cd dec token spender amount decimals)
