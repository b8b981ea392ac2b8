-- ===== src/Relayer/Actions/Redeem.antt =====
-- relayer/relay_client.go: the transactions of RedeemBatch, and what is done with them.
use go_polymarket_sdk.Common.{ℕ, ◌≡◌, Bool, true, false, Option, String, List, [], map, nat_eq, ◌⊎◌}
use go_polymarket_sdk.Common.Int.{ℤ}
use go_polymarket_sdk.Wire.{Gjson}
use go_polymarket_sdk.Relayer.{Ethereum, SafeTransaction}
use go_polymarket_sdk.Relayer.Execute
use go_polymarket_sdk.Relayer.Execute.{
  SafeSigning, RelayClient, Replies, Requested, Executed, eexecute_safe_transactions,
}
use go_polymarket_sdk.Relayer.Actions.{Built, built, failed, panics, Contracts, Calldata}

-- The adapter that a condition's flag asks for.
abbrev pub adapter_of : {eth : Ethereum} → Contracts eth → Bool → eth.Address
adapter_of k true = k.neg_risk_ctf_collateral_adapter
adapter_of k false = k.ctf_collateral_adapter

abbrev pub targets : {eth : Ethereum} → List (SafeTransaction eth) → List eth.Address
targets txs = map (λ tx. tx.to) txs

-- `Pack` gives calldata or an error.
abbrev pub Packs : Built (List ℕ) → Type 0
Packs (built payload) = Unit
Packs failed = Unit
Packs panics = ⊥

module _ (eth : Ethereum) (cd : Calldata eth) (k : Contracts eth)
    (packs_neg_risk : (id : String) (ams : List (Option ℤ)) → Packs (cd.redeem_neg_risk id ams))
    (packs : (id : String) → Packs (cd.redeem k.collateral_token id)) where
  -- No panic, and where there are transactions, one goes to the adapter of each flag.
  abbrev pub GoesTo : List Bool → Built (List (SafeTransaction eth)) → Type 0
  GoesTo flags (built txs) = targets txs ≡ map (adapter_of k) flags
  GoesTo flags failed = Unit
  GoesTo flags panics = ⊥

  module _ {F : Type 0} (G : Gjson F) (ss : SafeSigning eth) (big_int : String → Option ℤ)
      (init : List ℕ) where
    -- An error without a request, or the execution of transactions to the adapters of the flags.
    abbrev pub IsRedeemed :
        RelayClient eth ss → Replies G → List Bool → List (Requested eth) × Executed G.Res → Type 0
    IsRedeemed c replies flags r =
        (r ≡ ([], Execute.failed))
        ⊎ ((txs : List (SafeTransaction eth)) × (targets txs ≡ map (adapter_of k) flags)
            × (r ≡ eexecute_safe_transactions G eth ss big_int init c replies txs))
