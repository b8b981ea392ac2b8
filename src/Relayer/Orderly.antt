-- ===== src/Relayer/Orderly.antt =====
-- relayer/safe.go and relayer/relay_client.go: what is signed and what is submitted.
use go_polymarket_sdk.Common.{
  ℕ, ◌≡◌, refl, ap, true, false, Option, none, some, String, List, [], ◌∷◌, ◌⊎◌, inl, inr,
  get_last?, ◌==◌, nat_eq, ◌||◌, Bool-cases, arith,
}
use go_polymarket_sdk.Common.Int.{ℤ}
use go_polymarket_sdk.Common.Maps.{value_or}
use go_polymarket_sdk.Wire.{Gjson}
use go_polymarket_sdk.Relayer.{
  Ethereum, SafeTransaction, aggregate_transaction, derive_safe, with_safe_v, safe_v, cons_some,
  last_some,
}
use go_polymarket_sdk.Relayer.Execute.{
  TransactionRequest, SafeTyped, SafeSigning, SafeContractConfig, Requested, deployed_of, nonce_of,
  submitted, panics, sign_typed_data, sign_digest, for_safe, typed_of, request_for,
  build_safe_transaction_request, RelayClient, Replies, on_submit, on_request, nonce_in,
  is_deployed, with_nonce, eexecute_safe_transactions,
}

abbrev pub EndsForSafe : Option (List ℕ) → Type 0
EndsForSafe none = Unit
EndsForSafe (some s) = (get_last? s ≡ some 31) ⊎ (get_last? s ≡ some 32)

abbrev IsSafeV : Option ℕ → Type 0
IsSafeV none = Unit
IsSafeV (some v) = (v ≡ 31) ⊎ (v ≡ 32)

safe_v-IsSafeV : (v : ℕ) → IsSafeV (safe_v v)
safe_v-IsSafeV v = elim (Bool-cases (v == 0 || v == 1)) [
  | inl e ↦ rw e (ground arith)
  | inr e ↦ elim (Bool-cases (v == 27 || v == 28)) [
    | inl f ↦ rw (e, f) (ground arith)
    | inr f ↦ rw (e, f) tt
  ]
]

last_some-EndsForSafe : (o : Option ℕ) → IsSafeV o → EndsForSafe (last_some o)
last_some-EndsForSafe none h = tt
last_some-EndsForSafe (some v) (inl e) = inl (ap some e)
last_some-EndsForSafe (some v) (inr e) = inr (ap some e)

cons_some-EndsForSafe : (b : ℕ) (o : Option (List ℕ)) → EndsForSafe o → EndsForSafe (cons_some b o)
cons_some-EndsForSafe b none h = tt
cons_some-EndsForSafe b (some []) (inl e) = absurd (ground (arith, e))
cons_some-EndsForSafe b (some []) (inr e) = absurd (ground (arith, e))
cons_some-EndsForSafe b (some (x ∷ xs)) h = h

with_safe_v-EndsForSafe : (s : List ℕ) → EndsForSafe (with_safe_v s)
unfolding with_safe_v
with_safe_v-EndsForSafe [] = tt
with_safe_v-EndsForSafe (v ∷ []) = last_some-EndsForSafe (safe_v v) (safe_v-IsSafeV v)
with_safe_v-EndsForSafe (b ∷ (c ∷ bs)) =
    cons_some-EndsForSafe b (with_safe_v (c ∷ bs)) (with_safe_v-EndsForSafe (c ∷ bs))

module _ (eth : Ethereum) (ss : SafeSigning eth) where
  -- A signature that SignTypedData gives ends in 31 or 32, by which the Safe's contract knows that the hash
  -- was signed as a message.
  pub sign_typed_data-EndsForSafe :
      (key : ss.Key) (typed : SafeTyped eth) → EndsForSafe (sign_typed_data eth ss key typed)
  unfolding sign_typed_data
  sign_typed_data-EndsForSafe key typed =
      go (sign_digest eth ss key (ss.domain_hash typed) (ss.message_hash typed))
    where
      go : (o : Option (List ℕ)) → EndsForSafe (for_safe eth ss o)
      go none = tt
      go (some s) = with_safe_v-EndsForSafe s

  -- BuildSafeTransactionRequest ignores an error of the signing: the request for a transaction that cannot be
  -- signed is made all the same, with an empty signature.
  pub request_for_unsigned :
      (init : List ℕ) (key : ss.Key) (from : eth.Address) (chain nonce : ℤ)
      (config : SafeContractConfig eth) (tx : SafeTransaction eth)
      → sign_typed_data eth ss key (typed_of eth ss init from chain nonce config tx) ≡ none
      → (request : TransactionRequest eth) × (build_safe_transaction_request eth ss init key from
            chain nonce config
            (tx ∷ [])
          ≡ some request)
        × (request.signature ≡ [])
  unfolding build_safe_transaction_request aggregate_transaction
  request_for_unsigned init key from chain nonce config tx fails = (
    record {
      from = from;
      to = tx.to;
      proxy_wallet = derive_safe eth init from config.safe_factory;
      data_bytes = tx.data_bytes;
      nonce = nonce;
      signature =
          value_or []
            (sign_typed_data eth ss key (typed_of eth ss init from chain nonce config tx));
      operation = tx.operation;
    },
    refl,
    ap (value_or []) fails,
  )

module _ {F : Type 0} (G : Gjson F) (eth : Ethereum) (ss : SafeSigning eth)
    (big_int : String → Option ℤ) (init : List ℕ) where
  -- The requests are the first few of these: whether the Safe is deployed, its owner's nonce, and the
  -- submission; what is submitted is for the owner and the Safe, after the server says that it is deployed,
  -- with the nonce that it gives.
  abbrev pub IsOrderly :
      eth.Address → SafeContractConfig eth → Replies G → List (Requested eth) → Type 0
  IsOrderly from config replies rs =
      let safe = derive_safe eth init from config.safe_factory in
      ((rs ≡ deployed_of safe ∷ []) × (is_deployed G eth ss big_int init replies.deployed ≡ false))
      ⊎ ((is_deployed G eth ss big_int init replies.deployed ≡ true)
          × ((rs ≡ deployed_of safe ∷ nonce_of from ∷ [])
              ⊎ ((request : TransactionRequest eth) × (rs
                    ≡ deployed_of safe ∷ nonce_of from ∷ submitted request ∷ [])
                  × (nonce_in G eth ss big_int init replies.nonce ≡ some request.nonce)
                  × (request.from ≡ from)
                  × (request.proxy_wallet ≡ safe))))

  abbrev AfterDeployed :
      eth.Address → SafeContractConfig eth → Replies G → List (Requested eth) → Type 0
  AfterDeployed from config replies rs =
      (rs ≡ [])
      ⊎ ((request : TransactionRequest eth) × (rs ≡ submitted request ∷ [])
          × (nonce_in G eth ss big_int init replies.nonce ≡ some request.nonce)
          × (request.from ≡ from)
          × (request.proxy_wallet ≡ derive_safe eth init from config.safe_factory))

  submits :
      (key : ss.Key) (from : eth.Address) (chain nonce : ℤ) (config : SafeContractConfig eth)
      (replies : Replies G) (o : Option (SafeTransaction eth))
      → nonce_in G eth ss big_int init replies.nonce ≡ some nonce
      → AfterDeployed from config replies
          (on_request G eth ss big_int init replies
            (request_for eth ss init key from chain nonce config o)).0
  submits key from chain nonce config replies none e = inl refl
  submits key from chain nonce config replies (some tx) e =
      inr (_, sent replies.submit _, e, refl, refl)
    where
      sent :
          (r : Option G.Res) (request : TransactionRequest eth)
          → (on_submit G eth ss big_int init request r).0 ≡ submitted request ∷ []
      sent none request = refl
      sent (some r) request = refl

  nonce-AfterDeployed :
      (key : ss.Key) (from : eth.Address) (chain : ℤ) (config : SafeContractConfig eth)
      (replies : Replies G) (txs : List (SafeTransaction eth)) (n : Option ℤ)
      → nonce_in G eth ss big_int init replies.nonce ≡ n
      → AfterDeployed from config replies
          (with_nonce G eth ss big_int init key from chain config replies txs n).0
  unfolding build_safe_transaction_request
  nonce-AfterDeployed key from chain config replies txs none e = inl refl
  nonce-AfterDeployed key from chain config replies txs (some n) e =
      submits key from chain n config replies (aggregate_transaction eth txs config.safe_multisend)
        e

  -- With a signer and settings, EexecuteSafeTransactions asks first whether the Safe is deployed, and then,
  -- where the server says that it is, for its owner's nonce; at most one request is submitted, after both: it
  -- is for the owner and the Safe, with the nonce that the server gave.
  pub eexecute_safe_transactions-IsOrderly :
      (c : RelayClient eth ss) (replies : Replies G) (txs : List (SafeTransaction eth))
      (key : ss.Key) (from : eth.Address) (config : SafeContractConfig eth)
      → c.signer ≡ some (key, from)
      → c.safe_contract_config ≡ some config
      → IsOrderly from config replies
          (eexecute_safe_transactions G eth ss big_int init c replies txs).0
  unfolding eexecute_safe_transactions
  eexecute_safe_transactions-IsOrderly c replies txs key from config s k =
      rw (s, k)
        (elim (Bool-cases (is_deployed G eth ss big_int init replies.deployed)) [
          | inr e ↦ rw e (inl (refl, refl))
          | inl e ↦ rw e (
              inr (
                refl,
                go _ (
                    nonce-AfterDeployed key from c.chain_id config replies txs
                      (nonce_in G eth ss big_int init replies.nonce) refl),
              ))
        ])
    where
      go :
          (rs : List (Requested eth))
          → AfterDeployed from config replies rs
          → let safe = derive_safe eth init from config.safe_factory in
            (deployed_of safe ∷ (nonce_of from ∷ rs) ≡ deployed_of safe ∷ nonce_of from ∷ [])
            ⊎ ((request : TransactionRequest eth) × (deployed_of safe ∷ (nonce_of from ∷ rs)
                  ≡ deployed_of safe ∷ nonce_of from ∷ submitted request ∷ [])
                × (nonce_in G eth ss big_int init replies.nonce ≡ some request.nonce)
                × (request.from ≡ from)
                × (request.proxy_wallet ≡ safe))
      go rs (inl e) = inl (rw e refl)
      go rs (inr (request, e, n, f, p)) = inr (request, rw e refl, n, f, p)

  -- The check for missing settings comes after they are used: without them EexecuteSafeTransactions panics
  -- before its first request.
  pub eexecute_safe_transactions_panics :
      (c : RelayClient eth ss) (replies : Replies G) (txs : List (SafeTransaction eth))
      (key : ss.Key) (from : eth.Address)
      → c.signer ≡ some (key, from)
      → c.safe_contract_config ≡ none
      → eexecute_safe_transactions G eth ss big_int init c replies txs ≡ ([], panics)
  unfolding eexecute_safe_transactions
  eexecute_safe_transactions_panics c replies txs key from s k = rw (s, k) refl
