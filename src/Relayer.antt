-- ===== src/Relayer.antt =====
-- relayer/safe.go, relayer/utils.go and relayer/derive.go: the transactions of a Safe. Bytes are numbers;
-- addresses, Keccak, the ABI and the signing of a message are go-ethereum's, as an interface.
pub mod Calls
pub mod Packing
pub mod Execute
pub mod Orderly
pub mod Actions
use go_polymarket_sdk.Common.{
  ℕ, zero, suc, ◌+◌, ◌-◌, ◌*◌, ◌/◌, ◌%◌, Bool, true, false, ◌||◌, Option, none, some, String, List,
  [], ◌∷◌, ◌++◌, length, replicate, drop, ltb, ◌==◌, nat_eq, if◌then◌else◌,
}
use go_polymarket_sdk.Common.Int.{ℤ, pos, pos_part, neg_part}

pub record Ethereum : Type 1 where
  pub Address : Type 0
  pub address_bytes : Address → List ℕ
  pub bytes_to_address : List ℕ → Address
  pub zero_address : Address
  pub keccak256 : List ℕ → List ℕ
  -- `Pack("multiSend", …)`
  pub pack_multi_send : List ℕ → Option (List ℕ)

-- `Bytes` of a *big.Int: the digits of its absolute value, to the base 256 and without leading zeros.
-- A number has fewer digits than it counts, so that it is fuel enough for itself.
unfoldable pub digits : ℕ → ℕ → List ℕ
digits zero n = []
digits (suc fuel) zero = []
digits (suc fuel) (suc m) = digits fuel (suc m / 256) ++ suc m % 256 ∷ []

abbrev pub abs_value : ℤ → ℕ
abs_value z = pos_part z + neg_part z

abbrev pub big_bytes : ℤ → List ℕ
big_bytes z = digits (abs_value z) (abs_value z)

-- common.LeftPadBytes
abbrev pub left_pad : ℕ → List ℕ → List ℕ
left_pad n bs = replicate (n - length bs) 0 ++ bs

module _ (eth : Ethereum) where
  open eth use {Address, address_bytes, bytes_to_address, keccak256}

  pub record SafeTransaction : Type 0 where
    pub to : Address
    pub operation : ℕ
    pub data_bytes : List ℕ
    pub value : ℤ

  -- One transaction in the buffer of `CreateSafeMultisendTransaction`.
  unfoldable pub pack_transaction : SafeTransaction → List ℕ
  pack_transaction tx =
      tx.operation % 256
      ∷ (address_bytes tx.to
          ++ (left_pad 32 (big_bytes tx.value)
              ++ (left_pad 32 (big_bytes (pos (length tx.data_bytes))) ++ tx.data_bytes)))

  unfoldable pub pack_transactions : List SafeTransaction → List ℕ
  pack_transactions [] = []
  pack_transactions (tx ∷ txs) = pack_transaction tx ++ pack_transactions txs

  abbrev pub delegate_call : Address → Option (List ℕ) → Option SafeTransaction
  delegate_call to none = none
  delegate_call to (some packed) =
      some (record { to = to; operation = 1; data_bytes = packed; value = pos 0 })

  unfoldable pub create_safe_multisend_transaction :
      List SafeTransaction → Address → Option SafeTransaction
  create_safe_multisend_transaction txs multisend =
      delegate_call multisend (eth.pack_multi_send (pack_transactions txs))

  unfoldable pub aggregate_transaction : List SafeTransaction → Address → Option SafeTransaction
  aggregate_transaction (tx ∷ []) multisend = some tx
  aggregate_transaction txs multisend = create_safe_multisend_transaction txs multisend

  unfoldable pub get_create2_address : Address → List ℕ → List ℕ → Address
  get_create2_address deployer salt init_code =
      let init_code_hash = if ltb 32 (length init_code) then keccak256 init_code else init_code in
      bytes_to_address
        (drop 12 (keccak256 (255 ∷ (address_bytes deployer ++ (salt ++ init_code_hash)))))

  -- The two hashes of init codes are constants/constants.go's.
  unfoldable pub derive_proxy_wallet : List ℕ → Address → Address → Address
  derive_proxy_wallet init_code_hash address factory =
      get_create2_address factory (keccak256 (address_bytes address)) init_code_hash

  unfoldable pub derive_safe : List ℕ → Address → Address → Address
  derive_safe init_code_hash address factory =
      get_create2_address factory (keccak256 (replicate 12 0 ++ address_bytes address))
        init_code_hash

-- The last byte of a signature as the Safe's contract wants it; `none` is the error "invalid signature v
-- value" and the panic on an empty signature.
abbrev pub safe_v : ℕ → Option ℕ
safe_v v =
    if v == 0 || v == 1 then some (v + 31) else if v == 27 || v == 28 then some (v + 4) else none

abbrev pub cons_some : ℕ → Option (List ℕ) → Option (List ℕ)
cons_some b none = none
cons_some b (some bs) = some (b ∷ bs)

abbrev pub last_some : Option ℕ → Option (List ℕ)
last_some none = none
last_some (some v) = some (v ∷ [])

unfoldable pub with_safe_v : List ℕ → Option (List ℕ)
with_safe_v [] = none
with_safe_v (v ∷ []) = last_some (safe_v v)
with_safe_v (b ∷ (c ∷ bs)) = cons_some b (with_safe_v (c ∷ bs))
