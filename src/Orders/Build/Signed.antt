-- ===== src/Orders/Build/Signed.antt =====
-- orders/order_builder_impl.go: the signature of an order. Typed data (EIP-712), the ABI encoding and
-- Keccak are libraries', as an interface; a signature and an encoding are lists of bytes.
pub mod Layout
pub mod Checks
pub mod Cached
use go_polymarket_sdk.Common.{
  ℕ, ◌+◌, ◌/◌, ◌%◌, Bool, true, false, not, Option, none, some, String, List, [], ◌∷◌, ◌++◌, length,
  ◌==◌, string_eq, nat_eq, if◌then◌else◌,
}
use Prim.Native.Char.{code}
use Prim.Native.String
use go_polymarket_sdk.Common.Int.{ℤ}
use go_polymarket_sdk.Common.Maps.{Map, empty, insert}
use go_polymarket_sdk.Orders.Signature.{Secp256k1, sign, validate_signature}
use go_polymarket_sdk.Orders.Signature
use go_polymarket_sdk.Orders.Build.{
  EthLib, Order, OrderData, VerifyingContract, build_order, get_verifying_contract_address,
  BuildError,
}
use go_polymarket_sdk.Orders.Build

abbrev pub poly_1271 : ℕ
poly_1271 = 3

-- The values that the typed data of an order are made of.
pub record TypedOrder : Type 0 where
  pub chain_id : String
  pub verifying_contract : String
  pub salt : ℤ
  pub maker : String
  pub signer : String
  pub token_id : ℤ
  pub maker_amount : ℤ
  pub taker_amount : ℤ
  pub side : ℤ
  pub signature_type : ℕ
  pub timestamp : ℤ

-- The curve on the addresses and hashes of the orders.
pub record Curve (eth : EthLib) : Type 1 where
  pub Key : Type 0
  pub sign_hash : eth.Hash → Key → Option (List ℕ)
  pub recover : eth.Hash → List ℕ → Option eth.Address
  pub address_of : Key → eth.Address
  pub same : eth.Address → eth.Address → Bool

pub record TypedData (eth : EthLib) : Type 0 where
  -- eip712.TypedDataAndHash, of an order and of the "TypedDataSign" around one; the two hashes are the
  -- order's metadata and its builder.
  pub order_hash : TypedOrder → eth.Hash → eth.Hash → Option eth.Hash
  pub nested_hash : TypedOrder → eth.Hash → eth.Hash → String → Option eth.Hash
  -- `Pack` of the domain and of the order, and Keccak256Hash of what is packed.
  pub pack_domain : ℤ → eth.Address → Option (List ℕ)
  pub pack_order : Order eth → Option (List ℕ)
  pub keccak : List ℕ → eth.Hash
  pub hash_bytes : eth.Hash → List ℕ

pub data SignedError : Type 0 where
  not_built : BuildError → SignedError
  no_contract hash_failed pack_failed signing_failed check_failed signature_error : SignedError

pub data Result {ℓ} (A : Type ℓ) : Type ℓ where
  ok : A → Result A
  err : SignedError → Result A

abbrev pub text_bytes : String → List ℕ
text_bytes String.[] = []
text_bytes (String.◌∷◌ c s) = code c ∷ text_bytes s

abbrev pub order_type_string : String
order_type_string =
    "Order(uint256 salt,address maker,address signer,uint256 tokenId,uint256 makerAmount,uint256 takerAmount,uint8 side,uint8 signatureType,uint256 timestamp,bytes32 metadata,bytes32 builder)"

-- `PutUint16`
abbrev pub two_bytes : ℕ → List ℕ
two_bytes n = n / 256 % 256 ∷ n % 256 ∷ []

module _ (eth : EthLib) where
  open eth use {Address, Hash, address_text, big_text}

  pub record SignedOrder : Type 0 where
    pub order : Order eth
    pub signature : List ℕ

  abbrev pub curve_of : Curve eth → Secp256k1
  curve_of ecc = record {
    Key = ecc.Key;
    Address = Address;
    Hash = Hash;
    sign_hash = ecc.sign_hash;
    recover = ecc.recover;
    address_of = ecc.address_of;
    same = ecc.same;
  }

  abbrev pub typed_order : ℤ → Address → Order eth → TypedOrder
  typed_order chain contract o = record {
    chain_id = big_text chain;
    verifying_contract = address_text contract;
    salt = o.salt;
    maker = address_text o.maker;
    signer = address_text o.signer;
    token_id = o.token_id;
    maker_amount = o.maker_amount;
    taker_amount = o.taker_amount;
    side = o.side;
    signature_type = o.signature_type;
    timestamp = o.timestamp;
  }

module _ (eth : EthLib) (td : TypedData eth) where
  -- The five parts, one behind the other.
  abbrev pub laid_out : List ℕ → eth.Hash → eth.Hash → List ℕ
  laid_out inner sep contents =
      let type = text_bytes order_type_string in
      inner
      ++ (td.hash_bytes sep
          ++ (td.hash_bytes contents ++ (type ++ two_bytes (length type % 65536))))

module _ (eth : EthLib) (ecc : Curve eth) (td : TypedData eth) (chain : ℤ) where
  open eth use {Address, Hash, address_text}

  abbrev pub hash_or_failed : Option Hash → Result Hash
  hash_or_failed none = err hash_failed
  hash_or_failed (some h) = ok h

  unfoldable pub build_order_hash : Order eth → VerifyingContract → Result Hash
  build_order_hash o contract = elim (get_verifying_contract_address eth chain contract) [
    | Build.err e ↦ err no_contract
    | Build.ok a ↦ hash_or_failed (td.order_hash (typed_order eth chain a o) o.metadata o.builder)
  ]

  abbrev pub enter_separator :
      String → Option (List ℕ) → Map String Hash → Map String Hash × Result Hash
  enter_separator key none seps = (seps, err pack_failed)
  enter_separator key (some packed) seps = let h = td.keccak packed in (insert key h seps, ok h)

  abbrev pub or_new_separator :
      Option Hash → Address → Map String Hash → Map String Hash × Result Hash
  or_new_separator (some h) contract seps = (seps, ok h)
  or_new_separator none contract seps =
      enter_separator (address_text contract) (td.pack_domain chain contract) seps

  unfoldable pub build_app_domain_sep : Address → Map String Hash → Map String Hash × Result Hash
  build_app_domain_sep contract seps = or_new_separator (seps (address_text contract)) contract seps

  -- The error of the signing is ignored; the signature is then empty.
  abbrev pub inner_signature : Signature.Result (List ℕ) → List ℕ
  inner_signature (Signature.ok s) = s
  inner_signature (Signature.err e) = []

  abbrev pub sign_nested : ecc.Key → Hash → Hash → Option Hash → Result (List ℕ)
  sign_nested key sep contents none = err hash_failed
  sign_nested key sep contents (some h) =
      ok (laid_out eth td (inner_signature (sign (curve_of eth ecc) key h)) sep contents)

  abbrev pub with_contents :
      ecc.Key → Order eth → Address → Hash → Option (List ℕ) → Result (List ℕ)
  with_contents key o a sep none = err pack_failed
  with_contents key o a sep (some packed) =
      sign_nested key sep (td.keccak packed)
        (td.nested_hash (typed_order eth chain a o) o.metadata o.builder (address_text o.signer))

  abbrev pub with_separator :
      ecc.Key
      → Order eth
      → Address
      → Map String Hash × Result Hash
      → Map String Hash × Result (List ℕ)
  with_separator key o a (seps, err e) = (seps, err e)
  with_separator key o a (seps, ok sep) = (seps, with_contents key o a sep (td.pack_order o))

  unfoldable pub build_order_signature_1271 :
      ecc.Key → Order eth → VerifyingContract → Map String Hash → Map String Hash × Result (List ℕ)
  build_order_signature_1271 key o contract seps =
      elim (get_verifying_contract_address eth chain contract) [
        | Build.err e ↦ (seps, err no_contract)
        | Build.ok a ↦ with_separator key o a (build_app_domain_sep a seps)
      ]

  -- The signature is checked before it is given.
  abbrev pub checked : Signature.Result Bool → List ℕ → Result (List ℕ)
  checked (Signature.err e) s = err check_failed
  checked (Signature.ok false) s = err signature_error
  checked (Signature.ok true) s = ok s

  abbrev pub check_signed : Address → Hash → Signature.Result (List ℕ) → Result (List ℕ)
  check_signed signer h (Signature.err e) = err signing_failed
  check_signed signer h (Signature.ok s) =
      checked (validate_signature (curve_of eth ecc) signer h s) s

  abbrev pub sign_hashed : ecc.Key → Address → Result Hash → Result (List ℕ)
  sign_hashed key signer (err e) = err e
  sign_hashed key signer (ok h) = check_signed signer h (sign (curve_of eth ecc) key h)

  unfoldable pub build_order_signature :
      ecc.Key → Order eth → VerifyingContract → Map String Hash → Map String Hash × Result (List ℕ)
  build_order_signature key o contract seps =
      if o.signature_type == poly_1271
      then build_order_signature_1271 key o contract seps
      else (seps, sign_hashed key o.signer (build_order_hash o contract))

  abbrev pub signed_with : Order eth → Result (List ℕ) → Result (SignedOrder eth)
  signed_with o (err e) = err e
  signed_with o (ok s) = ok (record { order = o; signature = s })

  abbrev pub sign_built :
      ecc.Key
      → VerifyingContract
      → Map String Hash
      → Build.Result (Order eth)
      → Map String Hash × Result (SignedOrder eth)
  sign_built key contract seps (Build.err e) = (seps, err (not_built e))
  sign_built key contract seps (Build.ok o) =
      let (seps', s) = build_order_signature key o contract seps in (seps', signed_with o s)

  unfoldable pub build_signed_order :
      ecc.Key
      → ℤ
      → ℤ
      → OrderData
      → VerifyingContract
      → Map String Hash
      → Map String Hash × Result (SignedOrder eth)
  build_signed_order key salt now d contract seps =
      sign_built key contract seps (build_order eth salt now d)
