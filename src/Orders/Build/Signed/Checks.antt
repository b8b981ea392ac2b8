-- ===== src/Orders/Build/Signed/Checks.antt =====
-- orders/order_builder_impl.go: which signatures BuildOrderSignature gives.
use go_polymarket_sdk.Common.{
  ℕ, ◌≡◌, refl, sym, ap, ◌∙◌, Bool, true, false, none, some, String, List, [], ◌==◌, nat_eq, arith,
}
use go_polymarket_sdk.Common.Int.{ℤ}
use go_polymarket_sdk.Common.Maps.{Map}
use go_polymarket_sdk.Orders.Signature.{
  sign, validate_signature, Secp256k1Laws, validate_signature-sign,
}
use go_polymarket_sdk.Orders.Signature
use go_polymarket_sdk.Orders.Build.{EthLib, Order, VerifyingContract}
use go_polymarket_sdk.Orders.Build.Signed.{
  Curve, TypedData, Result, ok, err, laid_out, build_order_hash, build_order_signature, curve_of,
  poly_1271, check_signed, sign_hashed, checked, sign_nested,
}

ok_inj {ℓ} : {A : Type ℓ} {a b : A} → ◌≡◌ {A = Result A} (ok a) (ok b) → a ≡ b
ok_inj e = cc

module _ (eth : EthLib) (ecc : Curve eth) (td : TypedData eth) (chain : ℤ) where
  -- The signature of an order that is not of POLY_1271 is one that ValidateSignature accepts for the order's
  -- signer and the order's hash.
  pub build_order_signature-validate_signature :
      (key : ecc.Key) (o : Order eth) (contract : VerifyingContract) (seps : Map String eth.Hash)
      (s : List ℕ)
      → (o.signature_type == poly_1271) ≡ false
      → (build_order_signature eth ecc td chain key o contract seps).1 ≡ ok s
      → (h : eth.Hash) × (build_order_hash eth ecc td chain o contract ≡ ok h)
        × (validate_signature (curve_of eth ecc) o.signer h s ≡ Signature.ok true)
  unfolding build_order_signature
  build_order_signature-validate_signature key o contract seps s other given =
      of_hash (build_order_hash eth ecc td chain o contract) (rw other at given)
    where
      of_check :
          (h : eth.Hash) (raw : List ℕ) (v : Signature.Result Bool)
          → validate_signature (curve_of eth ecc) o.signer h raw ≡ v
          → checked eth ecc td chain v raw ≡ ok s
          → validate_signature (curve_of eth ecc) o.signer h s ≡ Signature.ok true
      of_check h raw (Signature.err e) k g = absurd (ground (arith, g))
      of_check h raw (Signature.ok false) k g = absurd (ground (arith, g))
      of_check h raw (Signature.ok true) k g =
          ap (validate_signature (curve_of eth ecc) o.signer h) (sym (ok_inj g)) ∙ k

      of_sign :
          (h : eth.Hash) (r : Signature.Result (List ℕ))
          → check_signed eth ecc td chain o.signer h r ≡ ok s
          → validate_signature (curve_of eth ecc) o.signer h s ≡ Signature.ok true
      of_sign h (Signature.err e) g = absurd (ground (arith, g))
      of_sign h (Signature.ok raw) g =
          of_check h raw (validate_signature (curve_of eth ecc) o.signer h raw) refl g

      of_hash :
          (r : Result eth.Hash)
          → sign_hashed eth ecc td chain key o.signer r ≡ ok s
          → (h : eth.Hash) × (r ≡ ok h)
            × (validate_signature (curve_of eth ecc) o.signer h s ≡ Signature.ok true)
      of_hash (err e) g = absurd (ground (arith, g))
      of_hash (ok h) g = (h, refl, of_sign h (sign (curve_of eth ecc) key h) g)

  -- With a curve library that does as documented, a signer's own order that is not of POLY_1271 and that has a
  -- hash is signed without an error.
  pub build_order_signature_signs :
      (laws : Secp256k1Laws (curve_of eth ecc)) (key : ecc.Key) (o : Order eth)
      (contract : VerifyingContract) (seps : Map String eth.Hash) (h : eth.Hash)
      → (o.signature_type == poly_1271) ≡ false
      → o.signer ≡ ecc.address_of key
      → build_order_hash eth ecc td chain o contract ≡ ok h
      → (s : List ℕ) × (build_order_signature eth ecc td chain key o contract seps ≡ (seps, ok s))
  unfolding build_order_signature
  build_order_signature_signs laws key o contract seps h other own hashed =
      let (s, raw, signs, valid, bare, rest) =
        validate_signature-sign (curve_of eth ecc) laws key h in
      (s, rw (other, hashed, own, signs, valid) refl)

  -- BuildOrderSignature1271 ignores an error of the signing: the signature that it gives for an order with
  -- a hash then has no inner signature at all.
  pub sign_nested_ignores :
      (key : ecc.Key) (sep contents h : eth.Hash)
      → ecc.sign_hash h key ≡ none
      → sign_nested eth ecc td chain key sep contents (some h)
        ≡ ok (laid_out eth td [] sep contents)
  unfolding sign
  sign_nested_ignores key sep contents h fails = rw fails refl
