-- ===== src/Orders/Build/Signed/Cached.antt =====
-- orders/order_builder_impl.go: the builder's cache of domain separators.
use go_polymarket_sdk.Common.{
  ℕ, ◌≡◌, refl, sym, ap, ◌∙◌, Option, none, some, String, List, [], ◌∷◌, map, ◌==◌, nat_eq,
  string_eq, Bool-cases, Option-cases, inl, inr,
}
use mathlib.Core.Path.{ap₂}
use text.Mathlib.TextEquality.{eq_iff}
use go_polymarket_sdk.Common.Int.{ℤ}
use go_polymarket_sdk.Common.Maps.{Map, empty, insert}
use go_polymarket_sdk.Orders.Build.{
  EthLib, Order, VerifyingContract, ctf_exchange, neg_risk_ctf_exchange, other_contract,
  get_verifying_contract_address,
}
use go_polymarket_sdk.Orders.Build.Signed.{
  Curve, TypedData, Result, ok, err, enter_separator, or_new_separator, build_app_domain_sep,
  build_order_signature, build_order_signature_1271, with_separator, with_contents, poly_1271,
}

some_inj {ℓ} : {A : Type ℓ} {a b : A} → ◌≡◌ {A = Option A} (some a) (some b) → a ≡ b
some_inj e = cc

module _ (eth : EthLib) (ecc : Curve eth) (td : TypedData eth) (chain : ℤ) where
  open eth use {Hash}

  abbrev pub signature_of :
      Map String Hash → ecc.Key × Order eth × VerifyingContract → Map String Hash × Result (List ℕ)
  signature_of seps (key, o, contract) = build_order_signature eth ecc td chain key o contract seps

  -- One builder signs the orders one after the other.
  unfoldable pub signatures :
      List (ecc.Key × Order eth × VerifyingContract) → Map String Hash → List (Result (List ℕ))
  signatures [] seps = []
  signatures (job ∷ jobs) seps = let (seps', s) = signature_of seps job in s ∷ signatures jobs seps'

module _ (eth : EthLib) (ecc : Curve eth) (td : TypedData eth) (chain : ℤ)
    (text_injective : (a b : eth.Address) → eth.address_text a ≡ eth.address_text b → a ≡ b) where
  open eth use {Address, Hash, address_text}

  -- What is entered for an address is the separator of its domain.
  abbrev pub IsCache : Map String Hash → Type 0
  IsCache seps =
      (a : Address) (h : Hash)
      → seps (address_text a) ≡ some h
      → (packed : List ℕ) × (td.pack_domain chain a ≡ some packed) × (h ≡ td.keccak packed)

  -- A separator that was entered is found.
  inserted-IsCache :
      (a : Address) (packed : List ℕ) (seps : Map String Hash)
      → td.pack_domain chain a ≡ some packed
      → IsCache seps
      → IsCache (insert (address_text a) (td.keccak packed) seps)
  inserted-IsCache a packed seps p k b h e = elim (Bool-cases (address_text a == address_text b)) [
    | inl t ↦ (
      packed,
      ap (td.pack_domain chain)
            (sym (text_injective a b ((eq_iff (address_text a) (address_text b)).0 t)))
          ∙ p,
      some_inj (sym (rw t at e)),
    )
    | inr f ↦ k b h (rw f at e)
  ]

  enter-IsCache :
      (a : Address) (o : Option (List ℕ)) (seps : Map String Hash)
      → td.pack_domain chain a ≡ o
      → IsCache seps
      → IsCache (enter_separator eth ecc td chain (address_text a) o seps).0
  enter-IsCache a none seps p k = k
  enter-IsCache a (some packed) seps p k = inserted-IsCache a packed seps p k

  found-IsCache :
      (a : Address) (o : Option Hash) (seps : Map String Hash)
      → IsCache seps
      → IsCache (or_new_separator eth ecc td chain o a seps).0
  found-IsCache a none seps k = enter-IsCache a (td.pack_domain chain a) seps refl k
  found-IsCache a (some h) seps k = k

  sep-IsCache :
      (a : Address) (seps : Map String Hash)
      → IsCache seps
      → IsCache (build_app_domain_sep eth ecc td chain a seps).0
  unfolding build_app_domain_sep
  sep-IsCache a seps k = found-IsCache a (seps (address_text a)) seps k

  enter_any :
      (key : String) (o : Option (List ℕ)) (seps : Map String Hash)
      → (enter_separator eth ecc td chain key o seps).1
        ≡ (enter_separator eth ecc td chain key o empty).1
  enter_any key none seps = refl
  enter_any key (some packed) seps = refl

  -- The separator does not depend on the cache.
  sep-empty :
      (a : Address) (seps : Map String Hash)
      → IsCache seps
      → (build_app_domain_sep eth ecc td chain a seps).1
        ≡ (build_app_domain_sep eth ecc td chain a empty).1
  unfolding build_app_domain_sep
  sep-empty a seps k = elim (Option-cases (seps (address_text a))) [
    | inl e ↦ rw e (enter_any (address_text a) (td.pack_domain chain a) seps)
    | inr (h, e) ↦ (let (packed, p, same) = k a h e in rw (e, p, same) refl)
  ]

  abbrev of_separator : ecc.Key → Order eth → Address → Result Hash → Result (List ℕ)
  of_separator key o a (err e) = err e
  of_separator key o a (ok sep) = with_contents eth ecc td chain key o a sep (td.pack_order o)

  separated :
      (key : ecc.Key) (o : Order eth) (a : Address) (seps : Map String Hash) (r : Result Hash)
      → with_separator eth ecc td chain key o a (seps, r) ≡ (seps, of_separator key o a r)
  separated key o a seps (err e) = refl
  separated key o a seps (ok sep) = refl

  -- A signature for the contract at `a`.
  cached_at :
      (key : ecc.Key) (o : Order eth) (a : Address) (seps : Map String Hash)
      → IsCache seps
      → ((with_separator eth ecc td chain key o a (build_app_domain_sep eth ecc td chain a seps)).1
          ≡ (with_separator eth ecc td chain key o a
              (build_app_domain_sep eth ecc td chain a empty)).1)
        × IsCache
            (with_separator eth ecc td chain key o a
              (build_app_domain_sep eth ecc td chain a seps)).0
  cached_at key o a seps k =
      rw
        (
          separated key o a (build_app_domain_sep eth ecc td chain a seps).0
              (build_app_domain_sep eth ecc td chain a seps).1,
          separated key o a (build_app_domain_sep eth ecc td chain a empty).0
              (build_app_domain_sep eth ecc td chain a empty).1,
        )
        (ap (of_separator key o a) (sep-empty a seps k), sep-IsCache a seps k)

  signed_1271 :
      (key : ecc.Key) (o : Order eth) (contract : VerifyingContract) (seps : Map String Hash)
      → IsCache seps
      → ((build_order_signature_1271 eth ecc td chain key o contract seps).1
          ≡ (build_order_signature_1271 eth ecc td chain key o contract empty).1)
        × IsCache (build_order_signature_1271 eth ecc td chain key o contract seps).0
  unfolding build_order_signature_1271 get_verifying_contract_address
  signed_1271 key o ctf_exchange seps k = cached_at key o (eth.exchange chain) seps k
  signed_1271 key o neg_risk_ctf_exchange seps k =
      cached_at key o (eth.neg_risk_exchange chain) seps k
  signed_1271 key o (other_contract n) seps k = (refl, k)

  signed-cached :
      (job : ecc.Key × Order eth × VerifyingContract) (seps : Map String Hash)
      → IsCache seps
      → ((signature_of eth ecc td chain seps job).1 ≡ (signature_of eth ecc td chain empty job).1)
        × IsCache (signature_of eth ecc td chain seps job).0
  unfolding build_order_signature
  signed-cached (key, o, contract) seps k = elim (Bool-cases (o.signature_type == poly_1271)) [
    | inl e ↦ rw e (signed_1271 key o contract seps k)
    | inr e ↦ rw e (refl, k)
  ]

  signatures-IsCache :
      (jobs : List (ecc.Key × Order eth × VerifyingContract)) (seps : Map String Hash)
      → IsCache seps
      → signatures eth ecc td chain jobs seps
        ≡ map (λ job. (signature_of eth ecc td chain empty job).1) jobs
  unfolding signatures
  signatures-IsCache [] seps k = refl
  signatures-IsCache (job ∷ jobs) seps k =
      let (same, k') = signed-cached job seps k in
      ap₂ (λ s ss. s ∷ ss) same
        (signatures-IsCache jobs (signature_of eth ecc td chain seps job).0 k')

  -- However many orders a new builder signs, for whatever contracts, each gets the signature that a builder of
  -- its own would give it: addresses that differ have different texts.
  pub signatures-fresh :
      (jobs : List (ecc.Key × Order eth × VerifyingContract))
      → signatures eth ecc td chain jobs empty
        ≡ map (λ job. (signature_of eth ecc td chain empty job).1) jobs
  signatures-fresh jobs = signatures-IsCache jobs empty (λ a h e. absurd (cc))
