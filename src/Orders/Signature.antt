-- ===== src/Orders/Signature.antt =====
-- signature/signer.go: signing a hash, and the check of a signature. A signature is a list of bytes;
-- secp256k1 (go-ethereum's crypto) is an interface.
use go_polymarket_sdk.Common.{
  ℕ, zero, suc, ◌+◌, ◌-◌, ◌%◌, ◌≡◌, refl, ap, Bool, true, not, ◌&&◌, Option, none, some, List, [],
  ◌∷◌, length, ◌==◌, nat_eq, if◌then◌else◌, arith, ◌⊎◌, get_elem?,
}

pub record Secp256k1 : Type 1 where
  pub Key : Type 0
  pub Address : Type 0
  pub Hash : Type 0
  pub sign_hash : Hash → Key → Option (List ℕ)
  -- The address of the public key that Ecrecover finds.
  pub recover : Hash → List ℕ → Option Address
  pub address_of : Key → Address
  pub same : Address → Address → Bool

pub data SignError : Type 0 where
  sign_failed bad_length recover_failed : SignError

pub data Result (A : Type 0) : Type 0 where
  ok : A → Result A
  err : SignError → Result A

-- `s[i] = f(s[i])`, where there is such a byte.
abbrev pub update_at : ℕ → (ℕ → ℕ) → List ℕ → List ℕ
update_at i f [] = []
update_at zero f (b ∷ bs) = f b ∷ bs
update_at (suc i) f (b ∷ bs) = b ∷ update_at i f bs

-- `+= 27` and `-= 27` on a byte.
abbrev pub raise : ℕ → ℕ
raise v = (v + 27) % 256

abbrev pub lower : ℕ → ℕ
lower v = (v + 256 - 27) % 256

-- A recovery byte as Ecrecover wants it.
abbrev pub normal : ℕ → ℕ
normal v = if not (v == 0) && not (v == 1) then lower v else v

module _ (ecc : Secp256k1) where
  open ecc use {Key, Address, Hash, sign_hash, recover, address_of, same}

  abbrev pub signed : Option (List ℕ) → Result (List ℕ)
  signed none = err sign_failed
  signed (some s) = ok (update_at 64 raise s)

  unfoldable pub sign : Key → Hash → Result (List ℕ)
  sign key h = signed (sign_hash h key)

  abbrev pub compare_signer : Address → Option Address → Result Bool
  compare_signer signer none = err recover_failed
  compare_signer signer (some a) = ok (same signer a)

  unfoldable pub validate_signature : Address → Hash → List ℕ → Result Bool
  validate_signature signer h s =
      if not (length s == 65)
      then err bad_length
      else compare_signer signer (recover h (update_at 64 normal s))

-- What go-ethereum documents: a signature has 65 bytes, of which the last one is 0 or 1, and the
-- signer's address is recovered from it.
pub record Secp256k1Laws (ecc : Secp256k1) : Type 0 where
  pub signs : (h : ecc.Hash) (k : ecc.Key) → (s : List ℕ) × (ecc.sign_hash h k ≡ some s)
  pub length-sign_hash :
      (h : ecc.Hash) (k : ecc.Key) (s : List ℕ) → ecc.sign_hash h k ≡ some s → length s ≡ 65
  pub recovery_byte :
      (h : ecc.Hash) (k : ecc.Key) (s : List ℕ)
      → ecc.sign_hash h k ≡ some s
      → (get_elem? s 64 ≡ some 0) ⊎ (get_elem? s 64 ≡ some 1)
  pub recover-sign_hash :
      (h : ecc.Hash) (k : ecc.Key) (s : List ℕ)
      → ecc.sign_hash h k ≡ some s
      → ecc.recover h s ≡ some (ecc.address_of k)
  pub same_refl : (a : ecc.Address) → ecc.same a a ≡ true

length-update_at : (i : ℕ) (f : ℕ → ℕ) (s : List ℕ) → length (update_at i f s) ≡ length s
length-update_at i f [] = refl
length-update_at zero f (b ∷ bs) = refl
length-update_at (suc i) f (b ∷ bs) = ap suc (length-update_at i f bs)

-- Where the byte at a place is 0 or 1, making it normal undoes raising it, and changes nothing.
normal-raise :
    (i : ℕ) (s : List ℕ)
    → (get_elem? s i ≡ some 0) ⊎ (get_elem? s i ≡ some 1)
    → (update_at i normal (update_at i raise s) ≡ s) × (update_at i normal s ≡ s)
normal-raise i [] h = (refl, refl)
normal-raise zero (b ∷ bs) h = ground arith
normal-raise (suc i) (b ∷ bs) h = let (p, q) = normal-raise i bs h in (ap (◌∷◌ b) p, ap (◌∷◌ b) q)

module _ (ecc : Secp256k1) (laws : Secp256k1Laws ecc) where
  open ecc use {Key, Hash, sign_hash, address_of}

  -- With a curve library that does as documented, the signature that Sign makes is accepted by
  -- ValidateSignature for the signer's address, and so is the one with a recovery byte of 0 or 1
  -- that it is made from.
  pub validate_signature-sign :
      (k : Key) (h : Hash)
      → (s : List ℕ) × (raw : List ℕ) × (sign ecc k h ≡ ok s)
        × (validate_signature ecc (address_of k) h s ≡ ok true)
        × (sign_hash h k ≡ some raw)
        × (validate_signature ecc (address_of k) h raw ≡ ok true)
  unfolding sign validate_signature
  validate_signature-sign k h =
      let (raw, e) = laws.signs h k in
      let n = laws.length-sign_hash h k raw e in
      let (p, q) = normal-raise 64 raw (laws.recovery_byte h k raw e) in
      let r = laws.recover-sign_hash h k raw e in
      (
        update_at 64 raise raw,
        raw,
        rw e refl,
        rw (length-update_at 64 raise raw)
            (rw n (rw p (rw r (ap ok (laws.same_refl (address_of k)))))),
        e,
        rw n (rw q (rw r (ap ok (laws.same_refl (address_of k))))),
      )
