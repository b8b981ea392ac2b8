-- ===== src/Crypto/Roundtrip.antt =====
-- utils/encryptor.go: what is encrypted is decrypted to the same text, and which paddings pass.
use go_polymarket_sdk.Common.{
  ℕ, zero, suc, ◌-◌, ◌%◌, ◌≤◌, ◌<◌, ◌≡◌, refl, ap, ◌∙◌, true, some, List, [], ◌∷◌, ◌++◌, length,
  take, replicate, arith, length-append, length-replicate, take-length-append, le→not_ltb, nat_eq,
}
use native.Mathlib.Nat.{mod-lt}
use mathlib.Core.List.{reverse, reverse_aux, reverse-append}
use go_polymarket_sdk.Crypto.{
  CryptoLib, CryptoLaws, Encryptor, ok, pkcs7_pad, ends_in, pkcs7_unpad, new_encryptor, encrypt,
  decrypt, decrypt_bytes,
}

replicate_snoc : (n x : ℕ) (bs : List ℕ) → replicate n x ++ x ∷ bs ≡ x ∷ replicate n x ++ bs
replicate_snoc zero x bs = refl
replicate_snoc (suc n) x bs = ap (◌∷◌ x) (replicate_snoc n x bs)

reverse_aux-replicate :
    (n x : ℕ) (bs : List ℕ) → reverse_aux (replicate n x) bs ≡ replicate n x ++ bs
reverse_aux-replicate zero x bs = refl
reverse_aux-replicate (suc n) x bs = reverse_aux-replicate n x (x ∷ bs) ∙ replicate_snoc n x bs

append_nil : (bs : List ℕ) → bs ++ [] ≡ bs
append_nil [] = refl
append_nil (b ∷ bs) = ap (◌∷◌ b) (append_nil bs)

reverse-padded :
    (n x : ℕ) (bs : List ℕ) → reverse (bs ++ replicate n x) ≡ replicate n x ++ reverse bs
reverse-padded n x bs =
    reverse-append bs (replicate n x)
    ∙ ap (λ l. l ++ reverse bs) (reverse_aux-replicate n x [] ∙ append_nil (replicate n x))

ends_in-replicate : (n x : ℕ) (bs : List ℕ) → ends_in n x (replicate n x ++ bs) ≡ true
unfolding ends_in
ends_in-replicate zero x bs = refl
ends_in-replicate (suc n) x bs = ground (arith, ends_in-replicate n x bs)

take_padded :
    (bs pad : List ℕ) (n : ℕ) → length pad ≡ n → take (length (bs ++ pad) - n) (bs ++ pad) ≡ bs
take_padded bs pad n h =
    ap (λ k. take k (bs ++ pad)) {y = length bs} (omega (arith, length-append bs pad))
    ∙ take-length-append bs pad

unpad_lem : (k : ℕ) (bs : List ℕ) → pkcs7_unpad (bs ++ replicate (suc k) (suc k)) ≡ ok bs
unfolding pkcs7_unpad
unpad_lem k bs =
    let n = suc k in
    let padded = bs ++ replicate n n in
    let fits : n ≤ length padded =
      omega (arith, length-append bs (replicate n n), length-replicate n n) in
    rw (reverse-padded n n bs) (
      rw (le→not_ltb (length padded) n fits) (
        rw (ends_in-replicate n n (reverse bs))
          (ap ok (take_padded bs (replicate n n) n (length-replicate n n)))))

take-length : (bs : List ℕ) → take (length bs) bs ≡ bs
take-length [] = refl
take-length (b ∷ bs) = ap (◌∷◌ b) (take-length bs)

take_all : (bs : List ℕ) → take (length bs - 0) bs ≡ bs
take_all bs = ap (λ n. take n bs) {y = length bs} (omega arith) ∙ take-length bs

pad_size :
    (n block : ℕ)
    → 0 < block
    → block < 256
    → (k : ℕ) × (block - n % block ≡ suc k) × ((block - n % block) % 256 ≡ suc k)
pad_size n block h l =
    let below = mod-lt n h in
    let k = block - n % block - 1 in
    let e : block - n % block ≡ suc k = omega (arith, below) in (k, e, omega (arith, below))

-- Unpadding undoes padding, for every block size that a byte can count.
pub pkcs7_unpad-pkcs7_pad :
    (block : ℕ) (bs : List ℕ) → 0 < block → block < 256 → pkcs7_unpad (pkcs7_pad block bs) ≡ ok bs
unfolding pkcs7_pad
pkcs7_unpad-pkcs7_pad block bs h l =
    let (k, e, f) = pad_size (length bs) block h l in rw f (rw e (unpad_lem k bs))

length-pkcs7_pad : (bs : List ℕ) → length (pkcs7_pad 16 bs) % 16 ≡ 0
unfolding pkcs7_pad
length-pkcs7_pad bs =
    let n = 16 - length bs % 16 in
    omega (arith, length-append bs (replicate n (n % 256)), length-replicate n (n % 256))

-- The bug: a last byte 0, which no padding has, passes as a padding of no bytes, and so does a
-- padding that is longer than a block.
pub pkcs7_unpad_lax :
    (bs : List ℕ)
    → (pkcs7_unpad (bs ++ 0 ∷ []) ≡ ok (bs ++ 0 ∷ []))
      × (pkcs7_unpad (bs ++ replicate 17 17) ≡ ok bs)
unfolding pkcs7_unpad ends_in
pkcs7_unpad_lax bs = (
  rw (reverse-padded 1 0 bs)
      (rw (le→not_ltb (length (bs ++ 0 ∷ [])) 0 (omega arith)) (ap ok (take_all (bs ++ 0 ∷ [])))),
  unpad_lem 16 bs,
)

module _ (lib : CryptoLib) (laws : CryptoLaws lib) where
  open lib use {Text, bytes, text, block_size, cbc_encrypt, cbc_decrypt, hex_encode}

  decrypt_bytes-padded :
      (e : Encryptor) (bs : List ℕ)
      → decrypt_bytes lib e (some (cbc_encrypt e.key e.iv (pkcs7_pad 16 bs))) ≡ ok (text bs)
  decrypt_bytes-padded e bs =
      let padded = pkcs7_pad 16 bs in
      rw laws.block_lem (
        rw (laws.length-cbc_encrypt e.key e.iv padded) (
          rw (length-pkcs7_pad bs) (
            rw (laws.cbc_decrypt-cbc_encrypt e.key e.iv padded (length-pkcs7_pad bs))
              (rw (pkcs7_unpad-pkcs7_pad 16 bs (omega arith) (omega arith)) refl))))

  -- With libraries that do as documented, a text that an encryptor encrypts is decrypted to the
  -- same text by an encryptor of the same password, and neither fails.
  pub decrypt-encrypt :
      (password t : Text)
      → (secret : Text) × (encrypt lib (new_encryptor lib password) t ≡ ok secret)
        × (decrypt lib (new_encryptor lib password) secret ≡ ok t)
  unfolding new_encryptor encrypt decrypt
  decrypt-encrypt password t =
      let hash = lib.sha256 (bytes password) in
      let padded = pkcs7_pad block_size (bytes t) in
      let secret = cbc_encrypt hash (take 16 hash) padded in
      let a = laws.accepts-key hash (laws.length-sha256 (bytes password)) in
      (hex_encode secret, rw a refl, rw a (rw (laws.hex_decode-hex_encode secret) (opened hash)))
    where
      opened :
          (hash : List ℕ)
          → decrypt_bytes lib
              (record { key = hash; iv = take 16 hash })
              (some (cbc_encrypt hash (take 16 hash) (pkcs7_pad block_size (bytes t))))
            ≡ ok t
      opened hash =
          ap
            (λ n.
              decrypt_bytes lib (record { key = hash; iv = take 16 hash })
                (some (cbc_encrypt hash (take 16 hash) (pkcs7_pad n (bytes t)))))
            laws.block_lem
          ∙ decrypt_bytes-padded (record { key = hash; iv = take 16 hash }) (bytes t)
          ∙ ap ok (laws.text-bytes t)
