-- ===== src/Examples/Crypto.antt =====
-- Runs of utils/encryptor.go, with lists of bytes for texts and a cipher that exchanges neighbours.
use go_polymarket_sdk.Common.{
  ℕ, suc, ◌≡◌, refl, ap, some, List, [], ◌∷◌, length, replicate, nat_beq,
}
use go_polymarket_sdk.Crypto.{CryptoLib, CryptoLaws, new_encryptor, encrypt, decrypt, ok}
use go_polymarket_sdk.Crypto.Roundtrip.{decrypt-encrypt}

-- The values two by two exchanged.
abbrev swap : List ℕ → List ℕ
swap [] = []
swap (a ∷ []) = a ∷ []
swap (a ∷ (b ∷ bs)) = b ∷ a ∷ swap bs

swap-swap : (bs : List ℕ) → swap (swap bs) ≡ bs
swap-swap [] = refl
swap-swap (a ∷ []) = refl
swap-swap (a ∷ (b ∷ bs)) = ap (λ l. a ∷ b ∷ l) (swap-swap bs)

length-swap : (bs : List ℕ) → length (swap bs) ≡ length bs
length-swap [] = refl
length-swap (a ∷ []) = refl
length-swap (a ∷ (b ∷ bs)) = ap (λ n. suc (suc n)) (length-swap bs)

abbrev swapping : CryptoLib
swapping = record {
  Text = List ℕ;
  bytes = λ t. t;
  text = λ bs. bs;
  sha256 = λ bs. replicate 32 (length bs);
  accepts = λ k. nat_beq (length k) 32;
  block_size = 16;
  cbc_encrypt = λ k iv bs. swap bs;
  cbc_decrypt = λ k iv bs. swap bs;
  hex_encode = λ bs. 120 ∷ bs;
  hex_decode = λ t. elim t [ [] ↦ some [] | b ∷ bs ↦ some bs ];
}

swapping_laws : CryptoLaws swapping
swapping_laws = record {
  text-bytes = λ t. refl;
  length-sha256 = λ bs. refl;
  accepts-key = λ k h. rw h refl;
  block_lem = refl;
  length-cbc_encrypt = λ k iv bs. length-swap bs;
  cbc_decrypt-cbc_encrypt = λ k iv bs h. swap-swap bs;
  hex_decode-hex_encode = λ bs. refl;
}

decrypt-encrypt_example :
    (secret : List ℕ) × (encrypt swapping (new_encryptor swapping (1 ∷ 2 ∷ [])) (104 ∷ 105 ∷ [])
      ≡ ok secret)
    × (decrypt swapping (new_encryptor swapping (1 ∷ 2 ∷ [])) secret ≡ ok (104 ∷ 105 ∷ []))
decrypt-encrypt_example = decrypt-encrypt swapping swapping_laws (1 ∷ 2 ∷ []) (104 ∷ 105 ∷ [])
