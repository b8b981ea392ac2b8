-- ===== src/Crypto.antt =====
-- utils/encryptor.go: the encryption of texts. A byte is a number below 256; SHA-256, AES in CBC
-- mode, hexadecimal text and the bytes of a text are the libraries', as an interface.
pub mod Roundtrip
use go_polymarket_sdk.Common.{
  ℕ, zero, suc, ◌+◌, ◌-◌, ◌%◌, ◌≡◌, Bool, true, false, not, Option, none, some, List, [], ◌∷◌, ◌++◌,
  length, take, replicate, ◌==◌, nat_eq, if◌then◌else◌, ltb,
}
use mathlib.Core.List.{reverse}

pub record CryptoLib : Type 1 where
  pub Text : Type 0
  pub bytes : Text → List ℕ
  pub text : List ℕ → Text
  pub sha256 : List ℕ → List ℕ
  -- `aes.NewCipher` accepts the key.
  pub accepts : List ℕ → Bool
  pub block_size : ℕ
  pub cbc_encrypt : List ℕ → List ℕ → List ℕ → List ℕ
  pub cbc_decrypt : List ℕ → List ℕ → List ℕ → List ℕ
  pub hex_encode : List ℕ → Text
  pub hex_decode : Text → Option (List ℕ)

pub data CryptoError : Type 0 where
  bad_key bad_hex bad_length bad_padding_size bad_padding : CryptoError

pub data Result (A : Type 0) : Type 0 where
  ok : A → Result A
  err : CryptoError → Result A

pub record Encryptor : Type 0 where
  pub key : List ℕ
  pub iv : List ℕ

unfoldable pub pkcs7_pad : ℕ → List ℕ → List ℕ
pkcs7_pad block bs =
    let padding = block - length bs % block in bs ++ replicate padding (padding % 256)

-- The loop of pkcs7Unpad: `n` bytes, from the last one on, are `padding`.
unfoldable pub ends_in : ℕ → ℕ → List ℕ → Bool
ends_in zero padding bs = true
ends_in (suc n) padding [] = true
ends_in (suc n) padding (b ∷ bs) =
    let rest = ends_in n padding bs in if not (b == padding) then false else rest

-- By the bytes from the last one on.
abbrev pub unpad_reversed : List ℕ → List ℕ → Result (List ℕ)
unpad_reversed [] bs = err bad_padding_size
unpad_reversed (padding ∷ rest) bs =
    if ltb (length bs) padding
    then err bad_padding
    else if ends_in padding padding (padding ∷ rest)
    then ok (take (length bs - padding) bs)
    else err bad_padding

unfoldable pub pkcs7_unpad : List ℕ → Result (List ℕ)
pkcs7_unpad bs = unpad_reversed (reverse bs) bs

module _ (lib : CryptoLib) where
  open lib use {
    Text, bytes, text, sha256, accepts, block_size, cbc_encrypt, cbc_decrypt, hex_encode,
    hex_decode,
  }

  unfoldable pub new_encryptor : Text → Encryptor
  new_encryptor password =
      let hash = sha256 (bytes password) in record { key = hash; iv = take 16 hash }

  unfoldable pub encrypt : Encryptor → Text → Result Text
  encrypt e t =
      if not (accepts e.key)
      then err bad_key
      else ok (hex_encode (cbc_encrypt e.key e.iv (pkcs7_pad block_size (bytes t))))

  abbrev pub as_text : Result (List ℕ) → Result Text
  as_text (err e) = err e
  as_text (ok bs) = ok (text bs)

  abbrev pub decrypt_bytes : Encryptor → Option (List ℕ) → Result Text
  decrypt_bytes e none = err bad_hex
  decrypt_bytes e (some bs) =
      if not (length bs % block_size == 0)
      then err bad_length
      else as_text (pkcs7_unpad (cbc_decrypt e.key e.iv bs))

  unfoldable pub decrypt : Encryptor → Text → Result Text
  decrypt e t = if not (accepts e.key) then err bad_key else decrypt_bytes e (hex_decode t)

-- What the libraries document: a key of 32 bytes is accepted, a block has 16 bytes, decryption and
-- decoding undo encryption and encoding, and encryption keeps the length.
pub record CryptoLaws (lib : CryptoLib) : Type 0 where
  pub text-bytes : (t : lib.Text) → lib.text (lib.bytes t) ≡ t
  pub length-sha256 : (bs : List ℕ) → length (lib.sha256 bs) ≡ 32
  pub accepts-key : (k : List ℕ) → length k ≡ 32 → lib.accepts k ≡ true
  pub block_lem : lib.block_size ≡ 16
  pub length-cbc_encrypt : (k iv bs : List ℕ) → length (lib.cbc_encrypt k iv bs) ≡ length bs
  pub cbc_decrypt-cbc_encrypt :
      (k iv bs : List ℕ) → length bs % 16 ≡ 0 → lib.cbc_decrypt k iv (lib.cbc_encrypt k iv bs) ≡ bs
  pub hex_decode-hex_encode : (bs : List ℕ) → lib.hex_decode (lib.hex_encode bs) ≡ some bs
