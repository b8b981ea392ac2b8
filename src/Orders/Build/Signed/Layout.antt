-- ===== src/Orders/Build/Signed/Layout.antt =====
-- orders/order_builder_impl.go: what a signature of BuildOrderSignature1271 is made of.
use go_polymarket_sdk.Common.{
  ℕ, ◌+◌, ◌-◌, ◌*◌, ◌%◌, ◌<◌, ◌≡◌, refl, ap, ◌∙◌, List, [], ◌∷◌, ◌++◌, length, take, drop, arith,
  length-append, take_at, drop_past, drop-length-append,
}
use go_polymarket_sdk.Orders.Build.{EthLib}
use go_polymarket_sdk.Orders.Build.Signed.{
  TypedData, laid_out, two_bytes, text_bytes, order_type_string,
}

abbrev big_endian : List ℕ → ℕ
big_endian (a ∷ (b ∷ [])) = 256 * a + b
big_endian _ = 0

-- The inner signature, the separator, the hash of the contents and the type, read from the end.
pub record Parts : Type 0 where
  pub inner : List ℕ
  pub separator : List ℕ
  pub contents : List ℕ
  pub type : List ℕ

abbrev type_length : List ℕ → ℕ
type_length s = big_endian (drop (length s - 2) s)

abbrev inner_length : List ℕ → ℕ
inner_length s = length s - 2 - type_length s - 64

abbrev pub parts_of : List ℕ → Parts
parts_of s = record {
  inner = take (inner_length s) s;
  separator = take 32 (drop (inner_length s) s);
  contents = take 32 (drop (inner_length s + 32) s);
  type = take (type_length s) (drop (inner_length s + 64) s);
}

big_endian-two_bytes : (n : ℕ) → n < 65536 → big_endian (two_bytes n) ≡ n
big_endian-two_bytes n h = omega arith

Parts_path :
    {a a' b b' c c' d d' : List ℕ}
    → a ≡ a'
    → b ≡ b'
    → c ≡ c'
    → d ≡ d'
    → ◌≡◌ {A = Parts}
        (record { inner = a; separator = b; contents = c; type = d })
        (record { inner = a'; separator = b'; contents = c'; type = d' })
Parts_path p q r t = rw (p, q, r, t) refl

module _ (a b c d e : List ℕ) (hb : length b ≡ 32) (hc : length c ≡ 32) (he : length e ≡ 2)
    (end : big_endian e ≡ length d) where
  abbrev whole : List ℕ
  whole = a ++ (b ++ (c ++ (d ++ e)))

  whole-length : length whole ≡ length a + 64 + length d + 2
  whole-length = omega (
    arith,
    length-append a (b ++ (c ++ (d ++ e))),
    length-append b (c ++ (d ++ e)),
    length-append c (d ++ e),
    length-append d e,
  )

  past_contents : (k : ℕ) → drop (length a + 64 + k) whole ≡ drop k (d ++ e)
  past_contents k =
      drop_past a (b ++ (c ++ (d ++ e))) (length a + 64 + k) (64 + k) (omega arith)
      ∙ drop_past b (c ++ (d ++ e)) (64 + k) (32 + k) (omega arith)
      ∙ drop_past c (d ++ e) (32 + k) k (omega arith)

  last_two : length whole - 2 ≡ length a + 64 + length d
  last_two = omega (arith, whole-length)

  type_length-whole : type_length whole ≡ length d
  type_length-whole =
      ap (λ n. big_endian (drop n whole)) last_two
      ∙ ap big_endian (past_contents (length d) ∙ drop-length-append d e)
      ∙ end

  inner_length-whole : inner_length whole ≡ length a
  inner_length-whole = omega (arith, whole-length, type_length-whole)

  inner_end : inner_length whole + 64 ≡ length a + 64 + 0
  inner_end = omega (arith, inner_length-whole)

  parts_of-whole : parts_of whole ≡ record { inner = a; separator = b; contents = c; type = d }
  parts_of-whole =
      Parts_path (take_at (inner_length whole) a (b ++ (c ++ (d ++ e))) inner_length-whole)
        (ap (take 32) (
            drop_past a (b ++ (c ++ (d ++ e))) (inner_length whole) 0
              (omega (arith, inner_length-whole)))
          ∙ take_at 32 b (c ++ (d ++ e)) (omega arith))
        (ap (take 32) (
            drop_past a (b ++ (c ++ (d ++ e))) (inner_length whole + 32) 32
              (omega (arith, inner_length-whole))
            ∙ drop_past b (c ++ (d ++ e)) 32 0 (omega arith))
          ∙ take_at 32 c (d ++ e) (omega arith))
        (ap (take (type_length whole)) (ap (λ n. drop n whole) inner_end ∙ past_contents 0)
          ∙ take_at (type_length whole) d e type_length-whole)

module _ (eth : EthLib) (td : TypedData eth) where
  -- A wallet can take the signature apart from its end: where a hash has 32 bytes, the parts that it reads
  -- are the inner signature, the two hashes and the text of the order's type.
  pub parts_of-laid_out :
      (inner : List ℕ) (sep contents : eth.Hash)
      → length (td.hash_bytes sep) ≡ 32
      → length (td.hash_bytes contents) ≡ 32
      → parts_of (laid_out eth td inner sep contents) ≡ record {
        inner = inner;
        separator = td.hash_bytes sep;
        contents = td.hash_bytes contents;
        type = text_bytes order_type_string;
      }
  parts_of-laid_out inner sep contents hs hc =
      parts_of-whole inner (td.hash_bytes sep) (td.hash_bytes contents)
        (text_bytes order_type_string) (two_bytes (length (text_bytes order_type_string) % 65536))
        hs hc refl refl
