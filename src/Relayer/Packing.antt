-- ===== src/Relayer/Packing.antt =====
-- relayer/safe.go: the packed transactions can be read back, as the multi-send contract does.
use go_polymarket_sdk.Common.{
  ℕ, zero, suc, ◌+◌, ◌-◌, ◌*◌, ◌/◌, ◌%◌, ◌^◌, ◌≤◌, ◌<◌, ◌≡◌, refl, ap, ◌∙◌, List, [], ◌∷◌, ◌++◌,
  map, length, take, drop, replicate, All, take_at, drop_past, length-append, length-replicate,
  drop-length-append, arith,
}
use native.Mathlib.Omega.{pow_step}
use mathlib.Core.List.{append_assoc}
use go_polymarket_sdk.Common.Int.{ℤ, pos}
use go_polymarket_sdk.Relayer.{
  Ethereum, SafeTransaction, digits, abs_value, big_bytes, left_pad, pack_transaction,
  pack_transactions,
}

-- The number that big-endian bytes stand for, behind those read before.
abbrev number_from : ℕ → List ℕ → ℕ
number_from acc [] = acc
number_from acc (b ∷ bs) = number_from (256 * acc + b) bs

number_from-append :
    (acc : ℕ) (bs : List ℕ) (b : ℕ) → number_from acc (bs ++ b ∷ []) ≡ 256 * number_from acc bs + b
number_from-append acc [] b = refl
number_from-append acc (c ∷ bs) b = number_from-append (256 * acc + c) bs b

number_from-replicate :
    (k : ℕ) (bs : List ℕ) → number_from 0 (replicate k 0 ++ bs) ≡ number_from 0 bs
number_from-replicate zero bs = refl
number_from-replicate (suc k) bs = number_from-replicate k bs

number_from-digits : (fuel n : ℕ) → n ≤ fuel → number_from 0 (digits fuel n) ≡ n
unfolding digits
number_from-digits zero n h = omega arith
number_from-digits (suc fuel) zero h = refl
number_from-digits (suc fuel) (suc m) h =
    number_from-append 0 (digits fuel (suc m / 256)) (suc m % 256)
    ∙ omega (arith, number_from-digits fuel (suc m / 256) (omega arith))

length-digits : (k fuel n : ℕ) → n < 256 ^ k → length (digits fuel n) ≤ k
unfolding digits
length-digits k zero n h = omega arith
length-digits k (suc fuel) zero h = omega arith
length-digits zero (suc fuel) (suc m) h = absurd (omega arith)
length-digits (suc k) (suc fuel) (suc m) h = omega (
  arith,
  length-append (digits fuel (suc m / 256)) (suc m % 256 ∷ []),
  length-digits k fuel (suc m / 256) (omega (arith, pow_step 256 k)),
)

-- 32 bytes of a number below 256 ^ 32.
length-left_pad : (k : ℕ) (bs : List ℕ) → length bs ≤ k → length (left_pad k bs) ≡ k
length-left_pad k bs h = omega (
  arith,
  length-append (replicate (k - length bs) 0) bs,
  length-replicate {A = ℕ} (k - length bs) 0,
)

module _ (z : ℤ) (h : abs_value z < 256 ^ 32) where
  length-word : length (left_pad 32 (big_bytes z)) ≡ 32
  length-word = length-left_pad 32 (big_bytes z) (length-digits 32 (abs_value z) (abs_value z) h)

  number-word : number_from 0 (left_pad 32 (big_bytes z)) ≡ abs_value z
  number-word =
      number_from-replicate (32 - length (big_bytes z)) (big_bytes z)
      ∙ number_from-digits (abs_value z) (abs_value z) (omega arith)

module _ (eth : Ethereum) where
  open eth use {Address, address_bytes}

  -- What the contract reads of a transaction: its operation, the bytes of its address, its value and its data.
  pub record Call : Type 0 where
    pub operation : ℕ
    pub to : List ℕ
    pub value : ℕ
    pub payload : List ℕ

  abbrev pub call_of : SafeTransaction eth → Call
  call_of tx = record {
    operation = tx.operation % 256;
    to = address_bytes tx.to;
    value = abs_value tx.value;
    payload = tx.data_bytes;
  }

  -- The transactions that fit into the packing: addresses of 20 bytes, and numbers of 32.
  abbrev pub Fits : SafeTransaction eth → Type 0
  Fits tx =
      (length (address_bytes tx.to) ≡ 20)
      × (abs_value tx.value < 256 ^ 32)
      × (length tx.data_bytes < 256 ^ 32)

  abbrev payload_length : List ℕ → ℕ
  payload_length bs = number_from 0 (take 32 (drop 52 bs))

  abbrev head_call : ℕ → List ℕ → Call
  head_call op bs = record {
    operation = op;
    to = take 20 bs;
    value = number_from 0 (take 32 (drop 20 bs));
    payload = take (payload_length bs) (drop 84 bs);
  }

  -- As many calls as there are, read one after the other.
  unfoldable pub read_calls : ℕ → List ℕ → List Call
  read_calls zero bs = []
  read_calls (suc n) [] = []
  read_calls (suc n) (op ∷ bs) = head_call op bs ∷ read_calls n (drop (84 + payload_length bs) bs)

  Call_path :
      {o : ℕ} {a a' : List ℕ} {v v' : ℕ} {d d' : List ℕ}
      → a ≡ a'
      → v ≡ v'
      → d ≡ d'
      → ◌≡◌ {A = Call}
          (record { operation = o; to = a; value = v; payload = d })
          (record { operation = o; to = a'; value = v'; payload = d' })
  Call_path p q r = rw (p, q, r) refl

module _ (a v l d rest : List ℕ) (ha : length a ≡ 20) (hv : length v ≡ 32) (hl : length l ≡ 32)
    (count : number_from 0 l ≡ length d) where
  abbrev body : List ℕ
  body = a ++ (v ++ (l ++ (d ++ rest)))

  past_length : (k : ℕ) → drop (84 + k) body ≡ drop k (d ++ rest)
  past_length k =
      drop_past a (v ++ (l ++ (d ++ rest))) (84 + k) (64 + k) (omega arith)
      ∙ drop_past v (l ++ (d ++ rest)) (64 + k) (32 + k) (omega arith)
      ∙ drop_past l (d ++ rest) (32 + k) k (omega arith)

  payload_length-body : number_from 0 (take 32 (drop 52 body)) ≡ length d
  payload_length-body =
      ap (λ bs. number_from 0 (take 32 bs))
        (drop_past a (v ++ (l ++ (d ++ rest))) 52 32 (omega arith)
          ∙ drop_past v (l ++ (d ++ rest)) 32 0 (omega arith))
      ∙ ap (number_from 0) (take_at 32 l (d ++ rest) (omega arith))
      ∙ count

  take-body : take 20 body ≡ a
  take-body = take_at 20 a (v ++ (l ++ (d ++ rest))) (omega arith)

  value-body : number_from 0 (take 32 (drop 20 body)) ≡ number_from 0 v
  value-body = ap (number_from 0) (
      ap (take 32) (drop_past a (v ++ (l ++ (d ++ rest))) 20 0 (omega arith))
      ∙ take_at 32 v (l ++ (d ++ rest)) (omega arith))

  payload-body : take (number_from 0 (take 32 (drop 52 body))) (drop 84 body) ≡ d
  payload-body =
      ap (take (number_from 0 (take 32 (drop 52 body)))) (past_length 0)
      ∙ take_at (number_from 0 (take 32 (drop 52 body))) d rest payload_length-body

  rest-body : drop (84 + number_from 0 (take 32 (drop 52 body))) body ≡ rest
  rest-body =
      past_length (number_from 0 (take 32 (drop 52 body)))
      ∙ ap (λ k. drop k (d ++ rest)) payload_length-body
      ∙ drop-length-append d rest

cons_path {ℓ} : {A : Type ℓ} {x y : A} {xs ys : List A} → x ≡ y → xs ≡ ys → x ∷ xs ≡ y ∷ ys
cons_path p q = rw (p, q) refl

packed_body :
    (a v l d rest : List ℕ) → (a ++ (v ++ (l ++ d))) ++ rest ≡ a ++ (v ++ (l ++ (d ++ rest)))
packed_body a v l d rest =
    append_assoc a (v ++ (l ++ d)) rest
    ∙ ap (λ x. a ++ x) (append_assoc v (l ++ d) rest ∙ ap (λ x. v ++ x) (append_assoc l d rest))

module _ (eth : Ethereum) where
  open eth use {address_bytes}

  -- The contract reads back from the packed transactions, where each fits, the operation, the address, the
  -- value and the data of every one of them, in their order.
  pub read_calls-pack_transactions :
      (txs : List (SafeTransaction eth))
      → All (Fits eth) txs
      → read_calls eth (length txs) (pack_transactions eth txs) ≡ map (call_of eth) txs
  unfolding read_calls pack_transactions pack_transaction
  read_calls-pack_transactions [] h = refl
  read_calls-pack_transactions (tx ∷ txs) ((ha, hv, hl), hs) =
      let a = address_bytes tx.to in
      let v = left_pad 32 (big_bytes tx.value) in
      let l = left_pad 32 (big_bytes (pos (length tx.data_bytes))) in
      let d = tx.data_bytes in
      let rest = pack_transactions eth txs in
      let wv = length-word tx.value hv in
      let wl = length-word (pos (length d)) (omega arith) in
      let count : number_from 0 l ≡ length d =
        number-word (pos (length d)) (omega arith) ∙ omega arith in
      rw (packed_body a v l d rest) (
        cons_path
          (Call_path eth (take-body a v l d rest ha wv wl count)
            (value-body a v l d rest ha wv wl count ∙ number-word tx.value hv)
            (payload-body a v l d rest ha wv wl count))
          (ap (read_calls eth (length txs)) (rest-body a v l d rest ha wv wl count)
            ∙ read_calls-pack_transactions txs hs))
