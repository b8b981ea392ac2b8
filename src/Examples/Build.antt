-- ===== src/Examples/Build.antt =====
-- Runs of the building of orders, and of signature/signer.go, on stand-ins for go-ethereum.
use go_polymarket_sdk.Common.{
  ℕ, ◌≡◌, refl, true, false, Option, none, some, String, List, [], ◌∷◌, ◌++◌, ◌==◌, string_eq,
  nat_eq, replicate, if◌then◌else◌, inr, arith,
}
use go_polymarket_sdk.Common.Int.{ℤ, pos, beq_ℤ}
use go_polymarket_sdk.Decimals.{
  already_within_scale, decimal_places, round_normal, round_down, round_up, parse_units,
}
use go_polymarket_sdk.Orders.{RoundConfig, gtd}
use go_polymarket_sdk.Orders.Amounts.{get_order_raw_amounts, corrected}
use go_polymarket_sdk.Orders.Signature.{
  Secp256k1, Secp256k1Laws, sign, validate_signature, ok as signed_ok, validate_signature-sign,
}
use go_polymarket_sdk.Orders.Build.{
  EthLib, OrderData, UserOrder, Order, units, build_order_creation_args, ok, build_order,
  order_to_dto,
}
use go_polymarket_sdk.Orders.Build.Sent.{expected, order_to_dto-build_order}
use go_polymarket_sdk.Examples.Values.{scaled}

-- A curve on which a signature is 64 bytes of the key and the recovery byte 1.
abbrev toy : Secp256k1
toy = record {
  Key = ℕ;
  Address = ℕ;
  Hash = ℕ;
  sign_hash = λ h k. some (replicate 64 k ++ 1 ∷ []);
  recover = λ h s. elim s [ [] ↦ none | k ∷ rest ↦ some k ];
  address_of = λ k. k;
  same = λ a b. a == b;
}

toy_same : (a : ℕ) → (a == a) ≡ true
toy_same a = ground arith

toy_raw :
    (k : ℕ) (s : List ℕ) → some (replicate 64 k ++ 1 ∷ []) ≡ some s → replicate 64 k ++ 1 ∷ [] ≡ s
toy_raw k s e = cc

toy_laws : Secp256k1Laws toy
toy_laws = record {
  signs = λ h k. (replicate 64 k ++ 1 ∷ [], refl);
  length-sign_hash = λ h k s e. rw (← toy_raw k s e) refl;
  recovery_byte = λ h k s e. rw (← toy_raw k s e) (inr refl);
  recover-sign_hash = λ h k s e. rw (← toy_raw k s e) refl;
  same_refl = toy_same;
}

validate_signature-sign_example :
    (s : List ℕ) × (raw : List ℕ) × (sign toy 7 9 ≡ signed_ok s)
    × (validate_signature toy 7 9 s ≡ signed_ok true)
    × (toy.sign_hash 9 7 ≡ some raw)
    × (validate_signature toy 7 9 raw ≡ signed_ok true)
validate_signature-sign_example = validate_signature-sign toy toy_laws 7 9

-- Numbers and their texts, as far as the runs have them.
abbrev shown : ℤ → String
shown z =
    if beq_ℤ z (pos 12_340_000) then "12340000" else if beq_ℤ z (pos 77) then "77" else "other"

abbrev read : String → Option ℤ
read s =
    if s == "12340000"
    then some (pos 12_340_000)
    else if s == "77"
    then some (pos 77)
    else if s == "5"
    then some (pos 5)
    else none

abbrev pub names : EthLib
names = record {
  Address = String;
  Hash = String;
  hex_to_address = λ s. s;
  address_text = λ a. a;
  hex_to_hash = λ s. s;
  hash_text = λ h. h;
  zero_hash = "0x00";
  big_int = read;
  big_text = shown;
  exchange = λ chain. "0xe";
  neg_risk_exchange = λ chain. "0xn";
}

abbrev pub wish : UserOrder ℕ
wish = record {
  token_id = "5";
  price = 567;
  size = 12_345;
  side = "BUY";
  metadata = none;
  builder_code = none;
  expiration = some "1700000000";
}

abbrev cents : RoundConfig
cents = record { price = 2; size = 2; amount = 4 }

in_units :
    (let raw = get_order_raw_amounts scaled "BUY" 12_345 567 cents in
      units scaled names raw.1 raw.2)
    ≡ some (pos 12_340_000, pos 12_340_000)
unfolding get_order_raw_amounts parse_units round_normal round_down corrected decimal_places
    already_within_scale round_up
in_units = refl

order_to_dto-build_order_example :
    (d : OrderData) × (b : Order names) × (build_order_creation_args scaled names
        (pos 77)
        "0xs"
        "0xm"
        0
        wish
        cents
      ≡ some d)
    × (build_order names (pos 1) (pos 78) d ≡ ok b)
    × ((order_to_dto names b "ab" "key" gtd false "0").order
        ≡ expected scaled names
            (pos 1)
            (pos 77)
            "0xs"
            "0xm"
            0
            wish
            (pos 5)
            (pos 12_340_000)
            (pos 12_340_000)
            "ab"
            "0")
order_to_dto-build_order_example =
    order_to_dto-build_order scaled names (pos 1) (pos 77) (pos 78) "0xs" "0xm" 0 wish cents (pos 5)
      (pos 12_340_000) (pos 12_340_000) "ab" "key" gtd false "0" in_units refl refl refl refl

abbrev pub built : Order names
built = record {
  salt = pos 1;
  maker = "0xm";
  signer = "0xs";
  token_id = pos 5;
  maker_amount = pos 12_340_000;
  taker_amount = pos 12_340_000;
  side = pos 0;
  signature_type = 0;
  timestamp = pos 77;
  metadata = "0x00";
  builder = "0x05218f8fe2ecac33c25ead880759a221303d7623f807be8b876a0bff9dd18b7c";
  expiration = "1700000000";
}
