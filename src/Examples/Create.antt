-- ===== src/Examples/Create.antt =====
-- Runs of CreateOrder and of the signatures of orders.
use go_polymarket_sdk.Common.{
  ℕ, ◌≡◌, refl, true, none, some, String, List, [], ◌∷◌, ◌++◌, replicate, ◌==◌, nat_eq, string_eq,
  map, Option,
}
use go_polymarket_sdk.Common.Int.{pos}
use go_polymarket_sdk.Common.Maps.{empty}
use go_polymarket_sdk.Wire.{Json, obj, field, str, end}
use go_polymarket_sdk.Orders.Build.{ctf_exchange}
use go_polymarket_sdk.Orders.Build.Signed.{
  Curve, TypedData, laid_out, text_bytes, order_type_string,
}
use go_polymarket_sdk.Orders.Build.Signed.Layout.{parts_of, parts_of-laid_out}
use go_polymarket_sdk.Orders.Build.Signed.Cached.{signature_of, signatures, signatures-fresh}
use go_polymarket_sdk.Orders.Build.{Order, VerifyingContract, neg_risk_ctf_exchange}
use go_polymarket_sdk.Client.Create.{CreateOrderOptions, OrderConfig, Outside}
use go_polymarket_sdk.Market.{Book}
use go_polymarket_sdk.Orders.{market_fok}
use go_polymarket_sdk.Orders.Build.{UserMarketOrder}
use go_polymarket_sdk.Examples.Values.{wire}
use go_polymarket_sdk.Examples.Build.{names, built}

-- Keys and addresses are texts; a signature is 64 bytes and the recovery byte 1.
abbrev text_curve : Curve names
text_curve = record {
  Key = String;
  sign_hash = λ h k. some (replicate 64 7 ++ 1 ∷ []);
  recover = λ h s. some "0xs";
  address_of = λ k. "0xs";
  same = λ a b. a == b;
}

abbrev text_data : TypedData names
text_data = record {
  order_hash = λ o metadata builder. some "hash";
  nested_hash = λ o metadata builder wallet. some "nested";
  pack_domain = λ chain a. some [];
  pack_order = λ o. some [];
  keccak = λ bs. "keccak";
  hash_bytes = λ h. replicate 32 9;
}

parts_of-laid_out_example : parts_of (laid_out names text_data (1 ∷ 2 ∷ []) "a" "b") ≡ record {
  inner = 1 ∷ 2 ∷ [];
  separator = replicate 32 9;
  contents = replicate 32 9;
  type = text_bytes order_type_string;
}
parts_of-laid_out_example = parts_of-laid_out names text_data (1 ∷ 2 ∷ []) "a" "b" refl refl

abbrev config : OrderConfig
config = record {
  chain_id = pos 137;
  funder_address = "0xf";
  signature_type = 2;
  builder_code = none;
}

abbrev options : CreateOrderOptions
options = record { tick_size = some "0.01"; signature_type = none; neg_risk = some true }

abbrev tick_answer : Json
tick_answer = obj (field "minimum_tick_size" (str "0.01") end)

abbrev calm : Outside (wire tick_answer)
calm = record {
  tick_reply = some tick_answer;
  neg_reply = none;
  book_reply = none;
  between = λ c. c;
  salt = pos 1;
  now = pos 77;
  later = pos 78;
}

-- Two orders of a wallet for one exchange, one for the other, and an order of another type.
abbrev jobs : List (String × Order names × VerifyingContract)
jobs =
    let wallet_order = record built { signature_type = 3 } in
    ("key", wallet_order, ctf_exchange)
    ∷ ("key", wallet_order, neg_risk_ctf_exchange)
    ∷ ("key", built, ctf_exchange)
    ∷ ("key", wallet_order, ctf_exchange)
    ∷ []

signatures-fresh_example :
    signatures names text_curve text_data (pos 137) jobs empty
    ≡ map (λ job. (signature_of names text_curve text_data (pos 137) empty job).1) jobs
signatures-fresh_example = signatures-fresh names text_curve text_data (pos 137) (λ a b e. e) jobs

abbrev market_wish : UserMarketOrder ℕ
market_wish = record {
  token_id = "5";
  price = none;
  amount = 3000;
  side = "BUY";
  order_type = market_fok;
  metadata = none;
  builder_code = none;
}

abbrev market_book : Option (List (Book ℕ) × List (Book ℕ))
market_book =
    some ([], record { price = 600; size = 9000 } ∷ record { price = 500; size = 2000 } ∷ [])
