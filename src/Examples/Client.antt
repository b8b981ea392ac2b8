-- ===== src/Examples/Client.antt =====
-- Runs of polymarket/polymarket.go's caches and listings.
use go_polymarket_sdk.Common.{
  ◌≡◌, refl, true, false, ◌+◌, List, Option, none, some, String, [], ◌∷◌, ◌++◌, map, string_eq, ℕ,
}
use go_polymarket_sdk.Common.Int.{pos}
use go_polymarket_sdk.Wire.{Json, null, obj, field, end, str, arr, cons, nil, num}
use go_polymarket_sdk.Client.{new_client, get_tick_size, set_tick_size, clear_tick_sizes}
use go_polymarket_sdk.Orders.{RoundConfig, get_round_config, new_tick_size, is_valid}
use go_polymarket_sdk.Client.Caches.{
  TickOp, gets, sets, clears, tick_ops, tick_op, tick_ops_have_rounding,
}
use go_polymarket_sdk.Client.Pages.{listed, start_cursor, get_open_orders}
use go_polymarket_sdk.Client.Pages.Complete.{pages, queries, get_open_orders_collects}
use go_polymarket_sdk.Client.Pages.Positions.{
  PositionParams, no_params, decode_all, search_positions, anchors, filters, follow_ups,
  search_positions_collects,
}
use go_polymarket_sdk.Examples.Values.{wire}

abbrev tick_reply : Json
tick_reply = obj (field "minimum_tick_size" (str "0.01") (field "base_fee" (num (pos 10)) end))

abbrev tick_calls : List (TickOp (wire null))
tick_calls =
    gets "7" (some tick_reply) ∷ sets "9" "0.1" ∷ clears ∷ sets "8" "0.2" ∷ sets "9" "0.01" ∷ []

tick_kept : (tick_ops (wire null) tick_calls new_client).tick_sizes "9" ≡ some "0.01"
unfolding tick_ops tick_op get_tick_size set_tick_size clear_tick_sizes new_client new_tick_size
    is_valid
tick_kept = refl

tick_ops_have_rounding_example :
    (rc : RoundConfig) × (get_round_config "0.01" ≡ some rc) × (rc.amount ≡ rc.price + rc.size)
tick_ops_have_rounding_example = tick_ops_have_rounding (wire null) tick_calls "9" "0.01" tick_kept

abbrev page_to : String → Json
page_to cursor = obj (
    field "next_cursor" (str cursor)
      (field "data" (arr (cons (obj (field "id" (str cursor) end)) nil)) end))

get_open_orders_collects_example :
    get_open_orders
      (wire null)
      true
      none
      false
      none
      (map some (page_to "Mg==" ∷ page_to "LTE=" ∷ []) ++ none ∷ [])
    ≡ listed
        (pages (wire null) (page_to "Mg==" ∷ page_to "LTE=" ∷ []))
        "LTE="
        (queries (wire null) none start_cursor (page_to "Mg==" ∷ page_to "LTE=" ∷ []))
get_open_orders_collects_example =
    get_open_orders_collects (wire null) none (page_to "Mg==" ∷ page_to "LTE=" ∷ []) (none ∷ [])
      (refl, (refl, refl))

abbrev positions_to : String → Json
positions_to cursor =
    obj (field "pagination.next_cursor" (str cursor) (field "data" (arr (cons (str "p") nil)) end))

abbrev alice : PositionParams ℕ
alice = record no_params { user = "0xa"; title = "rain" }

abbrev decode : Json → Option String
decode (str s) = some s
decode _ = none

one_position : decode_all (wire null) (λ x. "1") (λ z. "1") decode (str "p" ∷ []) ≡ some ("p" ∷ [])
unfolding decode_all
one_position = refl

search_positions_collects_example :
    search_positions
      (wire null)
      (λ x. "1")
      (λ z. "1")
      decode
      ""
      (some alice)
      false
      none
      (some (positions_to "c1") ∷ map some (positions_to "" ∷ []) ++ none ∷ [])
    ≡ listed ("p" ∷ "p" ∷ []) "" (
        (anchors (wire null) (λ x. "1") (λ z. "1") decode "0xa" alice
          ++ filters (wire null) (λ x. "1") (λ z. "1") decode alice)
        ∷ follow_ups
            (wire null)
            (λ x. "1")
            (λ z. "1")
            decode
            "0xa"
            alice
            (positions_to "c1")
            (positions_to "" ∷ []))
search_positions_collects_example =
    search_positions_collects (wire null) (λ x. "1") (λ z. "1") decode "" alice (positions_to "c1")
      (positions_to "" ∷ []) (none ∷ []) ("p" ∷ "p" ∷ []) refl (refl, refl)
      ("p" ∷ [], "p" ∷ [], one_position, ("p" ∷ [], [], one_position, refl, refl), refl)
