-- ===== src/Examples/Workers.antt =====
-- Two workers that finish in the other order: the books of a token are handled the newer first.
use go_polymarket_sdk.Common.{ℕ, ◌≡◌, refl, none, some, [], ◌∷◌}
use go_polymarket_sdk.Common.Int.{ℤ, pos}
use go_polymarket_sdk.Chan.{try_send}
use go_polymarket_sdk.Market.{OrderBook}
use go_polymarket_sdk.Market.Books.{stored}
use go_polymarket_sdk.Market.Books.Latest.{updates, newest}
use go_polymarket_sdk.Market.Books.Orderless.{Consistent}
use go_polymarket_sdk.Market.Books.Pooled.{settled-stored}
use go_polymarket_sdk.WsClient.Workers.{
  Pool, reading, staffs, enters, takes, handles, Reach, made, next,
}
use go_polymarket_sdk.WsClient.Workers.Conserved.{Kept}
use go_polymarket_sdk.WsClient.Workers.Ordered.{Ordered, messages-Kept}
use go_polymarket_sdk.Examples.Market.{book_at, monitor, stores}

abbrev older : ℤ × OrderBook ℕ
older = (pos 11, book_at "a" 10)

abbrev newer_one : ℤ × OrderBook ℕ
newer_one = (pos 31, book_at "a" 30)

abbrev settled : Pool (ℤ × OrderBook ℕ)
settled = record {
  msg_ch = record { cap = 4; items = [] };
  reader = reading;
  workers = none ∷ none ∷ [];
  arrived = older ∷ newer_one ∷ [];
  taken = older ∷ newer_one ∷ [];
  handled = newer_one ∷ older ∷ [];
  dropped = [];
}

reached : Reach 4 settled
unfolding try_send
reached =
    next
      (next
        (next
          (next
            (next (next (next made (staffs 2)) (enters older refl refl))
              (enters newer_one refl refl))
            (takes [] (none ∷ []) older (newer_one ∷ []) refl refl))
          (takes (some older ∷ []) [] newer_one [] refl refl))
        (handles (some older ∷ []) [] newer_one refl))
      (handles [] (none ∷ []) older refl)

messages-Kept_example : Kept settled × Ordered settled
messages-Kept_example = messages-Kept reached

agreed : Consistent "a" settled.arrived
agreed = (
  ((λ e e' t. refl), ((λ e e' t. absurd (cc)), tt)),
  (((λ e e' t. absurd (cc)), ((λ e e' t. refl), tt)), tt),
)

settled-stored_example :
    (stored (updates settled.handled monitor) "a" ≡ stored (updates settled.arrived monitor) "a")
    × (stored (updates settled.handled monitor) "a"
        ≡ newest "a" settled.arrived (stored monitor "a"))
settled-stored_example =
    settled-stored settled monitor "a" reached
      (record { idle = refl; drained = refl; empty_handed = refl; complete = refl }) stores agreed
