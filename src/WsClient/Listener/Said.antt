-- ===== src/WsClient/Listener/Said.antt =====
-- utils/websocket_client.go with a handler: the messages that are sent over a run, and their number.
use go_polymarket_sdk.Common.{
  ℕ, zero, suc, ◌≤◌, List, [], ◌∷◌, ◌++◌, ◌≡◌, refl, ap, sym, ◌∙◌, arith, length, length-append,
  replicate,
}
use mathlib.Core.List.{append_assoc}
use go_polymarket_sdk.Wire.{Json}
use go_polymarket_sdk.WsClient.Run.{Callback, on_open, on_reconnect, on_close, on_error}
use go_polymarket_sdk.WsClient.Announce.{connects, announced}

abbrev pub times : ℕ → List Json → List Json
times zero msgs = []
times (suc n) msgs = msgs ++ times n msgs

module _ {E : Type 0} where
  -- What a run sends: all messages of the subscription at each connection.
  abbrev pub said : List Json → List (Callback E) → List Json
  said msgs [] = []
  said msgs (on_open ∷ cbs) = msgs ++ said msgs cbs
  said msgs (on_reconnect ∷ cbs) = msgs ++ said msgs cbs
  said msgs (on_close ∷ cbs) = said msgs cbs
  said msgs (on_error e ∷ cbs) = said msgs cbs

said-replicate :
    (E : Type 0) (msgs : List Json) (n : ℕ)
    → said {E = E} msgs (replicate n on_reconnect) ≡ times n msgs
said-replicate E msgs zero = refl
said-replicate E msgs (suc n) = ap (◌++◌ msgs) (said-replicate E msgs n)

module _ {E : Type 0} where
  said-append :
      (msgs : List Json) (xs ys : List (Callback E))
      → said msgs (xs ++ ys) ≡ said msgs xs ++ said msgs ys
  said-append msgs [] ys = refl
  said-append msgs (on_open ∷ xs) ys =
      ap (◌++◌ msgs) (said-append msgs xs ys)
      ∙ sym (append_assoc msgs (said msgs xs) (said msgs ys))
  said-append msgs (on_reconnect ∷ xs) ys =
      ap (◌++◌ msgs) (said-append msgs xs ys)
      ∙ sym (append_assoc msgs (said msgs xs) (said msgs ys))
  said-append msgs (on_close ∷ xs) ys = said-append msgs xs ys
  said-append msgs (on_error e ∷ xs) ys = said-append msgs xs ys

  pub said-cons :
      (msgs ss : List Json) (cb : Callback E) (cbs : List (Callback E))
      → (ss ++ said msgs (cb ∷ [])) ++ said msgs cbs ≡ ss ++ said msgs (cb ∷ cbs)
  said-cons msgs ss cb cbs =
      append_assoc ss (said msgs (cb ∷ [])) (said msgs cbs)
      ∙ ap (◌++◌ ss) (sym (said-append msgs (cb ∷ []) cbs))

  said-connects :
      (msgs : List Json) (cbs : List (Callback E)) → said msgs (connects cbs) ≡ said msgs cbs
  said-connects msgs [] = refl
  said-connects msgs (on_open ∷ cbs) = ap (◌++◌ msgs) (said-connects msgs cbs)
  said-connects msgs (on_reconnect ∷ cbs) = ap (◌++◌ msgs) (said-connects msgs cbs)
  said-connects msgs (on_close ∷ cbs) = said-connects msgs cbs
  said-connects msgs (on_error e ∷ cbs) = said-connects msgs cbs

  pub said-announced :
      (msgs : List Json) (n : ℕ) (cbs : List (Callback E))
      → connects cbs ≡ announced n
      → said msgs cbs ≡ times n msgs
  said-announced msgs zero cbs e = sym (said-connects msgs cbs) ∙ ap (said msgs) e
  said-announced msgs (suc n) cbs e =
      sym (said-connects msgs cbs) ∙ ap (said msgs) e ∙ ap (◌++◌ msgs) (said-replicate E msgs n)

pub first_fits :
    {E : Type 0} (msgs : List Json) (size : ℕ) (ss : List Json) (cb : Callback E)
    (cbs : List (Callback E))
    → length (ss ++ said msgs (cb ∷ cbs)) ≤ size
    → length (ss ++ said msgs (cb ∷ [])) ≤ size
first_fits msgs size ss cb cbs fits = omega (
  arith,
  fits,
  ap length (said-cons msgs ss cb cbs),
  length-append (ss ++ said msgs (cb ∷ [])) (said msgs cbs),
)
