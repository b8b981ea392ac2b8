-- ===== src/Client/Pages/Complete.antt =====
-- polymarket/polymarket.go: GetOpenOrders collects every page, in order.
use go_polymarket_sdk.Common.{
  ◌≡◌, refl, sym, ◌∙◌, Bool, true, false, Option, none, some, String, List, [], ◌∷◌, ◌++◌, map,
  ◌==◌, string_eq, arith,
}
use mathlib.Core.List.{append_assoc, append-nil}
use mathlib.Core.Path.{ap₂}
use go_polymarket_sdk.Wire.{Gjson}
use go_polymarket_sdk.Client.Pages.{
  OpenOrderParams, OpenOrder, Query, listed, open_query, start_cursor, end_cursor, goes_on, page,
  next_cursor, open_loop, get_open_orders,
}

module _ {F : Type 0} (G : Gjson F) where
  open G use {Res}

  -- Pages of which each has the cursor of the next one, and the last one the end's.
  abbrev pub IsChain : String → List Res → Type 0
  IsChain cursor [] = (cursor == end_cursor) ≡ true
  IsChain cursor (r ∷ rs) = ((cursor == end_cursor) ≡ false) × IsChain (next_cursor G r) rs

  abbrev pub pages : List Res → List (OpenOrder F)
  pages [] = []
  pages (r ∷ rs) = page G r ++ pages rs

  abbrev pub queries : Option OpenOrderParams → String → List Res → List Query
  queries p cursor [] = []
  queries p cursor (r ∷ rs) = open_query p cursor ∷ queries p (next_cursor G r) rs

  abbrev pub last_cursor : String → List Res → String
  last_cursor cursor [] = cursor
  last_cursor cursor (r ∷ rs) = last_cursor (next_cursor G r) rs

  wanted : (cursor : String) → (cursor == end_cursor) ≡ false → goes_on false cursor ≡ true
  wanted cursor h = ground arith

  unwanted : (b : Bool) (cursor : String) → (cursor == end_cursor) ≡ true → goes_on b cursor ≡ false
  unwanted b cursor h = ground arith

  loop_collects :
      (p : Option OpenOrderParams) (rs : List Res) (more : List (Option Res)) (cursor : String)
      (acc : List (OpenOrder F)) (asked : List Query)
      → IsChain cursor rs
      → open_loop G p false cursor (map some rs ++ more) acc asked
        ≡ listed (acc ++ pages rs) (last_cursor cursor rs) (asked ++ queries p cursor rs)
  unfolding open_loop
  loop_collects p [] more cursor acc asked h =
      stops more ∙ ap₂ (λ a q. listed a cursor q) (sym (append-nil acc)) (sym (append-nil asked))
    where
      stops :
          (more : List (Option Res))
          → open_loop G p false cursor more acc asked ≡ listed acc cursor asked
      stops [] = rw (unwanted false cursor h) refl
      stops (none ∷ more) = rw (unwanted false cursor h) refl
      stops (some r ∷ more) = rw (unwanted false cursor h) refl
  loop_collects p (r ∷ rs) more cursor acc asked h = rw (wanted cursor h.0) (
      loop_collects p rs more (next_cursor G r) (acc ++ page G r)
        (asked ++ open_query p cursor ∷ []) h.1
      ∙ ap₂ (λ a q. listed a (last_cursor (next_cursor G r) rs) q)
          (append_assoc acc (page G r) (pages rs))
          (append_assoc asked (open_query p cursor ∷ []) (queries p (next_cursor G r) rs)))

  -- Where the server's pages chain from the start cursor to the end cursor, GetOpenOrders returns
  -- the orders of all of them, in order, after one request for each page with the cursor of the
  -- page before.
  pub get_open_orders_collects :
      (p : Option OpenOrderParams) (rs : List Res) (more : List (Option Res))
      → IsChain start_cursor rs
      → get_open_orders G true p false none (map some rs ++ more)
        ≡ listed (pages rs) (last_cursor start_cursor rs) (queries p start_cursor rs)
  unfolding get_open_orders
  get_open_orders_collects p rs more h = loop_collects p rs more start_cursor [] [] h

  -- Asked for the first page only, it makes one request from the start (unless the reply's cursor
  -- is the start's again), and none from a cursor that the caller gives, unless it is the start's.
  pub get_open_orders_first :
      (p : Option OpenOrderParams) (r : Res) (rs : List (Option Res)) (cursor : String)
      → (next_cursor G r == start_cursor) ≡ false
      → (cursor == start_cursor) ≡ false
      → (get_open_orders G true p true none (some r ∷ rs)
          ≡ listed (page G r) (next_cursor G r) (open_query p start_cursor ∷ []))
        × (get_open_orders G true p true (some cursor) (some r ∷ rs) ≡ listed [] cursor [])
  unfolding get_open_orders open_loop
  get_open_orders_first p r rs cursor h k = (first rs, rw given refl)
    where
      closed : goes_on true (next_cursor G r) ≡ false
      closed = ground arith

      first :
          (rs : List (Option Res))
          → open_loop G p true (next_cursor G r) rs (page G r) (open_query p start_cursor ∷ [])
            ≡ listed (page G r) (next_cursor G r) (open_query p start_cursor ∷ [])
      first [] = rw closed refl
      first (none ∷ rs) = rw closed refl
      first (some x ∷ rs) = rw closed refl

      given : goes_on true cursor ≡ false
      given = ground arith
