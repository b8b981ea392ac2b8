-- ===== src/Client/Pages/Positions.antt =====
-- polymarket/polymarket.go: SearchPositions.
use go_polymarket_sdk.Common.{
  ◌≡◌, refl, sym, ◌∙◌, ap, Bool, false, not, ◌&&◌, ◌||◌, Option, none, some, String, List, [], ◌∷◌,
  ◌++◌, map, ◌==◌, string_eq, if◌then◌else◌,
}
use mathlib.Core.List.{append_assoc, append-nil}
use mathlib.Core.Path.{ap₂}
use go_polymarket_sdk.Common.Int.{ℤ, pos, ltb_ℤ}
use go_polymarket_sdk.Wire.{Gjson}
use go_polymarket_sdk.Client.Pages.{Query, unless_empty, Listing, no_anchor, broken, asking, listed}

pub record PositionParams (F : Type 0) : Type 0 where
  pub user : String
  pub condition : String
  pub status : String
  pub event_id : String
  pub title : String
  pub filter_type : String
  pub filter_amount : Option F
  pub sort_by : String
  pub sort_direction : String
  pub limit : ℤ

-- The parameters where none are given.
abbrev pub no_params : {F : Type 0} → PositionParams F
no_params = record {
  user = "";
  condition = "";
  status = "";
  event_id = "";
  title = "";
  filter_type = "";
  filter_amount = none;
  sort_by = "";
  sort_direction = "";
  limit = pos 0;
}

-- `format` is strconv.FormatFloat(x, 'f', -1, 64), `itoa` strconv.Itoa, and `decode` unmarshals the
-- raw text of an item.
module _ {F P : Type 0} (G : Gjson F) (format : F → String) (itoa : ℤ → String)
    (decode : G.Res → Option P) where
  open G use {Res, get, string, array, is_string}

  -- The parameters of every page.
  abbrev pub anchors : String → PositionParams F → Query
  anchors user p = unless_empty "user" user ++ unless_empty "condition" p.condition

  abbrev pub amount_filter : Option F → Query
  amount_filter none = []
  amount_filter (some x) = ("filter_amount", format x) ∷ []

  -- The filters, which only the first page has.
  abbrev pub filters : PositionParams F → Query
  filters p =
      unless_empty "status" p.status
      ++ unless_empty "event_id" p.event_id
      ++ unless_empty "title" p.title
      ++ unless_empty "filter_type" p.filter_type
      ++ amount_filter p.filter_amount
      ++ unless_empty "sort_by" p.sort_by
      ++ unless_empty "sort_direction" p.sort_direction
      ++ (if ltb_ℤ (pos 0) p.limit then ("limit", itoa p.limit) ∷ [] else [])

  unfoldable pub position_query : String → PositionParams F → String → Query
  position_query user p cursor =
      anchors user p ++ (if not (cursor == "") then ("cursor", cursor) ∷ [] else filters p)

  unfoldable pub decode_all : List Res → Option (List P)
  decode_all [] = some []
  decode_all (item ∷ items) = both (decode item) (decode_all items)
    where
      both : Option P → Option (List P) → Option (List P)
      both none rest = none
      both (some x) none = none
      both (some x) (some xs) = some (x ∷ xs)

  -- The cursor of the next page, empty where there is none.
  abbrev pub following : Res → String
  following r =
      let next = get r "pagination.next_cursor" in
      if not (is_string next) || string next == "" then "" else string next

  abbrev pub page_items : Res → List Res
  page_items r = array (get r "data")

  -- What follows a page: `rest` is the loop from the next one.
  abbrev pub after_page :
      Option (List P) → String → Bool → List P → List Query → (List P → Listing P) → Listing P
  after_page none next only_first acc asked rest = broken asked
  after_page (some ps) next only_first acc asked rest =
      if next == "" || only_first then listed (acc ++ ps) next asked else rest (acc ++ ps)

  unfoldable pub positions_loop :
      String
      → PositionParams F
      → Bool
      → String
      → List (Option Res)
      → List P
      → List Query
      → Listing P
  positions_loop user p only_first cursor [] acc asked = asking asked
  positions_loop user p only_first cursor (none ∷ rs) acc asked =
      broken (asked ++ position_query user p cursor ∷ [])
  positions_loop user p only_first cursor (some r ∷ rs) acc asked =
      let asked' = asked ++ position_query user p cursor ∷ [] in
      after_page (decode_all (page_items r)) (following r) only_first acc asked'
        (λ acc'. positions_loop user p only_first (following r) rs acc' asked')

  abbrev pub or_no_params : Option (PositionParams F) → PositionParams F
  or_no_params none = no_params
  or_no_params (some p) = p

  abbrev pub or_empty : Option String → String
  or_empty none = ""
  or_empty (some c) = c

  -- `funder` is the configured FunderAddress.
  unfoldable pub search_positions :
      String → Option (PositionParams F) → Bool → Option String → List (Option Res) → Listing P
  search_positions funder given only_first cursor rs =
      let p = or_no_params given in
      let user = if p.user == "" then funder else p.user in
      if user == "" && p.condition == ""
      then no_anchor
      else positions_loop user p only_first (or_empty cursor) rs [] []

  -- A page and those that follow it: each but the last one has a cursor.
  abbrev pub Links : Res → List Res → Type 0
  Links r [] = following r ≡ ""
  Links r (s ∷ rs) = ((following r == "") ≡ false) × Links s rs

  -- Every item of the pages is decoded, to these positions.
  abbrev pub Decodes : List Res → List P → Type 0
  Decodes [] ps = ps ≡ []
  Decodes (r ∷ rs) ps =
      (xs : List P) × (ys : List P) × (decode_all (page_items r) ≡ some xs)
      × Decodes rs ys
      × (ps ≡ xs ++ ys)

  -- The queries after the first page: the anchors and the cursor, and no filter.
  abbrev pub follow_ups : String → PositionParams F → Res → List Res → List Query
  follow_ups user p r [] = []
  follow_ups user p r (s ∷ rs) =
      (anchors user p ++ ("cursor", following r) ∷ []) ∷ follow_ups user p s rs

  query_follow_up :
      (user : String) (p : PositionParams F) (cursor : String)
      → (cursor == "") ≡ false
      → position_query user p cursor ≡ anchors user p ++ ("cursor", cursor) ∷ []
  unfolding position_query
  query_follow_up user p cursor h = rw h refl

  loop_collects :
      (user : String) (p : PositionParams F) (rs : List Res) (r : Res) (more : List (Option Res))
      (cursor : String) (acc ps : List P) (asked : List Query)
      → Links r rs
      → Decodes (r ∷ rs) ps
      → positions_loop user p false cursor (some r ∷ map some rs ++ more) acc asked
        ≡ listed (acc ++ ps) "" (asked ++ position_query user p cursor ∷ follow_ups user p r rs)
  unfolding positions_loop
  loop_collects user p [] r more cursor acc ps asked h (xs, ys, d, e, f) = rw d (
      rw h (
        ap (λ l. listed (acc ++ l) "" (asked ++ position_query user p cursor ∷ []))
          (sym (f ∙ ap (λ l. xs ++ l) e ∙ append-nil xs))))
  loop_collects user p (s ∷ rs) r more cursor acc ps asked h (xs, ys, d, e, f) = rw d (
      rw (h.0) (
        loop_collects user p rs s more (following r) (acc ++ xs) ys
          (asked ++ position_query user p cursor ∷ []) h.1 e
        ∙ ap₂ (λ l q. listed l "" q) (append_assoc acc xs ys ∙ ap (λ l. acc ++ l) (sym f))
            (append_assoc asked (position_query user p cursor ∷ []) _
              ∙ ap (λ q. asked ++ position_query user p cursor ∷ q ∷ follow_ups user p s rs)
                  (query_follow_up user p (following r) h.0))))

  -- Where the server's pages are linked by their cursors and every item can be decoded, a search by
  -- a user returns the positions of all pages, in order; its first query has the anchors and the
  -- filters, and each later one the anchors and the cursor only.
  pub search_positions_collects :
      (funder : String) (p : PositionParams F) (r : Res) (rs : List Res) (more : List (Option Res))
      (ps : List P)
      → (p.user == "") ≡ false
      → Links r rs
      → Decodes (r ∷ rs) ps
      → search_positions funder (some p) false none (some r ∷ map some rs ++ more)
        ≡ listed ps "" ((anchors p.user p ++ filters p) ∷ follow_ups p.user p r rs)
  unfolding search_positions position_query
  search_positions_collects funder p r rs more ps u h d =
      rw u (rw u (rw u at (loop_collects p.user p rs r more "" [] ps [] h d)))
