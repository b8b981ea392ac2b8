-- ===== src/Wire.antt =====
-- The values that cross the SDK's boundary: the JSON that it sends (as `json.Marshal` builds it,
-- before it is spelled as text), and the queries of the JSON that it receives (gjson, a library).
use go_polymarket_sdk.Common.{Bool, String, List, [], ◌∷◌, ℕ, map, if◌then◌else◌}
use go_polymarket_sdk.Common.Int.{ℤ}

mutual
  pub data Json : Type 0 where
    null : Json
    bool : Bool → Json
    str : String → Json
    num : ℤ → Json
    arr : Items → Json
    obj : Fields → Json

  pub data Items : Type 0 where
    nil : Items
    cons : Json → Items → Items

  pub data Fields : Type 0 where
    end : Fields
    field : String → Json → Fields → Fields

abbrev pub strings : List String → Items
strings [] = nil
strings (s ∷ ss) = cons (str s) (strings ss)

-- gjson.Result, as far as the SDK uses it. `F` is float64. Text goes by its bytes.
pub record Gjson (F : Type 0) : Type 1 where
  pub Res : Type 0
  pub parse_bytes : List ℕ → Res
  pub parse : String → Res
  pub get : Res → String → Res
  pub string : Res → String
  pub int : Res → ℤ
  pub float : Res → F
  pub boolean : Res → Bool
  pub array : Res → List Res
  pub is_array : Res → Bool
  pub is_string : Res → Bool

-- utils/utils.go
module _ {F : Type 0} (G : Gjson F) where
  open G use {Res, parse, get, string, array, is_array, is_string}

  -- `GetStringArray`; a nil slice is the empty list.
  unfoldable pub get_string_array : Res → String → List String
  get_string_array o path =
      let tmp = get o path in
      if is_array tmp
      then map string (array tmp)
      else if is_string tmp
      then map string (array (parse (string tmp)))
      else []
