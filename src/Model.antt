-- ===== src/Model.antt =====
-- model/subscribe.go: how a SafeFloat64 is read. `F` is float64, and the bytes are those of the JSON value.
use go_polymarket_sdk.Common.{
  ℕ, Bool, true, false, Option, some, List, [], ◌∷◌, ◌++◌, ◌≡◌, refl, ◌==◌, nat_eq, if◌then◌else◌,
  inl, inr, ◌⊎◌, Bool-cases, ◌&&◌, ◌||◌,
}
use mathlib.Core.List.{reverse, reverse-append}

abbrev pub quote : ℕ
quote = 34

-- `null`
abbrev pub null_text : List ℕ
null_text = 110 ∷ 117 ∷ 108 ∷ 108 ∷ []

abbrev pub same_bytes : List ℕ → List ℕ → Bool
same_bytes [] [] = true
same_bytes [] (c ∷ cs) = false
same_bytes (b ∷ bs) [] = false
same_bytes (b ∷ bs) (c ∷ cs) = b == c && same_bytes bs cs

-- `strings.TrimLeft` with a quote as its only rune.
abbrev pub drop_quotes : List ℕ → List ℕ
drop_quotes [] = []
drop_quotes (b ∷ bs) = let rest = drop_quotes bs in if b == quote then rest else b ∷ bs

-- `strings.Trim(string(b), "\"")`
unfoldable pub trim_quotes : List ℕ → List ℕ
trim_quotes bs = reverse (drop_quotes (reverse (drop_quotes bs)))

module _ {F : Type 0} (zero : F) (parse_float : List ℕ → Option F) where
  -- An empty text and `null` are zero; `none` is the error of strconv.ParseFloat.
  abbrev pub float_of : List ℕ → Option F
  float_of bs = if same_bytes bs [] || same_bytes bs null_text then some zero else parse_float bs

  unfoldable pub unmarshal_json : List ℕ → Option F
  unmarshal_json b = float_of (trim_quotes b)

drop_quotes-append :
    (bs : List ℕ)
    → ((drop_quotes bs ≡ []) × (drop_quotes (bs ++ quote ∷ []) ≡ []))
      ⊎ (drop_quotes (bs ++ quote ∷ []) ≡ drop_quotes bs ++ quote ∷ [])
drop_quotes-append [] = inl (refl, refl)
drop_quotes-append (b ∷ bs) = elim (Bool-cases (b == quote)) [
  | inl e ↦ rw e (drop_quotes-append bs)
  | inr e ↦ rw e (inr refl)
]

-- A text in quotes, whatever it holds, is trimmed like the text without them.
trim_quotes-quoted : (bs : List ℕ) → trim_quotes (quote ∷ bs ++ quote ∷ []) ≡ trim_quotes bs
unfolding trim_quotes
trim_quotes-quoted bs = elim (drop_quotes-append bs) [
  | inl (e, e') ↦ rw (e, e') refl
  | inr e ↦ rw (e, reverse-append (drop_quotes bs) (quote ∷ [])) refl
]

-- A float64 is read the same from a number and from the number's text in quotes.
pub unmarshal_json-quoted :
    {F : Type 0} (zero : F) (parse_float : List ℕ → Option F) (bs : List ℕ)
    → unmarshal_json zero parse_float (quote ∷ bs ++ quote ∷ [])
      ≡ unmarshal_json zero parse_float bs
unfolding unmarshal_json
unmarshal_json-quoted zero parse_float bs = rw (trim_quotes-quoted bs) refl
