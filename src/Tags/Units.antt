-- ===== src/Tags/Units.antt =====
-- polymarket/helper.go: which key a market's tags are found under.
use go_polymarket_sdk.Common.{
  ◌≡◌, refl, sym, ap, ◌∙◌, Bool, true, false, none, some, String, List, [], ◌∷◌, ◌⊎◌, inl, inr, All,
  contains, string_eq, Bool-cases, ◌==◌, ◌||◌, arith,
}
use text.Mathlib.TextPositions.{eq_refl}
use text.Mathlib.TextEquality.{eq_iff}
use go_polymarket_sdk.Common.Text.{Unicode}
use go_polymarket_sdk.Wire.{Gjson}
use go_polymarket_sdk.Tags.{first_among, slugs_of, symbol_at, get_symbol, symbol_map}

-- What holds of every key holds of the one that is found.
pub first_among-All {κ} :
    (P : String → Type κ) (keys slugs : List String)
    → All P keys
    → (first_among keys slugs ≡ none) ⊎ ((k : String) × (first_among keys slugs ≡ some k) × P k)
unfolding first_among
first_among-All P [] slugs h = inl refl
first_among-All P (key ∷ keys) slugs h = elim (Bool-cases (contains slugs key)) [
  | inl e ↦ rw e (inr (key, refl, h.0))
  | inr e ↦ rw e (first_among-All P keys slugs h.1)
]

or_right : (a : Bool) {b : Bool} → b ≡ true → (a || b) ≡ true
or_right true h = refl
or_right false h = h

no_more :
    (key : String) (keys slugs : List String)
    → contains slugs key ≡ false
    → ((k : String) → contains keys k ≡ true → contains slugs k ≡ false)
    → (k : String) → contains (key ∷ keys) k ≡ true
    → contains slugs k ≡ false
no_more key keys slugs e no_key k h = elim (Bool-cases (key == k)) [
  | inl f ↦ ap (contains slugs) (sym ((eq_iff key k).0 f)) ∙ e
  | inr f ↦ no_key k (rw f at h)
]

-- Either a key is found that is among the slugs, or no key is.
abbrev Search : List String → List String → Type 0
Search keys slugs =
    ((k : String) × (first_among keys slugs ≡ some k)
      × (contains keys k ≡ true)
      × (contains slugs k ≡ true))
    ⊎ ((first_among keys slugs ≡ none)
        × ((k : String) → contains keys k ≡ true → contains slugs k ≡ false))

first_among_cases : (keys slugs : List String) → Search keys slugs
unfolding first_among
first_among_cases [] slugs = inr (refl, λ k e. absurd (ground arith))
first_among_cases (key ∷ keys) slugs = elim (Bool-cases (contains slugs key)) [
  | inl e ↦ rw e (inl (key, refl, ap (λ b. b || contains keys key) (eq_refl key), e))
  | inr e ↦ rw e (elim (first_among_cases keys slugs) [
    | inl (k, found, key_in, slug_in) ↦ inl (k, found, or_right (key == k) key_in, slug_in)
    | inr (missing, no_key) ↦ inr (missing, λ k h. no_more key keys slugs e no_key k h)
  ])
]

module _ {F : Type 0} (G : Gjson F) (u : Unicode) where
  -- Whatever the order in which Go gives the keys: where all of them that are among the slugs of the tags
  -- stand for one symbol, GetSymbol gives the same.
  pub get_symbol_any_order :
      (order other : List String) (tags : List G.Res) (symbol : String)
      → ((k : String) → contains order k ≡ contains other k)
      → ((k : String)
          → contains order k ≡ true
          → contains (slugs_of G u tags) k ≡ true
          → symbol_map k ≡ some symbol)
      → get_symbol G u order tags ≡ get_symbol G u other tags
  unfolding get_symbol
  get_symbol_any_order order other tags symbol same one =
      let slugs = slugs_of G u tags in
      agree (first_among_cases order slugs) (first_among_cases other slugs)
    where
      agree :
          Search order (slugs_of G u tags)
          → Search other (slugs_of G u tags)
          → symbol_at (first_among order (slugs_of G u tags))
            ≡ symbol_at (first_among other (slugs_of G u tags))
      agree (inl (k, found, in_order, in_slugs)) (inl (j, found', in_other, in_slugs')) =
          rw (found, found', one k in_order in_slugs, one j (same j ∙ in_other) in_slugs') refl
      agree (inl (k, found, in_order, in_slugs)) (inr (missing, no_key)) =
          absurd (ground (arith, in_slugs, no_key k (sym (same k) ∙ in_order)))
      agree (inr (missing, no_key)) (inl (j, found', in_other, in_slugs')) =
          absurd (ground (arith, in_slugs', no_key j (same j ∙ in_other)))
      agree (inr (missing, no_key)) (inr (missing', no_key')) = rw (missing, missing') refl
