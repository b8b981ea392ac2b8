-- ===== src/Common/Maps.antt =====
-- Go's `map[K]V` and `sync.Map` as functions: a key that is absent gives `none`.
use mathlib.Core.Option.{Option, none, some}
use mathlib.Core.List.{List, [], ◌∷◌}
use go_polymarket_sdk.Common.Tests.{Eq, ◌==◌, if◌then◌else◌}

abbrev pub Map {ℓ κ} : Type ℓ → Type κ → Type (ℓ ⊔ κ)
Map K V = K → Option V

module _ {ℓ κ} {K : Type ℓ} {V : Type κ} where
  abbrev pub empty : Map K V
  empty k = none

-- `m[key]` of a Go map, with the zero value of a missing key, and a pointer with its default.
abbrev pub value_or {ℓ} : {A : Type ℓ} → A → Option A → A
value_or zero none = zero
value_or zero (some a) = a

module _ {ℓ κ} {K : Type ℓ} {V : Type κ} ⦃e : Eq K⦄ where
  abbrev pub insert : K → V → Map K V → Map K V
  insert k v m j = if k == j then some v else m j

  abbrev pub delete : K → Map K V → Map K V
  delete k m j = if k == j then none else m j

  -- `for _, k := range ks { delete(m, k) }`
  abbrev pub delete_all : List K → Map K V → Map K V
  delete_all [] m = m
  delete_all (k ∷ ks) m = delete_all ks (delete k m)

  -- `maps.Copy(dst, src)` where `src` is a literal, later entries last.
  abbrev pub copy : Map K V → List (K × V) → Map K V
  copy m [] = m
  copy m ((k, v) ∷ kvs) = copy (insert k v m) kvs
