-- ===== src/Common/Perms.antt =====
-- Lists that hold the same values: one value more, at some place.
use mathlib.Core.Path.{refl, sym}
use mathlib.Core.List.{List, [], ◌∷◌, ◌++◌, Permᴰ}
use mathlib.Core.List.Permᴰ.{nil, cons, swap, trans}
use mathlib.Core.List.Permᴰ
use go_polymarket_sdk.Common.Lists.{All}

-- The second list is the first with `x` at one place more.
pub data Adds {ℓ} {A : Type ℓ} (x : A) : List A → List A → Type ℓ where
  here : {xs : List A} → Adds x xs (x ∷ xs)
  there : {y : A} {xs ys : List A} → Adds x xs ys → Adds x (y ∷ xs) (y ∷ ys)

module _ {ℓ} {A : Type ℓ} {x : A} where
  pub Adds-left : (l : List A) {xs ys : List A} → Adds x xs ys → Adds x (l ++ xs) (l ++ ys)
  Adds-left [] a = a
  Adds-left (y ∷ l) a = there (Adds-left l a)

  pub Adds-right : {xs ys : List A} (r : List A) → Adds x xs ys → Adds x (xs ++ r) (ys ++ r)
  Adds-right r here = here
  Adds-right r (there a) = there (Adds-right r a)

  pub Adds-last : (xs : List A) → Adds x xs (xs ++ x ∷ [])
  Adds-last [] = here
  Adds-last (y ∷ xs) = there (Adds-last xs)

  Adds-perm : {xs ys : List A} → Adds x xs ys → Permᴰ (x ∷ xs) ys
  Adds-perm here = Permᴰ.refl _
  Adds-perm (there a) = trans (swap refl refl) (cons refl (Adds-perm a))

  pub moves : {xs ys zs : List A} → Adds x xs ys → Adds x xs zs → Permᴰ ys zs
  moves a b = trans (Permᴰ.symm (Adds-perm a)) (Adds-perm b)

  pub grows : {xs ys xs' ys' : List A} → Permᴰ xs ys → Adds x xs xs' → Adds x ys ys' → Permᴰ xs' ys'
  grows d a b = trans (Permᴰ.symm (Adds-perm a)) (trans (cons refl d) (Adds-perm b))

-- What holds of all values of a list does not depend on their order.
pub All-perm {ℓ κ} :
    {A : Type ℓ} (P : A → Type κ) {xs ys : List A} → Permᴰ xs ys → All P xs → All P ys
All-perm P nil h = tt
All-perm P (cons e d) h = (rw (sym e) h.0, All-perm P d h.1)
All-perm P (swap e e') h = (rw (sym e') h.1.0, (rw (sym e) h.0, h.1.1))
All-perm P (trans d d') h = All-perm P d' (All-perm P d h)

pub All-map {ℓ κ μ} :
    {A : Type ℓ} {P : A → Type κ} {Q : A → Type μ} (xs : List A)
    → ((x : A) → P x → Q x)
    → All P xs
    → All Q xs
All-map [] f h = tt
All-map (x ∷ xs) f h = (f x h.0, All-map xs f h.1)
