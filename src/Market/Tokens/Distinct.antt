-- ===== src/Market/Tokens/Distinct.antt =====
-- polymarket/market_monitor.go: which tokens a monitor is subscribed to after an operation.
use go_polymarket_sdk.Common.{
  ◌≡◌, refl, ◌∙◌, ap, sym, inl, inr, Bool, true, false, not, ◌&&◌, ◌||◌, Option, none, some, String,
  List, [], ◌∷◌, ◌++◌, string_eq, contains, if◌then◌else◌, arith, ◌==◌, Option-cases, if_both,
}
use text.Mathlib.TextEquality.{eq_iff}
use go_polymarket_sdk.Common.Maps.{empty, insert}
use go_polymarket_sdk.Market.{MarketMonitor, new_market_monitor}
use go_polymarket_sdk.Market.Tokens.{
  Set, set_of, dedup, without, is_empty, subscribe_market, subscribe_tokens, unsubscribe_tokens,
  reset_monitor, disconnect, on_open, on_reconnect,
}

-- No token twice.
abbrev pub IsDistinct : List String → Type 0
IsDistinct [] = Unit {0}
IsDistinct (t ∷ ts) = (contains ts t ≡ false) × IsDistinct ts

abbrev pub is_some {ℓ} : {A : Type ℓ} → Option A → Bool
is_some (some a) = true
is_some none = false

abbrev pub has : Set → String → Bool
has set t = is_some (set t)

contains-append :
    (xs ys : List String) (t : String) → contains (xs ++ ys) t ≡ (contains xs t || contains ys t)
contains-append [] ys t = refl
contains-append (x ∷ xs) ys t = ground (arith, contains-append xs ys t)

has-insert : (x : String) (set : Set) (t : String) → has (insert x tt set) t ≡ (x == t || has set t)
has-insert x set t = go (x == t)
  where
    go : (b : Bool) → is_some (if b then some tt else set t) ≡ (b || has set t)
    go true = refl
    go false = refl

or_left_comm : (a b c : Bool) → (a || (b || c)) ≡ (b || a || c)
or_left_comm a b c = ground arith

has-set_of :
    (ts : List String) (set : Set) (t : String)
    → has (set_of ts set) t ≡ (contains ts t || has set t)
has-set_of [] set t = refl
has-set_of (x ∷ xs) set t =
    has-set_of xs (insert x tt set) t
    ∙ ap (λ b. contains xs t || b) (has-insert x set t)
    ∙ or_left_comm (contains xs t) (x == t) (has set t)

-- `p` is x = t, `c` says that t is among the rest, `s` that it is in the set.
skip_lem : (p c s : Bool) → (p ≡ true → s ≡ true) → (c && not s) ≡ ((p || c) && not s)
skip_lem p c s h = ground arith

take_lem : (p c s : Bool) → (p ≡ true → s ≡ false) → (p || c && not (p || s)) ≡ ((p || c) && not s)
take_lem p c s h = ground arith

has-some :
    (set : Set) (x t : String) (u : Unit {0}) → set x ≡ some u → (x == t) ≡ true → has set t ≡ true
has-some set x t u e p = ground (arith, eq_iff x t)

has-none : (set : Set) (x t : String) → set x ≡ none → (x == t) ≡ true → has set t ≡ false
has-none set x t e p = ground (arith, eq_iff x t)

contains-dedup :
    (set : Set) (ts : List String) (t : String)
    → contains (dedup set ts) t ≡ (contains ts t && not (has set t))
unfolding dedup
contains-dedup set [] t = refl
contains-dedup set (x ∷ xs) t = elim (Option-cases (set x)) [
  | inl e ↦
      rw (e, dedup)
        (ap (λ b. x == t || b)
            (contains-dedup (insert x tt set) xs t
              ∙ ap (λ b. contains xs t && not b) (has-insert x set t))
          ∙ take_lem (x == t) (contains xs t) (has set t) (has-none set x t e))
  | inr (u, e) ↦
      rw (e, dedup)
        (contains-dedup set xs t
          ∙ skip_lem (x == t) (contains xs t) (has set t) (has-some set x t u e))
]

or_false : (b : Bool) → (b || false) ≡ b
or_false true = refl
or_false false = refl

and_true : (b : Bool) → (b && true) ≡ b
and_true true = refl
and_true false = refl

and_false : (b : Bool) → (b && false) ≡ false
and_false true = refl
and_false false = refl

self_lem : (x : String) → (x == x) ≡ true
self_lem x = (eq_iff x x).1 refl

dedup-IsDistinct : (set : Set) (ts : List String) → IsDistinct (dedup set ts)
unfolding dedup
dedup-IsDistinct set [] = tt
dedup-IsDistinct set (x ∷ xs) = elim (Option-cases (set x)) [
  | inl e ↦
      rw (e, dedup)
        (
          contains-dedup (insert x tt set) xs x
              ∙ ap (λ b. contains xs x && not b)
                  (has-insert x set x ∙ ap (λ b. b || has set x) (self_lem x))
              ∙ and_false (contains xs x),
          dedup-IsDistinct (insert x tt set) xs,
        )
  | inr (u, e) ↦ rw (e, dedup) (dedup-IsDistinct set xs)
]

contains-without :
    (set : Set) (ts : List String) (t : String)
    → contains (without set ts) t ≡ (contains ts t && not (has set t))
unfolding without
contains-without set [] t = refl
contains-without set (x ∷ xs) t = ground (arith, eq_iff x t, contains-without set xs t)

without-IsDistinct : (set : Set) (ts : List String) → IsDistinct ts → IsDistinct (without set ts)
unfolding without
without-IsDistinct set [] h = tt
without-IsDistinct set (x ∷ xs) h =
    ground (arith, without-IsDistinct set xs h.1, contains-without set xs x)

-- An operation of the monitor on its tokens.
pub data TokenOp : Type 0 where
  subscribes unsubscribes : List String → TokenOp
  resets : Bool → TokenOp
  disconnects opens reconnects : TokenOp

module _ {F : Type 0} where
  -- What `Subscribe` and the handlers leave of the tokens.
  pub subs_tokens-subscribe_market :
      (tokens : List String) (m : MarketMonitor F)
      → (subscribe_market tokens m).subs_tokens
        ≡ (if is_empty tokens then m.subs_tokens else dedup empty (m.subs_tokens ++ tokens))
  unfolding subscribe_market
  subs_tokens-subscribe_market tokens m = refl

  subs_tokens-unsubscribe_tokens :
      (tokens : List String) (m : MarketMonitor F)
      → (unsubscribe_tokens tokens m).subs_tokens
        ≡ (if is_empty tokens then m.subs_tokens else without (set_of tokens empty) m.subs_tokens)
  unfolding unsubscribe_tokens
  subs_tokens-unsubscribe_tokens [] m = refl
  subs_tokens-unsubscribe_tokens (t ∷ ts) m = refl

  -- Subscribing adds the tokens and keeps those that were there; no token is in the list twice
  -- afterwards, if it was not before.
  pub subscribe_market_tokens :
      (tokens : List String) (m : MarketMonitor F) (t : String)
      → IsDistinct m.subs_tokens
      → let subs = (subscribe_market tokens m).subs_tokens in
        IsDistinct subs × (contains subs t ≡ (contains m.subs_tokens t || contains tokens t))
  subscribe_market_tokens [] m t h =
      rw (subs_tokens-subscribe_market [] m) (h, sym (or_false (contains m.subs_tokens t)))
  subscribe_market_tokens (x ∷ xs) m t h = rw (subs_tokens-subscribe_market (x ∷ xs) m) (
    dedup-IsDistinct empty (m.subs_tokens ++ x ∷ xs),
    contains-dedup empty (m.subs_tokens ++ x ∷ xs) t
        ∙ and_true (contains (m.subs_tokens ++ x ∷ xs) t)
        ∙ contains-append m.subs_tokens (x ∷ xs) t,
  )

  -- Unsubscribing takes away exactly the tokens that it names, and keeps the list distinct.
  pub unsubscribe_tokens_tokens :
      (tokens : List String) (m : MarketMonitor F) (t : String)
      → IsDistinct m.subs_tokens
      → let subs = (unsubscribe_tokens tokens m).subs_tokens in
        IsDistinct subs × (contains subs t ≡ (contains m.subs_tokens t && not (contains tokens t)))
  unsubscribe_tokens_tokens [] m t h =
      rw (subs_tokens-unsubscribe_tokens [] m) (h, sym (and_true (contains m.subs_tokens t)))
  unsubscribe_tokens_tokens (x ∷ xs) m t h =
      let set = set_of (x ∷ xs) empty in
      rw (subs_tokens-unsubscribe_tokens (x ∷ xs) m) (
        without-IsDistinct set m.subs_tokens h,
        contains-without set m.subs_tokens t
            ∙ ap (λ b. contains m.subs_tokens t && not b)
                (has-set_of (x ∷ xs) empty t ∙ or_false (contains (x ∷ xs) t)),
      )

  unfoldable pub apply : TokenOp → MarketMonitor F → MarketMonitor F
  apply (subscribes tokens) m = subscribe_tokens tokens m
  apply (unsubscribes tokens) m = unsubscribe_tokens tokens m
  apply (resets is_reconnect) m = reset_monitor is_reconnect m
  apply disconnects m = disconnect m
  apply opens m = on_open m
  apply reconnects m = on_reconnect m

  unfoldable pub apply_all : List TokenOp → MarketMonitor F → MarketMonitor F
  apply_all [] m = m
  apply_all (o ∷ os) m = apply_all os (apply o m)

  pub subs_tokens-reset_monitor :
      (is_reconnect : Bool) (m : MarketMonitor F) → (reset_monitor is_reconnect m).subs_tokens ≡ []
  unfolding reset_monitor without
  subs_tokens-reset_monitor b m =
      subs_tokens-unsubscribe_tokens m.subs_tokens _
      ∙ if_both (λ l. l ≡ []) (is_empty m.subs_tokens) refl refl

  apply-IsDistinct :
      (o : TokenOp) (m : MarketMonitor F)
      → IsDistinct m.subs_tokens
      → IsDistinct (apply o m).subs_tokens
  unfolding apply subscribe_tokens disconnect on_open on_reconnect
  apply-IsDistinct (subscribes tokens) m h = (subscribe_market_tokens tokens m "" h).0
  apply-IsDistinct (unsubscribes tokens) m h = (unsubscribe_tokens_tokens tokens m "" h).0
  apply-IsDistinct (resets b) m h = rw (subs_tokens-reset_monitor b m) tt
  apply-IsDistinct disconnects m h = tt
  apply-IsDistinct opens m h = (subscribe_market_tokens [] m "" h).0
  apply-IsDistinct reconnects m h = (subscribe_market_tokens [] m "" h).0

  apply_all-from :
      (os : List TokenOp) (m : MarketMonitor F)
      → IsDistinct m.subs_tokens
      → IsDistinct (apply_all os m).subs_tokens
  unfolding apply_all
  apply_all-from [] m h = h
  apply_all-from (o ∷ os) m h = apply_all-from os (apply o m) (apply-IsDistinct o m h)

-- After any sequence of subscribing, unsubscribing, Reset, Disconnect and the two connection
-- handlers on a new monitor no token stands twice in its list.
pub apply_all-IsDistinct :
    (F : Type 0) (os : List TokenOp) (url : String) (is_store custom : Bool)
    → IsDistinct (apply_all os (new_market_monitor {F = F} url is_store custom)).subs_tokens
unfolding new_market_monitor
apply_all-IsDistinct F os url is_store custom = apply_all-from os _ tt
