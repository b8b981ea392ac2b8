-- ===== src/Retry/Delays.antt =====
-- polymarket/polymarket.go: how long rateLimitDelay has GetContext wait.
use go_polymarket_sdk.Common.{
  ℕ, suc, false, ◌+◌, ◌*◌, ◌^◌, ◌≤◌, ◌<◌, ◌≡◌, refl, Option, none, some, String, ◌==◌, string_eq,
  if◌then◌else◌, arith, Bool-cases, inl, inr, ◌⊎◌,
}
use mathlib.Core.Path.{subst, sym}
use go_polymarket_sdk.Common.Int.{
  ℤ, pos, negsuc, ltb_ℤ, ◌+ℤ◌, ◌≤ℤ◌, ◌<ℤ◌, wrap64, wrap64-add, wrap64_small,
}
use go_polymarket_sdk.Retry.{backoff, rate_limit_delay, after_header}

-- What the documentation of `rand.Int63n` says of a positive bound.
abbrev pub Draws : (ℤ → ℤ) → Type 0
Draws draw = (n : ℤ) → pos 0 <ℤ n → (pos 0 ≤ℤ draw n) × (draw n <ℤ n)

abbrev pub IsBackoff : ℕ → Option ℤ → Type 0
IsBackoff k r = (d : ℕ) × (r ≡ some (pos d)) × (k ≤ d) × (d ≤ k + k)

jitter-IsBackoff :
    (k : ℕ) (z : ℤ)
    → k < 2 ^ 62
    → (pos 0 ≤ℤ z) × (z <ℤ pos (k + 1))
    → IsBackoff k (if ltb_ℤ (pos 0) (pos (k + 1)) then some (wrap64 (pos k +ℤ z)) else none)
jitter-IsBackoff k (pos j) h b =
    (k + j, rw (wrap64-add k j (omega arith)) (ground arith), omega arith, omega arith)
jitter-IsBackoff k (negsuc j) h b = absurd (omega arith)

backoff-IsBackoff :
    (base attempt : ℕ) (draw : ℤ → ℤ)
    → Draws draw
    → base * 2 ^ attempt < 2 ^ 62
    → IsBackoff (base * 2 ^ attempt) (backoff base attempt draw)
unfolding backoff
backoff-IsBackoff base attempt draw law h =
    let k = base * 2 ^ attempt in
    rw (wrap64_small k (omega arith)) (
      rw (wrap64-add k 1 (omega arith))
        (jitter-IsBackoff k (draw (pos (k + 1))) h (law (pos (k + 1)) (omega arith))))

-- There is no number of seconds in the header, or none above 0.
abbrev pub AsksNothing : (String → Option ℤ) → String → Type 0
AsksNothing atoi header =
    (header ≡ "") ⊎ ((atoi header ≡ none) ⊎ ((z : ℤ) × (atoi header ≡ some z) × (z ≤ℤ pos 0)))

-- The wait for the seconds of a header, or for a backoff.
abbrev pub IsDelay : (String → Option ℤ) → String → ℕ → Option ℤ → Type 0
IsDelay atoi header k r =
    ((n : ℕ) × ((header == "") ≡ false)
      × (atoi header ≡ some (pos (suc n)))
      × (r ≡ some (wrap64 (pos (suc n * 1_000_000_000)))))
    ⊎ (AsksNothing atoi header × IsBackoff k r)

-- Where the base delay times 2 ^ attempt fits into 62 bits and the random draw is as documented, rateLimitDelay
-- does not panic. With a Retry-After that is a positive number it waits for so many seconds, as an int64 of
-- nanoseconds with its wrap-around; with none, or another, it waits for that product and at most as long again.
pub rate_limit_delay_lem :
    (atoi : String → Option ℤ) (header : String) (attempt base : ℕ) (draw : ℤ → ℤ)
    → Draws draw
    → base * 2 ^ attempt < 2 ^ 62
    → IsDelay atoi header
        (base * 2 ^ attempt)
        (rate_limit_delay atoi header attempt (pos base) draw)
unfolding rate_limit_delay
rate_limit_delay_lem atoi header attempt base draw law h = elim (Bool-cases (header == "")) [
  | inl e ↦
      rw e
        (inr (inl ((string_eq.same_iff header "").0 e), backoff-IsBackoff base attempt draw law h))
  | inr e ↦
      let chosen : rate_limit_delay atoi header attempt (pos base) draw
          ≡ after_header (atoi header) (pos base) attempt draw =
        rw e refl in
      subst (IsDelay atoi header (base * 2 ^ attempt)) (sym chosen) (go (atoi header) refl e)
]
  where
    go :
        (o : Option ℤ)
        → atoi header ≡ o
        → (header == "") ≡ false
        → IsDelay atoi header (base * 2 ^ attempt) (after_header o (pos base) attempt draw)
    go none e f = inr (inr (inl e), backoff-IsBackoff base attempt draw law h)
    go (some (negsuc n)) e f =
        inr (inr (inr (negsuc n, e, omega arith)), backoff-IsBackoff base attempt draw law h)
    go (some (pos ℕ.zero)) e f =
        inr (inr (inr (pos 0, e, omega arith)), backoff-IsBackoff base attempt draw law h)
    go (some (pos (suc n))) e f = inl (n, f, e, refl)
