-- ===== src/Retry.antt =====
-- polymarket/polymarket.go: GetContext, which repeats a GET that the server answers with 429. What
-- the network, the clock and the context decide in one pass of the loop is the pass's `Try`; times
-- are in nanoseconds, and `atoi` is strconv.Atoi.
pub mod Bounds
pub mod Delays
use go_polymarket_sdk.Common.{
  ℕ, ◌+◌, ◌*◌, ◌^◌, ◌%◌, Bool, true, false, not, ◌&&◌, Option, none, some, String, List, [], ◌∷◌,
  ◌++◌, ◌==◌, string_eq, nat_eq, if◌then◌else◌, leb, ◌≡◌, refl, ◌⊎◌, inl, inr,
}
use go_polymarket_sdk.Common.Int.{ℤ, pos, negsuc, ltb_ℤ, ◌+ℤ◌, ◌-ℤ◌, wrap64}

pub record Policy : Type 0 where
  pub max_retries : ℤ
  pub base_delay : ℤ
  pub budget : ℤ

-- `if x <= 0 { x = d }`
abbrev pub positive_or : ℤ → ℤ → ℤ
positive_or x d = if ltb_ℤ (pos 0) x then x else d

abbrev pub default_max_retries : ℤ
default_max_retries = pos 6

abbrev pub default_base_delay : ℤ
default_base_delay = pos (1000 * 1_000_000)

abbrev pub default_retry_budget : ℤ
default_retry_budget = pos (10 * 1_000_000_000)

unfoldable pub or_defaults : Policy → Policy
or_defaults p = record {
  max_retries = positive_or p.max_retries default_max_retries;
  base_delay = positive_or p.base_delay default_base_delay;
  budget = positive_or p.budget default_retry_budget;
}

-- The answer to a request: an error of the client, or a status with its Retry-After and its body.
pub data Reply (E B : Type 0) : Type 0 where
  failed : E → Reply E B
  reply : ℕ → String → B → Reply E B

pub record Try (E B : Type 0) : Type 0 where
  pub answer : Reply E B
  -- The clock as the deadline is set, as it is compared with, and with the context's.
  pub now : ℤ
  pub read : ℤ
  pub later : ℤ
  -- `ctx.Err()` where nothing remains, and the error that ends the wait early.
  pub expired : Option E
  pub interrupted : Option E
  -- `rand.Int63n` of a positive number.
  pub draw : ℤ → ℤ

-- A wait, with the clock when what remained was read.
pub record Wait : Type 0 where
  pub read_at : ℤ
  pub ctx_read_at : ℤ
  pub delay : ℤ

pub record Loop : Type 0 where
  pub attempt : ℕ
  -- `retryDeadline`, unless it is zero.
  pub deadline : Option ℤ
  -- The pattern of the client's RateLimitRetryCount, an int64.
  pub count : ℕ
  pub waits : List Wait

pub data Answer (E B : Type 0) : Type 0 where
  body : B → Answer E B
  io_error ctx_error : E → Answer E B
  budget_exhausted panics : Answer E B
  status_error : ℕ → Answer E B

pub data Outcome (E B : Type 0) : Type 0 where
  again : Loop → Outcome E B
  answered : Loop → Answer E B → Outcome E B

-- `baseDelay << attempt` with its jitter; `none` where `rand.Int63n` panics.
unfoldable pub backoff : ℕ → ℕ → (ℤ → ℤ) → Option ℤ
backoff base attempt draw =
    let delay = wrap64 (pos (base * 2 ^ attempt)) in
    let bound = wrap64 (delay +ℤ pos 1) in
    if ltb_ℤ (pos 0) bound then some (wrap64 (delay +ℤ draw bound)) else none

-- A base that is at most 0 is not met, since the policy has its defaults.
abbrev pub backoff_of : ℤ → ℕ → (ℤ → ℤ) → Option ℤ
backoff_of (pos base) attempt draw = backoff base attempt draw
backoff_of (negsuc n) attempt draw = none

abbrev pub after_header : Option ℤ → ℤ → ℕ → (ℤ → ℤ) → Option ℤ
after_header none base attempt draw = backoff_of base attempt draw
after_header (some (negsuc n)) base attempt draw = backoff_of base attempt draw
after_header (some (pos ℕ.zero)) base attempt draw = backoff_of base attempt draw
after_header (some (pos (ℕ.suc n))) base attempt draw =
    some (wrap64 (pos (ℕ.suc n * 1_000_000_000)))

module _ (atoi : String → Option ℤ) where
  unfoldable pub rate_limit_delay : String → ℕ → ℤ → (ℤ → ℤ) → Option ℤ
  rate_limit_delay header attempt base draw =
      if not (header == "")
      then after_header (atoi header) base attempt draw
      else backoff_of base attempt draw

abbrev pub deadline_of : ℤ → Option ℤ → ℤ → ℤ
deadline_of budget none now = now +ℤ budget
deadline_of budget (some d) now = d

abbrev pub smaller : ℤ → ℤ → ℤ
smaller a b = if ltb_ℤ b a then b else a

abbrev pub within_ctx : Option ℤ → ℤ → ℤ → ℤ
within_ctx none later remaining = remaining
within_ctx (some d) later remaining = smaller remaining (d -ℤ later)

module _ {E B : Type 0} where
  abbrev pub expire : Option E → Answer E B
  expire (some e) = ctx_error e
  expire none = budget_exhausted

  abbrev pub sleep : Option E → ℤ → Try E B → Loop → Outcome E B
  sleep (some e) wait t s = answered s (ctx_error e)
  sleep none wait t s = again (record s {
    attempt = s.attempt + 1;
    waits = s.waits ++ record { read_at = t.read; ctx_read_at = t.later; delay = wait } ∷ [];
  })

  abbrev pub pause : Option ℤ → ℤ → Try E B → Loop → Outcome E B
  pause none remaining t s = answered s panics
  pause (some delay) remaining t s = sleep t.interrupted (smaller delay remaining) t s

  pub Outcome-cases :
      (o : Outcome E B)
      → ((s : Loop) × (o ≡ again s)) ⊎ ((s : Loop) × (a : Answer E B) × (o ≡ answered s a))
  Outcome-cases (again s) = inl (s, refl)
  Outcome-cases (answered s a) = inr (s, a, refl)

  abbrev pub loop_of : Outcome E B → Loop
  loop_of (again s) = s
  loop_of (answered s a) = s

module _ {E B : Type 0} (atoi : String → Option ℤ) (p : Policy) (ctx_deadline : Option ℤ) where
  -- The branch of status 429 with retries left.
  unfoldable pub limited : String → Try E B → Loop → Outcome E B
  limited header t s =
      let d = deadline_of p.budget s.deadline t.now in
      let s1 = record s { count = (s.count + 1) % 2 ^ 64; deadline = some d } in
      let remaining = within_ctx ctx_deadline t.later (d -ℤ t.read) in
      if not (ltb_ℤ (pos 0) remaining)
      then answered s1 (expire t.expired)
      else pause (rate_limit_delay atoi header s.attempt p.base_delay t.draw) remaining t s1

  abbrev pub get_reply : Reply E B → Try E B → Loop → Outcome E B
  get_reply (failed e) t s = answered s (io_error e)
  get_reply (reply status header b) t s =
      if status == 429 && ltb_ℤ (pos s.attempt) p.max_retries
      then limited header t s
      else if leb 400 status
      then answered s (status_error status)
      else answered s (body b)

  -- One pass of the loop.
  unfoldable pub get_turn : Try E B → Loop → Outcome E B
  get_turn t s = get_reply t.answer t s

  unfoldable pub get_loop : List (Try E B) → Loop → Outcome E B
  get_loop [] s = again s
  get_loop (t ∷ ts) s = elim (get_turn t s) [
    | again s' ↦ get_loop ts s'
    | answered s' a ↦ answered s' a
  ]

module _ {E B : Type 0} (atoi : String → Option ℤ) (p : Policy) (ctx_deadline : Option ℤ) where
  -- `count` is the counter's pattern before the call.
  unfoldable pub get_context : ℕ → List (Try E B) → Outcome E B
  get_context count ts =
      get_loop atoi (or_defaults p) ctx_deadline ts
        (record { attempt = 0; deadline = none; count = count; waits = [] })
