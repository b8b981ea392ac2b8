-- ===== src/Examples/Retry.antt =====
-- Runs of polymarket/polymarket.go's GetContext.
use go_polymarket_sdk.Common.{
  ℕ, ◌*◌, ◌^◌, ◌≡◌, refl, Option, none, some, String, [], ◌∷◌, arith, ◌==◌, string_eq,
  if◌then◌else◌,
}
use go_polymarket_sdk.Common.Int.{ℤ, pos}
use go_polymarket_sdk.Retry.{
  Policy, Try, reply, Loop, Answer, answered, get_context, or_defaults, rate_limit_delay, loop_of,
}
use go_polymarket_sdk.Retry.Bounds.{AreTimely, get_context-answers, get_context-AreTimely}
use go_polymarket_sdk.Retry.Delays.{Draws, IsDelay, rate_limit_delay_lem}

abbrev atoi : String → Option ℤ
atoi s = if s == "2" then some (pos 2) else none

abbrev policy : Policy
policy = record { max_retries = pos 1; base_delay = pos 500; budget = pos 0 }

-- The clock stands at 100 and at 700; the draw is always 0.
abbrev busy : ℕ → Try String String
busy at = record {
  answer = reply 429 "" "slow down";
  now = pos at;
  read = pos at;
  later = pos at;
  expired = none;
  interrupted = none;
  draw = λ n. pos 0;
}

draws : Draws (λ n. pos 0)
draws = λ n h. (omega arith, h)

one_retry : (or_defaults policy).max_retries ≡ pos 1
unfolding or_defaults
one_retry = refl

get_context-answers_example :
    (s : Loop) × (a : Answer String String) × (get_context atoi policy
        (some (pos 5000))
        0
        (busy 100 ∷ busy 700 ∷ [])
      ≡ answered s a)
get_context-answers_example =
    get_context-answers atoi policy (some (pos 5000)) 1 0 (busy 100 ∷ busy 700 ∷ []) one_retry
      (omega arith)

get_context-AreTimely_example :
    let s = loop_of (get_context atoi policy (some (pos 5000)) 0 (busy 100 ∷ busy 700 ∷ [])) in
    AreTimely (some (pos 5000)) s.deadline s.waits
get_context-AreTimely_example =
    get_context-AreTimely atoi policy (some (pos 5000)) 0 (busy 100 ∷ busy 700 ∷ [])

rate_limit_delay_example :
    IsDelay atoi "2" (500 * 2 ^ 3) (rate_limit_delay atoi "2" 3 (pos 500) (λ n. pos 0))
rate_limit_delay_example = rate_limit_delay_lem atoi "2" 3 500 (λ n. pos 0) draws (omega arith)
