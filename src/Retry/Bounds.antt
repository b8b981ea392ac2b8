-- ===== src/Retry/Bounds.antt =====
-- polymarket/polymarket.go: how often GetContext asks, and for how long it waits.
use go_polymarket_sdk.Common.{
  ℕ, ◌+◌, ◌^◌, ◌≤◌, ◌<◌, ◌≡◌, refl, leb, ◌==◌, nat_eq, ◌&&◌, ◌%◌, not, Option, none, some, String,
  List, [], ◌∷◌, length, arith, All, All-append, length-append, if_both, inl, inr,
}
use go_polymarket_sdk.Common.Int.{ℤ, pos, ltb_ℤ, ◌+ℤ◌, ◌-ℤ◌, ◌≤ℤ◌}
use go_polymarket_sdk.Retry.{
  Policy, or_defaults, Reply, failed, reply, Try, Wait, Loop, Answer, Outcome, again, answered,
  limited, get_turn, get_reply, get_loop, get_context, rate_limit_delay, loop_of, within_ctx,
  deadline_of, smaller, sleep, pause, Outcome-cases,
}

-- A wait ends by the deadline of the retries and by that of the context.
abbrev pub IsTimely : Option ℤ → ℤ → Wait → Type 0
IsTimely none d w = w.read_at +ℤ w.delay ≤ℤ d
IsTimely (some c) d w = (w.read_at +ℤ w.delay ≤ℤ d) × (w.ctx_read_at +ℤ w.delay ≤ℤ c)

-- Where no deadline is set there was no wait.
abbrev pub AreTimely : Option ℤ → Option ℤ → List Wait → Type 0
AreTimely ctx none ws = ws ≡ []
AreTimely ctx (some d) ws = All (IsTimely ctx d) ws

-- The waits so far are timely, and there are as many as passes.
abbrev pub IsPaced : Option ℤ → Loop → Type 0
IsPaced ctx s = (length s.waits ≡ s.attempt) × AreTimely ctx s.deadline s.waits

remaining-IsTimely :
    (ctx : Option ℤ) (d read later wait : ℤ)
    → wait ≤ℤ within_ctx ctx later (d -ℤ read)
    → IsTimely ctx d (record { read_at = read; ctx_read_at = later; delay = wait })
remaining-IsTimely none d read later wait h = ground arith
remaining-IsTimely (some c) d read later wait h = ground arith

smaller_le : (a b : ℤ) → smaller a b ≤ℤ b
smaller_le a b = ground arith

-- The waits, once the deadline is set.
set_deadline :
    (ctx : Option ℤ) (budget now : ℤ) (o : Option ℤ) (ws : List Wait)
    → AreTimely ctx o ws
    → All (IsTimely ctx (deadline_of budget o now)) ws
set_deadline ctx budget now none ws h = rw h tt
set_deadline ctx budget now (some d) ws h = h

module _ {E B : Type 0} (ctx : Option ℤ) where
  sleep-IsPaced :
      (o : Option E) (wait d : ℤ) (t : Try E B) (s : Loop)
      → IsPaced ctx s
      → s.deadline ≡ some d
      → wait ≤ℤ within_ctx ctx t.later (d -ℤ t.read)
      → IsPaced ctx (loop_of (sleep o wait t s))
  sleep-IsPaced (some x) wait d t s h e l = h
  sleep-IsPaced none wait d t s h e l =
      let w : Wait = record { read_at = t.read; ctx_read_at = t.later; delay = wait } in
      (
        omega (arith, length-append s.waits (w ∷ []), h.0),
        rw e (
            All-append (IsTimely ctx d) s.waits (w ∷ []) (rw e at (h.1))
              (remaining-IsTimely ctx d t.read t.later wait l, tt)),
      )

  pause-IsPaced :
      (o : Option ℤ) (d : ℤ) (t : Try E B) (s : Loop)
      → IsPaced ctx s
      → s.deadline ≡ some d
      → IsPaced ctx (loop_of (pause o (within_ctx ctx t.later (d -ℤ t.read)) t s))
  pause-IsPaced none d t s h e = h
  pause-IsPaced (some delay) d t s h e =
      sleep-IsPaced t.interrupted _ d t s h e
        (smaller_le delay (within_ctx ctx t.later (d -ℤ t.read)))

module _ {E B : Type 0} (atoi : String → Option ℤ) (p : Policy) (ctx : Option ℤ) where
  turn_again :
      (m : ℕ) (t : Try E B) (s s' : Loop)
      → p.max_retries ≡ pos m
      → get_turn atoi p ctx t s ≡ again s'
      → (s'.attempt ≡ s.attempt + 1) × (s.attempt < m)
  unfolding get_turn limited
  turn_again m t s s' h e = ground arith

  loop_ends :
      (m : ℕ) (ts : List (Try E B)) (s : Loop)
      → p.max_retries ≡ pos m
      → s.attempt ≤ m
      → m < s.attempt + length ts
      → (s' : Loop) × (a : Answer E B) × (get_loop atoi p ctx ts s ≡ answered s' a)
  unfolding get_loop
  loop_ends m [] s h k l = absurd (omega arith)
  loop_ends m (t ∷ ts) s h k l = elim (Outcome-cases (get_turn atoi p ctx t s)) [
    | inl (s', e) ↦
        let (a, b) = turn_again m t s s' h e in
        rw (e, get_loop) (loop_ends m ts s' h (omega arith) (omega arith))
    | inr (s', a, e) ↦ (s', a, rw (e, get_loop) refl)
  ]

  limited-IsPaced :
      (header : String) (t : Try E B) (s : Loop)
      → IsPaced ctx s
      → IsPaced ctx (loop_of (limited atoi p ctx header t s))
  unfolding limited
  limited-IsPaced header t s h =
      let d = deadline_of p.budget s.deadline t.now in
      let s1 = record s { count = (s.count + 1) % 2 ^ 64; deadline = some d } in
      let h1 : IsPaced ctx s1 = (h.0, set_deadline ctx p.budget t.now s.deadline s.waits h.1) in
      if_both (λ (o : Outcome E B). IsPaced ctx (loop_of o))
        (not (ltb_ℤ (pos 0) (within_ctx ctx t.later (d -ℤ t.read)))) h1
        (pause-IsPaced ctx (rate_limit_delay atoi header s.attempt p.base_delay t.draw) d t s1 h1
          refl)

  turn-IsPaced :
      (r : Reply E B) (t : Try E B) (s : Loop)
      → IsPaced ctx s
      → IsPaced ctx (loop_of (get_reply atoi p ctx r t s))
  turn-IsPaced (failed e) t s h = h
  turn-IsPaced (reply status header b) t s h =
      if_both (λ (o : Outcome E B). IsPaced ctx (loop_of o))
        (status == 429 && ltb_ℤ (pos s.attempt) p.max_retries) (limited-IsPaced header t s h)
        (if_both (λ (o : Outcome E B). IsPaced ctx (loop_of o)) (leb 400 status) h h)

  loop-IsPaced :
      (ts : List (Try E B)) (s : Loop)
      → IsPaced ctx s
      → IsPaced ctx (loop_of (get_loop atoi p ctx ts s))
  unfolding get_loop get_turn
  loop-IsPaced [] s h = h
  loop-IsPaced (t ∷ ts) s h = elim (Outcome-cases (get_turn atoi p ctx t s)) [
    | inl (s', e) ↦ rw (e, get_loop) (loop-IsPaced ts s' (rw e at (turn-IsPaced t.answer t s h)))
    | inr (s', a, e) ↦ rw (e, get_loop) (rw e at (turn-IsPaced t.answer t s h))
  ]

module _ {E B : Type 0} (atoi : String → Option ℤ) (p : Policy) (ctx : Option ℤ) where
  -- Where the policy with its defaults has m retries, GetContext gives an answer after at most m +
  -- 1 requests, whatever the server, the clock and the context do.
  pub get_context-answers :
      (m count : ℕ) (ts : List (Try E B))
      → (or_defaults p).max_retries ≡ pos m
      → m < length ts
      → (s : Loop) × (a : Answer E B) × (get_context atoi p ctx count ts ≡ answered s a)
  unfolding get_context
  get_context-answers m count ts h l =
      loop_ends atoi (or_defaults p) ctx m ts _ h (omega arith) (omega arith)

  -- No wait of GetContext goes beyond the deadline of its retries, nor beyond the deadline of its
  -- context, and before there is a deadline of retries there is no wait.
  pub get_context-AreTimely :
      (count : ℕ) (ts : List (Try E B))
      → let s = loop_of (get_context atoi p ctx count ts) in AreTimely ctx s.deadline s.waits
  unfolding get_context
  get_context-AreTimely count ts =
      (loop-IsPaced atoi (or_defaults p) ctx ts
        (record { attempt = 0; deadline = none; count = count; waits = [] }) (refl, refl)).1
