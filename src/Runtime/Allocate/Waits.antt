-- ===== src/Runtime/Allocate/Waits.antt =====
-- The pauses of a request for a counter: those between the attempts of a call and those for a
-- pending student.
use student_mentor_allocatio.Base.{
  ℕ, zero, suc, ◌+◌, ◌-◌, ◌*◌, ◌≤◌, ◌≡◌, refl, ◌∙◌, ap, min, max, inl, inr, Option, none, some,
  ◌++◌, length-append, All-append, All-map, arith, Bool-cases,
}
use mathlib.Core.List.{append_assoc}
use student_mentor_allocatio.Base.Text.{Text}
use student_mentor_allocatio.Python.Database.{Unicode}
use student_mentor_allocatio.Counter.{counter_regex}
use student_mentor_allocatio.Runtime.Script.{
  Normalized, Redis, Reply, new, reused, pending, exhausted, script_error,
}
use student_mentor_allocatio.Runtime.Executor.{RedisRetryConfig, Link, World, sleep}
use student_mentor_allocatio.Runtime.Executor.Pauses.{
  IsPaused, unpaused, IsPaused-first, call-IsPaused,
}
use student_mentor_allocatio.Runtime.Allocate.{
  CounterResult, CounterRuntime, run_script, accepted, on_response, call_script, wait_loop,
  allocate_with_retry,
}

-- Pauses after pauses.
IsPaused-then :
    {S : Type 0} (m n bound : ℕ) (w u v : World S)
    → IsPaused m bound w u
    → IsPaused n bound u v
    → IsPaused (m + n) bound w v
IsPaused-then m n bound w u v a b = record {
  pauses = a.pauses ++ b.pauses;
  added = b.added ∙ (ap (λ l. l ++ b.pauses) a.added ∙ append_assoc w.slept a.pauses b.pauses);
  few = omega (arith, length-append a.pauses b.pauses, a.few, b.few);
  short = All-append (λ p. p ≤ bound) a.pauses b.pauses a.short b.short;
}

IsPaused-weaker :
    {S : Type 0} (m n bound most : ℕ) (w v : World S)
    → m ≤ n
    → bound ≤ most
    → IsPaused m bound w v
    → IsPaused n most w v
IsPaused-weaker m n bound most w v l l' a = record {
  pauses = a.pauses;
  added = a.added;
  few = omega (arith, a.few);
  short = All-map (λ p. p ≤ bound) (λ p. p ≤ most) a.pauses (λ p h. omega arith) a.short;
}

module _ (u : Unicode) (base : Text) (runtime : CounterRuntime) (config : RedisRetryConfig)
    (jitter : ℕ → ℕ) (links : ℕ → Link) (others : ℕ → Redis → Redis) (n : Normalized) (most : ℕ)
    (small : (i : ℕ) → jitter i ≤ most) where
  longest : ℕ
  longest = max (config.max_delay + most) (runtime.wait_max * 1000)

  accepted-IsPaused :
      (result : CounterResult) (c : Text) (w : World Redis) (count : ℕ)
      → IsPaused count longest w (accepted u base runtime config jitter links others result c w).1
  accepted-IsPaused result c w count = elim (Bool-cases (counter_regex u c)) [
    | inl t ↦ rw t (unpaused count longest w w refl)
    | inr f ↦ rw f (unpaused count longest w w refl)
  ]

  on_response-IsPaused :
      (next : World Redis → CounterResult × World Redis) (left backoff count : ℕ) (o : Option Reply)
      (w : World Redis)
      → ((v : World Redis) → IsPaused count longest v (next v).1)
      → IsPaused
          (suc count)
          longest
          w
          (on_response u base runtime config jitter links others next left backoff o w).1
  unfolding longest
  on_response-IsPaused next left backoff count none w h = unpaused (suc count) longest w w refl
  on_response-IsPaused next left backoff count (some (new c)) w h =
      accepted-IsPaused _ c w (suc count)
  on_response-IsPaused next left backoff count (some (reused c)) w h =
      accepted-IsPaused _ c w (suc count)
  on_response-IsPaused next zero backoff count (some pending) w h =
      unpaused (suc count) longest w w refl
  on_response-IsPaused next (suc left) backoff count (some pending) w h =
      IsPaused-first count longest (min backoff (runtime.wait_max * 1000)) w (sleep _ w) _
        (omega arith) refl (h (sleep _ w))
  on_response-IsPaused next left backoff count (some exhausted) w h =
      unpaused (suc count) longest w w refl
  on_response-IsPaused next left backoff count (some script_error) w h =
      unpaused (suc count) longest w w refl

  wait_loop-IsPaused :
      (left backoff : ℕ) (w : World Redis)
      → IsPaused
          (left * suc (config.attempts - 1))
          longest
          w
          (wait_loop u base runtime config jitter links others n left backoff w).1
  unfolding wait_loop longest
  wait_loop-IsPaused zero backoff w = unpaused _ longest w w refl
  wait_loop-IsPaused (suc left) backoff w =
      let called =
        call-IsPaused config jitter links others (run_script base runtime.max_serial n) most small
          w in
      IsPaused-weaker _ _ _ _ w _ (omega arith) (omega arith) (
        IsPaused-then (config.attempts - 1) (suc (left * suc (config.attempts - 1))) longest w
          (call_script u base runtime config jitter links others n w).1 _
          (IsPaused-weaker _ _ _ _ w _ (omega arith) (omega arith) called)
          (on_response-IsPaused
            (wait_loop u base runtime config jitter links others n left
              (min (backoff * 2) (runtime.wait_max * 1000)))
            left backoff _ _ _ (wait_loop-IsPaused left _)))

  -- With jitters of at most `most`, whatever becomes of its requests, `_allocate_with_retry` pauses
  -- at most once for each attempt of each turn, a runtime of at least one attempt per call assumed,
  -- and never for longer than the largest delay of a call with its jitter, or the largest wait.
  pub allocate_with_retry-IsPaused :
      (w : World Redis)
      → 1 ≤ config.attempts
      → IsPaused
          (runtime.wait_attempts * config.attempts)
          (max (config.max_delay + most) (runtime.wait_max * 1000))
          w
          (allocate_with_retry u base runtime config jitter links others n w).1
  unfolding allocate_with_retry longest
  allocate_with_retry-IsPaused w one =
      let e : suc (config.attempts - 1) ≡ config.attempts = omega arith in
      IsPaused-weaker _ _ _ _ w _ (omega (arith, ap (λ a. runtime.wait_attempts * a) e))
        (omega arith) (wait_loop-IsPaused runtime.wait_attempts (runtime.wait_base * 1000) w)
