-- ===== src/Runtime/Allocate/Granted.antt =====
-- What the server holds when a request for a counter ends, and the request that is repeated.
use student_mentor_allocatio.Base.{
  ℕ, zero, suc, ◌≡◌, refl, sym, ◌∙◌, ap, inl, inr, true, Option, none, some, length, arith,
  Bool-cases,
}
use student_mentor_allocatio.Base.Text.{Text}
use student_mentor_allocatio.Python.Database.{Unicode}
use student_mentor_allocatio.Counter.{counter_regex}
use student_mentor_allocatio.Runtime.Script.{
  Normalized, Redis, Reply, new, reused, pending, exhausted, script_error,
}
use student_mentor_allocatio.Runtime.Script.Writes.{student}
use student_mentor_allocatio.Runtime.Script.Refines.{view}
use student_mentor_allocatio.Runtime.Script.Again.{reply_counter, run-shows}
use student_mentor_allocatio.Runtime.Script.Unique.{ran, Steps, done, then_step, Steps-trans}
use student_mentor_allocatio.Runtime.Executor.{RedisRetryConfig, Link, World, sleep}
use student_mentor_allocatio.Runtime.Executor.Keeps.{Holding, call-Holding}
use student_mentor_allocatio.Runtime.Allocate.{
  CounterResult, counter_new, counter_reused, counter_preview, counter_exhausted, state_invalid,
  retry_exhausted, unavailable, validation_error, CounterRuntime, run_script, answer_of, accepted,
  on_response, call_script, wait_loop, allocate_with_retry,
}

-- The counter of a result that has assigned one.
abbrev pub given : CounterResult → Option Text
given (counter_new c) = some c
given (counter_reused c) = some c
given (counter_preview c) = none
given counter_exhausted = none
given state_invalid = none
given retry_exhausted = none
given unavailable = none
given validation_error = none

answer_of-reply : (r a : Reply) → answer_of r ≡ some a → r ≡ a
answer_of-reply (new c) a e = ground (arith, e)
answer_of-reply (reused c) a e = ground (arith, e)
answer_of-reply pending a e = ground (arith, e)
answer_of-reply exhausted a e = ground (arith, e)
answer_of-reply script_error a e = absurd (ground (arith, e))

module _ (u : Unicode) (base : Text) (runtime : CounterRuntime) (config : RedisRetryConfig)
    (jitter : ℕ → ℕ) (links : ℕ → Link) (others : ℕ → Redis → Redis) (n : Normalized) where
  same_text : (c d : Text) → some c ≡ some d → counter_regex u c ≡ true → counter_regex u d ≡ true
  same_text c d e t = let e' : c ≡ d = cc in rw (sym e') t

  -- Reached from a state, with the counter of the result, if any, shown at the student's key.
  pub record IsGranted (s : Redis) (r : CounterResult × World Redis) : Type 0 where
    pub reached : Steps base runtime.max_serial s r.1.server
    pub shows :
        (c : Text)
        → given r.0 ≡ some c
        → view r.1.server (student base runtime.max_serial n) ≡ some c
    pub matches : (c : Text) → given r.0 ≡ some c → counter_regex u c ≡ true

  not_given :
      (s : Redis) (result : CounterResult) (w : World Redis)
      → given result ≡ none
      → Steps base runtime.max_serial s w.server
      → IsGranted s (result, w)
  not_given s result w e st = record {
    reached = st;
    shows = λ c h. absurd (ground (arith, sym e ∙ h));
    matches = λ c h. absurd (ground (arith, sym e ∙ h));
  }

  accepted-IsGranted :
      (s : Redis) (result : CounterResult) (c : Text) (w : World Redis)
      → given result ≡ some c
      → Steps base runtime.max_serial s w.server
      → view w.server (student base runtime.max_serial n) ≡ some c
      → IsGranted s (accepted u base runtime config jitter links others result c w)
  accepted-IsGranted s result c w e st v = elim (Bool-cases (counter_regex u c)) [
    | inl t ↦ rw t (record {
      reached = st;
      shows = λ d h. v ∙ (sym e ∙ h);
      matches = λ d h. same_text c d (sym e ∙ h) t;
    })
    | inr f ↦ rw f (not_given s state_invalid w refl st)
  ]

  on_response-IsGranted :
      (s : Redis) (next : World Redis → CounterResult × World Redis) (left backoff : ℕ)
      (o : Option Reply) (w : World Redis)
      → ((v : World Redis) → Steps base runtime.max_serial s v.server → IsGranted s (next v))
      → Steps base runtime.max_serial s w.server
      → ((a : Reply)
          → o ≡ some a
          → (c : Text) → reply_counter a ≡ some c
          → view w.server (student base runtime.max_serial n) ≡ some c)
      → IsGranted s (on_response u base runtime config jitter links others next left backoff o w)
  on_response-IsGranted s next left backoff none w h st q = not_given s unavailable w refl st
  on_response-IsGranted s next left backoff (some (new c)) w h st q =
      accepted-IsGranted s (counter_new c) c w refl st (q (new c) refl c refl)
  on_response-IsGranted s next left backoff (some (reused c)) w h st q =
      accepted-IsGranted s (counter_reused c) c w refl st (q (reused c) refl c refl)
  on_response-IsGranted s next zero backoff (some pending) w h st q =
      not_given s retry_exhausted w refl st
  on_response-IsGranted s next (suc left) backoff (some pending) w h st q = h (sleep _ w) st
  on_response-IsGranted s next left backoff (some exhausted) w h st q =
      not_given s counter_exhausted w refl st
  on_response-IsGranted s next left backoff (some script_error) w h st q =
      not_given s state_invalid w refl st

  module _ (steps : (i : ℕ) (s : Redis) → Steps base runtime.max_serial s (others i s))
      (two : length n.year_code ≡ 2) where
    call_script-Holding :
        (s : Redis) (w : World Redis)
        → Steps base runtime.max_serial s w.server
        → Holding
            (λ t. Steps base runtime.max_serial s t)
            (λ (a : Reply) (t : Redis).
              (c : Text)
              → reply_counter a ≡ some c
              → view t (student base runtime.max_serial n) ≡ some c)
            (call_script u base runtime config jitter links others n w)
    unfolding run_script
    call_script-Holding s w st =
        call-Holding config jitter links others (run_script base runtime.max_serial n) _ _
          (λ i t a. Steps-trans base runtime.max_serial s t _ a (steps i t))
          (λ t a. then_step s t _ a (ran n two))
          (λ t a b e c h.
            run-shows base runtime.max_serial n t c (ap reply_counter (answer_of-reply _ a e) ∙ h))
          w st

    wait_loop-IsGranted :
        (s : Redis) (left backoff : ℕ) (w : World Redis)
        → Steps base runtime.max_serial s w.server
        → IsGranted s (wait_loop u base runtime config jitter links others n left backoff w)
    unfolding wait_loop
    wait_loop-IsGranted s zero backoff w st = not_given s retry_exhausted w refl st
    wait_loop-IsGranted s (suc left) backoff w st =
        let called = call_script-Holding s w st in
        on_response-IsGranted s _ left backoff _ _ (wait_loop-IsGranted s left _) called.state
          called.answer

    -- If others change the server between the requests only by runs of the script and expired
    -- placeholders, and the year code has two characters, then whatever becomes of its requests,
    -- `_allocate_with_retry` changes the server only in this way; a counter in its result matches
    -- the pattern, and the student's key shows it.
    pub allocate_with_retry-IsGranted :
        (w : World Redis)
        → IsGranted w.server (allocate_with_retry u base runtime config jitter links others n w)
    unfolding allocate_with_retry
    allocate_with_retry-IsGranted w =
        wait_loop-IsGranted w.server runtime.wait_attempts _ w (done w.server)
