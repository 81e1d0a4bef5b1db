-- ===== src/Runtime/Allocate/Repeat.antt =====
-- A request for a counter that is repeated.
use student_mentor_allocatio.Base.{
  ℕ, zero, suc, ◌+◌, ◌<◌, ◌≤◌, ◌≡◌, refl, sym, ◌∙◌, ap, true, some, length, arith,
}
use student_mentor_allocatio.Base.Text.{Text}
use student_mentor_allocatio.Python.Database.{Unicode}
use student_mentor_allocatio.Counter.{counter_regex}
use student_mentor_allocatio.Runtime.Script.{Normalized, Redis, Reply, reused}
use student_mentor_allocatio.Runtime.Script.Writes.{student}
use student_mentor_allocatio.Runtime.Script.Refines.{view}
use student_mentor_allocatio.Runtime.Script.Again.{run_again, Steps-shown}
use student_mentor_allocatio.Runtime.Script.Unique.{Steps}
use student_mentor_allocatio.Runtime.Executor.{RedisRetryConfig, Link, answered, World}
use student_mentor_allocatio.Runtime.Executor.Keeps.{call-Holding}
use student_mentor_allocatio.Runtime.Executor.Pauses.{call-answers}
use student_mentor_allocatio.Runtime.Allocate.{
  counter_reused, CounterRuntime, run_script, call_script, wait_loop, allocate_with_retry,
}
use student_mentor_allocatio.Runtime.Allocate.Granted.{given, allocate_with_retry-IsGranted}

module _ (u : Unicode) (base : Text) (runtime : CounterRuntime) (config : RedisRetryConfig)
    (jitter : ℕ → ℕ) (links : ℕ → Link) (others : ℕ → Redis → Redis) (n : Normalized)
    (steps : (i : ℕ) (s : Redis) → Steps base runtime.max_serial s (others i s)) where
  run_script-shown :
      (s : Redis) (c : Text)
      → view s (student base runtime.max_serial n) ≡ some c
      → run_script base runtime.max_serial n s ≡ (some (reused c), s)
  unfolding run_script
  run_script-shown s c h = rw (run_again base runtime.max_serial n s c h) refl

  -- The call for a student whose key shows a counter, where one attempt is answered.
  call_script-shown :
      (w : World Redis) (c : Text) (i : ℕ)
      → view w.server (student base runtime.max_serial n) ≡ some c
      → i < config.attempts
      → links (w.tick + i) ≡ answered
      → (call_script u base runtime config jitter links others n w).0 ≡ some (reused c)
  call_script-shown w c i h l e =
      let Shown = λ (s : Redis). view s (student base runtime.max_serial n) ≡ some c in
      let op = run_script base runtime.max_serial n in
      let waits : (j : ℕ) (s : Redis) → Shown s → Shown (others j s) =
        λ j s v. Steps-shown base runtime.max_serial s _ _ c (steps j s) v in
      let runs : (s : Redis) → Shown s → Shown (op s).1 = λ s v. rw (run_script-shown s c v) v in
      let says : (s : Redis) (a : Reply) → Shown s → (op s).0 ≡ some a → a ≡ reused c =
        λ s a v g. ground (arith, sym (ap (λ r. r.0) (run_script-shown s c v)) ∙ g) in
      let serves : (s : Redis) → Shown s → (a : Reply) × ((op s).0 ≡ some a) =
        λ s v. (reused c, ap (λ r. r.0) (run_script-shown s c v)) in
      let (a, g) = call-answers config jitter links others op Shown waits runs serves i w h l e in
      let held =
        call-Holding config jitter links others op Shown (λ b s. b ≡ reused c) waits runs says w
          h in
      g ∙ ap some (held.answer a g)

  wait_loop-shown :
      (left backoff : ℕ) (w : World Redis) (c : Text) (i : ℕ)
      → view w.server (student base runtime.max_serial n) ≡ some c
      → counter_regex u c ≡ true
      → i < config.attempts
      → links (w.tick + i) ≡ answered
      → (wait_loop u base runtime config jitter links others n (suc left) backoff w).0
        ≡ counter_reused c
  unfolding wait_loop
  wait_loop-shown left backoff w c i h m l e = rw (call_script-shown w c i h l e, m) refl

  some_turn :
      (turns backoff : ℕ) (w : World Redis) (c : Text) (i : ℕ)
      → 1 ≤ turns
      → view w.server (student base runtime.max_serial n) ≡ some c
      → counter_regex u c ≡ true
      → i < config.attempts
      → links (w.tick + i) ≡ answered
      → (wait_loop u base runtime config jitter links others n turns backoff w).0 ≡ counter_reused c
  some_turn zero backoff w c i t h m l e = absurd (omega arith)
  some_turn (suc left) backoff w c i t h m l e = wait_loop-shown left backoff w c i h m l e

  -- If others change the server between the requests only by runs of the script and expired
  -- placeholders, the year code has two characters and the runtime waits at least one turn: once
  -- `_allocate_with_retry` has given a student a counter, then after any such changes it gives the
  -- same counter for the student again, as reused, if the answer to one of the configured attempts
  -- arrives, whatever becomes of the ones before it.
  pub allocate_with_retry-repeat :
      (first second : World Redis) (c : Text) (i : ℕ)
      → length n.year_code ≡ 2
      → 1 ≤ runtime.wait_attempts
      → given (allocate_with_retry u base runtime config jitter links others n first).0 ≡ some c
      → Steps base runtime.max_serial
          (allocate_with_retry u base runtime config jitter links others n first).1.server
          second.server
      → i < config.attempts
      → links (second.tick + i) ≡ answered
      → (allocate_with_retry u base runtime config jitter links others n second).0
        ≡ counter_reused c
  unfolding allocate_with_retry
  allocate_with_retry-repeat first second c i two one g st l e =
      let granted =
        allocate_with_retry-IsGranted u base runtime config jitter links others n steps two first in
      some_turn runtime.wait_attempts _ second c i one
        (Steps-shown base runtime.max_serial _ _ _ c st (granted.shows c g)) (granted.matches c g) l
        e
