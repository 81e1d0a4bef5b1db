-- ===== src/Runtime/Allocate.antt =====
-- `CounterRuntime` of src/sma/phase2_counter_service/counter_runtime.py after its arguments have been
-- normalised: the loop that waits for a pending student, and the preview. Pauses are whole
-- microseconds. Logs and metrics are left out.
pub mod Granted
pub mod Repeat
pub mod Preview
pub mod Waits
use student_mentor_allocatio.Base.{
  ℕ, zero, suc, ◌*◌, min, max, Bool, true, false, Option, none, some, List, [], ◌∷◌, ltb,
  if◌then◌else◌,
}
use student_mentor_allocatio.Base.Text.{Text}
use student_mentor_allocatio.Python.Database.{Unicode}
use student_mentor_allocatio.Counter.{Gender, counter_regex}
use student_mentor_allocatio.Runtime.Script.{
  Normalized, Cell, placeholder, assigned, number, garbled, Redis, Reply, new, reused, pending,
  exhausted, script_error, counter_of, counter_sequence, allocate_script,
}
use student_mentor_allocatio.Runtime.Executor.{RedisRetryConfig, Link, World, sleep, call}

-- How a request for a counter ends: with a counter and its status, or with the code of an error.
-- `unavailable` is the `RedisOperationError`.
pub data CounterResult : Type 0 where
  counter_new : Text → CounterResult
  counter_reused : Text → CounterResult
  counter_preview : Text → CounterResult
  counter_exhausted : CounterResult
  state_invalid : CounterResult
  retry_exhausted : CounterResult
  unavailable : CounterResult
  validation_error : CounterResult

-- The arguments of `CounterRuntime`, in milliseconds.
pub record CounterRuntime : Type 0 where
  pub max_serial : ℕ
  pub wait_attempts : ℕ
  pub wait_base : ℕ
  pub wait_max : ℕ

-- `CounterRuntime.__init__`
unfoldable pub make_runtime : ℕ → ℕ → ℕ → ℕ → CounterRuntime
make_runtime max_serial wait_attempts wait_base_ms wait_max_ms = record {
  max_serial = max_serial;
  wait_attempts = max 1 wait_attempts;
  wait_base = max 5 wait_base_ms;
  wait_max = max (max 5 wait_base_ms) wait_max_ms;
}

-- `_run_script`: an error of the script is one of the errors that the executor retries.
abbrev answer_of : Reply → Option Reply
answer_of (new c) = some (new c)
answer_of (reused c) = some (reused c)
answer_of pending = some pending
answer_of exhausted = some exhausted
answer_of script_error = none

unfoldable pub run_script : Text → ℕ → Normalized → Redis → Option Reply × Redis
run_script base max_serial n redis = (
  answer_of (allocate_script base max_serial n redis).0,
  (allocate_script base max_serial n redis).1,
)

module _ (u : Unicode) (base : Text) (runtime : CounterRuntime) (config : RedisRetryConfig)
    (jitter : ℕ → ℕ) (links : ℕ → Link) (others : ℕ → Redis → Redis) where
  abbrev pub accepted : CounterResult → Text → World Redis → CounterResult × World Redis
  accepted result counter w = if counter_regex u counter then (result, w) else (state_invalid, w)

  -- A pending student with `left` turns to go.
  abbrev pub wait_turn :
      (World Redis → CounterResult × World Redis)
      → ℕ
      → ℕ
      → World Redis
      → CounterResult × World Redis
  wait_turn next zero backoff w = (retry_exhausted, w)
  wait_turn next (suc left) backoff w = next (sleep (min backoff (runtime.wait_max * 1000)) w)

  abbrev pub on_response :
      (World Redis → CounterResult × World Redis)
      → ℕ
      → ℕ
      → Option Reply
      → World Redis
      → CounterResult × World Redis
  on_response next left backoff none w = (unavailable, w)
  on_response next left backoff (some (new counter)) w = accepted (counter_new counter) counter w
  on_response next left backoff (some (reused counter)) w =
      accepted (counter_reused counter) counter w
  on_response next left backoff (some pending) w = wait_turn next left backoff w
  on_response next left backoff (some exhausted) w = (counter_exhausted, w)
  on_response next left backoff (some script_error) w = (state_invalid, w)

  abbrev pub call_script : Normalized → World Redis → Option Reply × World Redis
  call_script n w = call config jitter links others (run_script base runtime.max_serial n) w

  -- The loop with `left` turns to go.
  unfoldable pub wait_loop : Normalized → ℕ → ℕ → World Redis → CounterResult × World Redis
  wait_loop n zero backoff w = (retry_exhausted, w)
  wait_loop n (suc left) backoff w =
      on_response (wait_loop n left (min (backoff * 2) (runtime.wait_max * 1000))) left backoff
        (call_script n w).0 (call_script n w).1

  -- `_allocate_with_retry`
  unfoldable pub allocate_with_retry : Normalized → World Redis → CounterResult × World Redis
  unfolding wait_loop
  allocate_with_retry n w = wait_loop n runtime.wait_attempts (runtime.wait_base * 1000) w

  -- `_fetch_current`: a text that is no number counts as 0.
  abbrev pub current : Option Cell → ℕ
  current none = 0
  current (some (number n)) = n
  current (some placeholder) = 0
  current (some (assigned p)) = 0
  current (some garbled) = 0

  abbrev pub fetch_current : Text → Gender → Redis → Option ℕ × Redis
  fetch_current year_code gender redis =
      (some (current (redis (counter_sequence base year_code gender))), redis)

  abbrev pub previewed : Text → Gender → Option ℕ → World Redis → CounterResult × World Redis
  previewed year_code gender none w = (unavailable, w)
  previewed year_code gender (some n) w =
      if ltb runtime.max_serial (suc n)
      then (counter_exhausted, w)
      else (counter_preview (counter_of year_code gender (suc n)), w)

  -- `preview`
  unfoldable pub preview : Text → Gender → World Redis → CounterResult × World Redis
  preview year_code gender w =
      let (answer, after) = call config jitter links others (fetch_current year_code gender) w in
      previewed year_code gender answer after
