-- ===== src/Retry/Tests.antt =====
-- The theorems on retries at a function that fails twice.
use student_mentor_allocatio.Base.{ℕ, suc, Bool, true, [], arith}
use student_mentor_allocatio.Retry.{RetryPolicy, Call, gave, raised, execute_with_retry}
use student_mentor_allocatio.Retry.Attempts.{Ran, execute_with_retry-Ran}

abbrev policy : RetryPolicy
policy = record { base_delay = 100; factor = 2; max_delay = 5000; max_attempts = 3 }

abbrev third_time : ℕ → Call ℕ Bool
third_time (suc (suc (suc n))) = gave 7
third_time n = raised true

execute_with_retry-Ran_example :
    Ran
      (λ n. n)
      policy
      (λ e. e)
      third_time
      1
      3
      []
      (execute_with_retry (λ n. n) policy (λ e. e) third_time)
execute_with_retry-Ran_example =
    execute_with_retry-Ran (λ n. n) policy (λ e. e) third_time (omega arith)
