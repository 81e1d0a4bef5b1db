-- ===== src/Retry.antt =====
-- src/sma/core/retry.py: `RetryPolicy.backoff_for` and `execute_with_retry`. The metrics are left out.
-- Delays are whole microseconds before the jitter and thousandths of them after it; the factor is a
-- whole number. BLAKE2b of the correlation id, the operation and the attempt is a function.
pub mod Attempts
mod Tests
use student_mentor_allocatio.Base.{
  ℕ, zero, suc, ◌+◌, ◌-◌, ◌*◌, ◌^◌, ◌%◌, min, max, Bool, true, false, not, ◌||◌, List, [], ◌∷◌,
  ◌++◌, leb, if◌then◌else◌,
}

pub record RetryPolicy : Type 0 where
  pub base_delay : ℕ
  pub factor : ℕ
  pub max_delay : ℕ
  pub max_attempts : ℕ

unfoldable pub backoff_for : (ℕ → ℕ) → RetryPolicy → ℕ → ℕ
backoff_for digest policy attempt =
    let n = max 1 attempt in
    let raw = min (policy.base_delay * policy.factor ^ (n - 1)) policy.max_delay in
    raw * (1000 + digest n % 100)

-- What one call of `func` does.
pub data Call (A : Type 0) (E : Type 0) : Type 0 where
  gave : A → Call A E
  raised : E → Call A E

-- How `execute_with_retry` ends: the last case is the failed assertion after a loop without turns.
pub data Outcome (A : Type 0) (E : Type 0) : Type 0 where
  succeeded : A → Outcome A E
  exhausted : E → Outcome A E
  unassigned : Outcome A E

module _ {A : Type 0} {E : Type 0} (digest : ℕ → ℕ) (policy : RetryPolicy) (should_retry : E → Bool)
    (func : ℕ → Call A E) where
  abbrev pub answer : ℕ → List ℕ → Call A E → Outcome A E × ℕ × List ℕ → Outcome A E × ℕ × List ℕ
  answer attempt slept (gave result) next = (succeeded result, attempt, slept)
  answer attempt slept (raised exc) next =
      if not (should_retry exc) || leb policy.max_attempts attempt
      then (exhausted exc, attempt, slept)
      else next

  -- The loop from `attempt` on, with the turns that are left: the outcome, the number of calls and
  -- the delays.
  unfoldable pub retry_loop : ℕ → ℕ → List ℕ → Outcome A E × ℕ × List ℕ
  retry_loop zero attempt slept = (unassigned, attempt - 1, slept)
  retry_loop (suc left) attempt slept =
      answer attempt slept (func attempt)
        (retry_loop left (attempt + 1) (slept ++ backoff_for digest policy attempt ∷ []))

  unfoldable pub execute_with_retry : Outcome A E × ℕ × List ℕ
  unfolding retry_loop
  execute_with_retry = retry_loop policy.max_attempts 1 []
