-- ===== src/Export/Attempts.antt =====
-- src/sma/phase6_import_to_sabt/export_runner.py: the attempts of a job and the pauses between them. A
-- delay is counted in parts of base_delay / (10 * 2 ^ 64), in which it is whole; floats round it. The
-- digest of the correlation id and the attempt is a function into the numbers below 2 ^ 64.
pub mod Ends
pub mod Pauses
use student_mentor_allocatio.Base.{
  ℕ, zero, suc, ◌+◌, ◌-◌, ◌*◌, ◌^◌, Option, none, some, Bool, true, false, not, ◌||◌, List, [], ◌∷◌,
  ◌++◌, leb, if◌then◌else◌,
}
use student_mentor_allocatio.Retry.{Call, gave, raised}

module _ (digest : ℕ → ℕ) where
  unfoldable pub compute_delay : ℕ → ℕ
  compute_delay attempt = 2 ^ (attempt - 1) * (10 * 2 ^ 64 + digest attempt)

  abbrev pub delays_from : ℕ → ℕ → List ℕ
  delays_from attempt zero = []
  delays_from attempt (suc n) = compute_delay attempt ∷ delays_from (attempt + 1) n

  -- `build_schedule(...).delays`
  abbrev pub build_schedule : ℕ → List ℕ
  build_schedule max_attempts = delays_from 1 (max_attempts - 1)

module _ {M : Type 0} {E : Type 0} (digest : ℕ → ℕ) (retryable : E → Bool) (max_attempts : ℕ)
    (func : ℕ → Call M E) where
  abbrev pub Run : Type 0
  Run = Option (Call M E × ℕ × List ℕ)

  -- After `attempt` exceptions that were retried: what the next call does.
  abbrev pub caught : ℕ → List ℕ → Call M E → Run → Run
  caught attempt slept (gave result) next = some (gave result, attempt + 1, slept)
  caught attempt slept (raised exc) next =
      if not (retryable exc) || leb max_attempts (attempt + 1)
      then some (raised exc, attempt + 1, slept)
      else next

  -- The loop, with its end, the number of calls and the delays; `none` is the end of the fuel.
  unfoldable pub execute_loop : ℕ → ℕ → List ℕ → Run
  execute_loop zero attempt slept = none
  execute_loop (suc fuel) attempt slept =
      let next =
        execute_loop fuel (attempt + 1) (slept ++ compute_delay digest (attempt + 1) ∷ []) in
      caught attempt slept (func (attempt + 1)) next

  unfoldable pub execute : Run
  unfolding execute_loop
  execute = execute_loop max_attempts 0 []
