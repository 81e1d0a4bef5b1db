-- ===== src/Atomic/Allocate.antt =====
-- `AtomicAllocator.allocate` of src/sma/phase3_allocation/allocation_tx.py: attempts until one does
-- not end in an `OperationalError`, at most `max_retries` more than the first.
pub mod Consistency
pub mod Retries
use student_mentor_allocatio.Base.{
  ℕ, zero, suc, ◌+◌, ◌^◌, min, Bool, true, false, List, [], ◌∷◌, ◌++◌, if◌then◌else◌,
}
use student_mentor_allocatio.Store.{Db}
use student_mentor_allocatio.Atomic.Types.{
  AllocationRequest, Outcome, operational_error, Fault, Allocator,
}
use student_mentor_allocatio.Atomic.Attempt.{execute_once}

-- What the world does to one attempt.
pub record World : Type 0 where
  pub fault : Fault
  pub others : Db → Db
  pub now : ℕ

abbrev pub is_operational : Outcome → Bool
is_operational operational_error = true
is_operational _ = false

-- The delay before the next attempt, in halves of a second: `min(0.5 * 2 ** attempt, 5.0)`.
abbrev pub backoff : ℕ → ℕ
backoff attempt = min (2 ^ attempt) 10

module _ (a : Allocator) where
  open a use {hashes}
  open hashes use {Json}

  abbrev pub attempt_in : World → AllocationRequest Json → Bool → Db → Outcome × Db
  attempt_in world request dry_run db =
      execute_once a world.fault world.others world.now request dry_run db

  -- `attempt` counts the failures so far, `left` the retries that are still allowed, and `slept`
  -- the delays.
  unfoldable pub allocate_loop :
      (ℕ → World) → AllocationRequest Json → Bool → ℕ → ℕ → List ℕ → Db → Outcome × List ℕ × Db
  allocate_loop world request dry_run attempt zero slept db =
      let (outcome, after) = attempt_in (world attempt) request dry_run db in
      (outcome, slept, after)
  allocate_loop world request dry_run attempt (suc left) slept db =
      let (outcome, after) = attempt_in (world attempt) request dry_run db in
      let next =
        allocate_loop world request dry_run (attempt + 1) left (slept ++ backoff (attempt + 1) ∷ [])
          after in
      if is_operational outcome then next else (outcome, slept, after)

  unfoldable pub allocate :
      (ℕ → World) → ℕ → AllocationRequest Json → Bool → Db → Outcome × List ℕ × Db
  unfolding allocate_loop
  allocate world max_retries request dry_run db =
      allocate_loop world request dry_run 0 max_retries [] db
