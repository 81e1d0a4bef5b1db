-- ===== src/Atomic/Allocate/Consistency.antt =====
-- What a whole run of `allocate` does to the database.
use student_mentor_allocatio.Base.{
  ℕ, zero, suc, ◌+◌, refl, inl, inr, Bool, List, [], ◌∷◌, ◌++◌, Bool-cases,
}
use student_mentor_allocatio.Idempotency.{derive_event_id}
use student_mentor_allocatio.Store.{Db}
use student_mentor_allocatio.Store.Consistent.{IsConsistent, flush-IsConsistent}
use student_mentor_allocatio.Atomic.Types.{AllocationRequest, Fault, Allocator}
use student_mentor_allocatio.Atomic.Attempt.{new_event, execute_once}
use student_mentor_allocatio.Atomic.Attempt.Effects.{execute_once_effect}
use student_mentor_allocatio.Atomic.Allocate.{
  World, is_operational, backoff, attempt_in, allocate_loop, allocate,
}

module _ (a : Allocator) where
  open a use {hashes}
  open hashes use {Json}

  abbrev Good : Db → Type 0
  Good = IsConsistent (derive_event_id hashes)

  execute_once-IsConsistent :
      (fault : Fault) (others : Db → Db) (now : ℕ) (request : AllocationRequest Json)
      (dry_run : Bool) (db : Db)
      → Good (others db)
      → Good (execute_once a fault others now request dry_run db).1
  execute_once-IsConsistent fault others now request dry_run db g =
      elim (execute_once_effect a fault others now request dry_run db) [
        | inl h ↦ rw h.unchanged g
        | inr h ↦
            flush-IsConsistent h.new (new_event a h.new now) (others db) _ (derive_event_id hashes)
              refl h.written g
      ]

  -- A property of the database that every attempt keeps holds after any number of them.
  pub allocate_loop-keeps :
      (Q : Db → Type 0) (world : ℕ → World) (request : AllocationRequest Json) (dry_run : Bool)
      → ((k : ℕ) (db : Db) → Q db → Q (attempt_in a (world k) request dry_run db).1)
      → (attempt left : ℕ) (slept : List ℕ) (db : Db) → Q db
      → Q (allocate_loop a world request dry_run attempt left slept db).2
  unfolding allocate_loop
  allocate_loop-keeps Q world request dry_run keeps attempt zero slept db q = keeps attempt db q
  allocate_loop-keeps Q world request dry_run keeps attempt (suc left) slept db q =
      let (outcome, after) = attempt_in a (world attempt) request dry_run db in
      let kept : Q after = keeps attempt db q in
      elim (Bool-cases (is_operational outcome)) [
        | inl e ↦ rw e (
            allocate_loop-keeps Q world request dry_run keeps (attempt + 1) left
              (slept ++ backoff (attempt + 1) ∷ []) after kept)
        | inr e ↦ rw e kept
      ]

  -- If the other sessions keep the tables consistent, `allocate` does: keys, codes, ids, and the
  -- pairs of student and year stay unique, and every allocation has its event in the outbox. This
  -- holds for any number of retries and wherever the database fails.
  pub allocate-IsConsistent :
      (world : ℕ → World)
      → ((k : ℕ) (db : Db)
          → IsConsistent (derive_event_id hashes) db
          → IsConsistent (derive_event_id hashes) ((world k).others db))
      → (max_retries : ℕ) (request : AllocationRequest Json) (dry_run : Bool) (db : Db)
      → IsConsistent (derive_event_id hashes) db
      → IsConsistent (derive_event_id hashes) (allocate a world max_retries request dry_run db).2
  unfolding allocate
  allocate-IsConsistent world keep max_retries request dry_run db g =
      allocate_loop-keeps Good world request dry_run
        (λ k d q.
          execute_once-IsConsistent (world k).fault (world k).others (world k).now request dry_run d
            (keep k d q))
        0 max_retries [] db g
