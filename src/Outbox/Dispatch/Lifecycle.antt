-- ===== src/Outbox/Dispatch/Lifecycle.antt =====
-- The life of one outbox message: it stays pending while its attempts fail, until it is sent or has
-- failed more often than the policy allows.
use student_mentor_allocatio.Base.{ℕ, suc, ◌≤◌, ◌≡◌, refl, none, List, [], ◌∷◌, arith, length}
use student_mentor_allocatio.Base.Text.{Text}
use student_mentor_allocatio.Store.{OutboxStatus, OutboxMessageModel}
use student_mentor_allocatio.Outbox.Backoff.{BackoffPolicy, Readings}
use student_mentor_allocatio.Outbox.Dispatch.{schedule_next, mark_sent}

-- What the dispatcher does to a message: only pending ones are selected.
pub data Step (backoff : BackoffPolicy) : OutboxMessageModel → OutboxMessageModel → Type 0 where
  sent :
      (wall : ℕ) (m : OutboxMessageModel)
      → m.status ≡ OutboxStatus.pending
      → Step backoff m (mark_sent wall m)
  failed :
      (clock : Readings) (exc : Text) (m : OutboxMessageModel)
      → m.status ≡ OutboxStatus.pending
      → Step backoff m (schedule_next backoff clock exc m)

pub data Steps (backoff : BackoffPolicy) : OutboxMessageModel → OutboxMessageModel → Type 0 where
  start : (m : OutboxMessageModel) → Steps backoff m m
  then_ : {m n o : OutboxMessageModel} → Steps backoff m n → Step backoff n o → Steps backoff m o

pub record IsScheduled (backoff : BackoffPolicy) (m : OutboxMessageModel) : Type 0 where
  pub while_pending : m.status ≡ OutboxStatus.pending → m.retry_count ≤ backoff.max_retries
  pub when_sent :
      m.status ≡ OutboxStatus.sent → (m.retry_count ≤ backoff.max_retries) × (m.last_error ≡ none)
  pub when_failed : m.status ≡ OutboxStatus.failed → m.retry_count ≡ suc backoff.max_retries

module _ (backoff : BackoffPolicy) where
  Step-IsScheduled :
      {m n : OutboxMessageModel} → Step backoff m n → IsScheduled backoff m → IsScheduled backoff n
  unfolding schedule_next
  Step-IsScheduled (sent wall m p) h = record {
    while_pending = λ e. ground (arith, e);
    when_sent = λ e. (h.while_pending p, refl);
    when_failed = λ e. ground (arith, e);
  }
  Step-IsScheduled (failed clock exc m p) h = record {
    while_pending = λ e. ground (arith, e, p);
    when_sent = λ e. (ground (arith, e, p), ground (arith, e, p));
    when_failed = λ e. ground (arith, e, p, h.while_pending p);
  }

  -- From a message that is scheduled properly, any number of steps leads to one that is: pending with
  -- at most `max_retries` failures, sent with no error left, or failed after exactly one failure
  -- more than `max_retries`.
  pub steps-IsScheduled :
      {m n : OutboxMessageModel} → Steps backoff m n → IsScheduled backoff m → IsScheduled backoff n
  steps-IsScheduled (start m) h = h
  steps-IsScheduled (then_ ss s) h = Step-IsScheduled s (steps-IsScheduled ss h)

  -- A message that is not pending takes no step.
  pub steps-final : {m n : OutboxMessageModel} → Step backoff m n → m.status ≡ OutboxStatus.pending
  steps-final (sent wall m p) = p
  steps-final (failed clock exc m p) = p

  -- The message after its failures, the latest first.
  abbrev pub after_failures : List (Readings × Text) → OutboxMessageModel → OutboxMessageModel
  after_failures [] m = m
  after_failures ((clock, exc) ∷ later) m = schedule_next backoff clock exc (after_failures later m)

  -- A new pending message whose attempts all fail has as many failures as it has had attempts: it
  -- is pending for the first `max_retries` of them, and failed after one more.
  pub after_failures_lem :
      (failures : List (Readings × Text)) (m : OutboxMessageModel)
      → m.status ≡ OutboxStatus.pending
      → m.retry_count ≡ 0
      → length failures ≤ suc backoff.max_retries
      → let last = after_failures failures m in
        (last.retry_count ≡ length failures)
        × (length failures ≤ backoff.max_retries → last.status ≡ OutboxStatus.pending)
        × (length failures ≡ suc backoff.max_retries → last.status ≡ OutboxStatus.failed)
  unfolding schedule_next
  after_failures_lem [] m p z b = (z, λ h. p, λ h. absurd (omega arith))
  after_failures_lem ((clock, exc) ∷ later) m p z b =
      let (count, waiting, given_up) = after_failures_lem later m p z (omega arith) in
      (
        ground (arith, count),
        λ h. ground (arith, count, waiting (omega arith)),
        λ h. ground (arith, count),
      )
