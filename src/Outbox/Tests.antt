-- ===== src/Outbox/Tests.antt =====
-- The outbox theorems at three concrete messages: one that is due, one that is due and whose
-- publication fails, and one for later.
use student_mentor_allocatio.Base.{
  ℕ, zero, suc, ◌≤◌, ◌≡◌, refl, true, false, Option, none, some, List, [], ◌∷◌, arith, any,
}
use student_mentor_allocatio.Base.Text.{Text, codes, text_eq}
use student_mentor_allocatio.Base.Sort.{sort_by}
use student_mentor_allocatio.Store.{OutboxStatus, OutboxMessageModel, same_event}
use student_mentor_allocatio.Store.Consistent.{NoClash}
use student_mentor_allocatio.Outbox.Backoff.{BackoffPolicy, Readings}
use student_mentor_allocatio.Outbox.Dispatch.{
  Decoded, mapping, other, Dispatcher, schedule_next, mark_sent, list_due_for_update, handle,
  dispatch_message, dispatch_all, dispatch_once,
}
use student_mentor_allocatio.Outbox.Dispatch.Lifecycle.{
  failed, start, then_, IsScheduled, steps-IsScheduled, after_failures, after_failures_lem,
}
use student_mentor_allocatio.Outbox.Dispatch.Delivery.{AllMoved, dispatch_once-AllMoved}
use student_mentor_allocatio.Outbox.Dispatch.Counts.{is_other, dispatch_once-other}

abbrev policy : BackoffPolicy
policy = record { base_seconds = 1000000; cap_seconds = 300000000; max_retries = 2 }

abbrev clock : Readings
clock = record { mono_before = 50; mono_after = 60; wall_after = 7000 }

abbrev message : Text → ℕ → OutboxMessageModel
message id available_at = record {
  event_id = id;
  aggregate_id = 1;
  payload_json = codes "{}";
  occurred_at = 0;
  available_at = available_at;
  retry_count = 0;
  status = OutboxStatus.pending;
  published_at = none;
  last_error = none;
}

abbrev rows : List OutboxMessageModel
rows = message (codes "a") 30 ∷ message (codes "b") 20 ∷ message (codes "c") 9000 ∷ []

-- The publisher refuses the first message of a batch.
abbrev refuse_first : ℕ → OutboxMessageModel → Option Text
refuse_first zero m = some (codes "down")
refuse_first (suc n) m = none

abbrev dispatcher_with : Decoded → Dispatcher
dispatcher_with decoded = record {
  backoff = policy;
  batch_size = 50;
  loads = λ s. decoded;
  publish = refuse_first;
  now = 100;
  current_wall = λ n. 101;
  clock = λ n. clock;
  locked = λ m. false;
}

rows_unique : NoClash same_event rows
unfolding text_eq
rows_unique = ((refl, (refl, tt)), ((refl, tt), (tt, tt)))

-- The message that was due first is tried again later, and the other one is sent.
after_first :
    (dispatch_once (dispatcher_with mapping) true rows).1
    ≡ mark_sent 101 (message (codes "a") 30)
      ∷ schedule_next policy clock (codes "down") (message (codes "b") 20)
      ∷ message (codes "c") 9000
      ∷ []
unfolding dispatch_once dispatch_all dispatch_message list_due_for_update handle sort_by text_eq
    schedule_next
after_first = refl

one_sent : (dispatch_once (dispatcher_with mapping) true rows).0 ≡ some 1
unfolding dispatch_once dispatch_all dispatch_message list_due_for_update handle sort_by text_eq
    schedule_next
one_sent = refl

other_selected :
    any
      (λ m. is_other ((dispatcher_with other).loads m.payload_json))
      (list_due_for_update (dispatcher_with other) rows)
    ≡ true
unfolding list_due_for_update sort_by
other_selected = refl

new-IsScheduled : IsScheduled policy (message (codes "a") 30)
new-IsScheduled = record {
  while_pending = λ e. omega arith;
  when_sent = λ e. absurd (ground (arith, e));
  when_failed = λ e. absurd (ground (arith, e));
}

abbrev retried : OutboxMessageModel
retried = schedule_next policy clock (codes "down") (message (codes "a") 30)

steps-IsScheduled_example : IsScheduled policy retried
steps-IsScheduled_example =
    steps-IsScheduled policy
      (then_ (start (message (codes "a") 30))
        (failed clock (codes "down") (message (codes "a") 30) refl))
      new-IsScheduled

after_failures_lem_example :
    let last =
      after_failures policy
        ((clock, codes "x") ∷ (clock, codes "y") ∷ (clock, codes "z") ∷ [])
        (message (codes "a") 30) in
    (last.retry_count ≡ 3)
    × (3 ≤ 2 → last.status ≡ OutboxStatus.pending)
    × (◌≡◌ {A = ℕ} 3 3 → last.status ≡ OutboxStatus.failed)
after_failures_lem_example =
    after_failures_lem policy ((clock, codes "x") ∷ (clock, codes "y") ∷ (clock, codes "z") ∷ [])
      (message (codes "a") 30) refl refl (omega arith)

dispatch_once-AllMoved_example :
    AllMoved (dispatcher_with mapping) rows (dispatch_once (dispatcher_with mapping) true rows).1
dispatch_once-AllMoved_example =
    dispatch_once-AllMoved (dispatcher_with mapping) rows rows_unique true

dispatch_once-other_example :
    ((dispatch_once (dispatcher_with other) true rows).0 ≡ none)
    × ((dispatch_once (dispatcher_with other) true rows).1 ≡ rows)
dispatch_once-other_example = dispatch_once-other (dispatcher_with other) true rows other_selected
