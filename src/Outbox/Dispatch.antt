-- ===== src/Outbox/Dispatch.antt =====
-- `OutboxDispatcher` of src/sma/phase3_allocation/outbox/dispatcher.py with the query of
-- repository.py. JSON, the publisher and the other workers' row locks come in as functions; log lines
-- are left out.
pub mod Lifecycle
pub mod Delivery
pub mod Counts
use student_mentor_allocatio.Base.{
  ℕ, zero, suc, ◌+◌, Bool, true, false, not, ◌&&◌, Option, none, some, List, [], ◌∷◌, ◌++◌, map,
  keep, take, ltb, leb, if◌then◌else◌,
}
use student_mentor_allocatio.Base.Text.{Text, text_eq, codes}
use student_mentor_allocatio.Base.Sort.{sort_by}
use student_mentor_allocatio.Store.{OutboxStatus, OutboxMessageModel}
use student_mentor_allocatio.Outbox.Backoff.{BackoffPolicy, Readings, compute_next_available_at}

-- What `json.loads` makes of a payload: an exception with its text, a mapping, or another value.
pub data Decoded : Type 0 where
  invalid : Text → Decoded
  mapping other : Decoded

pub record Dispatcher : Type 0 where
  pub backoff : BackoffPolicy
  pub batch_size : ℕ
  pub loads : Text → Decoded
  -- the text of the exception that `publish` raises for the `n`th message of the batch, if it does
  pub publish : ℕ → OutboxMessageModel → Option Text
  -- the readings of the clock: for the query, for the `n`th message, and in its rescheduling
  pub now : ℕ
  pub current_wall : ℕ → ℕ
  pub clock : ℕ → Readings
  -- the rows that another worker has locked
  pub locked : OutboxMessageModel → Bool

abbrev pub is_pending : OutboxStatus → Bool
is_pending OutboxStatus.pending = true
is_pending _ = false

unfoldable pub schedule_next :
    BackoffPolicy → Readings → Text → OutboxMessageModel → OutboxMessageModel
schedule_next backoff clock exc model =
    let retry_count = model.retry_count + 1 in
    if ltb backoff.max_retries retry_count
    then record model {
      retry_count = retry_count;
      status = OutboxStatus.failed;
      last_error = some (take 256 (codes "MAX_RETRIES_REACHED:" ++ exc));
    }
    else record model {
      retry_count = retry_count;
      available_at = compute_next_available_at backoff clock retry_count;
      last_error = some (take 256 (codes "RETRYING:" ++ exc));
    }

abbrev pub mark_sent : ℕ → OutboxMessageModel → OutboxMessageModel
mark_sent current_wall model = record model {
  status = OutboxStatus.sent;
  published_at = some current_wall;
  last_error = none;
}

-- The state of a batch: the rows of the session, the number of events sent, the ids of the events
-- that the publisher has accepted, and what the status hook was told.
pub record Batch : Type 0 where
  pub rows : List OutboxMessageModel
  pub dispatched : ℕ
  pub published : List Text
  pub notified : List (Text × OutboxStatus)

-- The rows with the one of the same id replaced.
abbrev pub store : OutboxMessageModel → List OutboxMessageModel → List OutboxMessageModel
store new rows = map (λ old. if text_eq new.event_id old.event_id then new else old) rows

module _ (d : Dispatcher) where
  open d use {backoff, batch_size, loads, publish, now, current_wall, clock, locked}

  abbrev pub is_due : OutboxMessageModel → Bool
  is_due model = is_pending model.status && leb model.available_at now

  -- `list_due_for_update`; rows that are available at the same time keep the table's order, which the
  -- query leaves open.
  unfoldable pub list_due_for_update : List OutboxMessageModel → List OutboxMessageModel
  list_due_for_update rows = take batch_size (
      keep (λ m. not (locked m))
        (sort_by (λ a b. leb a.available_at b.available_at) (keep is_due rows)))

  -- The row of the `n`th message after it was handled: the exception of `json.loads` or of
  -- `publish`, or none.
  unfoldable pub handle : ℕ → OutboxMessageModel → Option Text → OutboxMessageModel
  handle n model (some exc) = schedule_next backoff (clock n) exc model
  handle n model none = mark_sent (current_wall n) model

  abbrev pub attempt_publish : ℕ → OutboxMessageModel → Option Text
  attempt_publish n model = elim (loads model.payload_json) [
    | invalid exc ↦ some exc
    | mapping ↦ publish n model
    | other ↦ publish n model
  ]

  abbrev pub sent_count : Option Text → ℕ
  sent_count none = 1
  sent_count (some exc) = 0

  abbrev pub sent_ids : OutboxMessageModel → Option Text → List Text
  sent_ids model none = model.event_id ∷ []
  sent_ids model (some exc) = []

  -- One turn of the loop.
  unfoldable pub dispatch_message : ℕ → OutboxMessageModel → Batch → Batch
  dispatch_message n model batch =
      let result = attempt_publish n model in
      let new = handle n model result in
      record {
        rows = store new batch.rows;
        dispatched = batch.dispatched + sent_count result;
        published = batch.published ++ sent_ids model result;
        notified = batch.notified ++ (model.event_id, new.status) ∷ [];
      }

  -- Reading the key of a payload that is not a mapping raises an `AttributeError`.
  abbrev pub read_key : Decoded → Batch → Bool × Batch → Bool × Batch
  read_key (invalid exc) batch next = next
  read_key mapping batch next = next
  read_key other batch next = (false, batch)

  -- The loop, and whether it came to its end: nothing catches the exception of `read_key`.
  unfoldable pub dispatch_all : ℕ → List OutboxMessageModel → Batch → Bool × Batch
  dispatch_all n [] batch = (true, batch)
  dispatch_all n (model ∷ rest) batch =
      let next = dispatch_all (n + 1) rest (dispatch_message n model batch) in
      read_key (loads model.payload_json) batch next

  -- `dispatch_once`: the result, the rows in the database, and the batch that was worked off.
  -- `commits` says whether the commit goes through.
  unfoldable pub dispatch_once :
      Bool → List OutboxMessageModel → Option ℕ × List OutboxMessageModel × Batch
  unfolding dispatch_all list_due_for_update
  dispatch_once commits rows =
      let (finished, batch) =
        dispatch_all 0 (list_due_for_update rows)
          (record { rows = rows; dispatched = 0; published = []; notified = [] }) in
      if finished && commits
      then (some batch.dispatched, batch.rows, batch)
      else (none, rows, batch)
