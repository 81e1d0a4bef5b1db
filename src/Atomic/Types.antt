-- ===== src/Atomic/Types.antt =====
-- The values of src/sma/phase3_allocation/allocation_tx.py: requests, verdicts, identifiers, results,
-- and how an attempt can end or be struck by the database.
use student_mentor_allocatio.Base.{ℕ, Bool, true, false, Option}
use student_mentor_allocatio.Base.Int.{ℤ}
use student_mentor_allocatio.Base.Text.{Text}
use student_mentor_allocatio.Idempotency.{Hashes}
use student_mentor_allocatio.Store.{StudentModel, MentorModel, AllocationRecord, Db}

pub record PolicyVerdict : Type 0 where
  pub approved : Bool
  pub code : Text

pub record AllocationIdentifiers : Type 0 where
  pub allocation_id : ℕ
  pub year_code : Text
  pub allocation_code : Text

pub record AllocationRequest (Json : Type 0) : Type 0 where
  pub student_id : Text
  pub mentor_id : ℤ
  pub request_id : Option Text
  pub payload : Json
  pub metadata : Option Text
  pub year_code : Option Text

pub data Status : Type 0 where
  assigned already_assigned mentor_not_found student_not_found policy_reject rehearsed : Status

pub record AllocationResult : Type 0 where
  pub allocation_id : Option ℕ
  pub allocation_code : Option Text
  pub year_code : Option Text
  pub mentor_id : Option ℤ
  pub status : Status
  pub error_code : Option Text
  pub idempotency_key : Text
  pub outbox_event_id : Option Text

-- How the body of the `with` block, or the block with the end of its unit of work, comes out.
pub data Outcome : Type 0 where
  returned : AllocationResult → Outcome
  operational_error integrity_error payload_too_large commit_failed : Outcome

-- The point at which the database raises in an attempt: in a query before the flush, in the flush,
-- in a query after the rollback, or in the commit.
pub data Fault : Type 0 where
  no_fault in_query in_flush in_requery in_commit : Fault

-- The collaborators of `AtomicAllocator`.
pub record Allocator : Type 1 where
  pub hashes : Hashes
  pub open hashes use {Json}
  pub policy : StudentModel → MentorModel → AllocationRequest Json → PolicyVerdict
  pub sequence : Db → AllocationIdentifiers
  -- `json.dumps` of the event's payload, for the record, the event id and the time, and the size of
  -- a text in UTF-8
  pub encode : AllocationRecord → Text → ℕ → Text
  pub utf8_size : Text → ℕ

abbrev pub max_payload_bytes : ℕ
max_payload_bytes = 32768

abbrev pub strikes_query : Fault → Bool
strikes_query in_query = true
strikes_query _ = false

abbrev pub strikes_flush : Fault → Bool
strikes_flush in_flush = true
strikes_flush _ = false

abbrev pub strikes_requery : Fault → Bool
strikes_requery in_requery = true
strikes_requery _ = false

abbrev pub strikes_commit : Fault → Bool
strikes_commit in_commit = true
strikes_commit _ = false
