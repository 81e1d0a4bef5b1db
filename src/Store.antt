-- ===== src/Store.antt =====
-- src/sma/infrastructure/persistence/models.py: the rows of the allocation and outbox tables, the
-- students and mentors that they refer to, and the constraints under which the database accepts a
-- new allocation with its event. SQLAlchemy and the database are not modelled beyond that: a flush
-- inserts the rows or raises `IntegrityError`, and a rollback drops them.
pub mod Consistent
use student_mentor_allocatio.Base.{
  ℕ, Bool, true, false, not, ◌&&◌, ◌||◌, Option, none, some, List, [], ◌∷◌, ◌++◌, any, ◌==◌, leb,
  length, if◌then◌else◌,
}
use student_mentor_allocatio.Base.Int.{ℤ}
use student_mentor_allocatio.Base.Text.{Text, text_eq}

pub record StudentModel : Type 0 where
  pub national_id : Text
  pub gender : ℤ
  pub edu_status : ℤ
  pub reg_center : ℤ
  pub reg_status : ℤ
  pub group_code : ℤ
  pub school_code : Option ℤ
  pub student_type : Option ℤ
  pub counter : Option Text

pub record MentorModel : Type 0 where
  pub mentor_id : ℤ
  pub gender : ℤ
  pub is_school : Bool
  pub capacity : ℤ
  pub current_load : ℤ
  pub manager_id : Option ℤ
  pub is_active : Bool

pub data AllocationStatus : Type 0 where
  confirmed cancelled : AllocationStatus

pub record AllocationRecord : Type 0 where
  pub allocation_id : ℕ
  pub allocation_code : Text
  pub year_code : Text
  pub student_id : Text
  pub mentor_id : ℤ
  pub idempotency_key : Text
  pub request_id : Option Text
  pub status : AllocationStatus
  pub policy_code : Text
  pub metadata_json : Option Text

pub data OutboxStatus : Type 0 where
  pending sent failed : OutboxStatus

-- Times are microseconds.
pub record OutboxMessageModel : Type 0 where
  pub event_id : Text
  pub aggregate_id : ℕ
  pub payload_json : Text
  pub occurred_at : ℕ
  pub available_at : ℕ
  pub retry_count : ℕ
  pub status : OutboxStatus
  pub published_at : Option ℕ
  pub last_error : Option Text

pub record Db : Type 0 where
  pub students : List StudentModel
  pub mentors : List MentorModel
  pub allocations : List AllocationRecord
  pub outbox : List OutboxMessageModel

-- The first row that a unique column selects.
abbrev pub find : {A : Type 0} → (A → Bool) → List A → Option A
find test [] = none
find test (x ∷ xs) = elim (test x) [ true ↦ some x | false ↦ find test xs ]

-- A row clashes with a new one on a primary key, a unique column or `ux_alloc_student_year`.
unfoldable pub clashes : AllocationRecord → AllocationRecord → Bool
clashes new old =
    new.allocation_id == old.allocation_id
    || text_eq new.allocation_code old.allocation_code
    || text_eq new.idempotency_key old.idempotency_key
    || (text_eq new.student_id old.student_id && text_eq new.year_code old.year_code)

abbrev pub same_event : OutboxMessageModel → OutboxMessageModel → Bool
same_event new old = text_eq new.event_id old.event_id

-- `session.flush()` with one new allocation and its event; `none` is the `IntegrityError`.
unfoldable pub flush : AllocationRecord → OutboxMessageModel → Db → Option Db
flush record' event db =
    if any (clashes record') db.allocations || any (same_event event) db.outbox
    then none
    else some (record db {
      allocations = db.allocations ++ record' ∷ [];
      outbox = db.outbox ++ event ∷ [];
    })
