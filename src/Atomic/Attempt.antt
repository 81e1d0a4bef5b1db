-- ===== src/Atomic/Attempt.antt =====
-- `AtomicAllocator._execute_once` of src/sma/phase3_allocation/allocation_tx.py inside a unit of work
-- of uow.py. The policy engine, the sequence provider and the event's JSON encoder come in as
-- functions. What other sessions commit before the flush, and the point at which the database
-- fails, are arguments. Messages and log lines are left out.
pub mod Effects
pub mod Repeat
use student_mentor_allocatio.Base.{
  ℕ, Bool, true, false, not, ◌&&◌, Option, none, some, [], ◌∷◌, ltb, if◌then◌else◌,
}
use student_mentor_allocatio.Base.Int.{ℤ, eq_ℤ}
use student_mentor_allocatio.Base.Text.{Text, text_eq, codes}
use student_mentor_allocatio.Python.{PyValue}
use student_mentor_allocatio.Idempotency.{Hashes, derive_idempotency_key, derive_event_id}
use student_mentor_allocatio.Store.{
  StudentModel, MentorModel, AllocationStatus, AllocationRecord, OutboxStatus, OutboxMessageModel,
  Db, find, flush,
}
use student_mentor_allocatio.Atomic.Types.{
  PolicyVerdict, AllocationIdentifiers, AllocationRequest, Status, assigned, already_assigned,
  mentor_not_found, student_not_found, policy_reject, rehearsed, AllocationResult, Outcome,
  returned, operational_error, integrity_error, payload_too_large, commit_failed, Fault, Allocator,
  max_payload_bytes, strikes_query, strikes_flush, strikes_requery, strikes_commit,
}

abbrev pub find_key : Text → Db → Option AllocationRecord
find_key key db = find (λ r. text_eq r.idempotency_key key) db.allocations

abbrev pub find_student_year : Text → Text → Db → Option AllocationRecord
find_student_year student year db =
    find (λ r. text_eq r.student_id student && text_eq r.year_code year) db.allocations

-- A result without an allocation.
abbrev pub refusal : Status → Text → Text → AllocationResult
refusal status error_code key = record {
  allocation_id = none;
  allocation_code = none;
  year_code = none;
  mentor_id = none;
  status = status;
  error_code = some error_code;
  idempotency_key = key;
  outbox_event_id = none;
}

-- `a or b` of two texts
abbrev pub text_or : Text → Text → Text
text_or [] other = other
text_or (c ∷ s) other = c ∷ s

-- The body of a unit of work: how it ended, what its session has written, and `_skip_commit`.
pub record Body : Type 0 where
  pub outcome : Outcome
  pub work : Db
  pub skip_commit : Bool

-- `UnitOfWork.__exit__` with `SQLAlchemyUnitOfWork.commit` and `rollback`; `base` is what the
-- other sessions have committed.
unfoldable pub exit_unit : Fault → Db → Body → Outcome × Db
exit_unit fault base body = elim body.outcome [
  | returned result ↦
      if body.skip_commit
      then (returned result, base)
      else if strikes_commit fault
      then (commit_failed, base)
      else (returned result, body.work)
  | operational_error ↦ (operational_error, base)
  | integrity_error ↦ (integrity_error, base)
  | payload_too_large ↦ (payload_too_large, base)
  | commit_failed ↦ (commit_failed, base)
]

module _ (a : Allocator) where
  open a use {hashes, policy, sequence, encode, utf8_size}
  open hashes use {Json}

  abbrev pub request_key : AllocationRequest Json → Text
  request_key request =
      derive_idempotency_key hashes (PyValue.text request.student_id)
        (PyValue.integer request.mentor_id)
        (elim request.request_id [ none ↦ PyValue.nothing | some id ↦ PyValue.text id ])
        request.payload

  abbrev pub already_assigned_result : Text → AllocationRecord → AllocationResult
  already_assigned_result key existing = record {
    allocation_id = some existing.allocation_id;
    allocation_code = some existing.allocation_code;
    year_code = some existing.year_code;
    mentor_id = some existing.mentor_id;
    status = already_assigned;
    error_code = some (codes "ALREADY_ASSIGNED");
    idempotency_key = key;
    outbox_event_id = some (derive_event_id hashes key);
  }

  abbrev pub assigned_result : Text → AllocationRecord → AllocationResult
  assigned_result key new = record {
    allocation_id = some new.allocation_id;
    allocation_code = some new.allocation_code;
    year_code = some new.year_code;
    mentor_id = some new.mentor_id;
    status = assigned;
    error_code = none;
    idempotency_key = key;
    outbox_event_id = some (derive_event_id hashes key);
  }

  abbrev pub dry_run_result : AllocationRequest Json → MentorModel → Text → AllocationResult
  dry_run_result request mentor key = record {
    allocation_id = none;
    allocation_code = none;
    year_code = request.year_code;
    mentor_id = some mentor.mentor_id;
    status = rehearsed;
    error_code = none;
    idempotency_key = key;
    outbox_event_id = none;
  }

  abbrev pub new_record :
      AllocationRequest Json
      → StudentModel
      → MentorModel
      → PolicyVerdict
      → AllocationIdentifiers
      → AllocationRecord
  new_record request student mentor verdict identifiers = record {
    allocation_id = identifiers.allocation_id;
    allocation_code = identifiers.allocation_code;
    year_code = identifiers.year_code;
    student_id = student.national_id;
    mentor_id = mentor.mentor_id;
    idempotency_key = request_key request;
    request_id = request.request_id;
    status = AllocationStatus.confirmed;
    policy_code = verdict.code;
    metadata_json = request.metadata;
  }

  abbrev pub new_event : AllocationRecord → ℕ → OutboxMessageModel
  new_event new now = record {
    event_id = derive_event_id hashes new.idempotency_key;
    aggregate_id = new.allocation_id;
    payload_json = encode new (derive_event_id hashes new.idempotency_key) now;
    occurred_at = now;
    available_at = now;
    retry_count = 0;
    status = OutboxStatus.pending;
    published_at = none;
    last_error = none;
  }

  -- After the rollback: the allocation that was in the way, by its key or by student and year.
  abbrev conflicting : AllocationRecord → Db → Option AllocationRecord
  conflicting new base = elim (find_key new.idempotency_key base) [
    | some existing ↦ some existing
    | none ↦ elim new.year_code [
      | [] ↦ none
      | c ∷ s ↦ find_student_year new.student_id (c ∷ s) base
    ]
  ]

  unfoldable pub after_conflict : Fault → AllocationRecord → Db → Outcome
  after_conflict fault new base =
      if strikes_requery fault then operational_error else elim (conflicting new base) [
        | none ↦ integrity_error
        | some existing ↦ returned (already_assigned_result new.idempotency_key existing)
      ]

  abbrev flushed : Fault → AllocationRecord → Db → Option Db → Body
  flushed fault new base (some work) = record {
    outcome = returned (assigned_result new.idempotency_key new);
    work = work;
    skip_commit = false;
  }
  flushed fault new base none = record {
    outcome = after_conflict fault new base;
    work = base;
    skip_commit = true;
  }

  abbrev raising : Outcome → Db → Body
  raising outcome base = record { outcome = outcome; work = base; skip_commit = false }

  -- The `try` block: the record and its event are added and flushed.
  unfoldable pub persist : Fault → ℕ → AllocationRecord → Db → Body
  persist fault now new base =
      let event = new_event new now in
      if ltb max_payload_bytes (utf8_size event.payload_json)
      then raising payload_too_large base
      else if strikes_flush fault
      then raising operational_error base
      else flushed fault new base (flush new event base)

  abbrev return_unchanged : AllocationResult → Db → Body
  return_unchanged result base = raising (returned result) base

  -- From the verdict on.
  abbrev decide :
      Fault
      → ℕ
      → AllocationRequest Json
      → Bool
      → Db
      → Db
      → StudentModel
      → MentorModel
      → PolicyVerdict
      → Body
  decide fault now request dry_run db base student mentor verdict =
      let key = request_key request in
      if not verdict.approved
      then return_unchanged
          (refusal policy_reject (text_or verdict.code (codes "POLICY_REJECT")) key) base
      else if dry_run
      then return_unchanged (dry_run_result request mentor key) base
      else persist fault now (new_record request student mentor verdict (sequence db)) base

  abbrev with_student :
      Fault → ℕ → AllocationRequest Json → Bool → Db → Db → MentorModel → Option StudentModel → Body
  with_student fault now request dry_run db base mentor none =
      return_unchanged (refusal student_not_found (codes "STUDENT_NOT_FOUND") (request_key request))
        base
  with_student fault now request dry_run db base mentor (some student) =
      decide fault now request dry_run db base student mentor (policy student mentor request)

  abbrev pub find_student : Text → Db → Option StudentModel
  find_student id db = find (λ s. text_eq s.national_id id) db.students

  abbrev pub find_mentor : ℤ → Db → Option MentorModel
  find_mentor id db = find (λ m. eq_ℤ m.mentor_id id) db.mentors

  abbrev with_mentor :
      Fault → ℕ → AllocationRequest Json → Bool → Db → Db → Option MentorModel → Body
  with_mentor fault now request dry_run db base none =
      return_unchanged (refusal mentor_not_found (codes "MENTOR_NOT_FOUND") (request_key request))
        base
  with_mentor fault now request dry_run db base (some mentor) =
      with_student fault now request dry_run db base mentor (find_student request.student_id db)

  abbrev fresh :
      Fault → ℕ → AllocationRequest Json → Bool → Db → Db → Option AllocationRecord → Body
  fresh fault now request dry_run db base (some existing) =
      return_unchanged (already_assigned_result (request_key request) existing) base
  fresh fault now request dry_run db base none =
      with_mentor fault now request dry_run db base (find_mentor request.mentor_id db)

  -- The body of the `with` block: it reads `db`, and writes on top of `base`.
  unfoldable pub attempt_body : Fault → ℕ → AllocationRequest Json → Bool → Db → Db → Body
  attempt_body fault now request dry_run db base =
      if strikes_query fault
      then raising operational_error base
      else fresh fault now request dry_run db base (find_key (request_key request) db)

  -- `_execute_once`: `others` is what other sessions commit between its first query and its end.
  unfoldable pub execute_once :
      Fault → (Db → Db) → ℕ → AllocationRequest Json → Bool → Db → Outcome × Db
  unfolding attempt_body
  execute_once fault others now request dry_run db =
      exit_unit fault (others db) (attempt_body fault now request dry_run db (others db))
