-- ===== src/Repository/Assign.antt =====
-- `reserve_and_bind` of src/sma/phase2_counter_service/repository.py with its retries, and
-- `assign_counter` of service.py with what it reports to the meters.
pub mod Loop
pub mod Effects
pub mod Repeat
pub mod Next
use student_mentor_allocatio.Base.{
  ℕ, zero, suc, ◌+◌, ◌*◌, ◌-◌, Bool, true, false, not, ◌||◌, Option, none, some, List, [], ◌∷◌,
  if◌then◌else◌,
}
use student_mentor_allocatio.Base.Text.{Text}
use student_mentor_allocatio.Python.{Unicode}
use student_mentor_allocatio.Counter.{Gender}
use student_mentor_allocatio.Store.{StudentModel}
use student_mentor_allocatio.Repository.Validation.{
  ErrorCode, db_conflict, counter_exhausted, Checked, fine, raised, ensure_valid_inputs,
  ensure_counter_format,
}
use student_mentor_allocatio.Repository.Reserve.{
  CounterDb, Conflict, Session, did, failed, conflict, Strikes, select_student, existing_counter,
  reserve_once,
}

-- What the other sessions do: how they strike each attempt, and what they leave before the session
-- of an attempt and before the look-up that follows a conflict.
pub record Others : Type 0 where
  pub strikes : ℕ → Strikes
  pub before : ℕ → CounterDb → CounterDb
  pub after : ℕ → CounterDb → CounterDb

-- The kind that `_classify_conflict` finds in a text.
pub data ConflictKind : Type 0 where
  kind_national_id kind_counter kind_sequence kind_unknown : ConflictKind

-- A result, the last conflict, and the tables.
pub record Bound : Type 0 where
  pub result : Checked Text
  pub conflict_type : Option ConflictKind
  pub db : CounterDb

-- What `assign_counter` reports to the meters.
pub data Metered : Type 0 where
  validation_error : ErrorCode → Metered
  reuse : Metered
  success : Metered
  conflict_resolved : ConflictKind → Metered
  sequence_exhausted : Metered
  failure : ErrorCode → Metered

pub record Assignment : Type 0 where
  pub result : Checked Text
  pub metered : Option Metered
  pub db : CounterDb

abbrev pub present : Checked Text → Checked (Option Text)
present (fine value) = fine (some value)
present (raised code) = raised code

module _ (u : Unicode) (max_retries : ℕ) (refusal : Text) (classify : Conflict → ConflictKind) where
  -- The counter of the row, if it has one.
  abbrev pub fetched : Option Text → Checked (Option Text)
  fetched none = fine none
  fetched (some counter) = present (ensure_counter_format u counter)

  abbrev pub counter_of_row : Option StudentModel → Option Text
  counter_of_row none = none
  counter_of_row (some student) = existing_counter student.counter

  unfoldable pub fetch_student_counter : CounterDb → Text → Checked (Option Text)
  fetch_student_counter db national_id =
      fetched (counter_of_row (select_student db.students national_id))

  module _ (others : Others) (retry_on_conflict : Bool) (national_id : Text) (gender : Gender)
      (year_code : Text) where
    abbrev pub give_up : ConflictKind → CounterDb → Bound
    give_up kind db = record { result = raised db_conflict; conflict_type = some kind; db = db }

    -- After the look-up that follows a conflict.
    abbrev pub after_lookup :
        (CounterDb → Bound) → ConflictKind → CounterDb → Checked (Option Text) → Bound
    after_lookup next kind db (raised code) = record {
      result = raised code;
      conflict_type = some kind;
      db = db;
    }
    after_lookup next kind db (fine (some existing)) = record {
      result = fine existing;
      conflict_type = some kind;
      db = db;
    }
    after_lookup next kind db (fine none) = next db

    abbrev pub on_conflict : (CounterDb → Bound) → ℕ → ConflictKind → CounterDb → Bound
    on_conflict next attempt kind db =
        if not retry_on_conflict
        then give_up kind db
        else after_lookup next kind (others.after attempt db)
            (fetch_student_counter (others.after attempt db) national_id)

    -- `session.commit()` and `session.rollback()`: what the tables are after them, of those that the
    -- session has found and those that it has made of them.
    abbrev pub commit : CounterDb → CounterDb → CounterDb
    commit base work = work

    abbrev pub rollback : CounterDb → CounterDb → CounterDb
    rollback base work = base

    abbrev pub after_session :
        (ConflictKind → CounterDb → Bound) → Option ConflictKind → CounterDb → Session Text → Bound
    after_session next last db (did counter work) = record {
      result = fine counter;
      conflict_type = last;
      db = commit db work;
    }
    after_session next last db (failed code work) = record {
      result = raised code;
      conflict_type = last;
      db = rollback db work;
    }
    after_session next last db (conflict message work) = next (classify message) (rollback db work)

    abbrev pub session : ℕ → CounterDb → Session Text
    session attempt db =
        reserve_once u max_retries refusal (others.strikes attempt) db national_id gender year_code

    -- The loop with `left` retries to go after the attempt.
    unfoldable pub bind_loop : ℕ → ℕ → Option ConflictKind → CounterDb → Bound
    unfolding fetch_student_counter
    bind_loop zero attempt last db =
        after_session give_up last (others.before attempt db)
          (session attempt (others.before attempt db))
    bind_loop (suc left) attempt last db =
        after_session (λ kind. on_conflict (bind_loop left (suc attempt) (some kind)) attempt kind)
          last (others.before attempt db) (session attempt (others.before attempt db))

    -- `reserve_and_bind`: at least one attempt, and at most `max_retries`.
    unfoldable pub reserve_and_bind : CounterDb → Bound
    unfolding bind_loop
    reserve_and_bind db = bind_loop (max_retries - 1) 1 none db

  abbrev pub reported : Option ConflictKind → Checked Text → Metered
  reported none (fine counter) = success
  reported (some kind) (fine counter) = conflict_resolved kind
  reported last (raised counter_exhausted) = sequence_exhausted
  reported last (raised code) = failure code

  abbrev pub assigned_by : Bound → Assignment
  assigned_by bound = record {
    result = bound.result;
    metered = some (reported bound.conflict_type bound.result);
    db = bound.db;
  }

  abbrev pub with_fetched :
      Others → Text → Gender → Text → CounterDb → Checked (Option Text) → Assignment
  with_fetched others nid gender year db (raised code) = record {
    result = raised code;
    metered = none;
    db = db;
  }
  with_fetched others nid gender year db (fine (some existing)) = record {
    result = fine existing;
    metered = some reuse;
    db = db;
  }
  with_fetched others nid gender year db (fine none) =
      assigned_by (reserve_and_bind others true nid gender year db)

  abbrev pub with_inputs : Others → CounterDb → Checked (Text × Gender × Text) → Assignment
  with_inputs others db (raised code) = record {
    result = raised code;
    metered = some (validation_error code);
    db = db;
  }
  with_inputs others db (fine inputs) =
      with_fetched others inputs.0 inputs.1 inputs.2 db (fetch_student_counter db inputs.0)

  -- `CounterAssignmentService.assign_counter`; `none` is a gender that has no prefix.
  unfoldable pub assign_counter : Others → Text → Option Gender → Text → CounterDb → Assignment
  unfolding fetch_student_counter reserve_and_bind
  assign_counter others national_id gender year_code db =
      with_inputs others db (ensure_valid_inputs u national_id gender year_code)
