-- ===== src/Repository/Reserve.antt =====
-- `SqlAlchemyCounterRepository` of src/sma/phase2_counter_service/repository.py and
-- `CounterAssignmentService` of service.py.
pub mod Effects
pub mod Rows
pub mod Numbers
pub mod Invariant
pub mod Progress
use student_mentor_allocatio.Base.{
  ℕ, zero, suc, ◌+◌, Bool, true, false, not, ◌||◌, ◌&&◌, ◌==◌, Option, none, some, List, [], ◌∷◌,
  ◌++◌, map, any, leb, length, take, drop, if◌then◌else◌,
}
use student_mentor_allocatio.Base.Text.{Text, text_eq, codes}
use student_mentor_allocatio.Base.Text.Decimal.{is_digit, decimal_pad}
use student_mentor_allocatio.Python.{Unicode}
use student_mentor_allocatio.Counter.{Gender, counter_code}
use student_mentor_allocatio.Store.{StudentModel}
use student_mentor_allocatio.Repository.Validation.{
  ErrorCode, invalid_nid, db_conflict, counter_exhausted, Checked, fine, raised,
  ensure_valid_inputs, ensure_counter_format, ensure_sequence_bounds,
}

pub record CounterSequence : Type 0 where
  pub year_code : Text
  pub gender_code : Text
  pub last_seq : ℕ

pub record CounterDb : Type 0 where
  pub students : List StudentModel
  pub sequences : List CounterSequence

-- The text of an `IntegrityError`.
abbrev pub Conflict : Type 0
Conflict = Text

-- How one session ends: with a value, an error of the service, or a conflict. It carries the tables as
-- the session sees them then, with all that it has written and not committed; a savepoint that an
-- exception leaves has been undone.
pub data Session (A : Type 0) : Type 0 where
  did : A → CounterDb → Session A
  failed : ErrorCode → CounterDb → Session A
  conflict : Conflict → CounterDb → Session A

-- The places where another session, or the fault injector, makes a flush fail.
pub record Strikes : Type 0 where
  pub sequence_race : Option Conflict
  pub duplicate_national_id : Option Conflict
  pub duplicate_counter : Option Conflict

-- The first row with the primary key.
abbrev pub select_student : List StudentModel → Text → Option StudentModel
select_student [] national_id = none
select_student (s ∷ students) national_id =
    if text_eq s.national_id national_id then some s else select_student students national_id

abbrev pub is_row : Text → Text → CounterSequence → Bool
is_row year_code prefix row = text_eq row.year_code year_code && text_eq row.gender_code prefix

-- `_select_sequence_row`
abbrev pub select_sequence_row : List CounterSequence → Text → Text → Option CounterSequence
select_sequence_row [] year_code prefix = none
select_sequence_row (row ∷ rows) year_code prefix =
    if is_row year_code prefix row then some row else select_sequence_row rows year_code prefix

-- `seq_row.last_seq = value` and `student.counter = value` on the row with the key.
abbrev pub set_last_seq : Text → Text → ℕ → List CounterSequence → List CounterSequence
set_last_seq year_code prefix value [] = []
set_last_seq year_code prefix value (row ∷ rows) =
    if is_row year_code prefix row
    then (record { year_code = row.year_code; gender_code = row.gender_code; last_seq = value })
      ∷ rows
    else row ∷ set_last_seq year_code prefix value rows

abbrev pub with_counter : Text → StudentModel → StudentModel
with_counter counter s = record {
  national_id = s.national_id;
  gender = s.gender;
  edu_status = s.edu_status;
  reg_center = s.reg_center;
  reg_status = s.reg_status;
  group_code = s.group_code;
  school_code = s.school_code;
  student_type = s.student_type;
  counter = some counter;
}

abbrev pub set_counter : Text → Text → List StudentModel → List StudentModel
set_counter national_id counter [] = []
set_counter national_id counter (s ∷ students) =
    if text_eq s.national_id national_id
    then with_counter counter s ∷ students
    else s ∷ set_counter national_id counter students

-- The unique constraint on the counters, against the rows of the other students.
abbrev pub holds_counter : Text → Option Text → Bool
holds_counter counter none = false
holds_counter counter (some c) = text_eq c counter

abbrev pub is_taken : Text → Text → List StudentModel → Bool
is_taken national_id counter students =
    any (λ s. not (text_eq s.national_id national_id) && holds_counter counter s.counter) students

-- `ck_counter_pattern`
abbrev pub starts_with_digit : Text → Bool
starts_with_digit [] = false
starts_with_digit (c ∷ s) = is_digit c

abbrev pub matches_check : Text → Bool
matches_check counter =
    length counter == 9
    && starts_with_digit counter
    && (text_eq (take 3 (drop 2 counter)) (codes "357")
        || text_eq (take 3 (drop 2 counter)) (codes "373"))

-- A counter that is there and not empty.
abbrev pub existing_counter : Option Text → Option Text
existing_counter none = none
existing_counter (some []) = none
existing_counter (some (c ∷ s)) = some (c ∷ s)

-- A flush that may be struck, and the tables then.
abbrev pub strike_or : {A : Type 0} → Option Conflict → CounterDb → Session A → Session A
strike_or none work session = session
strike_or (some message) work session = conflict message work

module _ (u : Unicode) (max_retries : ℕ) (refusal : Text) where
  abbrev pub returned : CounterDb → Checked Text → Session Text
  returned db (fine counter) = did counter db
  returned db (raised code) = failed code db

  -- The bounds, the new number of the row, and its flush.
  abbrev pub counted : Strikes → CounterDb → Text → Text → Checked ℕ → Session ℕ
  counted strikes db year_code prefix (raised code) = failed code db
  counted strikes db year_code prefix (fine next_value) =
      strike_or strikes.duplicate_national_id db (
        did next_value (record {
          students = db.students;
          sequences = set_last_seq year_code prefix next_value db.sequences;
        }))

  abbrev pub advance : Strikes → CounterDb → Text → Text → CounterSequence → Session ℕ
  advance strikes db year_code prefix row =
      counted strikes db year_code prefix (ensure_sequence_bounds (row.last_seq + 1))

  abbrev pub new_row : Text → Text → CounterSequence
  new_row year_code prefix = record { year_code = year_code; gender_code = prefix; last_seq = 0 }

  abbrev pub with_row : CounterDb → Text → Text → CounterDb
  with_row db year_code prefix = record {
    students = db.students;
    sequences = db.sequences ++ (new_row year_code prefix ∷ []);
  }

  abbrev pub reselected :
      Session ℕ → Strikes → CounterDb → Text → Text → Option CounterSequence → Session ℕ
  reselected again strikes db year_code prefix none = again
  reselected again strikes db year_code prefix (some row) = advance strikes db year_code prefix row

  abbrev pub selected :
      Session ℕ → Strikes → CounterDb → Text → Text → Option CounterSequence → Session ℕ
  selected again strikes db year_code prefix (some row) = advance strikes db year_code prefix row
  selected again strikes db year_code prefix none =
      let inserted = with_row db year_code prefix in
      strike_or strikes.sequence_race db (
        reselected again strikes inserted year_code prefix
          (select_sequence_row inserted.sequences year_code prefix))

  -- `_next_sequence` with `left` turns to go. A turn that finds no row after its own insert leaves
  -- the row for the next one.
  unfoldable pub next_sequence : ℕ → Strikes → CounterDb → Text → Text → Session ℕ
  next_sequence zero strikes db year_code prefix = failed db_conflict db
  next_sequence (suc left) strikes db year_code prefix =
      selected (next_sequence left strikes (with_row db year_code prefix) year_code prefix) strikes
        db year_code prefix (select_sequence_row db.sequences year_code prefix)

  abbrev pub with_student_counter : CounterDb → Text → Text → CounterDb
  with_student_counter db national_id counter = record {
    students = set_counter national_id counter db.students;
    sequences = db.sequences;
  }

  -- The flush of the student's row, whose counter is set before the savepoint.
  abbrev pub bind_counter : Strikes → CounterDb → Text → Checked Text → Session Text
  bind_counter strikes db national_id (raised code) = failed code db
  bind_counter strikes db national_id (fine counter) =
      let work = with_student_counter db national_id counter in
      strike_or strikes.duplicate_counter work (
        if is_taken national_id counter db.students || not (matches_check counter)
        then conflict refusal work
        else did counter work)

  abbrev pub in_bounds : Strikes → CounterDb → Text → Text → Text → Checked ℕ → Session Text
  in_bounds strikes db national_id year_code prefix (raised code) = failed code db
  in_bounds strikes db national_id year_code prefix (fine seq) =
      bind_counter strikes db national_id
        (ensure_counter_format u (year_code ++ (prefix ++ decimal_pad 4 seq)))

  abbrev pub with_sequence : Strikes → Text → Text → Text → Session ℕ → Session Text
  with_sequence strikes national_id year_code prefix (did seq db) =
      in_bounds strikes db national_id year_code prefix (ensure_sequence_bounds seq)
  with_sequence strikes national_id year_code prefix (failed code db) = failed code db
  with_sequence strikes national_id year_code prefix (conflict message db) = conflict message db

  abbrev pub with_existing : Strikes → CounterDb → Text → Gender → Text → Option Text → Session Text
  with_existing strikes db national_id gender year_code (some counter) =
      returned db (ensure_counter_format u counter)
  with_existing strikes db national_id gender year_code none =
      with_sequence strikes national_id year_code (counter_code gender)
        (next_sequence max_retries strikes db year_code (counter_code gender))

  abbrev pub with_student_row :
      Strikes → CounterDb → Text → Gender → Text → Option StudentModel → Session Text
  with_student_row strikes db national_id gender year_code none = failed invalid_nid db
  with_student_row strikes db national_id gender year_code (some student) =
      with_existing strikes db national_id gender year_code (existing_counter student.counter)

  -- `_reserve_once`
  unfoldable pub reserve_once : Strikes → CounterDb → Text → Gender → Text → Session Text
  unfolding next_sequence
  reserve_once strikes db national_id gender year_code =
      with_student_row strikes db national_id gender year_code
        (select_student db.students national_id)
