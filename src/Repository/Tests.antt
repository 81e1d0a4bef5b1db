-- ===== src/Repository/Tests.antt =====
-- The theorems on the counter service at two students, with a sequence that a first conflict delays.
use student_mentor_allocatio.Base.{
  ℕ, zero, suc, ◌≤◌, ◌≡◌, refl, true, Option, none, some, List, [], ◌∷◌, ◌++◌, arith, if◌then◌else◌,
}
use student_mentor_allocatio.Base.Int.{pos}
use student_mentor_allocatio.Base.Text.{Text, text_eq, codes, strip, lstrip, is_space, fold_digit}
use student_mentor_allocatio.Base.Text.Decimal.{decimal_pad}
use student_mentor_allocatio.Python.Database.{ascii}
use student_mentor_allocatio.Counter.{female, counter_regex, normalize_counter, validate_counter}
use student_mentor_allocatio.Store.{StudentModel}
use student_mentor_allocatio.Repository.Validation.{
  db_conflict, fine, raised, fold_persian, normalize, ensure_valid_inputs, ensure_counter_format,
  ensure_sequence_bounds,
}
use student_mentor_allocatio.Repository.Reserve.{
  CounterSequence, CounterDb, Conflict, conflict, Strikes, select_student, is_taken, next_sequence,
  reserve_once,
}
use student_mentor_allocatio.Repository.Reserve.Invariant.{Extends-refl}
use student_mentor_allocatio.Repository.Reserve.Rows.{last_number}
use student_mentor_allocatio.Repository.Reserve.Progress.{unstruck, counter_for}
use student_mentor_allocatio.Repository.Assign.{
  Others, ConflictKind, kind_sequence, kind_unknown, Assignment, reuse, fetch_student_counter,
  bind_loop, reserve_and_bind, assign_counter,
}
use student_mentor_allocatio.Repository.Assign.Effects.{IsServed, assign_counter-IsServed}
use student_mentor_allocatio.Repository.Assign.Loop.{IsAllowed}
use student_mentor_allocatio.Repository.Assign.Repeat.{
  IsQuiet, LeftBy, assign_counter-repeat, assign_counter-raised,
}
use student_mentor_allocatio.Repository.Assign.Next.{assign_counter-next}
use student_mentor_allocatio.Repository.Backfill.{BackfillRow, RawRow}
use student_mentor_allocatio.Repository.Backfill.Run.{run_backfill}
use student_mentor_allocatio.Repository.Backfill.Totals.{IsRun, run_backfill-IsRun}

abbrev student : Text → Option Text → StudentModel
student nid counter = record {
  national_id = nid;
  gender = pos 1;
  edu_status = pos 1;
  reg_center = pos 1;
  reg_status = pos 1;
  group_code = pos 1;
  school_code = none;
  student_type = none;
  counter = counter;
}

abbrev first_nid : Text
first_nid = codes "0012345678"

abbrev second_nid : Text
second_nid = codes "0087654321"

abbrev tables : CounterDb
tables = record {
  students = student first_nid none ∷ student second_nid (some (codes "023570007")) ∷ [];
  sequences = (record { year_code = codes "02"; gender_code = codes "357"; last_seq = 7 }) ∷ [];
}

-- Another session strikes the first attempt.
abbrev struck : Strikes
struck = record {
  sequence_race = none;
  duplicate_national_id = some (codes "sequence_race");
  duplicate_counter = none;
}

abbrev strikes_once : ℕ → Strikes
strikes_once zero = struck
strikes_once (suc zero) = struck
strikes_once (suc (suc i)) = unstruck

abbrev racing : Others
racing = record { strikes = strikes_once; before = λ i db. db; after = λ i db. db }

abbrev silent : Others
silent = record { strikes = λ i. unstruck; before = λ i db. db; after = λ i db. db }

abbrev classify : Conflict → ConflictKind
classify message = if text_eq message (codes "sequence_race") then kind_sequence else kind_unknown

abbrev refusal : Text
refusal = codes "refused"

racing-IsAllowed : IsAllowed racing
racing-IsAllowed = record {
  before = λ i db c. c;
  after = λ i db c. c;
  before_extends = λ i db. Extends-refl db;
  after_extends = λ i db. Extends-refl db;
}

silent-IsQuiet : IsQuiet silent
silent-IsQuiet = record { before = λ i db. refl; after = λ i db. refl }

inputs_lem :
    ensure_valid_inputs ascii first_nid (some female) (codes " 02")
    ≡ fine (first_nid, female, codes "02")
unfolding ensure_valid_inputs normalize fold_persian strip lstrip is_space
inputs_lem = refl

assigned_lem :
    (assign_counter ascii 3 refusal classify racing first_nid
      (some female)
      (codes "02")
      tables).result
    ≡ fine (codes "023570008")
unfolding assign_counter ensure_valid_inputs normalize fold_persian strip lstrip is_space
    fetch_student_counter reserve_and_bind bind_loop reserve_once next_sequence
    ensure_sequence_bounds ensure_counter_format validate_counter normalize_counter counter_regex
    fold_digit text_eq decimal_pad
assigned_lem = refl

format_lem : ensure_counter_format ascii (codes "023570008") ≡ fine (codes "023570008")
unfolding ensure_counter_format normalize fold_persian strip lstrip is_space validate_counter
    normalize_counter counter_regex fold_digit text_eq
format_lem = refl

found_lem : select_student tables.students first_nid ≡ some (student first_nid none)
unfolding text_eq
found_lem = refl

room_lem : last_number tables (codes "02") (codes "357") ≤ 9998
unfolding text_eq
room_lem = omega arith

abbrev assigned : Assignment
assigned =
    assign_counter ascii 3 refusal classify racing first_nid (some female) (codes "02") tables

assign_counter-IsServed_example :
    IsServed ascii 3 refusal classify racing racing-IsAllowed first_nid
      (some female)
      (codes "02")
      tables
      assigned
assign_counter-IsServed_example =
    assign_counter-IsServed ascii 3 refusal classify racing racing-IsAllowed first_nid (some female)
      (codes "02") tables

assign_counter-repeat_example :
    assign_counter ascii 3 refusal classify racing first_nid (some female) (codes " 02") assigned.db
    ≡ record { result = fine (codes "023570008"); metered = some reuse; db = assigned.db }
assign_counter-repeat_example =
    assign_counter-repeat ascii 3 refusal classify racing first_nid first_nid (codes "02")
      (codes " 02") (some female) (some female) tables assigned.db (codes "023570008")
      (first_nid, female, codes "02") racing-IsAllowed assigned_lem format_lem
      (Extends-refl assigned.db) inputs_lem refl

-- Each attempt is struck at the flush of the student's row, and another session adds a sequence
-- before it.
abbrev other_row : CounterSequence
other_row = record { year_code = codes "03"; gender_code = codes "357"; last_seq = 1 }

abbrev late_strike : Strikes
late_strike = record {
  sequence_race = none;
  duplicate_national_id = none;
  duplicate_counter = some (codes "late");
}

abbrev busy : Others
busy = record {
  strikes = λ i. late_strike;
  before = λ i db. record { students = db.students; sequences = db.sequences ++ (other_row ∷ []) };
  after = λ i db. db;
}

-- What the session has written when it is struck.
written_lem :
    reserve_once ascii 3 refusal late_strike tables first_nid female (codes "02")
    ≡ conflict (codes "late") (record {
      students =
          student first_nid (some (codes "023570008"))
          ∷ student second_nid (some (codes "023570007"))
          ∷ [];
      sequences = (record { year_code = codes "02"; gender_code = codes "357"; last_seq = 8 }) ∷ [];
    })
unfolding reserve_once normalize fold_persian strip lstrip is_space next_sequence
    ensure_sequence_bounds ensure_counter_format validate_counter normalize_counter counter_regex
    fold_digit text_eq decimal_pad
written_lem = refl

struck_lem :
    (assign_counter ascii 3 refusal classify busy first_nid
      (some female)
      (codes "02")
      tables).result
    ≡ raised db_conflict
unfolding assign_counter ensure_valid_inputs normalize fold_persian strip lstrip is_space
    fetch_student_counter reserve_and_bind bind_loop reserve_once next_sequence
    ensure_sequence_bounds ensure_counter_format validate_counter normalize_counter counter_regex
    fold_digit text_eq decimal_pad
struck_lem = refl

assign_counter-raised_example :
    LeftBy ascii 3 refusal classify busy tables
      (assign_counter ascii 3 refusal classify busy first_nid (some female) (codes "02") tables).db
assign_counter-raised_example =
    assign_counter-raised ascii 3 refusal classify busy tables first_nid (codes "02") (some female)
      db_conflict struck_lem

assign_counter-next_example :
    (assign_counter ascii 3 refusal classify silent first_nid
      (some female)
      (codes " 02")
      tables).result
    ≡ (if is_taken first_nid (counter_for (codes "02") female 8) tables.students
        then raised db_conflict
        else fine (counter_for (codes "02") female 8))
unfolding decimal_pad text_eq
assign_counter-next_example =
    assign_counter-next ascii 3 refusal classify silent silent-IsQuiet (λ i. refl) first_nid
      (codes " 02") first_nid (codes "02") (some female) female tables (student first_nid none)
      (λ s h. refl) (omega arith) inputs_lem (refl, (refl, tt)) refl found_lem refl room_lem

abbrev lines : List RawRow
lines =
    (record { raw_national_id = first_nid; raw_gender = codes "1"; raw_year_code = codes "02" })
    ∷ (record { raw_national_id = second_nid; raw_gender = codes "1"; raw_year_code = codes "02" })
    ∷ []

run_backfill-IsRun_example :
    IsRun ascii 3 refusal classify racing true racing-IsAllowed 2 tables
      (run_backfill ascii 3 refusal classify racing true 500 lines tables)
run_backfill-IsRun_example =
    run_backfill-IsRun ascii 3 refusal classify racing true racing-IsAllowed 500 lines tables

abbrev some_rows : List BackfillRow
some_rows =
    (record { national_id = first_nid; gender = female; year_code = codes "02" })
    ∷ (record { national_id = second_nid; gender = female; year_code = codes "02" })
    ∷ []
