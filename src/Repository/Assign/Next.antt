-- ===== src/Repository/Assign/Next.antt =====
-- A request for a student without a counter while no other session writes.
use student_mentor_allocatio.Base.{
  ℕ, zero, suc, ◌-◌, ◌≤◌, ◌≡◌, refl, ◌∙◌, ap, Bool, true, false, Option, none, some, length,
  if◌then◌else◌,
}
use student_mentor_allocatio.Base.Text.{Text}
use student_mentor_allocatio.Base.Text.Decimal.{AllDigits}
use student_mentor_allocatio.Python.{Unicode}
use student_mentor_allocatio.Counter.{Gender, counter_code}
use student_mentor_allocatio.Store.{StudentModel}
use student_mentor_allocatio.Repository.Validation.{fine, raised, db_conflict, ensure_valid_inputs}
use student_mentor_allocatio.Repository.Reserve.{
  CounterDb, Conflict, did, conflict, select_student, existing_counter, is_taken, reserve_once,
}
use student_mentor_allocatio.Repository.Reserve.Rows.{last_number}
use student_mentor_allocatio.Repository.Reserve.Progress.{
  KeepsDigits, unstruck, counter_for, reserve_once-IsBinding,
}
use student_mentor_allocatio.Repository.Assign.{
  Others, ConflictKind, Bound, fetch_student_counter, bind_loop, reserve_and_bind, with_fetched,
  with_inputs, assign_counter,
}
use student_mentor_allocatio.Repository.Assign.Repeat.{IsQuiet}

module _ (u : Unicode) (max_retries : ℕ) (refusal : Text) (classify : Conflict → ConflictKind)
    (others : Others) (quiet : IsQuiet others) (alone : (i : ℕ) → others.strikes i ≡ unstruck) where
  -- The row has no counter.
  fetch_free :
      (db : CounterDb) (nid : Text) (s : StudentModel)
      → select_student db.students nid ≡ some s
      → existing_counter s.counter ≡ none
      → fetch_student_counter u max_retries refusal classify db nid ≡ fine none
  unfolding fetch_student_counter
  fetch_free db nid s found free = rw (found, free) refl

  module _ (nid : Text) (g : Gender) (year counter : Text) (db : CounterDb) where
    -- Where the session of every attempt gives the counter.
    loop_gives :
        (left attempt : ℕ) (last : Option ConflictKind) (work : CounterDb)
        → reserve_once u max_retries refusal unstruck db nid g year ≡ did counter work
        → bind_loop u max_retries refusal classify others true nid g year left attempt last db
          ≡ record { result = fine counter; conflict_type = last; db = work }
    unfolding bind_loop
    loop_gives zero attempt last work e = rw (quiet.before attempt db, alone attempt, e) refl
    loop_gives (suc left) attempt last work e = rw (quiet.before attempt db, alone attempt, e) refl

    -- Where the session of every attempt is refused.
    loop_refused :
        (left attempt : ℕ) (last : Option ConflictKind) (work : CounterDb)
        → reserve_once u max_retries refusal unstruck db nid g year ≡ conflict refusal work
        → fetch_student_counter u max_retries refusal classify db nid ≡ fine none
        → bind_loop u max_retries refusal classify others true nid g year left attempt last db
          ≡ record { result = raised db_conflict; conflict_type = some (classify refusal); db = db }
    unfolding bind_loop
    loop_refused zero attempt last work e f = rw (quiet.before attempt db, alone attempt, e) refl
    loop_refused (suc left) attempt last work e f =
        rw (quiet.before attempt db, alone attempt, e, quiet.after attempt db, f)
          (loop_refused left (suc attempt) (some (classify refusal)) work e f)

    -- The loop by what the session of every attempt is.
    loop_next :
        (taken : Bool) (work : CounterDb)
        → reserve_once u max_retries refusal unstruck db nid g year
          ≡ (if taken then conflict refusal work else did counter work)
        → fetch_student_counter u max_retries refusal classify db nid ≡ fine none
        → (reserve_and_bind u max_retries refusal classify others true nid g year db).result
          ≡ (if taken then raised db_conflict else fine counter)
    unfolding reserve_and_bind
    loop_next true work e f =
        ap (λ (b : Bound). b.result) (loop_refused (max_retries - 1) 1 none work e f)
    loop_next false work e f =
        ap (λ (b : Bound). b.result) (loop_gives (max_retries - 1) 1 none work e)

  -- When no other session writes or strikes, at least one attempt is allowed, the interpreter's
  -- NFKC keeps ASCII digits and the sequence of the year and the gender has not come to 9999:
  -- a request with valid inputs, in a year of ASCII digits and for a student that is there without
  -- a counter, gives the counter of the next number of the sequence, unless another student holds
  -- that counter; then it ends in a database conflict, however many attempts are allowed.
  pub assign_counter-next :
      (national_id year_code nid year : Text) (gender : Option Gender) (g : Gender) (db : CounterDb)
      (s : StudentModel)
      → KeepsDigits u
      → 1 ≤ max_retries
      → ensure_valid_inputs u national_id gender year_code ≡ fine (nid, g, year)
      → AllDigits year
      → length year ≡ 2
      → select_student db.students nid ≡ some s
      → existing_counter s.counter ≡ none
      → last_number db year (counter_code g) ≤ 9998
      → let counter = counter_for year g (suc (last_number db year (counter_code g))) in
        (assign_counter u max_retries refusal classify others national_id gender year_code
          db).result
        ≡ (if is_taken nid counter db.students then raised db_conflict else fine counter)
  unfolding assign_counter
  assign_counter-next national_id year_code nid year gender g db s keeps turn v digits two found
        free room =
      let binding =
        reserve_once-IsBinding u max_retries refusal db nid g year s keeps turn digits two found
          free room in
      let fetch = fetch_free db nid s found free in
      let inputs = ap (λ c. (with_inputs u max_retries refusal classify others db c).result) v in
      let served =
        ap (λ o. (with_fetched u max_retries refusal classify others nid g year db o).result)
          fetch in
      inputs ∙ (served ∙ loop_next nid g year _ db _ binding.work binding.gives fetch)
