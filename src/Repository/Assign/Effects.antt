-- ===== src/Repository/Assign/Effects.antt =====
-- What `assign_counter` does to the tables, with its retries and the sessions between them.
use student_mentor_allocatio.Base.{ℕ, ◌≡◌, refl, true, Option, none, some, arith}
use student_mentor_allocatio.Base.Text.{Text}
use student_mentor_allocatio.Python.{Unicode}
use student_mentor_allocatio.Counter.{Gender}
use student_mentor_allocatio.Repository.Validation.{
  Checked, fine, normalize, raised, ensure_valid_inputs,
}
use student_mentor_allocatio.Repository.Reserve.{CounterDb, Conflict}
use student_mentor_allocatio.Repository.Reserve.Invariant.{
  IsConsistent, Extends, Extends-refl, Shows,
}
use student_mentor_allocatio.Repository.Assign.{
  Others, ConflictKind, Assignment, fetch_student_counter, with_fetched, with_inputs,
  assign_counter,
}
use student_mentor_allocatio.Repository.Assign.Loop.{
  IsAllowed, Ends, raised-Ends, looked-Ends, reserve_and_bind-Ends,
}

module _ (u : Unicode) (max_retries : ℕ) (refusal : Text) (classify : Conflict → ConflictKind) where
  module _ (others : Others) (allowed : IsAllowed others) where
    with_fetched-Ends :
        (nid year : Text) (gender : Gender) (db : CounterDb) (o : Checked (Option Text))
        → fetch_student_counter u max_retries refusal classify db nid ≡ o
        → let a = with_fetched u max_retries refusal classify others nid gender year db o in
          Ends u nid db a.result a.db
    with_fetched-Ends nid year gender db (raised code) e =
        raised-Ends u nid db db code (λ c. c) (Extends-refl db)
    with_fetched-Ends nid year gender db (fine (some c)) e =
        looked-Ends u max_retries refusal classify db nid c e
    with_fetched-Ends nid year gender db (fine none) e =
        reserve_and_bind-Ends u max_retries refusal classify others allowed true nid gender year db

    -- The student whose counter is assigned, by the normal form of the national id.
    pub record IsServed (national_id : Text) (gender : Option Gender) (year_code : Text)
        (db : CounterDb) (a : Assignment) : Type 0 where
      pub consistent : IsConsistent db → IsConsistent a.db
      pub extends : Extends db a.db
      pub shows :
          (c : Text)
          → a.result ≡ fine c
          → (nid : Text) × ((normalize u national_id ≡ nid) × Shows u a.db nid c)

    pub ensure_valid_inputs-nid :
        (national_id year_code : Text) (gender : Option Gender) (inputs : Text × Gender × Text)
        → ensure_valid_inputs u national_id gender year_code ≡ fine inputs
        → normalize u national_id ≡ inputs.0
    unfolding ensure_valid_inputs
    ensure_valid_inputs-nid national_id year_code none inputs e = absurd (ground (arith, e))
    ensure_valid_inputs-nid national_id year_code (some g) inputs e = ground (arith, e)

    with_inputs-IsServed :
        (national_id year_code : Text) (gender : Option Gender) (db : CounterDb)
        (c : Checked (Text × Gender × Text))
        → ensure_valid_inputs u national_id gender year_code ≡ c
        → IsServed national_id gender year_code db
            (with_inputs u max_retries refusal classify others db c)
    with_inputs-IsServed national_id year_code gender db (raised code) e = record {
      consistent = λ k. k;
      extends = Extends-refl db;
      shows = λ t h. absurd (ground (arith, h));
    }
    with_inputs-IsServed national_id year_code gender db (fine inputs) e =
        let ends = with_fetched-Ends inputs.0 inputs.2 inputs.1 db _ refl in
        record {
          consistent = ends.consistent;
          extends = ends.extends;
          shows = λ t h. (
            inputs.0,
            (ensure_valid_inputs-nid national_id year_code gender inputs e, ends.shows t h),
          );
        }

    -- If the other sessions keep the tables consistent and take nothing back, then so does
    -- `assign_counter`, whatever strikes its attempts and whichever of its ends it comes to: no two
    -- students hold one counter, no sequence is past 9999, no student loses or changes a counter
    -- and no sequence goes back. A counter in its result is the one that the student of the
    -- normalised national id shows afterwards.
    pub assign_counter-IsServed :
        (national_id : Text) (gender : Option Gender) (year_code : Text) (db : CounterDb)
        → IsServed national_id gender year_code db
            (assign_counter u max_retries refusal classify others national_id gender year_code db)
    unfolding assign_counter
    assign_counter-IsServed national_id gender year_code db =
        with_inputs-IsServed national_id year_code gender db _ refl
