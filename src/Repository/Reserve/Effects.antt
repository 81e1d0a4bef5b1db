-- ===== src/Repository/Reserve/Effects.antt =====
-- What a session that gives a counter has read and written.
use student_mentor_allocatio.Base.{
  ℕ, zero, suc, ◌+◌, ◌≤◌, ◌≡◌, refl, sym, ◌∙◌, ap, inl, inr, Bool, true, false, ◌||◌, Option, none,
  some, List, [], ◌∷◌, ◌++◌, arith, Bool-cases, Option-cases, if◌then◌else◌,
}
use student_mentor_allocatio.Base.Text.{Text, text_eq_refl}
use student_mentor_allocatio.Base.Text.Decimal.{decimal_pad}
use student_mentor_allocatio.Python.{Unicode}
use student_mentor_allocatio.Counter.{Gender, counter_code}
use student_mentor_allocatio.Store.{StudentModel}
use student_mentor_allocatio.Repository.Validation.{
  Checked, fine, raised, ensure_counter_format, ensure_sequence_bounds,
}
use student_mentor_allocatio.Repository.Reserve.{
  CounterSequence, CounterDb, Conflict, Session, did, failed, conflict, Strikes, select_student,
  select_sequence_row, is_row, set_last_seq, set_counter, is_taken, matches_check, existing_counter,
  strike_or, returned, counted, new_row, with_row, next_sequence, bind_counter, in_bounds,
  with_sequence, with_existing, with_student_row, reserve_once,
}

-- What holds of the value and the tables of a session that ends with one.
abbrev pub OnDid : {A : Type 0} → (A → CounterDb → Type 0) → Session A → Type 0
OnDid P (did a db) = P a db
OnDid P (failed code db) = Unit
OnDid P (conflict message db) = Unit

pub OnDid-map :
    {A : Type 0} (P Q : A → CounterDb → Type 0) (s : Session A)
    → ((a : A) (db : CounterDb) → P a db → Q a db)
    → OnDid P s
    → OnDid Q s
OnDid-map P Q (did a db) f h = f a db h
OnDid-map P Q (failed code db) f h = tt
OnDid-map P Q (conflict message db) f h = tt

OnDid-strike :
    {A : Type 0} (P : A → CounterDb → Type 0) (o : Option Conflict) (work : CounterDb)
    (s : Session A)
    → OnDid P s
    → OnDid P (strike_or o work s)
OnDid-strike P none work s h = h
OnDid-strike P (some message) work s h = tt

-- The row that a session counts: one that is there, or one that it has added.
pub data IsGrown (year_code prefix : Text) (rows : List CounterSequence)
    : List CounterSequence → Type 0 where
  there : IsGrown year_code prefix rows rows
  added :
      select_sequence_row rows year_code prefix ≡ none
      → IsGrown year_code prefix rows
          (rows ++ (record { year_code = year_code; gender_code = prefix; last_seq = 0 } ∷ []))

pub record Counted (db : CounterDb) (year_code prefix : Text) (q : ℕ) (work : CounterDb)
    : Type 0 where
  pub rows : List CounterSequence
  pub grown : IsGrown year_code prefix db.sequences rows
  pub row : CounterSequence
  pub found : select_sequence_row rows year_code prefix ≡ some row
  pub number : q ≡ suc row.last_seq
  pub limit : q ≤ 9999
  pub students : work.students ≡ db.students
  pub sequences : work.sequences ≡ set_last_seq year_code prefix q rows

pub ensure_sequence_bounds-fine :
    (seq q : ℕ) → ensure_sequence_bounds seq ≡ fine q → (seq ≡ q) × (q ≤ 9999)
unfolding ensure_sequence_bounds
ensure_sequence_bounds-fine seq q e = (ground (arith, e), ground (arith, e))

pub select-added :
    (rows : List CounterSequence) (year_code prefix : Text)
    → select_sequence_row rows year_code prefix ≡ none
    → select_sequence_row
        (rows ++ (record { year_code = year_code; gender_code = prefix; last_seq = 0 } ∷ []))
        year_code
        prefix
      ≡ some (record { year_code = year_code; gender_code = prefix; last_seq = 0 })
select-added [] year_code prefix e = rw (text_eq_refl year_code, text_eq_refl prefix) refl
select-added (row ∷ rows) year_code prefix e = elim (Bool-cases (is_row year_code prefix row)) [
  | inl t ↦ absurd (ground (arith, rw t at e))
  | inr f ↦ rw f (select-added rows year_code prefix (rw f at e))
]

module _ (u : Unicode) (max_retries : ℕ) (refusal : Text) where
  counted-OnDid :
      (strikes : Strikes) (db base : CounterDb) (year_code prefix : Text) (row : CounterSequence)
      (c : Checked ℕ)
      → IsGrown year_code prefix base.sequences db.sequences
      → db.students ≡ base.students
      → select_sequence_row db.sequences year_code prefix ≡ some row
      → ensure_sequence_bounds (row.last_seq + 1) ≡ c
      → OnDid
          (Counted base year_code prefix)
          (counted u max_retries refusal strikes db year_code prefix c)
  counted-OnDid strikes db base year_code prefix row (raised code) g s f e = tt
  counted-OnDid strikes db base year_code prefix row (fine q) g s f e =
      OnDid-strike (Counted base year_code prefix) strikes.duplicate_national_id _ _ (record {
        rows = db.sequences;
        grown = g;
        row = row;
        found = f;
        number = omega (arith, (ensure_sequence_bounds-fine _ q e).0);
        limit = (ensure_sequence_bounds-fine _ q e).1;
        students = s;
        sequences = refl;
      })

  next_sequence-OnDid :
      (left : ℕ) (strikes : Strikes) (db : CounterDb) (year_code prefix : Text)
      → OnDid
          (Counted db year_code prefix)
          (next_sequence u max_retries refusal left strikes db year_code prefix)
  unfolding next_sequence
  next_sequence-OnDid zero strikes db year_code prefix = tt
  next_sequence-OnDid (suc left) strikes db year_code prefix =
      elim (Option-cases (select_sequence_row db.sequences year_code prefix)) [
        | inr (row, e) ↦ rw e (counted-OnDid strikes db db year_code prefix row _ there refl e refl)
        | inl e ↦
            rw (e, select-added db.sequences year_code prefix e)
              (OnDid-strike (Counted db year_code prefix) strikes.sequence_race _ _ (
                counted-OnDid strikes (with_row u max_retries refusal db year_code prefix) db
                  year_code prefix (new_row u max_retries refusal year_code prefix) _ (added e) refl
                  (select-added db.sequences year_code prefix e) refl))
      ]

  -- The counter that a session gives: the one of the student's row, or a new one.
  pub data Reserved (db : CounterDb) (national_id : Text) (gender : Gender) (year_code : Text)
      : Text → CounterDb → Type 0 where
    kept :
        (s : StudentModel) (stored counter : Text)
        → select_student db.students national_id ≡ some s
        → existing_counter s.counter ≡ some stored
        → ensure_counter_format u stored ≡ fine counter
        → Reserved db national_id gender year_code counter db
    bound :
        (s : StudentModel) (q : ℕ) (counter : Text) (numbered work : CounterDb)
        → select_student db.students national_id ≡ some s
        → existing_counter s.counter ≡ none
        → Counted db year_code (counter_code gender) q numbered
        → ensure_counter_format u (year_code ++ (counter_code gender ++ decimal_pad 4 q))
          ≡ fine counter
        → is_taken national_id counter db.students ≡ false
        → matches_check counter ≡ true
        → work.students ≡ set_counter national_id counter db.students
        → work.sequences ≡ numbered.sequences
        → Reserved db national_id gender year_code counter work

  refused_if :
      (P : Text → CounterDb → Type 0) (t : Bool) (counter : Text) (work : CounterDb)
      → (t ≡ false → P counter work)
      → OnDid P (if t then conflict refusal work else did counter work)
  refused_if P true counter work h = tt
  refused_if P false counter work h = h refl

  or-false : (a b : Bool) → a || b ≡ false → (a ≡ false) × (b ≡ false)
  or-false a b e = (ground (arith, e), ground (arith, e))

  module _ (strikes : Strikes) (db : CounterDb) (national_id : Text) (gender : Gender)
      (year_code : Text) (s : StudentModel)
      (found : select_student db.students national_id ≡ some s) where
    bind_counter-OnDid :
        (numbered : CounterDb) (q : ℕ) (c : Checked Text)
        → existing_counter s.counter ≡ none
        → Counted db year_code (counter_code gender) q numbered
        → ensure_counter_format u (year_code ++ (counter_code gender ++ decimal_pad 4 q)) ≡ c
        → OnDid
            (Reserved db national_id gender year_code)
            (bind_counter u max_retries refusal strikes numbered national_id c)
    bind_counter-OnDid numbered q (raised code) e h f = tt
    bind_counter-OnDid numbered q (fine counter) e h f =
        OnDid-strike (Reserved db national_id gender year_code) strikes.duplicate_counter _ _ (
          refused_if (Reserved db national_id gender year_code) _ counter _ (λ t.
            let (free, fits) = or-false _ _ t in
            bound s q counter numbered _ found e h f
              (sym (ap (is_taken national_id counter) h.students) ∙ free) (ground (arith, fits))
              (ap (set_counter national_id counter) h.students) refl))

    in_bounds-OnDid :
        (numbered : CounterDb) (q : ℕ) (c : Checked ℕ)
        → existing_counter s.counter ≡ none
        → Counted db year_code (counter_code gender) q numbered
        → ensure_sequence_bounds q ≡ c
        → OnDid (Reserved db national_id gender year_code) (
            in_bounds u max_retries refusal strikes numbered national_id year_code
              (counter_code gender)
              c)
    in_bounds-OnDid numbered q (raised code) e h b = tt
    in_bounds-OnDid numbered q (fine seq) e h b =
        let same : seq ≡ q = sym (ensure_sequence_bounds-fine q seq b).0 in
        rw same (bind_counter-OnDid numbered q _ e h refl)

    with_sequence-OnDid :
        (session : Session ℕ)
        → existing_counter s.counter ≡ none
        → OnDid (Counted db year_code (counter_code gender)) session
        → OnDid (Reserved db national_id gender year_code) (
            with_sequence u max_retries refusal strikes national_id year_code
              (counter_code gender)
              session)
    with_sequence-OnDid (did q numbered) e h = in_bounds-OnDid numbered q _ e h refl
    with_sequence-OnDid (failed code db) e h = tt
    with_sequence-OnDid (conflict message db) e h = tt

    returned-OnDid :
        (stored : Text) (c : Checked Text)
        → existing_counter s.counter ≡ some stored
        → ensure_counter_format u stored ≡ c
        → OnDid (Reserved db national_id gender year_code) (returned u max_retries refusal db c)
    returned-OnDid stored (fine counter) e f = kept s stored counter found e f
    returned-OnDid stored (raised code) e f = tt

    with_existing-OnDid :
        (o : Option Text)
        → existing_counter s.counter ≡ o
        → OnDid
            (Reserved db national_id gender year_code)
            (with_existing u max_retries refusal strikes db national_id gender year_code o)
    with_existing-OnDid (some stored) e = returned-OnDid stored _ e refl
    with_existing-OnDid none e =
        with_sequence-OnDid _ e
          (next_sequence-OnDid max_retries strikes db year_code (counter_code gender))

  with_student_row-OnDid :
      (strikes : Strikes) (db : CounterDb) (national_id : Text) (gender : Gender) (year_code : Text)
      (o : Option StudentModel)
      → select_student db.students national_id ≡ o
      → OnDid
          (Reserved db national_id gender year_code)
          (with_student_row u max_retries refusal strikes db national_id gender year_code o)
  with_student_row-OnDid strikes db national_id gender year_code none e = tt
  with_student_row-OnDid strikes db national_id gender year_code (some s) e =
      with_existing-OnDid strikes db national_id gender year_code s e _ refl

  pub reserve_once-OnDid :
      (strikes : Strikes) (db : CounterDb) (national_id : Text) (gender : Gender) (year_code : Text)
      → OnDid
          (Reserved db national_id gender year_code)
          (reserve_once u max_retries refusal strikes db national_id gender year_code)
  unfolding reserve_once
  reserve_once-OnDid strikes db national_id gender year_code =
      with_student_row-OnDid strikes db national_id gender year_code _ refl
