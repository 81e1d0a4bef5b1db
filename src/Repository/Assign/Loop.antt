-- ===== src/Repository/Assign/Loop.antt =====
-- The loop of `reserve_and_bind`: what it does to the tables, with the sessions between its attempts.
use student_mentor_allocatio.Base.{
  ℕ, zero, suc, ◌-◌, ◌≡◌, refl, sym, inl, inr, Bool, not, Option, none, some, arith, Bool-cases,
}
use student_mentor_allocatio.Base.Text.{Text}
use student_mentor_allocatio.Python.{Unicode}
use student_mentor_allocatio.Counter.{Gender}
use student_mentor_allocatio.Store.{StudentModel}
use student_mentor_allocatio.Repository.Validation.{ErrorCode, db_conflict, Checked, fine, raised}
use student_mentor_allocatio.Repository.Reserve.{
  CounterDb, Conflict, Session, did, failed, conflict, select_student,
}
use student_mentor_allocatio.Repository.Reserve.Effects.{OnDid, OnDid-map, reserve_once-OnDid}
use student_mentor_allocatio.Repository.Reserve.Rows.{held, counter_at}
use student_mentor_allocatio.Repository.Reserve.Invariant.{
  IsConsistent, Extends, Extends-refl, Extends-trans, Shows, formatted, IsAssigned,
  Reserved-IsAssigned,
}
use student_mentor_allocatio.Repository.Assign.{
  Others, ConflictKind, Bound, fetched, present, counter_of_row, fetch_student_counter, give_up,
  after_lookup, on_conflict, after_session, session, bind_loop, reserve_and_bind,
}

-- The other sessions keep the tables consistent and take nothing back.
pub record IsAllowed (others : Others) : Type 0 where
  pub before : (i : ℕ) (db : CounterDb) → IsConsistent db → IsConsistent (others.before i db)
  pub after : (i : ℕ) (db : CounterDb) → IsConsistent db → IsConsistent (others.after i db)
  pub before_extends : (i : ℕ) (db : CounterDb) → Extends db (others.before i db)
  pub after_extends : (i : ℕ) (db : CounterDb) → Extends db (others.after i db)

pub record Ends (u : Unicode) (nid : Text) (db : CounterDb) (result : Checked Text)
    (work : CounterDb) : Type 0 where
  pub consistent : IsConsistent db → IsConsistent work
  pub extends : Extends db work
  pub shows : (c : Text) → result ≡ fine c → Shows u work nid c

pub raised-Ends :
    (u : Unicode) (nid : Text) (db work : CounterDb) (code : ErrorCode)
    → (IsConsistent db → IsConsistent work)
    → Extends db work
    → Ends u nid db (raised code) work
raised-Ends u nid db work code c e = record {
  consistent = c;
  extends = e;
  shows = λ t h. absurd (ground (arith, h));
}

pub Ends-after :
    (u : Unicode) (nid : Text) (db mid work : CounterDb) (result : Checked Text)
    → (IsConsistent db → IsConsistent mid)
    → Extends db mid
    → Ends u nid mid result work
    → Ends u nid db result work
Ends-after u nid db mid work result c e h = record {
  consistent = λ d. h.consistent (c d);
  extends = Extends-trans db mid work e h.extends;
  shows = h.shows;
}

fine-Ends :
    (u : Unicode) (nid c : Text) (db work : CounterDb)
    → IsAssigned u db nid c work
    → Ends u nid db (fine c) work
fine-Ends u nid c db work a = record {
  consistent = a.consistent;
  extends = a.extends;
  shows = λ t h. let same : c ≡ t = ground (arith, h) in rw (sym same) a.shows;
}

present-fine : (o : Checked Text) (c : Text) → present o ≡ fine (some c) → o ≡ fine c
present-fine (fine d) c e = ground (arith, e)
present-fine (raised code) c e = absurd (ground (arith, e))

module _ (u : Unicode) (max_retries : ℕ) (refusal : Text) (classify : Conflict → ConflictKind) where
  -- A look-up gives the counter that the student's row shows.
  fetched-Shows :
      (db : CounterDb) (nid c : Text) (o : Option Text)
      → counter_at db nid ≡ o
      → fetched u max_retries refusal classify o ≡ fine (some c)
      → Shows u db nid c
  fetched-Shows db nid c none h e = absurd (ground (arith, e))
  fetched-Shows db nid c (some raw) h e = formatted raw h (present-fine _ c e)

  pub counter_of_row-held :
      (o : Option StudentModel) → counter_of_row u max_retries refusal classify o ≡ held o
  counter_of_row-held none = refl
  counter_of_row-held (some s) = refl

  fetch-Shows :
      (db : CounterDb) (nid c : Text)
      → fetch_student_counter u max_retries refusal classify db nid ≡ fine (some c)
      → Shows u db nid c
  unfolding fetch_student_counter
  fetch-Shows db nid c e =
      fetched-Shows db nid c _ (sym (counter_of_row-held (select_student db.students nid))) e

  pub looked-Ends :
      (db : CounterDb) (nid c : Text)
      → fetch_student_counter u max_retries refusal classify db nid ≡ fine (some c)
      → Ends u nid db (fine c) db
  looked-Ends db nid c e =
      fine-Ends u nid c db db
        (record { consistent = λ d. d; extends = Extends-refl db; shows = fetch-Shows db nid c e })

  module _ (others : Others) (allowed : IsAllowed others) (retry : Bool) (nid : Text)
      (gender : Gender) (year : Text) where
    give_up-Ends :
        (kind : ConflictKind) (db : CounterDb)
        → let bound = give_up u max_retries refusal classify others retry nid gender year kind db in
          Ends u nid db bound.result bound.db
    give_up-Ends kind db = raised-Ends u nid db db db_conflict (λ c. c) (Extends-refl db)

    after_lookup-Ends :
        (next : CounterDb → Bound) (kind : ConflictKind) (db : CounterDb)
        (o : Checked (Option Text))
        → fetch_student_counter u max_retries refusal classify db nid ≡ o
        → ((d : CounterDb) → Ends u nid d (next d).result (next d).db)
        → let bound =
            after_lookup u max_retries refusal classify others retry nid gender year next kind db
              o in
          Ends u nid db bound.result bound.db
    after_lookup-Ends next kind db (raised code) e h =
        raised-Ends u nid db db code (λ c. c) (Extends-refl db)
    after_lookup-Ends next kind db (fine (some c)) e h = looked-Ends db nid c e
    after_lookup-Ends next kind db (fine none) e h = h db

    on_conflict-Ends :
        (next : CounterDb → Bound) (attempt : ℕ) (kind : ConflictKind) (db : CounterDb)
        → ((d : CounterDb) → Ends u nid d (next d).result (next d).db)
        → let bound =
            on_conflict u max_retries refusal classify others retry nid gender year next attempt
              kind db in
          Ends u nid db bound.result bound.db
    on_conflict-Ends next attempt kind db h = elim (Bool-cases (not retry)) [
      | inl t ↦ rw t (give_up-Ends kind db)
      | inr f ↦ rw f (
          Ends-after u nid db (others.after attempt db) _ _ (allowed.after attempt db)
            (allowed.after_extends attempt db)
            (after_lookup-Ends next kind (others.after attempt db) _ refl h))
    ]

    after_session-Ends :
        (next : ConflictKind → CounterDb → Bound) (last : Option ConflictKind) (db : CounterDb)
        (s : Session Text)
        → OnDid (λ c work. IsAssigned u db nid c work) s
        → ((k : ConflictKind) (d : CounterDb) → Ends u nid d (next k d).result (next k d).db)
        → let bound =
            after_session u max_retries refusal classify others retry nid gender year next last db
              s in
          Ends u nid db bound.result bound.db
    after_session-Ends next last db (did c work) a h = fine-Ends u nid c db work a
    after_session-Ends next last db (failed code work) a h =
        raised-Ends u nid db db code (λ c. c) (Extends-refl db)
    after_session-Ends next last db (conflict message work) a h = h (classify message) db

    session-IsAssigned :
        (attempt : ℕ) (db : CounterDb)
        → OnDid
            (λ c work. IsAssigned u db nid c work)
            (session u max_retries refusal classify others retry nid gender year attempt db)
    session-IsAssigned attempt db =
        OnDid-map _ _
          (session u max_retries refusal classify others retry nid gender year attempt db)
          (λ c work r. Reserved-IsAssigned u max_retries refusal db nid gender year c work r)
          (reserve_once-OnDid u max_retries refusal (others.strikes attempt) db nid gender year)

    bind_loop-Ends :
        (left attempt : ℕ) (last : Option ConflictKind) (db : CounterDb)
        → let bound =
            bind_loop u max_retries refusal classify others retry nid gender year left attempt last
              db in
          Ends u nid db bound.result bound.db
    unfolding bind_loop
    bind_loop-Ends zero attempt last db =
        Ends-after u nid db (others.before attempt db) _ _ (allowed.before attempt db)
          (allowed.before_extends attempt db)
          (after_session-Ends (give_up u max_retries refusal classify others retry nid gender year)
            last _ _ (session-IsAssigned attempt (others.before attempt db)) give_up-Ends)
    bind_loop-Ends (suc left) attempt last db =
        Ends-after u nid db (others.before attempt db) _ _ (allowed.before attempt db)
          (allowed.before_extends attempt db)
          (after_session-Ends
            (λ k.
              on_conflict u max_retries refusal classify others retry nid gender year
                (bind_loop u max_retries refusal classify others retry nid gender year left
                  (suc attempt) (some k))
                attempt k)
            last _ _ (session-IsAssigned attempt (others.before attempt db))
            (λ k d.
              on_conflict-Ends
                (bind_loop u max_retries refusal classify others retry nid gender year left
                  (suc attempt) (some k))
                attempt k d (bind_loop-Ends left (suc attempt) (some k))))

    pub reserve_and_bind-Ends :
        (db : CounterDb)
        → let bound =
            reserve_and_bind u max_retries refusal classify others retry nid gender year db in
          Ends u nid db bound.result bound.db
    unfolding reserve_and_bind
    reserve_and_bind-Ends db = bind_loop-Ends (max_retries - 1) 1 none db
