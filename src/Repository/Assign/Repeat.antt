-- ===== src/Repository/Assign/Repeat.antt =====
-- A request that is made again, and one that fails.
use student_mentor_allocatio.Base.{
  ℕ, zero, suc, ◌+◌, ◌-◌, ◌≤◌, ◌≡◌, refl, sym, ◌∙◌, ap, inl, inr, Bool, true, not, Option, none,
  some, arith, Bool-cases,
}
use student_mentor_allocatio.Base.Text.{Text}
use student_mentor_allocatio.Python.{Unicode}
use student_mentor_allocatio.Counter.{Gender}
use student_mentor_allocatio.Repository.Validation.{
  ErrorCode, Checked, fine, raised, normalize, ensure_valid_inputs, ensure_counter_format,
}
use student_mentor_allocatio.Repository.Reserve.{
  CounterDb, Conflict, Session, did, failed, conflict, select_student,
}
use student_mentor_allocatio.Repository.Reserve.Invariant.{Extends, Shows, stored, formatted}
use student_mentor_allocatio.Repository.Assign.{
  Others, ConflictKind, Bound, reuse, fetched, present, fetch_student_counter, give_up,
  after_lookup, on_conflict, after_session, bind_loop, reserve_and_bind, with_fetched, with_inputs,
  assign_counter,
}
use student_mentor_allocatio.Repository.Assign.Effects.{
  assign_counter-IsServed, ensure_valid_inputs-nid,
}
use student_mentor_allocatio.Repository.Assign.Loop.{IsAllowed, counter_of_row-held}

-- No session but this one writes.
pub record IsQuiet (others : Others) : Type 0 where
  pub before : (i : ℕ) (db : CounterDb) → others.before i db ≡ db
  pub after : (i : ℕ) (db : CounterDb) → others.after i db ≡ db

module _ (u : Unicode) (max_retries : ℕ) (refusal : Text) (classify : Conflict → ConflictKind) where
  fetched-raw :
      (raw c : Text) (o : Option Text)
      → o ≡ some raw
      → ensure_counter_format u raw ≡ fine c
      → fetched u max_retries refusal classify o ≡ fine (some c)
  fetched-raw raw c o e f = ap (fetched u max_retries refusal classify) e ∙ ap present f

  Shows-fetch :
      (db : CounterDb) (nid c : Text)
      → ensure_counter_format u c ≡ fine c
      → Shows u db nid c
      → fetch_student_counter u max_retries refusal classify db nid ≡ fine (some c)
  unfolding fetch_student_counter
  Shows-fetch db nid c f (stored h) =
      fetched-raw c c _
        (counter_of_row-held u max_retries refusal classify (select_student db.students nid) ∙ h) f
  Shows-fetch db nid c f (formatted raw h g) =
      fetched-raw raw c _
        (counter_of_row-held u max_retries refusal classify (select_student db.students nid) ∙ h) g

  Shows-Extends :
      (db work : CounterDb) (nid c : Text) → Extends db work → Shows u db nid c → Shows u work nid c
  Shows-Extends db work nid c e (stored h) = stored (e.keeps nid c h)
  Shows-Extends db work nid c e (formatted raw h g) = formatted raw (e.keeps nid raw h) g

  with_inputs-reuse :
      (others : Others) (db : CounterDb) (inputs : Text × Gender × Text) (c : Text)
      → fetch_student_counter u max_retries refusal classify db inputs.0 ≡ fine (some c)
      → with_inputs u max_retries refusal classify others db (fine inputs)
        ≡ record { result = fine c; metered = some reuse; db = db }
  with_inputs-reuse others db inputs c e = rw e refl

  -- The other sessions keep the tables consistent and take nothing back. Once `assign_counter` has
  -- given a student a counter that the format check returns as it is, every later request whose
  -- inputs are valid and whose national id has the same normal form, for any gender and year, gets
  -- this counter, reports a reuse and leaves the tables as they are.
  pub assign_counter-repeat :
      (others : Others) (nid nid' year year' : Text) (gender gender' : Option Gender)
      (db later : CounterDb) (c : Text) (inputs : Text × Gender × Text)
      → IsAllowed others
      → (assign_counter u max_retries refusal classify others nid gender year db).result ≡ fine c
      → ensure_counter_format u c ≡ fine c
      → Extends (assign_counter u max_retries refusal classify others nid gender year db).db later
      → ensure_valid_inputs u nid' gender' year' ≡ fine inputs
      → normalize u nid ≡ normalize u nid'
      → assign_counter u max_retries refusal classify others nid' gender' year' later
        ≡ record { result = fine c; metered = some reuse; db = later }
  unfolding assign_counter
  assign_counter-repeat others nid nid' year year' gender gender' db later c inputs allowed r f e v
        same =
      let (key, both) =
        (assign_counter-IsServed u max_retries refusal classify others allowed nid gender year
            db).shows
          c r in
      let here : key ≡ inputs.0 =
        sym both.0
        ∙ (same
            ∙ ensure_valid_inputs-nid u max_retries refusal classify others allowed nid' year'
                gender' inputs v) in
      let fetch = Shows-fetch later key c f (Shows-Extends _ later key c e both.1) in
      ap (with_inputs u max_retries refusal classify others later) v
      ∙ with_inputs-reuse others later inputs c (rw here at fetch)

  module _ (others : Others) (db : CounterDb) where
    -- The tables after `n` attempts and the look-ups that follow them, if only the other sessions
    -- write.
    abbrev pub without : ℕ → CounterDb
    without zero = db
    without (suc n) = others.after (suc n) (others.before (suc n) (without n))

    -- Tables that only the other sessions have written: as they were, as an attempt found them, or as
    -- the look-up after it did. There are at most `max_retries` attempts, and one if that is 0.
    pub data LeftBy : CounterDb → Type 0 where
      begun : LeftBy db
      tried : (n : ℕ) → n ≤ max_retries - 1 → LeftBy (others.before (suc n) (without n))
      looked_up : (n : ℕ) → n ≤ max_retries - 1 → LeftBy (without (suc n))

    abbrev IsUndone : Bound → Type 0
    IsUndone bound = (code : ErrorCode) → bound.result ≡ raised code → LeftBy bound.db

    module _ (retry : Bool) (nid : Text) (gender : Gender) (year : Text) where
      after_lookup-IsUndone :
          (next : CounterDb → Bound) (kind : ConflictKind) (d : CounterDb)
          (o : Checked (Option Text))
          → LeftBy d
          → IsUndone (next d)
          → IsUndone (
              after_lookup u max_retries refusal classify others retry nid gender year next kind d
                o)
      after_lookup-IsUndone next kind d (raised code) e h k r = e
      after_lookup-IsUndone next kind d (fine (some c)) e h k r = e
      after_lookup-IsUndone next kind d (fine none) e h k r = h k r

      on_conflict-IsUndone :
          (next : CounterDb → Bound) (attempt : ℕ) (kind : ConflictKind) (d : CounterDb)
          → LeftBy d
          → LeftBy (others.after attempt d)
          → IsUndone (next (others.after attempt d))
          → IsUndone (
              on_conflict u max_retries refusal classify others retry nid gender year next attempt
                kind d)
      on_conflict-IsUndone next attempt kind d e a h = elim (Bool-cases (not retry)) [
        | inl t ↦ rw t (λ k r. e)
        | inr f ↦ rw f (after_lookup-IsUndone next kind (others.after attempt d) _ a h)
      ]

      after_session-IsUndone :
          (next : ConflictKind → CounterDb → Bound) (last : Option ConflictKind) (d : CounterDb)
          (s : Session Text)
          → LeftBy d
          → ((k : ConflictKind) → IsUndone (next k d))
          → IsUndone (
              after_session u max_retries refusal classify others retry nid gender year next last d
                s)
      after_session-IsUndone next last d (did c work) e h k r = absurd (ground (arith, r))
      after_session-IsUndone next last d (failed code work) e h k r = e
      after_session-IsUndone next last d (conflict message work) e h k r = h (classify message) k r

      bind_loop-IsUndone :
          (left n : ℕ) (last : Option ConflictKind)
          → left + n ≤ max_retries - 1
          → IsUndone (
              bind_loop u max_retries refusal classify others retry nid gender year left
                (suc n)
                last
                (without n))
      unfolding bind_loop
      bind_loop-IsUndone zero n last b =
          let here = tried n (omega arith) in
          after_session-IsUndone
            (give_up u max_retries refusal classify others retry nid gender year) last
            (others.before (suc n) (without n)) _ here (λ k code r. here)
      bind_loop-IsUndone (suc left) n last b =
          let here = tried n (omega arith) in
          let loop = λ (k : ConflictKind).
            bind_loop u max_retries refusal classify others retry nid gender year left (suc (suc n))
              (some k) in
          after_session-IsUndone
            (λ k.
              on_conflict u max_retries refusal classify others retry nid gender year (loop k)
                (suc n) k)
            last (others.before (suc n) (without n)) _ here
            (λ k.
              on_conflict-IsUndone (loop k) (suc n) k _ here (looked_up n (omega arith))
                (bind_loop-IsUndone left (suc n) (some k) (omega arith)))

    with_fetched-undone :
        (nid year : Text) (gender : Gender) (o : Checked (Option Text)) (code : ErrorCode)
        → (with_fetched u max_retries refusal classify others nid gender year db o).result
          ≡ raised code
        → LeftBy (with_fetched u max_retries refusal classify others nid gender year db o).db
    unfolding reserve_and_bind
    with_fetched-undone nid year gender (raised c) code r = begun
    with_fetched-undone nid year gender (fine (some c)) code r = begun
    with_fetched-undone nid year gender (fine none) code r =
        bind_loop-IsUndone true nid gender year (max_retries - 1) 0 none (omega arith) code r

    with_inputs-undone :
        (c : Checked (Text × Gender × Text)) (code : ErrorCode)
        → (with_inputs u max_retries refusal classify others db c).result ≡ raised code
        → LeftBy (with_inputs u max_retries refusal classify others db c).db
    with_inputs-undone (raised k) code r = begun
    with_inputs-undone (fine inputs) code r =
        with_fetched-undone inputs.0 inputs.2 inputs.1 _ code r

    -- A request that ends in an error leaves the tables that the other sessions have made of those it
    -- found, before and after each of at most `max_retries` attempts, or one, and nothing of its own:
    -- whatever its attempts had written when an error of the service, a refused flush or a strike ended
    -- them, new rows, numbers of a sequence and a counter at its student included, is undone.
    pub assign_counter-raised :
        (nid year : Text) (gender : Option Gender) (code : ErrorCode)
        → (assign_counter u max_retries refusal classify others nid gender year db).result
          ≡ raised code
        → LeftBy (assign_counter u max_retries refusal classify others nid gender year db).db
    unfolding assign_counter
    assign_counter-raised nid year gender code r = with_inputs-undone _ code r
