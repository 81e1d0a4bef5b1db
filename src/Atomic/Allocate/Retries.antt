-- ===== src/Atomic/Allocate/Retries.antt =====
-- How often `allocate` tries, how long it waits between its attempts, and what a dry run leaves.
use student_mentor_allocatio.Base.{
  ℕ, zero, suc, ◌+◌, ◌≤◌, ◌<◌, ◌≡◌, refl, sym, ◌∙◌, ap, inl, inr, Bool, true, false, List, [], ◌∷◌,
  ◌++◌, ◌^◌, take, replicate, arith, Bool-cases,
}
use student_mentor_allocatio.Store.{Db}
use student_mentor_allocatio.Atomic.Types.{
  AllocationRequest, Outcome, operational_error, Fault, no_fault, in_query, Allocator,
}
use student_mentor_allocatio.Atomic.Attempt.{
  execute_once, exit_unit, attempt_body, after_conflict, persist,
}
use student_mentor_allocatio.Atomic.Allocate.{
  World, is_operational, backoff, attempt_in, allocate_loop, allocate,
}
use student_mentor_allocatio.Atomic.Allocate.Consistency.{allocate_loop-keeps}
use mathlib.Core.List.{append_assoc, append-nil}
use native.Mathlib.Numerals.{towards_suc}

-- The delays of the failures from `attempt + 1` to `attempt + n`.
abbrev pub delays : ℕ → ℕ → List ℕ
delays attempt zero = []
delays attempt (suc n) = backoff (attempt + 1) ∷ delays (attempt + 1) n

-- The pauses before the first `n` retries, in halves of a second: 1 s, 2 s, 4 s, then 5 s each.
abbrev pub first_pauses : ℕ → List ℕ
first_pauses n = take n (2 ∷ 4 ∷ 8 ∷ replicate n 10)

pow_late : (j : ℕ) → 8 ≤ 2 ^ (j + 3)
pow_late zero = omega arith
pow_late (suc j) =
    let e : suc j + 3 ≡ suc (j + 3) = omega arith in
    let twice : 2 ^ suc (j + 3) ≡ 2 ^ (j + 3) + 2 ^ (j + 3) = simp towards_suc (omega arith) in
    rw (e, twice) (omega (arith, pow_late j))

backoff_late : (j : ℕ) → backoff (j + 3 + 1) ≡ 10
backoff_late j =
    let e : j + 3 + 1 ≡ suc (j + 3) = omega arith in
    let twice : 2 ^ suc (j + 3) ≡ 2 ^ (j + 3) + 2 ^ (j + 3) = simp towards_suc (omega arith) in
    rw (e, twice) (omega (arith, pow_late j))

delays_late : (n j : ℕ) → delays (j + 3) n ≡ replicate n 10
delays_late zero j = refl
delays_late (suc n) j =
    let e : suc j + 3 ≡ j + 3 + 1 = omega arith in
    let rest : delays (j + 3 + 1) n ≡ replicate n 10 = rw e at (delays_late n (suc j)) in
    rw (backoff_late j, rest) refl

take-replicate : (m n a : ℕ) → m ≤ n → take m (replicate n a) ≡ replicate m a
take-replicate zero n a h = refl
take-replicate (suc m) zero a h = absurd (omega arith)
take-replicate (suc m) (suc n) a h = ap (λ (s : List ℕ). a ∷ s) (take-replicate m n a (omega arith))

delays-first_pauses : (n : ℕ) → delays 0 n ≡ first_pauses n
delays-first_pauses zero = refl
delays-first_pauses (suc zero) = refl
delays-first_pauses (suc (suc zero)) = refl
delays-first_pauses (suc (suc (suc n))) =
    rw (take-replicate n (suc (suc (suc n))) 10 (omega arith))
      (ap (λ (s : List ℕ). 2 ∷ 4 ∷ 8 ∷ s) (delays_late n 0))

-- `n` of the pauses were slept, at most `max_retries`, and all of them if the outcome is a failure.
pub record IsPaused (max_retries : ℕ) (result : Outcome × List ℕ × Db) : Type 0 where
  pub n : ℕ
  pub bounded : n ≤ max_retries
  pub slept : result.1 ≡ first_pauses n
  pub exhausted : result.0 ≡ operational_error → n ≡ max_retries

-- `n` of the delays were slept, at most `left`, and all of them if the outcome is a failure.
record Waited (attempt left : ℕ) (before : List ℕ) (result : Outcome × List ℕ × Db) : Type 0 where
  pub n : ℕ
  pub bounded : n ≤ left
  pub slept : result.1 ≡ before ++ delays attempt n
  pub exhausted : result.0 ≡ operational_error → n ≡ left

operational : (o : Outcome) → is_operational o ≡ true → o ≡ operational_error
operational o e = ground (arith, e)

module _ (a : Allocator) where
  open a use {hashes}
  open hashes use {Json}

  module _ (world : ℕ → World) (request : AllocationRequest Json) (dry_run : Bool) where
    abbrev tried : ℕ → Db → Outcome × Db
    tried attempt db = attempt_in a (world attempt) request dry_run db

    loop_stops :
        (attempt left : ℕ) (slept : List ℕ) (db : Db)
        → is_operational (tried attempt db).0 ≡ false
        → allocate_loop a world request dry_run attempt left slept db
          ≡ ((tried attempt db).0, slept, (tried attempt db).1)
    unfolding allocate_loop
    loop_stops attempt zero slept db e = refl
    loop_stops attempt (suc left) slept db e = rw e refl

    loop_goes_on :
        (attempt left : ℕ) (slept : List ℕ) (db : Db)
        → is_operational (tried attempt db).0 ≡ true
        → allocate_loop a world request dry_run attempt (suc left) slept db
          ≡ allocate_loop a world request dry_run
              (attempt + 1)
              left
              (slept ++ backoff (attempt + 1) ∷ [])
              (tried attempt db).1
    unfolding allocate_loop
    loop_goes_on attempt left slept db e = rw e refl

    stopped_waits :
        (attempt left : ℕ) (slept : List ℕ) (db : Db)
        → is_operational (tried attempt db).0 ≡ false
        → Waited attempt left slept (allocate_loop a world request dry_run attempt left slept db)
    stopped_waits attempt left slept db e = rw (loop_stops attempt left slept db e) (record {
      n = 0;
      bounded = omega arith;
      slept = sym (append-nil slept);
      exhausted = λ f. ground (arith, e, f);
    })

    loop_waits :
        (attempt left : ℕ) (slept : List ℕ) (db : Db)
        → Waited attempt left slept (allocate_loop a world request dry_run attempt left slept db)
    unfolding allocate_loop
    loop_waits attempt zero slept db = record {
      n = 0;
      bounded = omega arith;
      slept = sym (append-nil slept);
      exhausted = λ e. refl;
    }
    loop_waits attempt (suc left) slept db =
        let w =
          loop_waits (attempt + 1) left (slept ++ backoff (attempt + 1) ∷ [])
            (tried attempt db).1 in
        elim (Bool-cases (is_operational (tried attempt db).0)) [
          | inl e ↦ rw (loop_goes_on attempt left slept db e) (record {
            n = suc w.n;
            bounded = omega arith;
            slept =
                w.slept
                ∙ append_assoc slept (backoff (attempt + 1) ∷ []) (delays (attempt + 1) w.n);
            exhausted = λ f. ap suc (w.exhausted f);
          })
          | inr e ↦ stopped_waits attempt (suc left) slept db e
        ]

    -- `allocate` sleeps for the first delays of the sequence 1 s, 2 s, 4 s, 5 s, 5 s, ..., at most
    -- `max_retries` of them, and ends in an operational error only when it has slept them all.
    pub allocate_waits :
        (max_retries : ℕ) (db : Db)
        → IsPaused max_retries (allocate a world max_retries request dry_run db)
    unfolding allocate
    allocate_waits max_retries db =
        let w = loop_waits 0 max_retries [] db in
        record {
          n = w.n;
          bounded = w.bounded;
          slept = w.slept ∙ delays-first_pauses w.n;
          exhausted = w.exhausted;
        }

    -- What the other sessions commit during the attempts from `attempt` on.
    abbrev pub meanwhile : ℕ → ℕ → Db → Db
    meanwhile attempt zero db = db
    meanwhile attempt (suc n) db = meanwhile (attempt + 1) n ((world attempt).others db)

    failed_attempt :
        (k : ℕ) (db : Db)
        → (world k).fault ≡ in_query
        → attempt_in a (world k) request dry_run db ≡ (operational_error, (world k).others db)
    unfolding execute_once attempt_body exit_unit
    failed_attempt k db e = rw e refl

    attempt_answers :
        (k : ℕ) (db : Db)
        → (world k).fault ≡ no_fault
        → is_operational (attempt_in a (world k) request dry_run db).0 ≡ false
    unfolding execute_once attempt_body exit_unit persist after_conflict
    attempt_answers k db e = ground (arith, e)

    loop_recovers :
        (n attempt left last : ℕ) (slept : List ℕ) (db : Db)
        → last ≡ attempt + n
        → n ≤ left
        → ((k : ℕ) → attempt ≤ k → k < last → (world k).fault ≡ in_query)
        → (world last).fault ≡ no_fault
        → let (outcome, after) = tried last (meanwhile attempt n db) in
          allocate_loop a world request dry_run attempt left slept db
          ≡ (outcome, slept ++ delays attempt n, after)
    loop_recovers zero attempt left last slept db i h q e =
        let here : last ≡ attempt = omega arith in
        rw (append-nil slept, here)
          (loop_stops attempt left slept db (attempt_answers attempt db (rw (sym here) e)))
    loop_recovers (suc n) attempt zero last slept db i h q e = absurd (omega arith)
    loop_recovers (suc n) attempt (suc left) last slept db i h q e =
        let f = failed_attempt attempt db (q attempt (omega arith) (omega arith)) in
        let waited = slept ++ backoff (attempt + 1) ∷ [] in
        loop_goes_on attempt left slept db (ap (λ p. is_operational p.0) f)
        ∙ ap (λ p. allocate_loop a world request dry_run (attempt + 1) left waited p.1) f
        ∙ loop_recovers n (attempt + 1) left last waited ((world attempt).others db) (omega arith)
            (omega arith) (λ k l u. q k (omega arith) u) e
        ∙ ap
            (λ s. (
              (tried last (meanwhile attempt (suc n) db)).0,
              s,
              (tried last (meanwhile attempt (suc n) db)).1,
            ))
            (append_assoc slept (backoff (attempt + 1) ∷ []) (delays (attempt + 1) n))

    -- When the database fails in the queries of the first `k` attempts and not in the next, and `k`
    -- is at most `max_retries`, `allocate` sleeps the first `k` delays and ends as that next attempt
    -- does on what the other sessions have committed by then.
    pub allocate_recovers :
        (k max_retries : ℕ) (db : Db)
        → k ≤ max_retries
        → ((j : ℕ) → j < k → (world j).fault ≡ in_query)
        → (world k).fault ≡ no_fault
        → let (outcome, after) = attempt_in a (world k) request dry_run (meanwhile 0 k db) in
          allocate a world max_retries request dry_run db ≡ (outcome, delays 0 k, after)
    unfolding allocate
    allocate_recovers k max_retries db h q e =
        loop_recovers k 0 max_retries k [] db (omega arith) h (λ j l u. q j u) e

  -- A dry run writes nothing: an attempt leaves what the other sessions have committed.
  rehearsal_writes_nothing :
      (fault : Fault) (others : Db → Db) (now : ℕ) (request : AllocationRequest Json) (db : Db)
      → (execute_once a fault others now request true db).1 ≡ others db
  unfolding execute_once attempt_body exit_unit
  rehearsal_writes_nothing fault others now request db = ground arith

  -- A whole dry run, with its retries, leaves the database as it found it if no other session
  -- commits anything, wherever the database fails.
  pub allocate-dry_run :
      (world : ℕ → World)
      → ((k : ℕ) (db : Db) → (world k).others db ≡ db)
      → (max_retries : ℕ) (request : AllocationRequest Json) (db : Db)
      → (allocate a world max_retries request true db).2 ≡ db
  unfolding allocate
  allocate-dry_run world quiet max_retries request db =
      allocate_loop-keeps a (λ d. d ≡ db) world request true
        (λ k d e.
          rehearsal_writes_nothing (world k).fault (world k).others (world k).now request d
          ∙ quiet k d
          ∙ e)
        0 max_retries [] db refl
