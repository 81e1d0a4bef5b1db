-- ===== src/Runtime/Allocate/Preview.antt =====
-- The preview of a counter, and the request that follows it.
use student_mentor_allocatio.Base.{
  ℕ, zero, suc, ◌≤◌, ◌≡◌, refl, sym, ◌∙◌, ap, inl, inr, true, false, Option, none, some, length,
  ltb, arith, Bool-cases,
}
use mathlib.Core.List.{append_assoc}
use student_mentor_allocatio.Base.Text.{Text}
use student_mentor_allocatio.Base.Text.Decimal.{
  AllDigits, decimal_pad, AllDigits-decimal_pad, length-decimal_pad,
}
use student_mentor_allocatio.Python.Database.{Unicode}
use student_mentor_allocatio.Counter.{Gender, counter_code, counter_regex}
use student_mentor_allocatio.Counter.Format.{regex_parts}
use student_mentor_allocatio.Runtime.Script.{
  Normalized, Cell, placeholder, assigned, number, garbled, Redis, new, incr, counter_of,
  allocate_script, sequence_key, student_key,
}
use student_mentor_allocatio.Runtime.Script.Outcome.{marked-sequence}
use student_mentor_allocatio.Runtime.Executor.{
  RedisRetryConfig, Link, answered, World, reached, call, call_loop,
}
use student_mentor_allocatio.Runtime.Allocate.{
  counter_new, counter_preview, CounterRuntime, run_script, current, preview, previewed,
  fetch_current, wait_loop, allocate_with_retry,
}

-- The loop of a call whose first attempt is answered with a result.
loop_first :
    {S : Type 0} {A : Type 0} (config : RedisRetryConfig) (jitter : ℕ → ℕ) (links : ℕ → Link)
    (others : ℕ → S → S) (operation : S → Option A × S) (w : World S) (a : A) (left : ℕ)
    → 1 ≤ left
    → links w.tick ≡ answered
    → (operation (others w.tick w.server)).0 ≡ some a
    → call_loop config jitter links others operation left config.base_delay w
      ≡ (some a, reached (operation (others w.tick w.server)).1 w)
unfolding call_loop
loop_first config jitter links others operation w a zero l e o = absurd (omega arith)
loop_first config jitter links others operation w a (suc left) l e o = rw (e, o) refl

call-first :
    {S : Type 0} {A : Type 0} (config : RedisRetryConfig) (jitter : ℕ → ℕ) (links : ℕ → Link)
    (others : ℕ → S → S) (operation : S → Option A × S) (w : World S) (a : A)
    → 1 ≤ config.attempts
    → links w.tick ≡ answered
    → (operation (others w.tick w.server)).0 ≡ some a
    → call config jitter links others operation w
      ≡ (some a, reached (operation (others w.tick w.server)).1 w)
unfolding call
call-first config jitter links others operation w a l e o =
    loop_first config jitter links others operation w a config.attempts l e o

pub counter_of-matches :
    (u : Unicode) (year : Text) (g : Gender) (q : ℕ)
    → AllDigits year
    → length year ≡ 2
    → q ≤ 9999
    → counter_regex u (counter_of year g q) ≡ true
counter_of-matches u year g q d two l =
    ap (counter_regex u) (sym (append_assoc year (counter_code g) (decimal_pad 4 q)))
    ∙ regex_parts u year (decimal_pad 4 q) g d two (AllDigits-decimal_pad 4 q)
        (length-decimal_pad 3 q (omega arith))

-- A sequence key that counts or is free is incremented past what the preview reads.
incr-number : (n : ℕ) → incr (some (number n)) ≡ some (suc n)
incr-number n = refl

module _ (u : Unicode) (base : Text) (runtime : CounterRuntime) (config : RedisRetryConfig)
    (jitter : ℕ → ℕ) (links : ℕ → Link) (others : ℕ → Redis → Redis) (n : Normalized) where
  -- The number that the preview reads.
  abbrev pub read : Redis → ℕ
  read s =
      current u base runtime config jitter links others (s (sequence_key base runtime.max_serial n))

  previewed-counter :
      (m : ℕ) (c : Text) (v : World Redis)
      → (previewed u base runtime config jitter links others n.year_code n.gender (some m) v).0
        ≡ counter_preview c
      → (suc m ≤ runtime.max_serial) × (counter_of n.year_code n.gender (suc m) ≡ c)
  previewed-counter m c v e = elim (Bool-cases (ltb runtime.max_serial (suc m))) [
    | inl t ↦ absurd (ground (arith, rw t at e))
    | inr f ↦ (ground (arith, f), ground (arith, rw f at e))
  ]

  module _ (w : World Redis) (one : 1 ≤ config.attempts) (link : links w.tick ≡ answered) where
    preview-read :
        preview u base runtime config jitter links others n.year_code n.gender w
        ≡ previewed u base runtime config jitter links others n.year_code n.gender
            (some (read (others w.tick w.server)))
            (reached (others w.tick w.server) w)
    unfolding preview
    preview-read =
        ap (λ r. previewed u base runtime config jitter links others n.year_code n.gender r.0 r.1)
          (call-first config jitter links others
            (fetch_current u base runtime config jitter links others n.year_code n.gender) w
            (read (others w.tick w.server)) one link refl)

    -- A run of the script for a student without a value whose sequence may be counted.
    fresh-run :
        (s : Redis) (q : ℕ)
        → s (student_key base runtime.max_serial n) ≡ none
        → incr (s (sequence_key base runtime.max_serial n)) ≡ some q
        → q ≤ runtime.max_serial
        → (run_script base runtime.max_serial n s).0
          ≡ some (new (counter_of n.year_code n.gender q))
    unfolding run_script allocate_script
    fresh-run s q free i l =
        let small : ltb runtime.max_serial q ≡ false = ground arith in
        rw (free, marked-sequence base runtime.max_serial n s, i, small) refl

    turn_new :
        (turns backoff q : ℕ)
        → 1 ≤ turns
        → (run_script base runtime.max_serial n (others w.tick w.server)).0
          ≡ some (new (counter_of n.year_code n.gender q))
        → counter_regex u (counter_of n.year_code n.gender q) ≡ true
        → (wait_loop u base runtime config jitter links others n turns backoff w).0
          ≡ counter_new (counter_of n.year_code n.gender q)
    unfolding wait_loop
    turn_new zero backoff q t run m = absurd (omega arith)
    turn_new (suc left) backoff q t run m =
        rw
          (
            call-first config jitter links others (run_script base runtime.max_serial n) w _ one
                link run,
            m,
          )
          refl

    incr-current :
        (o : Option Cell) (q : ℕ)
        → incr o ≡ some q
        → suc (current u base runtime config jitter links others o) ≡ q
    incr-current none q e = ground (arith, e)
    incr-current (some (number m)) q e = ground (arith, e)
    incr-current (some placeholder) q e = absurd (ground (arith, e))
    incr-current (some (assigned p)) q e = absurd (ground (arith, e))
    incr-current (some garbled) q e = absurd (ground (arith, e))

  -- With at least one turn and one attempt, a largest serial of at most 9999 and a year code of two
  -- digits: if the answer to the first request of a preview and to the first of a later allocation
  -- arrives, the allocation finds the sequence as the preview did, holding nothing or a number, and
  -- nothing at the student's key, then the allocation gives the counter of the preview, as new.
  pub preview-allocate :
      (w v : World Redis) (c : Text) (q : ℕ)
      → AllDigits n.year_code
      → length n.year_code ≡ 2
      → runtime.max_serial ≤ 9999
      → 1 ≤ runtime.wait_attempts
      → 1 ≤ config.attempts
      → links w.tick ≡ answered
      → links v.tick ≡ answered
      → (preview u base runtime config jitter links others n.year_code n.gender w).0
        ≡ counter_preview c
      → others v.tick v.server (sequence_key base runtime.max_serial n)
        ≡ others w.tick w.server (sequence_key base runtime.max_serial n)
      → incr (others v.tick v.server (sequence_key base runtime.max_serial n)) ≡ some q
      → others v.tick v.server (student_key base runtime.max_serial n) ≡ none
      → (allocate_with_retry u base runtime config jitter links others n v).0 ≡ counter_new c
  unfolding allocate_with_retry
  preview-allocate w v c q digits two limit turns one lw lv p same i free =
      let shown = sym (ap (λ r. r.0) (preview-read w one lw)) ∙ p in
      let (l, e) = previewed-counter (read (others w.tick w.server)) c _ shown in
      let next : suc (read (others w.tick w.server)) ≡ q =
        incr-current w one lw _ q (ap incr (sym same) ∙ i) in
      let le : q ≤ runtime.max_serial = omega (arith, l, next) in
      let run = fresh-run v one lv (others v.tick v.server) q free i le in
      turn_new v one lv runtime.wait_attempts _ q turns run
        (counter_of-matches u n.year_code n.gender q digits two (omega (arith, le, limit)))
      ∙ ap counter_new (ap (counter_of n.year_code n.gender) (sym next) ∙ e)
