-- ===== src/Retry/Attempts.antt =====
-- How many calls `execute_with_retry` makes, how long it waits, and how it ends.
use student_mentor_allocatio.Base.{
  ℕ, zero, suc, ◌+◌, ◌-◌, ◌*◌, ◌^◌, ◌%◌, ◌≤◌, ◌<◌, ◌≡◌, refl, sym, ◌∙◌, ap, ◌⊎◌, inl, inr, min, max,
  Bool, true, false, not, ◌||◌, List, [], ◌∷◌, ◌++◌, arith, Bool-cases, leb,
}
use student_mentor_allocatio.Retry.{
  RetryPolicy, backoff_for, Call, gave, raised, Outcome, succeeded, exhausted, answer, retry_loop,
  execute_with_retry,
}
use mathlib.Core.List.{append_assoc, append-nil}

module _ {A : Type 0} {E : Type 0} (digest : ℕ → ℕ) (policy : RetryPolicy) (should_retry : E → Bool)
    (func : ℕ → Call A E) where
  -- A call that is made again.
  abbrev pub is_retried : Call A E → Bool
  is_retried (gave result) = false
  is_retried (raised exc) = should_retry exc

  -- The delays after the calls from `attempt` on, for `n` calls.
  abbrev pub delays : ℕ → ℕ → List ℕ
  delays attempt zero = []
  delays attempt (suc n) = backoff_for digest policy attempt ∷ delays (attempt + 1) n

  -- The outcome is that of the last call.
  pub data Ends (calls : ℕ) : Outcome A E → Type 0 where
    success : (result : A) → func calls ≡ gave result → Ends calls (succeeded result)
    failure :
        (exc : E)
        → func calls ≡ raised exc
        → (should_retry exc ≡ false) ⊎ (calls ≡ policy.max_attempts)
        → Ends calls (exhausted exc)

  -- `n` calls were made again, with a delay after each, before the last one.
  pub record Ran (attempt left : ℕ) (before : List ℕ) (result : Outcome A E × ℕ × List ℕ)
      : Type 0 where
    pub n : ℕ
    pub bounded : n < left
    pub calls : result.1 ≡ attempt + n
    pub slept : result.2 ≡ before ++ delays attempt n
    pub retried : (j : ℕ) → attempt ≤ j → j < attempt + n → is_retried (func j) ≡ true
    pub ends : Ends result.1 result.0

  -- The call is the last one.
  stopped :
      (attempt left : ℕ) (slept : List ℕ) (outcome : Outcome A E)
      → Ends attempt outcome
      → Ran attempt (suc left) slept (outcome, attempt, slept)
  stopped attempt left slept outcome h = record {
    n = 0;
    bounded = omega arith;
    calls = omega arith;
    slept = sym (append-nil slept);
    retried = λ j l u. absurd (omega arith);
    ends = h;
  }

  earlier :
      (attempt n j : ℕ)
      → is_retried (func attempt) ≡ true
      → ((i : ℕ) → attempt + 1 ≤ i → i < attempt + 1 + n → is_retried (func i) ≡ true)
      → attempt ≤ j
      → j < attempt + suc n
      → is_retried (func j) ≡ true
  earlier attempt n j first rest l u = elim (Bool-cases (leb j attempt)) [
    | inl e ↦ let same : j ≡ attempt = ground (arith, e) in rw same first
    | inr e ↦ rest j (ground (arith, e)) (omega arith)
  ]

  went_on :
      (attempt left : ℕ) (slept : List ℕ) (result : Outcome A E × ℕ × List ℕ)
      → is_retried (func attempt) ≡ true
      → Ran (attempt + 1) left (slept ++ backoff_for digest policy attempt ∷ []) result
      → Ran attempt (suc left) slept result
  went_on attempt left slept result first h = record {
    n = suc h.n;
    bounded = omega (arith, h.bounded);
    calls = omega (arith, h.calls);
    slept =
        h.slept
        ∙ append_assoc slept (backoff_for digest policy attempt ∷ []) (delays (attempt + 1) h.n);
    retried = λ j. earlier attempt h.n j first h.retried;
    ends = h.ends;
  }

  why :
      (attempt : ℕ) (exc : E)
      → attempt ≤ policy.max_attempts
      → not (should_retry exc) || leb policy.max_attempts attempt ≡ true
      → (should_retry exc ≡ false) ⊎ (attempt ≡ policy.max_attempts)
  why attempt exc l e = elim (Bool-cases (should_retry exc)) [
    | inl r ↦ inr (ground (arith, r, e))
    | inr r ↦ inl r
  ]

  answer_ran :
      (attempt left : ℕ) (slept : List ℕ) (next : Outcome A E × ℕ × List ℕ) (c : Call A E)
      → func attempt ≡ c
      → attempt ≤ policy.max_attempts
      → (attempt < policy.max_attempts
          → Ran (attempt + 1) left (slept ++ backoff_for digest policy attempt ∷ []) next)
      → Ran attempt (suc left) slept (answer digest policy should_retry func attempt slept c next)
  answer_ran attempt left slept next (gave result) e l h =
      stopped attempt left slept (succeeded result) (success result e)
  answer_ran attempt left slept next (raised exc) e l h =
      elim (Bool-cases (not (should_retry exc) || leb policy.max_attempts attempt)) [
        | inl stop ↦
            rw stop
              (stopped attempt left slept (exhausted exc) (failure exc e (why attempt exc l stop)))
        | inr go ↦
            let first : is_retried (func attempt) ≡ true = ap is_retried e ∙ ground (arith, go) in
            rw go (went_on attempt left slept next first (h (ground (arith, go))))
      ]

  loop_ran :
      (left attempt : ℕ) (slept : List ℕ)
      → attempt + left ≡ policy.max_attempts
      → Ran attempt
          (suc left)
          slept
          (retry_loop digest policy should_retry func (suc left) attempt slept)
  unfolding retry_loop
  loop_ran zero attempt slept e =
      answer_ran attempt zero slept
        (retry_loop digest policy should_retry func zero (attempt + 1)
          (slept ++ backoff_for digest policy attempt ∷ []))
        (func attempt) refl (omega arith) (λ h. absurd (omega arith))
  loop_ran (suc left) attempt slept e =
      answer_ran attempt (suc left) slept
        (retry_loop digest policy should_retry func (suc left) (attempt + 1)
          (slept ++ backoff_for digest policy attempt ∷ []))
        (func attempt) refl (omega arith)
        (λ h.
          loop_ran left (attempt + 1) (slept ++ backoff_for digest policy attempt ∷ [])
            (omega arith))

  -- With at least one attempt allowed, `execute_with_retry` makes at most `max_attempts` calls and
  -- ends as the last of them does: with its result, or with its exception, which is then one that is
  -- not to be retried or that of the last attempt. All calls before it raised exceptions to be
  -- retried, and each was followed by its delay.
  pub execute_with_retry-Ran :
      0 < policy.max_attempts
      → Ran 1 policy.max_attempts [] (execute_with_retry digest policy should_retry func)
  unfolding execute_with_retry
  execute_with_retry-Ran h = ran policy.max_attempts refl
    where
      ran :
          (m : ℕ)
          → m ≡ policy.max_attempts
          → Ran 1 m [] (retry_loop digest policy should_retry func m 1 [])
      ran zero e = absurd (omega arith)
      ran (suc left) e = loop_ran left 1 [] (omega arith)

scaled : (r x : ℕ) → x < 100 → 10 * (r * (1000 + x)) ≤ 11_000 * r
scaled zero x h = omega arith
scaled (suc r) x h = omega (arith, scaled r x h)

-- A delay lies between the exponential one, capped by `max_delay`, and a tenth more than that.
pub backoff_for-bounds :
    (digest : ℕ → ℕ) (policy : RetryPolicy) (attempt : ℕ)
    → let raw = min (policy.base_delay * policy.factor ^ (max 1 attempt - 1)) policy.max_delay in
      let delay = backoff_for digest policy attempt in
      (1000 * raw ≤ delay) × (10 * delay ≤ 11_000 * raw) × (10 * delay ≤ 11_000 * policy.max_delay)
unfolding backoff_for
backoff_for-bounds digest policy attempt =
    let n = max 1 attempt in
    let raw = min (policy.base_delay * policy.factor ^ (n - 1)) policy.max_delay in
    let upper = scaled raw (digest n % 100) (omega arith) in
    (omega arith, upper, omega (arith, upper))
