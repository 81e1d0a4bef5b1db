-- ===== src/Export/Attempts/Ends.antt =====
-- How many attempts a job has, how long it pauses between them, and how they end.
use student_mentor_allocatio.Base.{
  ℕ, zero, suc, ◌+◌, ◌≤◌, ◌<◌, ◌≡◌, refl, sym, ◌∙◌, ap, inl, inr, Bool, true, false, not, ◌||◌,
  some, List, [], ◌∷◌, ◌++◌, arith, leb, Bool-cases,
}
use student_mentor_allocatio.Retry.{Call, gave, raised}
use student_mentor_allocatio.Export.Attempts.{
  compute_delay, delays_from, Run, caught, execute_loop, execute,
}
use mathlib.Core.List.{append_assoc, append-nil}

module _ {M : Type 0} {E : Type 0} (digest : ℕ → ℕ) (retryable : E → Bool) (max_attempts : ℕ)
    (func : ℕ → Call M E) where
  abbrev pub is_retried : Call M E → Bool
  is_retried (gave result) = false
  is_retried (raised exc) = retryable exc

  -- The run ends with the call after `n` further ones that were retried.
  pub record Ends (attempt : ℕ) (slept : List ℕ) (result : Run digest retryable max_attempts func)
      : Type 0 where
    pub n : ℕ
    pub ended :
        result
        ≡ some
            (func (attempt + suc n), attempt + suc n, slept ++ delays_from digest (attempt + 1) n)
    pub bounded : attempt + suc n ≤ max_attempts
    pub retried : (j : ℕ) → j < n → is_retried (func (attempt + suc j)) ≡ true
    pub last : is_retried (func (attempt + suc n)) ≡ true → attempt + suc n ≡ max_attempts

  stop :
      (attempt : ℕ) (slept : List ℕ) (c : Call M E)
      → func (attempt + 1) ≡ c
      → attempt < max_attempts
      → (is_retried c ≡ true → attempt + 1 ≡ max_attempts)
      → Ends attempt slept (some (c, attempt + 1, slept))
  stop attempt slept c e l h = record {
    n = 0;
    ended = rw e (ap (λ (s : List ℕ). some (c, attempt + 1, s)) (sym (append-nil slept)));
    bounded = omega arith;
    retried = λ j u. absurd (omega arith);
    last = rw e h;
  }

  first_or_later :
      (attempt n j : ℕ)
      → is_retried (func (attempt + 1)) ≡ true
      → ((i : ℕ) → i < n → is_retried (func (attempt + 1 + suc i)) ≡ true)
      → j < suc n
      → is_retried (func (attempt + suc j)) ≡ true
  first_or_later attempt n zero first rest u = first
  first_or_later attempt n (suc j) first rest u =
      let e : attempt + 1 + suc j ≡ attempt + suc (suc j) = omega arith in
      rw (← e) (rest j (omega arith))

  again :
      (attempt : ℕ) (slept : List ℕ) (result : Run digest retryable max_attempts func)
      → is_retried (func (attempt + 1)) ≡ true
      → Ends (attempt + 1) (slept ++ compute_delay digest (attempt + 1) ∷ []) result
      → Ends attempt slept result
  again attempt slept result first h =
      let e : attempt + 1 + suc h.n ≡ attempt + suc (suc h.n) = omega arith in
      record {
        n = suc h.n;
        ended = rw (← e) (
            h.ended
            ∙ ap (λ (s : List ℕ). some (func (attempt + 1 + suc h.n), attempt + 1 + suc h.n, s))
                (append_assoc slept (compute_delay digest (attempt + 1) ∷ [])
                  (delays_from digest (attempt + 1 + 1) h.n)));
        bounded = omega (arith, h.bounded);
        retried = λ j. first_or_later attempt h.n j first h.retried;
        last = rw (← e) h.last;
      }

  caught-Ends :
      (attempt : ℕ) (slept : List ℕ) (next : Run digest retryable max_attempts func) (c : Call M E)
      → func (attempt + 1) ≡ c
      → attempt < max_attempts
      → (attempt + 1 < max_attempts
          → Ends (attempt + 1) (slept ++ compute_delay digest (attempt + 1) ∷ []) next)
      → Ends attempt slept (caught digest retryable max_attempts func attempt slept c next)
  caught-Ends attempt slept next (gave result) e l h =
      stop attempt slept (gave result) e l (λ r. absurd (ground (arith, r)))
  caught-Ends attempt slept next (raised exc) e l h =
      elim (Bool-cases (not (retryable exc) || leb max_attempts (attempt + 1))) [
        | inl s ↦ rw s (stop attempt slept (raised exc) e l (λ r. ground (arith, r, s)))
        | inr s ↦
            rw s (
              again attempt slept next (ap is_retried e ∙ ground (arith, s))
                (h (ground (arith, s))))
      ]

  execute_loop-Ends :
      (fuel attempt : ℕ) (slept : List ℕ)
      → attempt + fuel ≡ max_attempts
      → attempt < max_attempts
      → Ends attempt slept (execute_loop digest retryable max_attempts func fuel attempt slept)
  unfolding execute_loop
  execute_loop-Ends zero attempt slept e l = absurd (omega arith)
  execute_loop-Ends (suc fuel) attempt slept e l =
      caught-Ends attempt slept _ _ refl l
        (λ h. execute_loop-Ends fuel (attempt + 1) _ (omega arith) h)

  -- The runner always ends, after at least one call and at most `max_attempts`, as the last of them
  -- does. All calls before it raised exceptions that are retried, and were followed by the first
  -- delays of the schedule; the last one raised such an exception only if no attempt was left.
  pub execute-Ends : 0 < max_attempts → Ends 0 [] (execute digest retryable max_attempts func)
  unfolding execute
  execute-Ends h = execute_loop-Ends max_attempts 0 [] (omega arith) h
