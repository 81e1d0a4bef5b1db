-- ===== src/Export/Attempts/Pauses.antt =====
-- How long the pauses of a job are together.
use student_mentor_allocatio.Base.{
  ℕ, zero, suc, ◌+◌, ◌-◌, ◌*◌, ◌^◌, ◌≤◌, ◌<◌, ◌≡◌, List, [], ◌∷◌, arith,
}
use student_mentor_allocatio.Export.Attempts.{compute_delay, delays_from, build_schedule}
use native.Mathlib.Numerals.{towards_suc}

abbrev pub sum : List ℕ → ℕ
sum [] = 0
sum (x ∷ xs) = x + sum xs

-- `base_delay`, in the unit of the delays.
abbrev pub base_delay : ℕ
base_delay = 10 * 2 ^ 64

scaled :
    (p g : ℕ)
    → g < 2 ^ 64
    → (base_delay * p ≤ p * (10 * 2 ^ 64 + g))
      × (10 * (p * (10 * 2 ^ 64 + g)) ≤ 11 * (base_delay * p))
scaled zero g h = omega arith
scaled (suc p) g h = omega (arith, scaled p g h)

doubled : (k : ℕ) → 2 ^ (k + 1) ≡ 2 ^ k + 2 ^ k
doubled k = simp towards_suc (omega arith)

module _ (digest : ℕ → ℕ) (small : (attempt : ℕ) → digest attempt < 2 ^ 64) where
  pub compute_delay-bounds :
      (k : ℕ)
      → (base_delay * 2 ^ k ≤ compute_delay digest (k + 1))
        × (10 * compute_delay digest (k + 1) ≤ 11 * (base_delay * 2 ^ k))
  unfolding compute_delay
  compute_delay-bounds k =
      let e : k + 1 - 1 ≡ k = omega arith in rw e (scaled (2 ^ k) (digest (k + 1)) (small (k + 1)))

  sum-bounds :
      (n k : ℕ)
      → (base_delay * 2 ^ (k + n) ≤ sum (delays_from digest (k + 1) n) + base_delay * 2 ^ k)
        × (10 * sum (delays_from digest (k + 1) n) + 11 * (base_delay * 2 ^ k)
            ≤ 11 * (base_delay * 2 ^ (k + n)))
  sum-bounds zero k = let e : k + 0 ≡ k = omega arith in rw e (omega arith)
  sum-bounds (suc n) k =
      let e : k + 1 + n ≡ k + suc n = omega arith in
      let rest = sum-bounds n (k + 1) in
      rw (← e) (omega (arith, rest, compute_delay-bounds k, doubled k))

  -- The pauses of a job that uses up all its attempts are together at least 2 ^ (attempts - 1) - 1
  -- times `base_delay`, and at most a tenth more than that.
  pub build_schedule-bounds :
      (max_attempts : ℕ)
      → let total = sum (build_schedule digest max_attempts) in
        let factor = 2 ^ (max_attempts - 1) - 1 in
        (base_delay * factor ≤ total) × (10 * total ≤ 11 * (base_delay * factor))
  build_schedule-bounds max_attempts =
      let h = sum-bounds (max_attempts - 1) 0 in
      let e : 0 + (max_attempts - 1) ≡ max_attempts - 1 = omega arith in omega (arith, rw e at h)
