-- ===== src/Outbox/Backoff/Delays.antt =====
-- Bounds on the delays between two attempts to publish an event.
use student_mentor_allocatio.Base.{ℕ, zero, suc, ◌+◌, ◌-◌, ◌*◌, ◌^◌, ◌≤◌, ◌<◌, ◌≡◌, max, min, arith}
use student_mentor_allocatio.Outbox.Backoff.{
  BackoffPolicy, next_delay, Readings, remaining, compute_next_available_at,
}
use native.Mathlib.Nat.{pow-suc}

doubles : (b k : ℕ) → b * 2 ^ suc k ≡ 2 * (b * 2 ^ k)
doubles b k = rw (pow-suc 2 k) (omega arith)

base_le : (b k : ℕ) → b ≤ b * 2 ^ k
base_le b zero = omega arith
base_le b (suc k) = omega (arith, doubles b k, base_le b k)

-- The two corrections of the code amount to the cap alone.
next_delay_lem :
    (backoff : BackoffPolicy) (k : ℕ)
    → next_delay backoff (suc k) ≡ min (backoff.base_seconds * 2 ^ k) backoff.cap_seconds
unfolding next_delay
next_delay_lem backoff k =
    let e : max (suc k) 1 - 1 ≡ k = omega arith in
    rw e (ground (arith, base_le backoff.base_seconds k))

-- Under a base that is at most the cap, every delay lies between the two; the first is the base,
-- and each delay is twice the one before or the cap.
pub next_delay-bounds :
    (backoff : BackoffPolicy) (n : ℕ)
    → backoff.base_seconds ≤ backoff.cap_seconds
    → (backoff.base_seconds ≤ next_delay backoff n)
      × (next_delay backoff n ≤ backoff.cap_seconds)
      × (next_delay backoff 1 ≡ backoff.base_seconds)
      × (next_delay backoff (suc (suc n))
          ≡ min (2 * next_delay backoff (suc n)) backoff.cap_seconds)
next_delay-bounds backoff n h = (
  unfold next_delay in ground arith,
  unfold next_delay in ground arith,
  unfold next_delay in ground arith,
  rw (next_delay_lem backoff (suc n), next_delay_lem backoff n)
      (omega (arith, doubles backoff.base_seconds n)),
)

-- The next attempt is scheduled after the present, by the base or by what is left of the delay.
pub compute_next_available_at-bounds :
    (backoff : BackoffPolicy) (clock : Readings) (n : ℕ)
    → 0 < backoff.base_seconds
    → backoff.base_seconds ≤ backoff.cap_seconds
    → clock.mono_before ≤ clock.mono_after
    → let at = compute_next_available_at backoff clock n in
      (clock.wall_after < at) × (at ≤ clock.wall_after + backoff.cap_seconds)
unfolding compute_next_available_at
compute_next_available_at-bounds backoff clock n b h m =
    let d = next_delay-bounds backoff n h in
    (unfold remaining in ground (arith, d.1), unfold remaining in ground (arith, d.1))
