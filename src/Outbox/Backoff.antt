-- ===== src/Outbox/Backoff.antt =====
-- src/sma/phase3_allocation/outbox/backoff.py and the scheduling of models.py. Seconds are whole
-- microseconds; what the clock reads in one call is an argument.
pub mod Delays
use student_mentor_allocatio.Base.{ℕ, ◌+◌, ◌-◌, ◌*◌, ◌^◌, max, ltb, leb, if◌then◌else◌}

pub record BackoffPolicy : Type 0 where
  pub base_seconds : ℕ
  pub cap_seconds : ℕ
  pub max_retries : ℕ

abbrev at_least : ℕ → ℕ → ℕ
at_least base delay = if ltb delay base then base else delay

abbrev at_most : ℕ → ℕ → ℕ
at_most cap delay = if ltb cap delay then cap else delay

unfoldable pub next_delay : BackoffPolicy → ℕ → ℕ
next_delay backoff retry_count =
    let attempt = max retry_count 1 in
    at_most backoff.cap_seconds
      (at_least backoff.base_seconds (backoff.base_seconds * 2 ^ (attempt - 1)))

-- What `clock.monotonic()` and `clock.now()` give before and after the delay is computed.
pub record Readings : Type 0 where
  pub mono_before : ℕ
  pub mono_after : ℕ
  pub wall_after : ℕ

-- `remaining`; the skew is only logged.
unfoldable pub remaining : BackoffPolicy → Readings → ℕ → ℕ
unfolding next_delay
remaining backoff clock retry_count =
    let target_mono = clock.mono_before + next_delay backoff retry_count in
    if leb target_mono clock.mono_after
    then backoff.base_seconds
    else target_mono - clock.mono_after

-- `compute_next_available_at`
unfoldable pub compute_next_available_at : BackoffPolicy → Readings → ℕ → ℕ
unfolding remaining
compute_next_available_at backoff clock retry_count =
    clock.wall_after + remaining backoff clock retry_count
