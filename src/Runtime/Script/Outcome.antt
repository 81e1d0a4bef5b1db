-- ===== src/Runtime/Script/Outcome.antt =====
-- The branches of a run of the script, with what the server held before and holds after.
use student_mentor_allocatio.Base.{
  ℕ, ◌≤◌, ◌<◌, ◌≡◌, refl, Option, none, some, arith, ltb, ltb→lt, Bool-cases, inl, inr,
}
use student_mentor_allocatio.Base.Text.{Text}
use student_mentor_allocatio.Runtime.Script.{
  Normalized, Cell, placeholder, assigned, number, Redis, put, incr, Reply, new, exhausted,
  script_error, reply_existing, assignment, counter_of, after_incr, on_existing, allocate_script,
}
use student_mentor_allocatio.Runtime.Script.Writes.{put_there, apart, student, sequence}

module _ (base : Text) (max_serial : ℕ) (n : Normalized) where
  abbrev pub marked : Redis → Redis
  marked s = put (student base max_serial n) (some placeholder) s

  abbrev pub numbered : ℕ → Redis → Redis
  numbered q s = put (sequence base max_serial n) (some (number q)) (marked s)

  -- The state after the branch of a count `q`, with `w` at the student's key.
  abbrev pub counted : ℕ → Option Cell → Redis → Redis
  counted q w s = put (student base max_serial n) w (numbered q s)

  pub data Outcome (s : Redis) : Reply × Redis → Type 0 where
    existing :
        (cell : Cell)
        → s (student base max_serial n) ≡ some cell
        → Outcome s (reply_existing cell, s)
    broken : s (student base max_serial n) ≡ none → Outcome s (script_error, marked s)
    full :
        (q : ℕ)
        → s (student base max_serial n) ≡ none
        → incr (s (sequence base max_serial n)) ≡ some q
        → max_serial < q
        → Outcome s (exhausted, counted q none s)
    fresh :
        (q : ℕ)
        → s (student base max_serial n) ≡ none
        → incr (s (sequence base max_serial n)) ≡ some q
        → q ≤ max_serial
        → Outcome s (
          new (counter_of n.year_code n.gender q),
          counted q (some (assigned (assignment n q))) s,
        )

  after_incr-Outcome :
      (s : Redis) (o : Option ℕ)
      → s (student base max_serial n) ≡ none
      → incr (s (sequence base max_serial n)) ≡ o
      → Outcome s (after_incr base max_serial n o (marked s))
  after_incr-Outcome s none e i = broken e
  after_incr-Outcome s (some q) e i = elim (Bool-cases (ltb max_serial q)) [
    | inl h ↦ rw h (full q e i (ltb→lt max_serial q h))
    | inr h ↦ rw h (fresh q e i (ground (arith, h)))
  ]

  pub marked-sequence :
      (s : Redis) → marked s (sequence base max_serial n) ≡ s (sequence base max_serial n)
  marked-sequence s = put_there _ _ s _ (apart base max_serial n)

  on_existing-Outcome :
      (s : Redis) (o : Option Cell)
      → s (student base max_serial n) ≡ o
      → Outcome s (on_existing base max_serial n o s)
  on_existing-Outcome s (some cell) e = existing cell e
  on_existing-Outcome s none e =
      rw (marked-sequence s) (after_incr-Outcome s (incr (s (sequence base max_serial n))) e refl)

  pub allocate_script-Outcome : (s : Redis) → Outcome s (allocate_script base max_serial n s)
  unfolding allocate_script
  allocate_script-Outcome s = on_existing-Outcome s (s (student base max_serial n)) refl
