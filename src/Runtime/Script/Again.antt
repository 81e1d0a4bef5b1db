-- ===== src/Runtime/Script/Again.antt =====
-- A counter that a key shows stays, and every later run of the script for the key answers it.
use student_mentor_allocatio.Base.{
  ℕ, ◌≡◌, refl, sym, ◌∙◌, ap, inl, inr, Option, none, some, arith, Bool-cases,
}
use student_mentor_allocatio.Base.Text.{Text, text_eq, text_eq→eq}
use student_mentor_allocatio.Runtime.Script.{
  Normalized, Cell, placeholder, assigned, number, garbled, Redis, Reply, new, reused, pending,
  exhausted, script_error, reply_existing, assignment, allocate_script,
}
use student_mentor_allocatio.Runtime.Script.Writes.{put_here, put_there, student}
use student_mentor_allocatio.Runtime.Script.Outcome.{
  numbered, Outcome, existing, broken, full, fresh, allocate_script-Outcome,
}
use student_mentor_allocatio.Runtime.Script.Changes.{allocate_script-IsWritten}
use student_mentor_allocatio.Runtime.Script.Refines.{shown, view, shown-assigned}
use student_mentor_allocatio.Runtime.Script.Unique.{Step, ran, expired, Steps, done, then_step}

-- The counter of a reply that gives one.
abbrev pub reply_counter : Reply → Option Text
reply_counter (new c) = some c
reply_counter (reused c) = some c
reply_counter pending = none
reply_counter exhausted = none
reply_counter script_error = none

reply_existing-shown :
    (cell : Cell) (c : Text)
    → reply_counter (reply_existing cell) ≡ some c
    → shown (some cell) ≡ some c
reply_existing-shown placeholder c e = absurd (ground (arith, e))
reply_existing-shown garbled c e = absurd (ground (arith, e))
reply_existing-shown (number q) c e = absurd (ground (arith, e))
reply_existing-shown (assigned p) c e = e

module _ (base : Text) (max_serial : ℕ) where
  Outcome-shows :
      (n : Normalized) (s : Redis) (r : Reply × Redis) (c : Text)
      → Outcome base max_serial n s r
      → reply_counter r.0 ≡ some c
      → view r.1 (student base max_serial n) ≡ some c
  Outcome-shows n s _ c (existing cell e) h = ap shown e ∙ reply_existing-shown cell c h
  Outcome-shows n s _ c (broken e) h = absurd (ground (arith, h))
  Outcome-shows n s _ c (full q e i l) h = absurd (ground (arith, h))
  Outcome-shows n s _ c (fresh q e i l) h =
      ap shown (
        put_here (student base max_serial n) (some (assigned (assignment n q)))
          (numbered base max_serial n q s) _ refl)
      ∙ h

  pub run-shows :
      (n : Normalized) (s : Redis) (c : Text)
      → reply_counter (allocate_script base max_serial n s).0 ≡ some c
      → view (allocate_script base max_serial n s).1 (student base max_serial n) ≡ some c
  run-shows n s c h = Outcome-shows n s _ c (allocate_script-Outcome base max_serial n s) h

  -- The run for a student whose key shows a counter.
  pub run_again :
      (n : Normalized) (s : Redis) (c : Text)
      → view s (student base max_serial n) ≡ some c
      → allocate_script base max_serial n s ≡ (reused c, s)
  unfolding allocate_script
  run_again n s c h =
      let (p, o, e) = shown-assigned (s (student base max_serial n)) c h in
      rw o (ap (λ (d : Text). (reused d, s)) e)

  Step-shown :
      (s t : Redis) (k c : Text) → Step base max_serial s t → view s k ≡ some c → view t k ≡ some c
  Step-shown s _ k c (ran n two) h =
      let (p, o, e) = shown-assigned (s k) c h in
      ap shown ((allocate_script-IsWritten base max_serial n s).keeps k p o) ∙ ap some e
  Step-shown s _ k c (expired j m) h = elim (Bool-cases (text_eq k j)) [
    | inl e ↦ absurd (ground (arith, sym (ap shown (ap s (text_eq→eq k j e) ∙ m)) ∙ h))
    | inr e ↦ ap shown (put_there j none s k e) ∙ h
  ]

  pub Steps-shown :
      (s t : Redis) (k c : Text) → Steps base max_serial s t → view s k ≡ some c → view t k ≡ some c
  Steps-shown s _ k c (done _) h = h
  Steps-shown s u k c (then_step _ t _ st last) h =
      Step-shown t u k c last (Steps-shown s t k c st h)

  -- If a run of the script for a student gives a counter, new or reused, then after any further
  -- runs, for any students, and any expired placeholders, another run for the student answers
  -- that the same counter is reused, and changes nothing.
  pub allocate_script-again :
      (n : Normalized) (s t : Redis) (c : Text)
      → reply_counter (allocate_script base max_serial n s).0 ≡ some c
      → Steps base max_serial (allocate_script base max_serial n s).1 t
      → allocate_script base max_serial n t ≡ (reused c, t)
  allocate_script-again n s t c h st = run_again n t c (Steps-shown _ t _ c st (run-shows n s c h))
