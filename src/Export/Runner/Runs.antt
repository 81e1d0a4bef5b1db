-- ===== src/Export/Runner/Runs.antt =====
-- Schedules of turns, and the turns that a submission has left.
use student_mentor_allocatio.Base.{
  ℕ, suc, ◌-◌, ◌≤◌, ◌≡◌, refl, ap, inl, inr, Bool, true, false, Option, none, some, List, [], ◌∷◌,
  ◌==◌, In, arith, Bool-cases, if◌then◌else◌,
}
use student_mentor_allocatio.Base.Text.{Text}
use student_mentor_allocatio.Retry.{Call}
use student_mentor_allocatio.Export.Job.{
  ErrorPayload, ExportException, ExportJob, Submission, start, settle,
}
use student_mentor_allocatio.Export.Runner.{
  ExportJobRunner, Stage, claimed, recorded, published, launched, marked, running, settled,
  reported, finished, Pc, waiting, refused, answered, owns, died, System, act, claim, with_claim,
  update_job, turn, Reach, then_turn,
}
use student_mentor_allocatio.Export.Runner.Sound.{moved-there, IsSound}
use student_mentor_allocatio.Export.Runner.Reached.{turn-IsSound, Reach-IsSound}

-- A turn of a submission, with what its environment answers.
pub record Turn (M : Type 0) : Type 0 where
  pub i : ℕ
  pub id : Text
  pub now : ℕ
  pub end : Call M ExportException

module _ {M : Type 0} (dumps_json : ErrorPayload → Text) where
  unfoldable pub run : List (Turn M) → System M → System M
  run [] s = s
  run (t ∷ ts) s = run ts (turn dumps_json t.i t.id t.now t.end s)

  -- Every id that is drawn is new.
  abbrev pub IsFresh : List (Turn M) → System M → Type 0
  IsFresh [] s = Unit
  IsFresh (t ∷ ts) s = (In t.id s.drawn → ⊥) × IsFresh ts (turn dumps_json t.i t.id t.now t.end s)

  -- How many of the turns are those of `i`.
  abbrev pub turns_of : ℕ → List (Turn M) → ℕ
  turns_of i [] = 0
  turns_of i (t ∷ ts) = if t.i == i then suc (turns_of i ts) else turns_of i ts

  -- The turns that a call and its thread still have to take.
  abbrev pub left : Pc M → ℕ
  left (waiting q) = 10
  left (refused k) = 1
  left (answered k a) = 0
  left (owns claimed k job) = 8
  left (owns recorded k job) = 7
  left (owns published k job) = 6
  left (owns launched k job) = 5
  left (owns marked k job) = 4
  left (owns running k job) = 3
  left (owns (settled end) k job) = 2
  left (owns (reported end) k job) = 1
  left (owns (finished end) k job) = 0
  left died = 0

  with_claim-left :
      (id : Text) (now : ℕ) (q : Submission) (r : ExportJobRunner M) (c : Bool × _)
      → left (with_claim dumps_json id now q r c).0 ≤ 9
  with_claim-left id now q r (true, redis) = omega arith
  with_claim-left id now q r (false, redis) = omega arith

  update_job-left :
      (st : Stage M) (k : Text) (job : ExportJob M) (change : ExportJob M → ExportJob M)
      (r : ExportJobRunner M) (o : Option (ExportJob M))
      → left (update_job dumps_json st k job change r o).0 ≤ left (owns st k job)
  update_job-left st k job change r none = omega arith
  update_job-left st k job change r (some found) = omega arith

  -- A turn of its own brings a submission nearer to its end.
  act-left :
      (id : Text) (now : ℕ) (end : Call M ExportException) (p : Pc M) (r : ExportJobRunner M)
      → left (act dumps_json id now end p r).0 ≤ left p - 1
  unfolding act claim
  act-left id now end (waiting q) r = omega (arith, with_claim-left id now q r _)
  act-left id now end (refused k) r = omega arith
  act-left id now end (answered k a) r = omega arith
  act-left id now end (owns claimed k job) r = omega arith
  act-left id now end (owns recorded k job) r = omega arith
  act-left id now end (owns published k job) r = omega arith
  act-left id now end (owns launched k job) r =
      update_job-left marked k job (start now) r (r.jobs job.id)
  act-left id now end (owns marked k job) r = omega arith
  act-left id now end (owns running k job) r =
      update_job-left (settled end) k job (settle end now) r (r.jobs job.id)
  act-left id now end (owns (settled ended) k job) r = omega arith
  act-left id now end (owns (reported ended) k job) r = omega arith
  act-left id now end (owns (finished ended) k job) r = omega arith
  act-left id now end died r = omega arith

  turn-pc_here :
      (s : System M) (i j : ℕ) (id : Text) (now : ℕ) (end : Call M ExportException)
      → (i == j) ≡ true
      → (turn dumps_json i id now end s).pc j ≡ (act dumps_json id now end (s.pc j) s.runner).0
  unfolding turn
  turn-pc_here s i j id now end e =
      let same : i ≡ j = ground (arith, e) in
      rw e (ap (λ k. (act dumps_json id now end (s.pc k) s.runner).0) same)

  turn-pc_there :
      (s : System M) (i j : ℕ) (id : Text) (now : ℕ) (end : Call M ExportException)
      → (i == j) ≡ false
      → (turn dumps_json i id now end s).pc j ≡ s.pc j
  unfolding turn
  turn-pc_there s i j id now end f =
      moved-there i j _ s.pc (λ (e : i ≡ j). absurd (ground (arith, f, e)))

  run-left :
      (ts : List (Turn M)) (s : System M) (i : ℕ)
      → left ((run ts s).pc i) ≤ left (s.pc i) - turns_of i ts
  unfolding run
  run-left [] s i = omega arith
  run-left (t ∷ ts) s i =
      let s' = turn dumps_json t.i t.id t.now t.end s in
      let rest : left ((run ts s').pc i) ≤ left (s'.pc i) - turns_of i ts = run-left ts s' i in
      elim (Bool-cases (t.i == i)) [
        | inl e ↦
            let here = turn-pc_here s t.i i t.id t.now t.end e in
            let less = act-left t.id t.now t.end (s.pc i) s.runner in
            rw e (omega (arith, rest, ap left here, less))
        | inr e ↦
            let there = turn-pc_there s t.i i t.id t.now t.end e in
            rw e (omega (arith, rest, ap left there))
      ]

  run-IsSound :
      (ts : List (Turn M)) (s : System M)
      → IsFresh ts s
      → IsSound dumps_json s
      → IsSound dumps_json (run ts s)
  unfolding run
  run-IsSound [] s f h = h
  run-IsSound (t ∷ ts) s f h =
      run-IsSound ts _ f.1 (turn-IsSound dumps_json s t.i t.id t.now t.end f.0 h)

  -- A submission that takes no more turns.
  pub data IsOver : Pc M → Type 0 where
    call_over : (k : Text) (a : Option (ExportJob M)) → IsOver (answered k a)
    thread_over :
        (end : Call M ExportException) (k : Text) (job : ExportJob M)
        → IsOver (owns (finished end) k job)

  over : (p : Pc M) → left p ≤ 0 → (p ≡ died → ⊥) → IsOver p
  over (waiting q) h alive = absurd (omega arith)
  over (refused k) h alive = absurd (omega arith)
  over (answered k a) h alive = call_over k a
  over (owns claimed k job) h alive = absurd (omega arith)
  over (owns recorded k job) h alive = absurd (omega arith)
  over (owns published k job) h alive = absurd (omega arith)
  over (owns launched k job) h alive = absurd (omega arith)
  over (owns marked k job) h alive = absurd (omega arith)
  over (owns running k job) h alive = absurd (omega arith)
  over (owns (settled end) k job) h alive = absurd (omega arith)
  over (owns (reported end) k job) h alive = absurd (omega arith)
  over (owns (finished end) k job) h alive = thread_over end k job
  over died h alive = absurd (alive refl)

  left-le : (p : Pc M) → left p ≤ 10
  left-le (waiting q) = omega arith
  left-le (refused k) = omega arith
  left-le (answered k a) = omega arith
  left-le (owns claimed k job) = omega arith
  left-le (owns recorded k job) = omega arith
  left-le (owns published k job) = omega arith
  left-le (owns launched k job) = omega arith
  left-le (owns marked k job) = omega arith
  left-le (owns running k job) = omega arith
  left-le (owns (settled end) k job) = omega arith
  left-le (owns (reported end) k job) = omega arith
  left-le (owns (finished end) k job) = omega arith
  left-le died = omega arith

  -- From any state that is reached, a submission that gets ten turns, in any schedule of turns whose
  -- ids are new, is over: it was answered because its key was taken, or its thread has finished. None
  -- waits for another one or ends in a KeyError.
  pub run-IsOver :
      (submissions : ℕ → Submission) (ts : List (Turn M)) {s : System M} (i : ℕ)
      → Reach dumps_json submissions s
      → IsFresh ts s
      → 10 ≤ turns_of i ts
      → IsOver ((run ts s).pc i)
  run-IsOver submissions ts {s} i r f enough =
      let h = run-IsSound ts s f (Reach-IsSound dumps_json submissions r) in
      over _ (omega (arith, run-left ts s i, left-le (s.pc i))) (h.alive i)

  pub run-Reach :
      (submissions : ℕ → Submission) (ts : List (Turn M)) (s : System M)
      → Reach dumps_json submissions s
      → IsFresh ts s
      → Reach dumps_json submissions (run ts s)
  unfolding run
  run-Reach submissions [] s r f = r
  run-Reach submissions (t ∷ ts) s r f =
      run-Reach submissions ts _ (then_turn s t.i t.id t.now t.end r f.0) f.1
