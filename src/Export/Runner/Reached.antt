-- ===== src/Export/Runner/Reached.antt =====
-- What holds in every state that the submissions reach, and how they end.
use student_mentor_allocatio.Base.{ℕ, ◌≡◌, refl, In, arith}
use student_mentor_allocatio.Base.Text.{Text}
use student_mentor_allocatio.Retry.{Call}
use student_mentor_allocatio.Export.Redis.{hgetall}
use student_mentor_allocatio.Export.Job.{ErrorPayload, ExportException, Submission}
use student_mentor_allocatio.Export.Runner.{
  claimed, recorded, published, launched, marked, running, settled, reported, finished, Pc, waiting,
  refused, answered, owns, died, System, act, turn, initial, Reach, begin, then_turn,
}
use student_mentor_allocatio.Export.Runner.Sound.{IsSound, Change}
use student_mentor_allocatio.Export.Runner.Kept.{after-IsSound}
use student_mentor_allocatio.Export.Runner.Steps.{
  claimed-Change, recorded-Change, published-Change, launched-Change, marked-Change, running-Change,
  settled-Change, reported-Change,
}
use student_mentor_allocatio.Export.Runner.Claims.{idle-Change, refused-Change, waiting-Change}

module _ {M : Type 0} (dumps_json : ErrorPayload → Text) where
  act-Change :
      (s : System M) (i : ℕ) (id : Text) (now : ℕ) (end : Call M ExportException) (p : Pc M)
      → IsSound dumps_json s
      → s.pc i ≡ p
      → let next = act dumps_json id now end p s.runner in Change dumps_json s i id next.0 next.1
  unfolding act
  act-Change s i id now end (waiting q) h e = waiting-Change dumps_json s i id h now q e
  act-Change s i id now end (refused k) h e = refused-Change dumps_json s i id h k e
  act-Change s i id now end (answered k a) h e =
      let idle = idle-Change dumps_json s i id h in rw e at idle
  act-Change s i id now end (owns claimed k job) h e =
      claimed-Change dumps_json s i id h k job claimed e refl
  act-Change s i id now end (owns recorded k job) h e =
      recorded-Change dumps_json s i id h k job recorded e refl
  act-Change s i id now end (owns published k job) h e =
      published-Change dumps_json s i id h k job published e refl
  act-Change s i id now end (owns launched k job) h e =
      launched-Change dumps_json s i id h k job launched e now refl
  act-Change s i id now end (owns marked k job) h e =
      marked-Change dumps_json s i id h k job marked e refl
  act-Change s i id now end (owns running k job) h e =
      running-Change dumps_json s i id h k job running e now end refl
  act-Change s i id now end (owns (settled ended) k job) h e =
      settled-Change dumps_json s i id h k job (settled ended) e ended refl
  act-Change s i id now end (owns (reported ended) k job) h e =
      reported-Change dumps_json s i id h k job (reported ended) e ended refl
  act-Change s i id now end (owns (finished ended) k job) h e =
      let idle = idle-Change dumps_json s i id h in rw e at idle
  act-Change s i id now end died h e = absurd (h.alive i e)

  pub turn-Change :
      (s : System M) (i : ℕ) (id : Text) (now : ℕ) (end : Call M ExportException)
      → IsSound dumps_json s
      → let next = act dumps_json id now end (s.pc i) s.runner in
        Change dumps_json s i id next.0 next.1
  turn-Change s i id now end h = act-Change s i id now end (s.pc i) h refl

  pub turn-IsSound :
      (s : System M) (i : ℕ) (id : Text) (now : ℕ) (end : Call M ExportException)
      → (In id s.drawn → ⊥)
      → IsSound dumps_json s
      → IsSound dumps_json (turn dumps_json i id now end s)
  unfolding turn
  turn-IsSound s i id now end fresh h =
      after-IsSound dumps_json s i id _ _ h fresh (turn-Change s i id now end h)

  initial-IsSound :
      (submissions : ℕ → Submission) → IsSound dumps_json (initial {M = M} submissions)
  unfolding hgetall
  initial-IsSound submissions = record {
    locked = λ i st k job e. absurd (ground (arith, e));
    keys = λ i j st st' k job job' e e'. absurd (ground (arith, e));
    ids = λ i j st st' k k' job job' e e' n. absurd (ground (arith, e));
    drawn = λ i st k job e. absurd (ground (arith, e));
    staged = λ i st k job e. absurd (ground (arith, e));
    pointed = λ k a e. absurd (ground (arith, e));
    named = λ a job e. absurd (ground (arith, e));
    answers = λ i k job e. absurd (ground (arith, e));
    alive = λ i e. absurd (ground (arith, e));
  }

  -- Whatever the order in which the calls of `submit` and the threads of their jobs take their steps,
  -- as long as every id that is drawn is new: each key of the store has at most one job and each job
  -- one key, `self.jobs` and the hash of the key hold what the job's last step wrote, a call that is
  -- answered with a job gets the job of its own key, and no thread ends in a KeyError.
  pub Reach-IsSound :
      (submissions : ℕ → Submission) {s : System M}
      → Reach dumps_json submissions s
      → IsSound dumps_json s
  Reach-IsSound submissions begin = initial-IsSound submissions
  Reach-IsSound submissions (then_turn s i id now end r fresh) =
      turn-IsSound s i id now end fresh (Reach-IsSound submissions r)
