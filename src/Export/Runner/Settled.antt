-- ===== src/Export/Runner/Settled.antt =====
-- Jobs that are over, under the turns of other submissions.
use student_mentor_allocatio.Base.{
  ℕ, ◌≡◌, refl, sym, ◌∙◌, ap, inl, inr, List, [], ◌∷◌, ◌==◌, arith, Bool-cases,
}
use student_mentor_allocatio.Base.Text.{Text}
use student_mentor_allocatio.Retry.{Call}
use student_mentor_allocatio.Export.Redis.{hgetall}
use student_mentor_allocatio.Export.Job.{ErrorPayload, ExportException, ExportJob, Submission}
use student_mentor_allocatio.Export.Runner.{finished, owns, System, act, turn, Reach}
use student_mentor_allocatio.Export.Runner.Sound.{IsSound}
use student_mentor_allocatio.Export.Runner.Reached.{turn-Change, turn-IsSound, Reach-IsSound}
use student_mentor_allocatio.Export.Runner.Runs.{Turn, run, IsFresh}

module _ {M : Type 0} (dumps_json : ErrorPayload → Text) where
  -- What a job that is over shows.
  abbrev pub SameEnd : System M → System M → ℕ → Text → ExportJob M → Type 0
  SameEnd s s' i k job =
      (s'.pc i ≡ s.pc i)
      × (s'.runner.jobs job.id ≡ s.runner.jobs job.id)
      × (hgetall k s'.runner.redis ≡ hgetall k s.runner.redis)

  turn-SameEnd :
      (s : System M) (t : Turn M) (i : ℕ) (k : Text) (job : ExportJob M)
      (end : Call M ExportException)
      → IsSound dumps_json s
      → s.pc i ≡ owns (finished end) k job
      → SameEnd s (turn dumps_json t.i t.id t.now t.end s) i k job
  unfolding turn act
  turn-SameEnd s t i k job end h e = elim (Bool-cases (t.i == i)) [
    | inl b ↦
        let same : t.i ≡ i = ground (arith, b) in
        let own : s.pc t.i ≡ owns (finished end) k job = ap s.pc same ∙ e in
        rw b (rw own (sym e, refl, refl))
    | inr b ↦
        let differ : t.i ≡ i → ⊥ = λ (x : t.i ≡ i). absurd (ground (arith, b, x)) in
        let change = turn-Change dumps_json s t.i t.id t.now t.end h in
        let (jobs, hash) = change.others i (finished end) k job differ e in rw b (refl, jobs, hash)
  ]

  -- A job that is over stays as it is, whatever the other submissions do: its submission takes no
  -- further step, `self.jobs` keeps its status, times, manifest and error, and its key its fields.
  pub run-SameEnd :
      (submissions : ℕ → Submission) (ts : List (Turn M)) {s : System M} (i : ℕ) (k : Text)
      (job : ExportJob M) (end : Call M ExportException)
      → Reach dumps_json submissions s
      → IsFresh dumps_json ts s
      → s.pc i ≡ owns (finished end) k job
      → SameEnd s (run dumps_json ts s) i k job
  unfolding run
  run-SameEnd submissions ts {s} i k job end r f e =
      same ts s f (Reach-IsSound dumps_json submissions r) e
    where
      same :
          (ts : List (Turn M)) (s : System M)
          → IsFresh dumps_json ts s
          → IsSound dumps_json s
          → s.pc i ≡ owns (finished end) k job
          → SameEnd s (run dumps_json ts s) i k job
      same [] s f h e = (refl, refl, refl)
      same (t ∷ ts) s f h e =
          let (pc, jobs, hash) = turn-SameEnd s t i k job end h e in
          let (pc', jobs', hash') =
            same ts _ f.1 (turn-IsSound dumps_json s t.i t.id t.now t.end f.0 h) (pc ∙ e) in
          (pc' ∙ pc, jobs' ∙ jobs, hash' ∙ hash)
