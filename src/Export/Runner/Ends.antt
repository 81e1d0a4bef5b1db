-- ===== src/Export/Runner/Ends.antt =====
-- How the submissions end: which job they are answered with, what it shows, and that they do end.
use student_mentor_allocatio.Base.{ℕ, ◌≡◌, refl, sym, ◌∙◌, ap, Option, none, some, arith}
use student_mentor_allocatio.Base.Text.{Text}
use student_mentor_allocatio.Retry.{Call, gave, raised}
use student_mentor_allocatio.Export.Redis.{Dict, hgetall}
use student_mentor_allocatio.Export.Job.{
  ExportJobStatus, status_value, ErrorPayload, ExportException, payload_of, ExportJob, Submission,
  start, settle,
}
use student_mentor_allocatio.Export.Runner.{
  finished, Pc, waiting, refused, answered, owns, died, System, job_id_field, status_field,
  error_field, get_job, Reach,
}
use student_mentor_allocatio.Export.Runner.Sound.{ShowsEnd, Owner, IsSound}
use student_mentor_allocatio.Export.Runner.Reached.{Reach-IsSound}

-- The key of a call of `submit` and the id of the job that it gives, or will give.
abbrev pub given : {M : Type 0} → Pc M → Option (Text × Text)
given (answered k (some job)) = some (k, job.id)
given (owns st k job) = some (k, job.id)
given _ = none

module _ {M : Type 0} (dumps_json : ErrorPayload → Text) where
  given-Owner :
      (s : System M) (i : ℕ) (p : Pc M) (k a : Text)
      → IsSound dumps_json s
      → s.pc i ≡ p
      → given p ≡ some (k, a)
      → Owner dumps_json s k a
  given-Owner s i (waiting q) k a h e g = absurd (ground (arith, g))
  given-Owner s i (refused k') k a h e g = absurd (ground (arith, g))
  given-Owner s i (answered k' none) k a h e g = absurd (ground (arith, g))
  given-Owner s i (answered k' (some job)) k a h e g =
      let same_key : k' ≡ k = ground (arith, g) in
      let same_id : job.id ≡ a = ground (arith, g) in
      rw (← same_key, ← same_id) (h.answers i k' job e)
  given-Owner s i (owns st k' job) k a h e g =
      let same_key : k' ≡ k = ground (arith, g) in
      record { i = i; stage = st; job = job; is = rw (← same_key) e; id = ground (arith, g) }
  given-Owner s i died k a h e g = absurd (ground (arith, g))

  -- Two calls of `submit` under one key that give a job give the same job.
  pub Reach-same_job :
      (submissions : ℕ → Submission) {s : System M} (i j : ℕ) (k a b : Text)
      → Reach dumps_json submissions s
      → given (s.pc i) ≡ some (k, a)
      → given (s.pc j) ≡ some (k, b)
      → a ≡ b
  Reach-same_job submissions {s} i j k a b r g g' =
      let h = Reach-IsSound dumps_json submissions r in
      let o = given-Owner s i (s.pc i) k a h refl g in
      let o' = given-Owner s j (s.pc j) k b h refl g' in
      let same = h.keys o.i o'.i o.stage o'.stage k o.job o'.job o.is o'.is in
      let same_pc : owns o.stage k o.job ≡ owns o'.stage k o'.job =
        sym o.is ∙ (ap s.pc same ∙ o'.is) in
      let same_job : o.job ≡ o'.job = ground (arith, same_pc) in
      sym o.id ∙ (ap (λ (job : ExportJob M). job.id) same_job ∙ o'.id)

  abbrev pub EndsAs : Call M ExportException → ExportJob M → Type 0
  EndsAs (gave manifest) job =
      (job.status ≡ ExportJobStatus.success) × (job.manifest ≡ some manifest)
  EndsAs (raised exc) job =
      (job.status ≡ ExportJobStatus.failed) × (job.error ≡ some (payload_of exc))

  abbrev pub ErrorShown : Call M ExportException → Dict Text → Type 0
  ErrorShown (gave manifest) fields = Unit
  ErrorShown (raised exc) fields = fields error_field ≡ some (dumps_json (payload_of exc))

  -- What `get_job` gives for a job that is over, and what its key shows.
  pub record IsReported (s : System M) (k : Text) (job : ExportJob M) (end : Call M ExportException)
      : Type 0 where
    pub found : ExportJob M
    pub started : ℕ
    pub ended : ℕ
    pub stored : get_job job.id s.runner ≡ some found
    pub request :
        (found.id ≡ job.id) × (found.filters ≡ job.filters) × (found.options ≡ job.options)
    pub times : (found.started_at ≡ some started) × (found.finished_at ≡ some ended)
    pub ends : EndsAs end found
    pub shown_id : hgetall k s.runner.redis job_id_field ≡ some job.id
    pub shown_status : hgetall k s.runner.redis status_field ≡ some (status_value found.status)
    pub shown_error : ErrorShown end (hgetall k s.runner.redis)

  staged-IsReported :
      (s : System M) (k : Text) (job : ExportJob M) (end : Call M ExportException) (t t' : ℕ)
      → s.runner.jobs job.id ≡ some (settle end t' (start t job))
      → ShowsEnd dumps_json job end (hgetall k s.runner.redis)
      → IsReported s k job end
  staged-IsReported s k job (gave manifest) t t' stored shown = record {
    found = settle (gave manifest) t' (start t job);
    started = t;
    ended = t';
    stored = stored;
    request = (refl, refl, refl);
    times = (refl, refl);
    ends = (refl, refl);
    shown_id = shown.0;
    shown_status = shown.1;
    shown_error = tt;
  }
  staged-IsReported s k job (raised exc) t t' stored shown = record {
    found = settle (raised exc) t' (start t job);
    started = t;
    ended = t';
    stored = stored;
    request = (refl, refl, refl);
    times = (refl, refl);
    ends = (refl, refl);
    shown_id = shown.0.0;
    shown_status = shown.0.1;
    shown_error = shown.1;
  }

  -- When the thread of a submission has finished, `get_job` gives its job with both its times and
  -- with the id, the filters and the options that it was submitted with: as a success with the
  -- manifest of the exporter if the attempts returned one, and as a failure with the payload of the
  -- exception if they raised. The hash of its key shows its id, that status and that payload.
  pub Reach-IsReported :
      (submissions : ℕ → Submission) {s : System M} (i : ℕ) (k : Text) (job : ExportJob M)
      (end : Call M ExportException)
      → Reach dumps_json submissions s
      → s.pc i ≡ owns (finished end) k job
      → IsReported s k job end
  Reach-IsReported submissions {s} i k job end r e =
      let h = Reach-IsSound dumps_json submissions r in
      let (stored, shown) = h.staged i (finished end) k job e in
      staged-IsReported s k job end stored.0 stored.1.0 stored.1.1 shown
