-- ===== src/Export/Runner/Claims.antt =====
-- The steps of a call of `submit` before it has a key, and where its key is taken, as `Change`s.
use student_mentor_allocatio.Base.{
  ℕ, ◌≡◌, refl, sym, ◌∙◌, ap, inl, inr, Option, none, some, [], ◌∷◌, arith,
}
use student_mentor_allocatio.Base.Text.{Text, codes}
use student_mentor_allocatio.Export.Redis.{insert-here, insert-there, hgetall, set_new}
use student_mentor_allocatio.Export.Job.{ErrorPayload, ExportJob, Submission, new_job}
use student_mentor_allocatio.Export.Runner.{
  ExportJobRunner, Stage, claimed, Pc, waiting, refused, answered, owns, died, System, job_id_field,
  day, claim, with_claim, existing_job, known_job, redis_key,
}
use student_mentor_allocatio.Export.Runner.Sound.{Owner, IsSound, Change}

module _ {M : Type 0} (dumps_json : ErrorPayload → Text) (s : System M) (i : ℕ) (id : Text)
    (sound : IsSound dumps_json s) where
  abbrev IsKept : Pc M × ExportJobRunner M → Type 0
  IsKept next = Change dumps_json s i id next.0 next.1

  -- A step that does nothing.
  pub idle-Change : IsKept (s.pc i, s.runner)
  idle-Change = record {
    origin = λ st k job e. inl (st, e);
    kept = λ st k job e. (st, e);
    strings = λ k v e. e;
    staged = λ st k job e. sound.staged i st k job e;
    others = λ j st k job differ e. (refl, refl);
    pointed = λ k a h. sound.pointed k a h;
    named = λ a job h. sound.named a job h;
    answers = λ k job e. sound.answers i k job e;
    alive = λ e. sound.alive i e;
  }

  -- A call whose key is taken goes on, without changing anything.
  quiet-Change :
      (p : Pc M)
      → ((st : Stage M) (k : Text) (job : ExportJob M) → p ≡ owns st k job → ⊥)
      → ((st : Stage M) (k : Text) (job : ExportJob M) → s.pc i ≡ owns st k job → ⊥)
      → ((k : Text) (job : ExportJob M) → p ≡ answered k (some job) → Owner dumps_json s k job.id)
      → (p ≡ died → ⊥)
      → IsKept (p, s.runner)
  quiet-Change p none_after none_before answers alive = record {
    origin = λ st k job e. absurd (none_after st k job e);
    kept = λ st k job e. absurd (none_before st k job e);
    strings = λ k v e. e;
    staged = λ st k job e. absurd (none_after st k job e);
    others = λ j st k job differ e. (refl, refl);
    pointed = λ k a h. sound.pointed k a h;
    named = λ a job h. sound.named a job h;
    answers = answers;
    alive = alive;
  }

  known_job-Owner :
      (k : Text) (o : Option Text) (job : ExportJob M)
      → hgetall k s.runner.redis job_id_field ≡ o
      → known_job dumps_json o s.runner.jobs ≡ some job
      → Owner dumps_json s k job.id
  known_job-Owner k none job e h = absurd (ground (arith, h))
  known_job-Owner k (some []) job e h = absurd (ground (arith, h))
  known_job-Owner k (some (c ∷ rest)) job e h =
      rw (sound.named (c ∷ rest) job h) (sound.pointed k (c ∷ rest) e)

  pub refused-Change :
      (k : Text)
      → s.pc i ≡ refused k
      → IsKept (answered k (existing_job dumps_json k s.runner), s.runner)
  refused-Change k here =
      quiet-Change (answered k (existing_job dumps_json k s.runner))
        (λ st k' job e. absurd (ground (arith, e)))
        (λ st k' job e. absurd (ground (arith, sym here ∙ e)))
        (λ k' job e.
          let same : k ≡ k' = ground (arith, e) in
          let found : existing_job dumps_json k s.runner ≡ some job = ground (arith, e) in
          rw (← same) (known_job-Owner k _ job refl found))
        (λ e. absurd (ground (arith, e)))

  -- The key was free.
  taken-Change :
      (now : ℕ) (q : Submission)
      → s.pc i ≡ waiting q
      → s.runner.redis.strings (redis_key q) ≡ none
      → IsKept (
          with_claim dumps_json id now q s.runner
            (set_new (redis_key q) (codes "RUNNING") (some day) s.runner.redis none))
  unfolding hgetall
  taken-Change now q here free = record {
    origin = λ st k job e.
        let same : redis_key q ≡ k = ground (arith, e) in
        let same_job : new_job id now q ≡ job = ground (arith, e) in
        inr (record {
          free = rw (← same) free;
          locked = rw (← same) (insert-here (redis_key q) (codes "RUNNING") s.runner.redis.strings);
          id_drawn = rw (← same_job) refl;
        });
    kept = λ st k job e. absurd (ground (arith, sym here ∙ e));
    strings = λ k v e.
        insert-there (redis_key q) k (codes "RUNNING") s.runner.redis.strings
          (λ same. absurd (ground (arith, e, sym (ap s.runner.redis.strings same) ∙ free)))
        ∙ e;
    staged = λ st k job e. let same : claimed ≡ st = ground (arith, e) in rw (← same) (tt, tt);
    others = λ j st k job differ e. (refl, refl);
    pointed = λ k a h. sound.pointed k a h;
    named = λ a job h. sound.named a job h;
    answers = λ k job e. absurd (ground (arith, e));
    alive = λ e. absurd (ground (arith, e));
  }

  claim-Change :
      (now : ℕ) (q : Submission) (o : Option Text)
      → s.pc i ≡ waiting q
      → s.runner.redis.strings (redis_key q) ≡ o
      → IsKept (
          with_claim dumps_json id now q s.runner
            (set_new (redis_key q) (codes "RUNNING") (some day) s.runner.redis o))
  claim-Change now q none here e = taken-Change now q here e
  claim-Change now q (some old) here e =
      quiet-Change (refused (redis_key q)) (λ st k job h. absurd (ground (arith, h)))
        (λ st k job h. absurd (ground (arith, sym here ∙ h)))
        (λ k job h. absurd (ground (arith, h))) (λ h. absurd (ground (arith, h)))

  pub waiting-Change :
      (now : ℕ) (q : Submission) → s.pc i ≡ waiting q → IsKept (claim dumps_json id now q s.runner)
  unfolding claim
  waiting-Change now q here = claim-Change now q _ here refl
