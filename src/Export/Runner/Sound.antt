-- ===== src/Export/Runner/Sound.antt =====
-- What holds between any two steps of the submissions, and why a step keeps it.
use student_mentor_allocatio.Base.{
  ℕ, ◌≡◌, refl, ◌⊎◌, inl, inr, true, Option, none, some, ◌∷◌, ◌==◌, In, arith, Bool-cases,
}
use student_mentor_allocatio.Base.Text.{Text, codes}
use student_mentor_allocatio.Retry.{Call, gave, raised}
use student_mentor_allocatio.Export.Redis.{Dict, hgetall}
use student_mentor_allocatio.Export.Job.{
  ExportJobStatus, status_value, ErrorPayload, ExportException, payload_of, ExportJob, start,
  settle,
}
use student_mentor_allocatio.Export.Runner.{
  ExportJobRunner, Stage, claimed, recorded, published, launched, marked, running, settled,
  reported, finished, Pc, answered, owns, died, System, moved, job_id_field, status_field,
  error_field,
}

module _ {M : Type 0} where
  abbrev pub after : System M → ℕ → Text → Pc M → ExportJobRunner M → System M
  after s i id p r = record { runner = r; pc = moved i p s.pc; drawn = id ∷ s.drawn }

  pub moved-cases :
      (i j : ℕ) (p x : Pc M) (pcs : ℕ → Pc M)
      → moved i p pcs j ≡ x
      → ((i ≡ j) × (p ≡ x)) ⊎ ((i ≡ j → ⊥) × (pcs j ≡ x))
  moved-cases i j p x pcs e = elim (Bool-cases (i == j)) [
    | inl t ↦ inl (ground (arith, t), rw t at e)
    | inr f ↦ inr (λ (same : i ≡ j). absurd (ground (arith, f, same)), rw f at e)
  ]

  pub moved-here : (i : ℕ) (p : Pc M) (pcs : ℕ → Pc M) → moved i p pcs i ≡ p
  moved-here i p pcs = let e : (i == i) ≡ true = ground arith in rw e refl

  pub moved-there : (i j : ℕ) (p : Pc M) (pcs : ℕ → Pc M) → (i ≡ j → ⊥) → moved i p pcs j ≡ pcs j
  moved-there i j p pcs h = elim (Bool-cases (i == j)) [
    | inl t ↦ absurd (h (ground (arith, t)))
    | inr f ↦ rw f refl
  ]

module _ {M : Type 0} (dumps_json : ErrorPayload → Text) where
  -- What `self.jobs` holds for a job at a stage.
  abbrev pub JobAt : Stage M → ExportJob M → Option (ExportJob M) → Type 0
  JobAt claimed job current = Unit
  JobAt recorded job current = current ≡ some job
  JobAt published job current = current ≡ some job
  JobAt launched job current = current ≡ some job
  JobAt marked job current = (t : ℕ) × (current ≡ some (start t job))
  JobAt running job current = (t : ℕ) × (current ≡ some (start t job))
  JobAt (settled end) job current =
      (t : ℕ) × ((t' : ℕ) × (current ≡ some (settle end t' (start t job))))
  JobAt (reported end) job current =
      (t : ℕ) × ((t' : ℕ) × (current ≡ some (settle end t' (start t job))))
  JobAt (finished end) job current =
      (t : ℕ) × ((t' : ℕ) × (current ≡ some (settle end t' (start t job))))

  abbrev pub Shows : ExportJob M → ExportJobStatus → Dict Text → Type 0
  Shows job status fields =
      (fields job_id_field ≡ some job.id) × (fields status_field ≡ some (status_value status))

  abbrev pub ShowsEnd : ExportJob M → Call M ExportException → Dict Text → Type 0
  ShowsEnd job (gave manifest) fields = Shows job ExportJobStatus.success fields
  ShowsEnd job (raised exc) fields =
      (Shows job ExportJobStatus.failed fields)
      × (fields error_field ≡ some (dumps_json (payload_of exc)))

  -- What the hash of its key holds.
  abbrev pub HashAt : Stage M → ExportJob M → Dict Text → Type 0
  HashAt claimed job fields = Unit
  HashAt recorded job fields = Unit
  HashAt published job fields = Shows job ExportJobStatus.pending fields
  HashAt launched job fields = Shows job ExportJobStatus.pending fields
  HashAt marked job fields = Shows job ExportJobStatus.pending fields
  HashAt running job fields = Shows job ExportJobStatus.running fields
  HashAt (settled end) job fields = Shows job ExportJobStatus.running fields
  HashAt (reported end) job fields = ShowsEnd job end fields
  HashAt (finished end) job fields = ShowsEnd job end fields

  -- The submission that has the key `k` and the job `a`.
  pub record Owner (s : System M) (k a : Text) : Type 0 where
    pub i : ℕ
    pub stage : Stage M
    pub job : ExportJob M
    pub is : s.pc i ≡ owns stage k job
    pub id : job.id ≡ a

  pub record IsSound (s : System M) : Type 0 where
    pub locked :
        (i : ℕ) (st : Stage M) (k : Text) (job : ExportJob M)
        → s.pc i ≡ owns st k job
        → s.runner.redis.strings k ≡ some (codes "RUNNING")
    pub keys :
        (i j : ℕ) (st st' : Stage M) (k : Text) (job job' : ExportJob M)
        → s.pc i ≡ owns st k job
        → s.pc j ≡ owns st' k job'
        → i ≡ j
    pub ids :
        (i j : ℕ) (st st' : Stage M) (k k' : Text) (job job' : ExportJob M)
        → s.pc i ≡ owns st k job
        → s.pc j ≡ owns st' k' job'
        → job.id ≡ job'.id
        → i ≡ j
    pub drawn :
        (i : ℕ) (st : Stage M) (k : Text) (job : ExportJob M)
        → s.pc i ≡ owns st k job
        → In job.id s.drawn
    pub staged :
        (i : ℕ) (st : Stage M) (k : Text) (job : ExportJob M)
        → s.pc i ≡ owns st k job
        → JobAt st job (s.runner.jobs job.id) × HashAt st job (hgetall k s.runner.redis)
    pub pointed : (k a : Text) → hgetall k s.runner.redis job_id_field ≡ some a → Owner s k a
    pub named : (a : Text) (job : ExportJob M) → s.runner.jobs a ≡ some job → job.id ≡ a
    pub answers :
        (i : ℕ) (k : Text) (job : ExportJob M) → s.pc i ≡ answered k (some job) → Owner s k job.id
    pub alive : (i : ℕ) → s.pc i ≡ died → ⊥

  -- A key and a job that a step takes up: the key was free and the id new.
  pub record IsTaken (s : System M) (id k : Text) (job : ExportJob M) (r : ExportJobRunner M)
      : Type 0 where
    pub free : s.runner.redis.strings k ≡ none
    pub locked : r.redis.strings k ≡ some (codes "RUNNING")
    pub id_drawn : job.id ≡ id

  -- What a step of one submission may do to the others.
  pub record Change (s : System M) (i : ℕ) (id : Text) (p : Pc M) (r : ExportJobRunner M)
      : Type 0 where
    pub origin :
        (st : Stage M) (k : Text) (job : ExportJob M)
        → p ≡ owns st k job
        → ((st' : Stage M) × (s.pc i ≡ owns st' k job)) ⊎ IsTaken s id k job r
    pub kept :
        (st : Stage M) (k : Text) (job : ExportJob M)
        → s.pc i ≡ owns st k job
        → (st' : Stage M) × (p ≡ owns st' k job)
    pub strings : (k v : Text) → s.runner.redis.strings k ≡ some v → r.redis.strings k ≡ some v
    pub staged :
        (st : Stage M) (k : Text) (job : ExportJob M)
        → p ≡ owns st k job
        → JobAt st job (r.jobs job.id) × HashAt st job (hgetall k r.redis)
    pub others :
        (j : ℕ) (st : Stage M) (k : Text) (job : ExportJob M)
        → (i ≡ j → ⊥)
        → s.pc j ≡ owns st k job
        → (r.jobs job.id ≡ s.runner.jobs job.id) × (hgetall k r.redis ≡ hgetall k s.runner.redis)
    pub pointed : (k a : Text) → hgetall k r.redis job_id_field ≡ some a → Owner s k a
    pub named : (a : Text) (job : ExportJob M) → r.jobs a ≡ some job → job.id ≡ a
    pub answers : (k : Text) (job : ExportJob M) → p ≡ answered k (some job) → Owner s k job.id
    pub alive : p ≡ died → ⊥
