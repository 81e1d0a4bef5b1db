-- ===== src/Export/Runner.antt =====
-- src/sma/phase6_import_to_sabt/job_runner.py, `ExportJobRunner`: `submit` and `_run_job`, between any two
-- of whose steps the other threads may run. A call of `submit` and the thread that it starts are one
-- sequence of steps (Pc), since `submit` only returns after the start. The two reads of a refused call
-- are one step; the store does not fail; logs and metrics are left out.
pub mod Sound
pub mod Kept
pub mod Stages
pub mod Steps
pub mod Claims
pub mod Reached
pub mod Ends
pub mod Runs
pub mod Settled
use student_mentor_allocatio.Base.{
  ℕ, ◌≡◌, Bool, true, false, Option, none, some, List, [], ◌∷◌, ◌++◌, ◌==◌, In, if◌then◌else◌,
}
use student_mentor_allocatio.Base.Text.{Text, codes}
use student_mentor_allocatio.Retry.{Call, gave, raised}
use student_mentor_allocatio.Export.Redis.{
  Dict, empty, insert, DeterministicRedis, flushdb, setnx, hgetall, hset, expire,
}
use student_mentor_allocatio.Export.Job.{
  ExportJobStatus, status_value, ErrorPayload, ExportException, payload_of, Submission, ExportJob,
  new_job, start, settle,
}

-- `f"phase6:exports:{namespace}:{idempotency_key}"`
abbrev pub redis_key : Submission → Text
redis_key q = codes "phase6:exports:" ++ (q.namespace ++ (codes ":" ++ q.idempotency_key))

abbrev pub day : ℕ
day = 86_400

abbrev pub job_id_field : Text
job_id_field = codes "job_id"

abbrev pub status_field : Text
status_field = codes "status"

abbrev pub error_field : Text
error_field = codes "error"

module _ (M : Type 0) where
  pub record ExportJobRunner : Type 0 where
    pub redis : DeterministicRedis
    pub jobs : Dict (ExportJob M)

  -- What a job's submission has done: the last step of `submit` or of `_run_job` that is over.
  pub data Stage : Type 0 where
    claimed : Stage
    recorded : Stage
    published : Stage
    launched : Stage
    marked : Stage
    running : Stage
    settled : Call M ExportException → Stage
    reported : Call M ExportException → Stage
    finished : Call M ExportException → Stage

  -- Where a call of `submit` and its thread are. `answered` is the end of a call whose key was taken,
  -- with a job or the ValueError; `died` is a KeyError in the thread.
  pub data Pc : Type 0 where
    waiting : Submission → Pc
    refused : Text → Pc
    answered : Text → Option (ExportJob M) → Pc
    owns : Stage → Text → ExportJob M → Pc
    died : Pc

  -- All submissions, with the ids that have been drawn.
  pub record System : Type 0 where
    pub runner : ExportJobRunner
    pub pc : ℕ → Pc
    pub drawn : List Text

module _ {M : Type 0} where
  abbrev pub get_job : Text → ExportJobRunner M → Option (ExportJob M)
  get_job id r = r.jobs id

  abbrev pub moved : ℕ → Pc M → (ℕ → Pc M) → ℕ → Pc M
  moved i p pcs j = if i == j then p else pcs j

  abbrev pub initial : (ℕ → Submission) → System M
  initial submissions = record {
    runner = record { redis = flushdb; jobs = empty };
    pc = λ i. waiting (submissions i);
    drawn = [];
  }

module _ {M : Type 0} (dumps_json : ErrorPayload → Text) where
  -- `existing_id and existing_id in self.jobs`
  abbrev pub known_job : Option Text → Dict (ExportJob M) → Option (ExportJob M)
  known_job none jobs = none
  known_job (some []) jobs = none
  known_job (some (c ∷ s)) jobs = jobs (c ∷ s)

  abbrev pub existing_job : Text → ExportJobRunner M → Option (ExportJob M)
  existing_job key r = known_job (hgetall key r.redis job_id_field) r.jobs

  abbrev pub with_claim :
      Text
      → ℕ
      → Submission
      → ExportJobRunner M
      → Bool × DeterministicRedis
      → Pc M × ExportJobRunner M
  with_claim id now q r (true, redis) =
      (owns claimed (redis_key q) (new_job id now q), record r { redis = redis })
  with_claim id now q r (false, redis) = (refused (redis_key q), record r { redis = redis })

  unfoldable pub claim : Text → ℕ → Submission → ExportJobRunner M → Pc M × ExportJobRunner M
  unfolding setnx
  claim id now q r =
      with_claim id now q r (setnx (redis_key q) (codes "RUNNING") (some day) r.redis)

  -- `_update_job`, and where the thread goes on.
  abbrev pub update_job :
      Stage M
      → Text
      → ExportJob M
      → (ExportJob M → ExportJob M)
      → ExportJobRunner M
      → Option (ExportJob M)
      → Pc M × ExportJobRunner M
  update_job next key job change r none = (died, r)
  update_job next key job change r (some found) =
      (owns next key job, record r { jobs = insert job.id (change found) r.jobs })

  abbrev pub write :
      Stage M
      → Text
      → ExportJob M
      → List (Text × Text)
      → ExportJobRunner M
      → Pc M × ExportJobRunner M
  write next key job mapping r = (owns next key job, record r { redis = hset key mapping r.redis })

  -- The last `hset`, in the branch for the end of the attempts.
  abbrev pub final_fields : Call M ExportException → List (Text × Text)
  final_fields (gave manifest) = (status_field, status_value ExportJobStatus.success) ∷ []
  final_fields (raised exc) =
      (status_field, status_value ExportJobStatus.failed)
      ∷ (error_field, dumps_json (payload_of exc))
      ∷ []

  -- The next step of a submission: with the id that it would draw, the time that the clock shows and
  -- the end that the attempts of its job would come to.
  unfoldable pub act :
      Text → ℕ → Call M ExportException → Pc M → ExportJobRunner M → Pc M × ExportJobRunner M
  unfolding claim hset expire
  act id now end (waiting q) r = claim id now q r
  act id now end (refused key) r = (answered key (existing_job key r), r)
  act id now end (answered key answer) r = (answered key answer, r)
  act id now end (owns claimed key job) r =
      (owns recorded key job, record r { jobs = insert job.id job r.jobs })
  act id now end (owns recorded key job) r =
      write published key job
        ((job_id_field, job.id) ∷ (status_field, status_value ExportJobStatus.pending) ∷ []) r
  act id now end (owns published key job) r =
      (owns launched key job, record r { redis = expire key day r.redis })
  act id now end (owns launched key job) r = update_job marked key job (start now) r (r.jobs job.id)
  act id now end (owns marked key job) r =
      write running key job ((status_field, status_value ExportJobStatus.running) ∷ []) r
  act id now end (owns running key job) r =
      update_job (settled end) key job (settle end now) r (r.jobs job.id)
  act id now end (owns (settled ended) key job) r =
      write (reported ended) key job (final_fields ended) r
  act id now end (owns (reported ended) key job) r =
      (owns (finished ended) key job, record r { redis = expire key day r.redis })
  act id now end (owns (finished ended) key job) r = (owns (finished ended) key job, r)
  act id now end died r = (died, r)

  unfoldable pub turn : ℕ → Text → ℕ → Call M ExportException → System M → System M
  unfolding act
  turn i id now end s =
      let next = act id now end (s.pc i) s.runner in
      record { runner = next.1; pc = moved i next.0 s.pc; drawn = id ∷ s.drawn }

  -- What the submissions come to, in any order; an id that is drawn has not been drawn before.
  pub data Reach (submissions : ℕ → Submission) : System M → Type 0 where
    begin : Reach submissions (initial {M = M} submissions)
    then_turn :
        (s : System M) (i : ℕ) (id : Text) (now : ℕ) (end : Call M ExportException)
        → Reach submissions s
        → (In id s.drawn → ⊥)
        → Reach submissions (turn i id now end s)
