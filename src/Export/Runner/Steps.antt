-- ===== src/Export/Runner/Steps.antt =====
-- The steps of a submission that has its key, as `Change`s.
use student_mentor_allocatio.Base.{
  ℕ, ◌≡◌, refl, sym, ◌∙◌, ◌⊎◌, inl, inr, Option, none, some, List, [], ◌∷◌, arith,
}
use student_mentor_allocatio.Base.Text.{Text, text_eq}
use student_mentor_allocatio.Retry.{Call, gave, raised}
use student_mentor_allocatio.Export.Redis.{
  insert, insert-here, insert-there, insert_all, hgetall, hset, expire, hgetall-hset_here,
  hgetall-hset_there, expire_same,
}
use student_mentor_allocatio.Export.Job.{
  ExportJobStatus, status_value, ErrorPayload, ExportException, ExportJob, start, settle,
}
use student_mentor_allocatio.Export.Runner.{
  ExportJobRunner, Stage, claimed, recorded, published, launched, marked, running, settled,
  reported, finished, Pc, owns, System, job_id_field, status_field, update_job, write, final_fields,
  day,
}
use student_mentor_allocatio.Export.Runner.Sound.{JobAt, HashAt, IsSound, Change}
use student_mentor_allocatio.Export.Runner.Stages.{local-Change}

module _ {M : Type 0} (dumps_json : ErrorPayload → Text) (s : System M) (i : ℕ) (id : Text)
    (sound : IsSound dumps_json s) where
  abbrev pub IsKept : Pc M × ExportJobRunner M → Type 0
  IsKept next = Change dumps_json s i id next.0 next.1

  module _ (k : Text) (job : ExportJob M) (st : Stage M) (here : s.pc i ≡ owns st k job) where
    -- `self.jobs[job.id] = v`
    insert-Change :
        (st' : Stage M) (v : ExportJob M)
        → v.id ≡ job.id
        → JobAt dumps_json st' job (some v)
        → HashAt dumps_json st' job (hgetall k s.runner.redis)
        → IsKept (owns st' k job, record s.runner { jobs = insert job.id v s.runner.jobs })
    insert-Change st' v name j h =
        local-Change dumps_json s i id sound k job st here st' _ (record {
          strings = refl;
          jobs_else = λ a differ. insert-there job.id a v s.runner.jobs differ;
          hash_else = λ k' differ. refl;
          staged = (rw (insert-here job.id v s.runner.jobs) j, h);
          points = λ a e. inl e;
          named = λ found e.
              let same : v ≡ found = ground (arith, sym (insert-here job.id v s.runner.jobs) ∙ e) in
              rw (← same) name;
        })

    update-Change :
        (st' : Stage M) (change : ExportJob M → ExportJob M) (found : ExportJob M)
        (o : Option (ExportJob M))
        → o ≡ some found
        → (change found).id ≡ job.id
        → JobAt dumps_json st' job (some (change found))
        → HashAt dumps_json st' job (hgetall k s.runner.redis)
        → IsKept (update_job dumps_json st' k job change s.runner o)
    update-Change st' change found none e name j h = absurd (ground (arith, e))
    update-Change st' change found (some old) e name j h =
        let same : found ≡ old = ground (arith, e) in
        insert-Change st' (change old) (rw same at name) (rw same at j) h

    -- `self.redis.hset(key, mapping)`
    write-Change :
        (st' : Stage M) (mapping : List (Text × Text))
        → JobAt dumps_json st' job (s.runner.jobs job.id)
        → HashAt dumps_json st' job (insert_all mapping (hgetall k s.runner.redis))
        → ((a : Text)
            → insert_all mapping (hgetall k s.runner.redis) job_id_field ≡ some a
            → (hgetall k s.runner.redis job_id_field ≡ some a) ⊎ (job.id ≡ a))
        → IsKept (write dumps_json st' k job mapping s.runner)
    write-Change st' mapping j h points =
        let here_hash = hgetall-hset_here k mapping s.runner.redis in
        local-Change dumps_json s i id sound k job st here st' _ (record {
          strings = unfold hset in refl;
          jobs_else = λ a differ. refl;
          hash_else = λ k' differ. hgetall-hset_there k k' mapping s.runner.redis differ;
          staged = (j, rw here_hash h);
          points = λ a e. points a (rw here_hash at e);
          named = λ found e. sound.named job.id found e;
        })

    -- `self.redis.expire(key, 86_400)`
    expire-Change :
        (st' : Stage M)
        → JobAt dumps_json st' job (s.runner.jobs job.id)
        → HashAt dumps_json st' job (hgetall k s.runner.redis)
        → IsKept (owns st' k job, record s.runner { redis = expire k day s.runner.redis })
    unfolding hgetall
    expire-Change st' j h =
        let (strings, hashes) = expire_same k day s.runner.redis in
        local-Change dumps_json s i id sound k job st here st' _ (record {
          strings = strings;
          jobs_else = λ a differ. refl;
          hash_else = λ k' differ. rw hashes refl;
          staged = (j, rw hashes h);
          points = λ a e. inl (rw hashes at e);
          named = λ found e. sound.named job.id found e;
        })

    pub claimed-Change :
        st ≡ claimed
        → IsKept (owns recorded k job, record s.runner { jobs = insert job.id job s.runner.jobs })
    claimed-Change e = insert-Change recorded job refl refl tt

    pub recorded-Change :
        st ≡ recorded
        → IsKept (
            write dumps_json published k job
              ((job_id_field, job.id) ∷ (status_field, status_value ExportJobStatus.pending) ∷ [])
              s.runner)
    unfolding text_eq
    recorded-Change e =
        write-Change published _ (rw e at ((sound.staged i st k job here).0)) (refl, refl)
          (λ a h. inr (ground (arith, h)))

    pub published-Change :
        st ≡ published
        → IsKept (owns launched k job, record s.runner { redis = expire k day s.runner.redis })
    published-Change e =
        let now = sound.staged i st k job here in
        expire-Change launched (rw e at (now.0)) (rw e at (now.1))

    pub launched-Change :
        (now : ℕ)
        → st ≡ launched
        → IsKept (update_job dumps_json marked k job (start now) s.runner (s.runner.jobs job.id))
    launched-Change now e =
        let at_stage = sound.staged i st k job here in
        update-Change marked (start now) job _ (rw e at (at_stage.0)) refl (now, refl)
          (rw e at (at_stage.1))

    pub marked-Change :
        st ≡ marked
        → IsKept (
            write dumps_json running k job
              ((status_field, status_value ExportJobStatus.running) ∷ [])
              s.runner)
    unfolding text_eq
    marked-Change e =
        let at_stage = sound.staged i st k job here in
        let hash : HashAt dumps_json marked job (hgetall k s.runner.redis) = rw e at (at_stage.1) in
        write-Change running _ (rw e at (at_stage.0)) (hash.0, refl) (λ a h. inl h)

    pub running-Change :
        (now : ℕ) (end : Call M ExportException)
        → st ≡ running
        → IsKept (
            update_job dumps_json
              (settled end)
              k
              job
              (settle end now)
              s.runner
              (s.runner.jobs job.id))
    running-Change now (gave manifest) e =
        let at_stage = sound.staged i st k job here in
        let held : JobAt dumps_json running job (s.runner.jobs job.id) = rw e at (at_stage.0) in
        update-Change (settled (gave manifest)) (settle (gave manifest) now) (start held.0 job) _
          held.1 refl (held.0, (now, refl)) (rw e at (at_stage.1))
    running-Change now (raised exc) e =
        let at_stage = sound.staged i st k job here in
        let held : JobAt dumps_json running job (s.runner.jobs job.id) = rw e at (at_stage.0) in
        update-Change (settled (raised exc)) (settle (raised exc) now) (start held.0 job) _ held.1
          refl (held.0, (now, refl)) (rw e at (at_stage.1))

    pub settled-Change :
        (end : Call M ExportException)
        → st ≡ settled end
        → IsKept (write dumps_json (reported end) k job (final_fields dumps_json end) s.runner)
    unfolding text_eq
    settled-Change (gave manifest) e =
        let at_stage = sound.staged i st k job here in
        let hash : HashAt dumps_json (settled (gave manifest)) job (hgetall k s.runner.redis) =
          rw e at (at_stage.1) in
        write-Change (reported (gave manifest)) _ (rw e at (at_stage.0)) (hash.0, refl)
          (λ a h. inl h)
    settled-Change (raised exc) e =
        let at_stage = sound.staged i st k job here in
        let hash : HashAt dumps_json (settled (raised exc)) job (hgetall k s.runner.redis) =
          rw e at (at_stage.1) in
        write-Change (reported (raised exc)) _ (rw e at (at_stage.0)) ((hash.0, refl), refl)
          (λ a h. inl h)

    pub reported-Change :
        (end : Call M ExportException)
        → st ≡ reported end
        → IsKept
            (owns (finished end) k job, record s.runner { redis = expire k day s.runner.redis })
    reported-Change end e =
        let at_stage = sound.staged i st k job here in
        expire-Change (finished end) (rw e at (at_stage.0)) (rw e at (at_stage.1))
