-- ===== src/Export/Runner/Kept.antt =====
-- Soundness after a step that changes no more than `Change` allows.
use student_mentor_allocatio.Base.{
  ℕ, ◌≡◌, sym, ◌∙◌, ap, inl, inr, some, ◌∷◌, ◌==◌, In, arith, Bool-cases,
}
use student_mentor_allocatio.Base.Text.{Text, codes}
use student_mentor_allocatio.Export.Redis.{hgetall}
use student_mentor_allocatio.Export.Job.{ErrorPayload, ExportJob}
use student_mentor_allocatio.Export.Runner.{
  ExportJobRunner, Stage, Pc, answered, owns, died, System, moved,
}
use student_mentor_allocatio.Export.Runner.Sound.{
  after, moved-cases, moved-here, moved-there, JobAt, HashAt, Owner, IsSound, IsTaken, Change,
}

module _ {M : Type 0} (dumps_json : ErrorPayload → Text) (s : System M) (i : ℕ) (id : Text)
    (p : Pc M) (r : ExportJobRunner M) (sound : IsSound dumps_json s) (fresh : In id s.drawn → ⊥)
    (change : Change dumps_json s i id p r) where
  -- An owner of the next state was one before, or has taken its key in this step.
  data Since (j : ℕ) (k : Text) (job : ExportJob M) : Type 0 where
    old : (st : Stage M) → s.pc j ≡ owns st k job → Since j k job
    taken : i ≡ j → IsTaken dumps_json s id k job r → Since j k job

  since :
      (j : ℕ) (st : Stage M) (k : Text) (job : ExportJob M)
      → moved i p s.pc j ≡ owns st k job
      → Since j k job
  since j st k job e = elim (moved-cases i j p (owns st k job) s.pc e) [
    | inl (same, q) ↦ elim (change.origin st k job q) [
      | inl (st', o) ↦ old st' (rw (← same) o)
      | inr t ↦ taken same t
    ]
    | inr (differ, q) ↦ old st q
  ]

  locked :
      (j : ℕ) (k : Text) (job : ExportJob M)
      → Since j k job
      → r.redis.strings k ≡ some (codes "RUNNING")
  locked j k job (old st e) = change.strings k (codes "RUNNING") (sound.locked j st k job e)
  locked j k job (taken same t) = t.locked

  not_free :
      (j : ℕ) (st : Stage M) (k : Text) (job job' : ExportJob M)
      → s.pc j ≡ owns st k job
      → IsTaken dumps_json s id k job' r
      → ⊥
  not_free j st k job job' e t = absurd (ground (arith, sym (sound.locked j st k job e) ∙ t.free))

  keys : (j j' : ℕ) (k : Text) (job job' : ExportJob M) → Since j k job → Since j' k job' → j ≡ j'
  keys j j' k job job' (old st e) (old st' e') = sound.keys j j' st st' k job job' e e'
  keys j j' k job job' (old st e) (taken same t) = absurd (not_free j st k job job' e t)
  keys j j' k job job' (taken same t) (old st' e') = absurd (not_free j' st' k job' job e' t)
  keys j j' k job job' (taken same t) (taken same' t') = sym same ∙ same'

  old_drawn :
      (j : ℕ) (st : Stage M) (k k' : Text) (job job' : ExportJob M)
      → s.pc j ≡ owns st k job
      → IsTaken dumps_json s id k' job' r
      → job.id ≡ job'.id
      → ⊥
  old_drawn j st k k' job job' e t same =
      fresh (rw (same ∙ t.id_drawn) at (sound.drawn j st k job e))

  ids :
      (j j' : ℕ) (k k' : Text) (job job' : ExportJob M)
      → Since j k job
      → Since j' k' job'
      → job.id ≡ job'.id
      → j ≡ j'
  ids j j' k k' job job' (old st e) (old st' e') n = sound.ids j j' st st' k k' job job' e e' n
  ids j j' k k' job job' (old st e) (taken same t) n = absurd (old_drawn j st k k' job job' e t n)
  ids j j' k k' job job' (taken same t) (old st' e') n =
      absurd (old_drawn j' st' k' k job' job e' t (sym n))
  ids j j' k k' job job' (taken same t) (taken same' t') n = sym same ∙ same'

  drawn : (j : ℕ) (k : Text) (job : ExportJob M) → Since j k job → In job.id (id ∷ s.drawn)
  drawn j k job (old st e) = inr (sound.drawn j st k job e)
  drawn j k job (taken same t) = inl t.id_drawn

  staged :
      (j : ℕ) (st : Stage M) (k : Text) (job : ExportJob M)
      → moved i p s.pc j ≡ owns st k job
      → JobAt dumps_json st job (r.jobs job.id) × HashAt dumps_json st job (hgetall k r.redis)
  staged j st k job e = elim (moved-cases i j p (owns st k job) s.pc e) [
    | inl (same, q) ↦ change.staged st k job q
    | inr (differ, q) ↦
        let (same_job, same_hash) = change.others j st k job differ q in
        rw (same_job, same_hash) (sound.staged j st k job q)
  ]

  still_pc :
      (j : ℕ) (st : Stage M) (k : Text) (job : ExportJob M)
      → s.pc j ≡ owns st k job
      → (st' : Stage M) × (moved i p s.pc j ≡ owns st' k job)
  still_pc j st k job e = elim (Bool-cases (i == j)) [
    | inl t ↦
        let same : i ≡ j = ground (arith, t) in
        let (st', q) = change.kept st k job (rw same e) in
        (st', ap (moved i p s.pc) (sym same) ∙ (moved-here i p s.pc ∙ q))
    | inr f ↦ (st, moved-there i j p s.pc (λ (same : i ≡ j). absurd (ground (arith, f, same))) ∙ e)
  ]

  -- A submission that has a key keeps it.
  pub Owner-after : (k a : Text) → Owner dumps_json s k a → Owner dumps_json (after s i id p r) k a
  Owner-after k a o =
      let (st', e) = still_pc o.i o.stage k o.job o.is in
      record { i = o.i; stage = st'; job = o.job; is = e; id = o.id }

  answers :
      (j : ℕ) (k : Text) (job : ExportJob M)
      → moved i p s.pc j ≡ answered k (some job)
      → Owner dumps_json s k job.id
  answers j k job e = elim (moved-cases i j p (answered k (some job)) s.pc e) [
    | inl (same, q) ↦ change.answers k job q
    | inr (differ, q) ↦ sound.answers j k job q
  ]

  alive : (j : ℕ) → moved i p s.pc j ≡ died → ⊥
  alive j e = elim (moved-cases i j p died s.pc e) [
    | inl (same, q) ↦ change.alive q
    | inr (differ, q) ↦ sound.alive j q
  ]

  pub after-IsSound : IsSound dumps_json (after s i id p r)
  after-IsSound = record {
    locked = λ j st k job e. locked j k job (since j st k job e);
    keys = λ j j' st st' k job job' e e'.
        keys j j' k job job' (since j st k job e) (since j' st' k job' e');
    ids = λ j j' st st' k k' job job' e e'.
        ids j j' k k' job job' (since j st k job e) (since j' st' k' job' e');
    drawn = λ j st k job e. drawn j k job (since j st k job e);
    staged = staged;
    pointed = λ k a h. Owner-after k a (change.pointed k a h);
    named = change.named;
    answers = λ j k job e. Owner-after k job.id (answers j k job e);
    alive = alive;
  }
