-- ===== src/Export/Runner/Stages.antt =====
-- What a step of a submission that has its key may change.
use student_mentor_allocatio.Base.{
  ℕ, ◌≡◌, refl, sym, ◌∙◌, ap, ◌⊎◌, inl, inr, some, arith, Bool-cases,
}
use student_mentor_allocatio.Base.Text.{Text, text_eq, text_eq→eq, text_eq_refl}
use student_mentor_allocatio.Export.Redis.{hgetall}
use student_mentor_allocatio.Export.Job.{ErrorPayload, ExportJob}
use student_mentor_allocatio.Export.Runner.{
  ExportJobRunner, Stage, Pc, answered, owns, died, System, job_id_field,
}
use student_mentor_allocatio.Export.Runner.Sound.{JobAt, HashAt, Owner, IsSound, Change}
use mathlib.Core.Path.{subst}

module _ {M : Type 0} (dumps_json : ErrorPayload → Text) (s : System M) (i : ℕ) (id : Text)
    (sound : IsSound dumps_json s) where
  -- What is so of a submission at a place, whichever it is.
  abbrev Staged : Pc M → ExportJobRunner M → Type 0
  Staged (owns st k job) r =
      JobAt dumps_json st job (r.jobs job.id) × HashAt dumps_json st job (hgetall k r.redis)
  Staged _ r = Unit

  abbrev Had : Pc M → Type 0
  Had (owns st k job) = (st' : Stage M) × (s.pc i ≡ owns st' k job)
  Had _ = Unit

  abbrev Has : Pc M → Pc M → Type 0
  Has p (owns st k job) = (st' : Stage M) × (p ≡ owns st' k job)
  Has p _ = Unit

  abbrev IsNoAnswer : Pc M → Type 0
  IsNoAnswer (answered k a) = ⊥
  IsNoAnswer died = ⊥
  IsNoAnswer _ = Unit

  -- What a step at a key may change.
  pub record IsLocal (k : Text) (job : ExportJob M) (st : Stage M) (r : ExportJobRunner M)
      : Type 0 where
    pub strings : r.redis.strings ≡ s.runner.redis.strings
    pub jobs_else : (a : Text) → (job.id ≡ a → ⊥) → r.jobs a ≡ s.runner.jobs a
    pub hash_else : (k' : Text) → (k ≡ k' → ⊥) → hgetall k' r.redis ≡ hgetall k' s.runner.redis
    pub staged :
        JobAt dumps_json st job (r.jobs job.id) × HashAt dumps_json st job (hgetall k r.redis)
    pub points :
        (a : Text)
        → hgetall k r.redis job_id_field ≡ some a
        → (hgetall k s.runner.redis job_id_field ≡ some a) ⊎ (job.id ≡ a)
    pub named : (found : ExportJob M) → r.jobs job.id ≡ some found → found.id ≡ job.id

  module _ (k : Text) (job : ExportJob M) (st : Stage M) (here : s.pc i ≡ owns st k job) where
    pointed :
        (st' : Stage M) (r : ExportJobRunner M) (k' a : Text)
        → IsLocal k job st' r
        → hgetall k' r.redis job_id_field ≡ some a
        → Owner dumps_json s k' a
    pointed st' r k' a l h = elim (Bool-cases (text_eq k k')) [
      | inl t ↦
          let same = text_eq→eq k k' t in
          elim (l.points a (rw same h)) [
            | inl e ↦ sound.pointed k' a (rw (← same) e)
            | inr e ↦ record { i = i; stage = st; job = job; is = rw (← same) here; id = e }
          ]
      | inr f ↦
          let differ : k ≡ k' → ⊥ = λ (e : k ≡ k'). absurd (ground (arith, f, e, text_eq_refl k)) in
          sound.pointed k' a (rw (← l.hash_else k' differ) h)
    ]

    named :
        (st' : Stage M) (r : ExportJobRunner M) (a : Text) (found : ExportJob M)
        → IsLocal k job st' r
        → r.jobs a ≡ some found
        → found.id ≡ a
    named st' r a found l h = elim (Bool-cases (text_eq job.id a)) [
      | inl t ↦ let same = text_eq→eq job.id a t in l.named found (ap r.jobs same ∙ h) ∙ same
      | inr f ↦
          let differ : job.id ≡ a → ⊥ =
            λ (e : job.id ≡ a). absurd (ground (arith, f, e, text_eq_refl a)) in
          sound.named a found (sym (l.jobs_else a differ) ∙ h)
    ]

    -- A step at its own key changes nothing of the other submissions.
    pub local-Change :
        (st' : Stage M) (r : ExportJobRunner M)
        → IsLocal k job st' r
        → Change dumps_json s i id (owns st' k job) r
    local-Change st' r l =
        let had : Had (owns st' k job) = (st, here) in
        let has : Has (owns st' k job) (owns st k job) = (st', refl) in
        let fresh : IsNoAnswer (owns st' k job) = tt in
        record {
          origin = λ st₁ k₁ job₁ e. inl (subst Had e had);
          kept = λ st₁ k₁ job₁ e. subst (Has (owns st' k job)) (sym here ∙ e) has;
          strings = λ k₁ v e. rw l.strings e;
          staged = λ st₁ k₁ job₁ e. subst (λ q. Staged q r) e l.staged;
          others = λ j st₁ k₁ job₁ differ e. (
            l.jobs_else job₁.id (λ same. differ (sound.ids i j st st₁ k k₁ job job₁ here e same)),
            l.hash_else k₁
                (λ same. differ (sound.keys i j st st₁ k₁ job job₁ (rw (← same) here) e)),
          );
          pointed = λ k' a h. pointed st' r k' a l h;
          named = λ a found h. named st' r a found l h;
          answers = λ k₁ job₁ e. absurd (subst IsNoAnswer e fresh);
          alive = λ e. subst IsNoAnswer e fresh;
        }
