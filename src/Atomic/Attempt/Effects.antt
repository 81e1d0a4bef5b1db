-- ===== src/Atomic/Attempt/Effects.antt =====
-- What one attempt of `_execute_once` leaves in the database, on every branch.
use student_mentor_allocatio.Base.{
  ℕ, ◌≡◌, ◌≢◌, refl, ◌⊎◌, inl, inr, Bool, false, ◌||◌, Option, none, some, arith, Bool-cases,
  Option-cases, ltb,
}
use student_mentor_allocatio.Store.{StudentModel, MentorModel, AllocationRecord, Db, flush}
use student_mentor_allocatio.Atomic.Types.{
  PolicyVerdict, AllocationRequest, assigned, AllocationResult, Outcome, returned, Fault, Allocator,
  max_payload_bytes, strikes_query, strikes_commit, strikes_flush,
}
use student_mentor_allocatio.Atomic.Attempt.{
  fresh, decide, with_student, find_key, find_mentor, find_student, request_key, assigned_result,
  new_record, new_event, Body, exit_unit, after_conflict, persist, attempt_body, execute_once,
}

-- The outcome does not report a new allocation.
abbrev pub IsNoAssignment : Outcome → Type 0
IsNoAssignment o = (r : AllocationResult) → o ≡ returned r → r.status ≢ assigned

module _ (a : Allocator) where
  open a use {hashes, policy, sequence, utf8_size}
  open hashes use {Json}

  -- The attempt wrote `new` and its event, and says so.
  pub record Assigns (request : AllocationRequest Json) (now : ℕ) (base : Db)
      (result : Outcome × Db) : Type 0 where
    pub new : AllocationRecord
    pub key : new.idempotency_key ≡ request_key a request
    pub reported : result.0 ≡ returned (assigned_result a (request_key a request) new)
    pub written : flush new (new_event a new now) base ≡ some result.1

  -- The attempt wrote nothing, and reports no assignment.
  pub record Refrains (base : Db) (result : Outcome × Db) : Type 0 where
    pub unchanged : result.1 ≡ base
    pub reported : IsNoAssignment result.0

  -- The same of the body of the `with` block.
  record BodyAssigns (request : AllocationRequest Json) (now : ℕ) (base : Db) (body : Body)
      : Type 0 where
    new : AllocationRecord
    key : new.idempotency_key ≡ request_key a request
    reported : body.outcome ≡ returned (assigned_result a (request_key a request) new)
    written : flush new (new_event a new now) base ≡ some body.work
    committing : body.skip_commit ≡ false

  record BodyRefrains (base : Db) (body : Body) : Type 0 where
    unchanged : body.work ≡ base
    reported : IsNoAssignment body.outcome

  exit-Refrains :
      (fault : Fault) (base : Db) (body : Body)
      → BodyRefrains base body
      → Refrains base (exit_unit fault base body)
  unfolding exit_unit
  exit-Refrains fault base body h = record {
    unchanged = ground (arith, h.unchanged);
    reported = λ r e s. h.reported r (ground (arith, e)) s;
  }

  module _ (fault : Fault) (now : ℕ) (request : AllocationRequest Json) (base : Db) where
    abbrev BodySplits : Body → Type 0
    BodySplits body = BodyRefrains base body ⊎ BodyAssigns request now base body

    abbrev Splits : Outcome × Db → Type 0
    Splits result = Refrains base result ⊎ Assigns request now base result

    exit-Splits : (body : Body) → BodySplits body → Splits (exit_unit fault base body)
    exit-Splits body (inl h) = inl (exit-Refrains fault base body h)
    exit-Splits body (inr h) = elim (Bool-cases (strikes_commit fault)) [
      | inl c ↦ inl (record {
        unchanged = unfold exit_unit in ground (arith, c, h.reported, h.committing);
        reported = λ r e s. unfold exit_unit in ground (arith, c, h.reported, h.committing, e);
      })
      | inr c ↦ inr (record {
        new = h.new;
        key = h.key;
        reported = unfold exit_unit in ground (arith, c, h.reported, h.committing);
        written = unfold exit_unit in ground (arith, c, h.reported, h.committing, h.written);
      })
    ]

    conflict_refrains : (new : AllocationRecord) → IsNoAssignment (after_conflict a fault new base)
    unfolding after_conflict
    conflict_refrains new r e s = ground (arith, e, s)

    abbrev stopped : AllocationRecord → Bool
    stopped new =
        ltb max_payload_bytes (utf8_size (new_event a new now).payload_json) || strikes_flush fault

    persist_splits :
        (new : AllocationRecord)
        → new.idempotency_key ≡ request_key a request
        → BodySplits (persist a fault now new base)
    unfolding persist
    persist_splits new e = elim (Option-cases (flush new (new_event a new now) base)) [
      | inl f ↦ inl (record {
        unchanged = ground (arith, f);
        reported = λ r er s. ground (arith, f, er, s, conflict_refrains new r);
      })
      | inr (work, f) ↦ elim (Bool-cases (stopped new)) [
        | inl b ↦ inl (record {
          unchanged = ground (arith, b);
          reported = λ r er s. ground (arith, b, er, s);
        })
        | inr b ↦ inr (record {
          new = new;
          key = e;
          reported = ground (arith, b, f, e);
          written = ground (arith, b, f);
          committing = ground (arith, b, f);
        })
      ]
    ]

    module _ (dry_run : Bool) (db : Db) where
      decided_splits :
          (student : StudentModel) (mentor : MentorModel) (verdict : PolicyVerdict)
          → BodySplits (decide a fault now request dry_run db base student mentor verdict)
      decided_splits student mentor verdict = elim (Bool-cases verdict.approved) [
        | inl ok ↦ elim (Bool-cases dry_run) [
          | inl dry ↦ inl (record {
            unchanged = ground (arith, ok, dry);
            reported = λ r e s. ground (arith, ok, dry, e, s);
          })
          | inr wet ↦
              rw (ok, wet)
                (persist_splits (new_record a request student mentor verdict (sequence db)) refl)
        ]
        | inr rejected ↦ inl (record {
          unchanged = ground (arith, rejected);
          reported = λ r e s. ground (arith, rejected, e, s);
        })
      ]

      mentor_splits :
          (mentor : MentorModel)
          → BodySplits (
              with_student a fault now request dry_run db base mentor
                (find_student a request.student_id db))
      mentor_splits mentor = elim (Option-cases (find_student a request.student_id db)) [
        | inl e ↦ rw e (inl (record { unchanged = refl; reported = λ r er s. cc }))
        | inr (student, e) ↦ rw e (decided_splits student mentor (policy student mentor request))
      ]

      fresh_splits :
          (existing : Option AllocationRecord)
          → BodySplits (fresh a fault now request dry_run db base existing)
      fresh_splits (some existing) = inl (record { unchanged = refl; reported = λ r er s. cc })
      fresh_splits none = elim (Option-cases (find_mentor a request.mentor_id db)) [
        | inl e ↦ rw e (inl (record { unchanged = refl; reported = λ r er s. cc }))
        | inr (mentor, e) ↦ rw e (mentor_splits mentor)
      ]

      attempt_body_splits : BodySplits (attempt_body a fault now request dry_run db base)
      unfolding attempt_body
      attempt_body_splits = elim (Bool-cases (strikes_query fault)) [
        | inl q ↦
            inl (record { unchanged = ground (arith, q); reported = λ r e s. ground (arith, q, e) })
        | inr q ↦ rw q (fresh_splits (find_key (request_key a request) db))
      ]

  -- An attempt leaves exactly what the other sessions committed and reports no assignment, or it
  -- adds one allocation under the request's key together with its event and reports it.
  pub execute_once_effect :
      (fault : Fault) (others : Db → Db) (now : ℕ) (request : AllocationRequest Json)
      (dry_run : Bool) (db : Db)
      → let result = execute_once a fault others now request dry_run db in
        Refrains (others db) result ⊎ Assigns request now (others db) result
  unfolding execute_once
  execute_once_effect fault others now request dry_run db =
      exit-Splits fault now request (others db)
        (attempt_body a fault now request dry_run db (others db))
        (attempt_body_splits fault now request (others db) dry_run db)
