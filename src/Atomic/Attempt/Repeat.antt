-- ===== src/Atomic/Attempt/Repeat.antt =====
-- A request that is made again, or at the same time by another session.
use student_mentor_allocatio.Base.{
  ℕ, ◌≤◌, ◌≡◌, refl, sym, ◌∙◌, ap, inl, inr, Bool, true, false, none, some, List, [], ◌∷◌, arith,
  All, any, ltb,
}
use student_mentor_allocatio.Base.Text.{text_eq, text_eq_refl, text_eq→eq, codes}
use student_mentor_allocatio.Store.{
  StudentModel, MentorModel, AllocationRecord, OutboxMessageModel, Db, clashes, flush,
}
use student_mentor_allocatio.Store.Consistent.{
  flush-Flushed, find-none_append, find-none_of_false, any-of_find,
}
use student_mentor_allocatio.Atomic.Types.{
  AllocationRequest, assigned, already_assigned, AllocationResult, returned, Fault, no_fault,
  Allocator, max_payload_bytes, strikes_query, strikes_commit,
}
use student_mentor_allocatio.Atomic.Attempt.{
  find_key, find_mentor, find_student, request_key, already_assigned_result, assigned_result,
  new_record, new_event, exit_unit, after_conflict, persist, attempt_body, execute_once,
}
use student_mentor_allocatio.Atomic.Attempt.Effects.{execute_once_effect}

-- The same allocation, reported as one that was there already.
abbrev pub repeated : AllocationResult → AllocationResult
repeated result = record result {
  status = already_assigned;
  error_code = some (codes "ALREADY_ASSIGNED");
}

module _ (a : Allocator) where
  open a use {hashes, policy, sequence, utf8_size}
  open hashes use {Json}

  key-clashes :
      (new old : AllocationRecord)
      → text_eq old.idempotency_key new.idempotency_key ≡ true
      → clashes new old ≡ true
  unfolding clashes
  key-clashes new old e =
      let k = text_eq→eq old.idempotency_key new.idempotency_key e in
      let same : text_eq new.idempotency_key old.idempotency_key ≡ true =
        rw k (text_eq_refl new.idempotency_key) in
      ground (arith, same)

  clash-by_key :
      (new old : AllocationRecord)
      → clashes new old ≡ false
      → text_eq old.idempotency_key new.idempotency_key ≡ false
  clash-by_key new old h = ground (arith, h, key-clashes new old)

  no_key :
      (new : AllocationRecord) (rs : List AllocationRecord)
      → All (λ r. clashes new r ≡ false) rs
      → All (λ r. text_eq r.idempotency_key new.idempotency_key ≡ false) rs
  no_key new [] h = tt
  no_key new (r ∷ rs) h = (clash-by_key new r h.0, no_key new rs h.1)

  -- A flush leaves the new record where its key finds it.
  flush-find_key :
      (new : AllocationRecord) (event : OutboxMessageModel) (db after : Db)
      → flush new event db ≡ some after
      → find_key new.idempotency_key after ≡ some new
  flush-find_key new event db after h =
      let f = flush-Flushed new event db after h in
      rw f.allocations (
        find-none_append (λ r. text_eq r.idempotency_key new.idempotency_key) db.allocations new
          (find-none_of_false (λ r. text_eq r.idempotency_key new.idempotency_key) db.allocations
            (no_key new db.allocations f.no_clash))
          (text_eq_refl new.idempotency_key))

  -- A request whose key has an allocation is answered with it, whatever else holds, and nothing
  -- is written.
  execute_once-existing :
      (fault : Fault) (others : Db → Db) (now : ℕ) (request : AllocationRequest Json)
      (dry_run : Bool) (db : Db) (existing : AllocationRecord)
      → strikes_query fault ≡ false
      → strikes_commit fault ≡ false
      → find_key (request_key a request) db ≡ some existing
      → execute_once a fault others now request dry_run db
        ≡ (returned (already_assigned_result a (request_key a request) existing), others db)
  unfolding execute_once attempt_body exit_unit
  execute_once-existing fault others now request dry_run db existing q c h = rw (q, h, c) refl

  -- When an attempt reports a new allocation, the same request, made again on the database that it
  -- left and not struck by the database, gets the same identifiers and event back as already
  -- assigned, whether it is a dry run or not, and writes nothing.
  pub execute_once-repeat :
      (fault : Fault) (others : Db → Db) (now : ℕ) (request : AllocationRequest Json)
      (dry_run : Bool) (db : Db) (result : AllocationResult) (after : Db)
      → execute_once a fault others now request dry_run db ≡ (returned result, after)
      → result.status ≡ assigned
      → (others' : Db → Db) (now' : ℕ) (dry_run' : Bool)
      → execute_once a no_fault others' now' request dry_run' after
        ≡ (returned (repeated result), others' after)
  execute_once-repeat fault others now request dry_run db result after e s others' now' dry_run' =
      elim (execute_once_effect a fault others now request dry_run db) [
        | inl h ↦ absurd (h.reported result (ap (λ p. p.0) e) s)
        | inr h ↦
            let found : find_key (request_key a request) after ≡ some h.new = rw (sym h.key) (
              flush-find_key h.new (new_event a h.new now) (others db) after
                (h.written ∙ ap (λ p. some p.1) e)) in
            let told : returned result
                ≡ returned (assigned_result a (request_key a request) h.new) =
              sym (ap (λ p. p.0) e) ∙ h.reported in
            execute_once-existing no_fault others' now' request dry_run' after h.new refl refl found
            ∙ ap (λ r. (r, others' after)) (ground (arith, told))
      ]

  -- Another session commits an allocation under the same key after this attempt has looked for
  -- one. The attempt, of an approved pair, on a database that does not fail and with an event within
  -- the size limit, finds that allocation after its rollback, reports it as already assigned, and
  -- leaves what the other session committed.
  pub execute_once-race :
      (others : Db → Db) (now : ℕ) (request : AllocationRequest Json) (db : Db)
      (student : StudentModel) (mentor : MentorModel) (winner : AllocationRecord)
      → find_key (request_key a request) db ≡ none
      → find_mentor a request.mentor_id db ≡ some mentor
      → find_student a request.student_id db ≡ some student
      → (policy student mentor request).approved ≡ true
      → utf8_size
          (new_event a
            (new_record a request student mentor (policy student mentor request) (sequence db))
            now).payload_json
        ≤ max_payload_bytes
      → find_key (request_key a request) (others db) ≡ some winner
      → execute_once a no_fault others now request false db
        ≡ (returned (already_assigned_result a (request_key a request) winner), others db)
  unfolding execute_once attempt_body exit_unit persist after_conflict
  execute_once-race others now request db student mentor winner k m s p size w =
      let key = request_key a request in
      let new = new_record a request student mentor (policy student mentor request) (sequence db) in
      let taken : any (clashes new) (others db).allocations ≡ true =
        any-of_find (λ r. text_eq r.idempotency_key key) (clashes new) (others db).allocations
          winner (key-clashes new) w in
      let refused : flush new (new_event a new now) (others db) ≡ none =
        unfold flush in ground (arith, taken) in
      let small : ltb max_payload_bytes (utf8_size (new_event a new now).payload_json) ≡ false =
        ground (arith, size) in
      rw (k, m, s, p, small, refused, w) refl
