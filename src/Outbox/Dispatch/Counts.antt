-- ===== src/Outbox/Dispatch/Counts.antt =====
-- What `dispatch_once` returns, and when it returns nothing.
use student_mentor_allocatio.Base.{
  ℕ, ◌+◌, ◌≤◌, ◌≡◌, refl, inl, inr, Bool, true, false, ◌&&◌, ◌||◌, Option, none, some, List, [],
  ◌∷◌, arith, Bool-cases, any, length, length-append, length-take,
}
use student_mentor_allocatio.Base.Text.{Text}
use student_mentor_allocatio.Store.{OutboxMessageModel}
use student_mentor_allocatio.Outbox.Dispatch.{
  Decoded, invalid, mapping, other, Dispatcher, Batch, list_due_for_update, attempt_publish,
  sent_count, sent_ids, read_key, dispatch_message, dispatch_all, dispatch_once,
}

abbrev pub is_other : Decoded → Bool
is_other other = true
is_other _ = false

module _ (d : Dispatcher) where
  -- What holds of the counts after `n` messages.
  record Counted (n : ℕ) (batch : Batch) : Type 0 where
    dispatched : batch.dispatched ≡ length batch.published
    notified : length batch.notified ≡ n

  sent_lem : (m : OutboxMessageModel) (r : Option Text) → length (sent_ids d m r) ≡ sent_count d r
  sent_lem m none = refl
  sent_lem m (some exc) = refl

  message-Counted :
      (n k : ℕ) (m : OutboxMessageModel) (batch : Batch)
      → Counted k batch
      → Counted (k + 1) (dispatch_message d n m batch)
  unfolding dispatch_message
  message-Counted n k m batch h =
      let r = attempt_publish d n m in
      record {
        dispatched = rw length-append (omega (arith, h.dispatched, sent_lem m r));
        notified = rw length-append (omega (arith, h.notified));
      }

  read_key-Counted :
      (decoded : Decoded) (k : ℕ) (batch : Batch) (next : Bool × Batch)
      → (next.0 ≡ true → Counted k next.1)
      → (read_key d decoded batch next).0 ≡ true
      → Counted k (read_key d decoded batch next).1
  read_key-Counted (invalid exc) k batch next h e = h e
  read_key-Counted mapping k batch next h e = h e
  read_key-Counted other k batch next h e = absurd (ground (arith, e))

  all-Counted :
      (n k last : ℕ) (ms : List OutboxMessageModel) (batch : Batch)
      → last ≡ k + length ms
      → Counted k batch
      → (dispatch_all d n ms batch).0 ≡ true
      → Counted last (dispatch_all d n ms batch).1
  unfolding dispatch_all
  all-Counted n k last [] batch l h e = let here : last ≡ k = omega arith in rw here h
  all-Counted n k last (m ∷ ms) batch l h e =
      read_key-Counted (d.loads m.payload_json) last batch
        (dispatch_all d (n + 1) ms (dispatch_message d n m batch))
        (all-Counted (n + 1) (k + 1) last ms (dispatch_message d n m batch) (omega arith)
          (message-Counted n k m batch h))
        e

  length-due : (rows : List OutboxMessageModel) → length (list_due_for_update d rows) ≤ d.batch_size
  unfolding list_due_for_update
  length-due rows = rw length-take (omega arith)

  -- When `dispatch_once` returns a number, it is the number of events that the publisher accepted,
  -- every selected message was reported to the status hook once, and those were at most
  -- `batch_size`.
  pub dispatch_once_count :
      (commits : Bool) (rows : List OutboxMessageModel) (k : ℕ)
      → (dispatch_once d commits rows).0 ≡ some k
      → let batch = (dispatch_once d commits rows).2 in
        (k ≡ length batch.published)
        × (length batch.notified ≡ length (list_due_for_update d rows))
        × (length batch.notified ≤ d.batch_size)
  unfolding dispatch_once
  dispatch_once_count commits rows k h =
      let start : Batch = record { rows = rows; dispatched = 0; published = []; notified = [] } in
      let ms = list_due_for_update d rows in
      let size : length ms ≤ d.batch_size = length-due rows in
      elim (Bool-cases ((dispatch_all d 0 ms start).0 && commits)) [
        | inl e ↦
            let c =
              all-Counted 0 0 (length ms) ms start (omega arith)
                (record { dispatched = refl; notified = refl }) (ground (arith, e)) in
            (
              ground (arith, e, h, c.dispatched),
              rw e c.notified,
              rw e (omega (arith, c.notified, size)),
            )
        | inr e ↦ absurd (ground (arith, e, h))
      ]

  read_key-poison :
      (decoded : Decoded) (batch : Batch) (next : Bool × Batch) (rest : Bool)
      → (rest ≡ true → next.0 ≡ false)
      → is_other decoded || rest ≡ true
      → (read_key d decoded batch next).0 ≡ false
  read_key-poison (invalid exc) batch next rest f h = f (ground (arith, h))
  read_key-poison mapping batch next rest f h = f (ground (arith, h))
  read_key-poison other batch next rest f h = refl

  all-poison :
      (n : ℕ) (ms : List OutboxMessageModel) (batch : Batch)
      → any (λ m. is_other (d.loads m.payload_json)) ms ≡ true
      → (dispatch_all d n ms batch).0 ≡ false
  unfolding dispatch_all
  all-poison n [] batch h = absurd (ground (arith, h))
  all-poison n (m ∷ ms) batch h =
      read_key-poison (d.loads m.payload_json) batch
        (dispatch_all d (n + 1) ms (dispatch_message d n m batch))
        (any (λ o. is_other (d.loads o.payload_json)) ms)
        (all-poison (n + 1) ms (dispatch_message d n m batch)) h

  -- One selected message whose payload is JSON but not a mapping keeps `dispatch_once` from
  -- returning, and the whole batch from being recorded, even where the publisher accepted events.
  pub dispatch_once-other :
      (commits : Bool) (rows : List OutboxMessageModel)
      → any (λ m. is_other (d.loads m.payload_json)) (list_due_for_update d rows) ≡ true
      → ((dispatch_once d commits rows).0 ≡ none) × ((dispatch_once d commits rows).1 ≡ rows)
  unfolding dispatch_once
  dispatch_once-other commits rows h =
      let start : Batch = record { rows = rows; dispatched = 0; published = []; notified = [] } in
      let stops = all-poison 0 (list_due_for_update d rows) start h in
      (rw stops refl, rw stops refl)
