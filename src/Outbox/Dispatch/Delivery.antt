-- ===== src/Outbox/Dispatch/Delivery.antt =====
-- What one call of `dispatch_once` does to the rows of the outbox.
use student_mentor_allocatio.Base.{
  ℕ, zero, suc, ◌+◌, ◌≡◌, refl, sym, ◌∙◌, ap, inl, inr, Bool, true, false, not, ◌&&◌, none, some,
  List, [], ◌∷◌, arith, Bool-cases, Option-cases, All, All-In, All-of_In, In, keep, take, leb,
}
use student_mentor_allocatio.Base.Text.{Text, text_eq, text_eq→eq, text_eq_refl}
use student_mentor_allocatio.Base.Sort.{sort_by, All-sort_by}
use student_mentor_allocatio.Store.{OutboxMessageModel, same_event}
use student_mentor_allocatio.Store.Consistent.{NoClash}
use student_mentor_allocatio.Outbox.Dispatch.{
  Decoded, invalid, mapping, other, Dispatcher, schedule_next, mark_sent, Batch, store, is_due,
  list_due_for_update, handle, attempt_publish, read_key, dispatch_message, dispatch_all,
  dispatch_once,
}

module _ (d : Dispatcher) where
  -- How a row can come out of a batch.
  pub data Moved (old : OutboxMessageModel) : OutboxMessageModel → Type 0 where
    kept : Moved old old
    sent :
        (n : ℕ)
        → is_due d old ≡ true
        → d.locked old ≡ false
        → attempt_publish d n old ≡ none
        → Moved old (mark_sent (d.current_wall n) old)
    rescheduled :
        (n : ℕ) (exc : Text)
        → is_due d old ≡ true
        → d.locked old ≡ false
        → attempt_publish d n old ≡ some exc
        → Moved old (schedule_next d.backoff (d.clock n) exc old)

  -- The rows of two lists in step.
  abbrev pub AllMoved : List OutboxMessageModel → List OutboxMessageModel → Type 0
  AllMoved [] [] = Unit
  AllMoved [] (new ∷ news) = ⊥
  AllMoved (old ∷ olds) [] = ⊥
  AllMoved (old ∷ olds) (new ∷ news) = Moved old new × AllMoved olds news

  abbrev Selected : List OutboxMessageModel → OutboxMessageModel → Type 0
  Selected rows m = In m rows × (is_due d m ≡ true) × (d.locked m ≡ false)

  handled_Moved :
      (n : ℕ) (m : OutboxMessageModel)
      → is_due d m ≡ true
      → d.locked m ≡ false
      → Moved m (handle d n m (attempt_publish d n m))
  unfolding handle
  handled_Moved n m due free = elim (Option-cases (attempt_publish d n m)) [
    | inl e ↦ rw e (sent n due free e)
    | inr (exc, e) ↦ rw e (rescheduled n exc due free e)
  ]

  keep-true :
      (test : OutboxMessageModel → Bool) (m : OutboxMessageModel) (ms : List OutboxMessageModel)
      → test m ≡ true
      → keep test (m ∷ ms) ≡ m ∷ keep test ms
  keep-true test m ms e = ground (arith, e)

  keep-false :
      (test : OutboxMessageModel → Bool) (m : OutboxMessageModel) (ms : List OutboxMessageModel)
      → test m ≡ false
      → keep test (m ∷ ms) ≡ keep test ms
  keep-false test m ms e = ground (arith, e)

  keep-All :
      (P Q : OutboxMessageModel → Type 0) (test : OutboxMessageModel → Bool)
      (ms : List OutboxMessageModel)
      → ((m : OutboxMessageModel) → P m → test m ≡ true → Q m)
      → All P ms
      → All Q (keep test ms)
  keep-All P Q test [] f h = tt
  keep-All P Q test (m ∷ ms) f h = elim (Bool-cases (test m)) [
    | inl e ↦ rw (keep-true test m ms e) (f m h.0 e, keep-All P Q test ms f h.1)
    | inr e ↦ rw (keep-false test m ms e) (keep-All P Q test ms f h.1)
  ]

  take-All :
      (P : OutboxMessageModel → Type 0) (n : ℕ) (ms : List OutboxMessageModel)
      → All P ms
      → All P (take n ms)
  take-All P zero ms h = tt
  take-All P (suc n) [] h = tt
  take-All P (suc n) (m ∷ ms) h = (h.0, take-All P n ms h.1)

  -- The rows that the query selects are rows of the table, due and not locked.
  due-Selected : (rows : List OutboxMessageModel) → All (Selected rows) (list_due_for_update d rows)
  unfolding list_due_for_update
  due-Selected rows =
      let le = λ (a b : OutboxMessageModel). leb a.available_at b.available_at in
      let Due = λ (m : OutboxMessageModel). In m rows × (is_due d m ≡ true) in
      take-All (Selected rows) d.batch_size
        (keep (λ m. not (d.locked m)) (sort_by le (keep (is_due d) rows)))
        (keep-All Due (Selected rows) (λ m. not (d.locked m)) (sort_by le (keep (is_due d) rows))
          (λ m h e. (h.0, h.1, ground (arith, e)))
          (All-sort_by Due le (keep (is_due d) rows) (
            keep-All (λ m. In m rows) Due (is_due d) rows (λ m i e. (i, e))
              (All-of_In (λ m. In m rows) rows (λ m i. i)))))

  no_other :
      (m first : OutboxMessageModel) (os : List OutboxMessageModel)
      → m ≡ first
      → All (λ o. same_event o first ≡ false) os
      → All (λ o. text_eq m.event_id o.event_id ≡ true → m ≡ o) os
  no_other m first [] e h = tt
  no_other m first (o ∷ os) e h = (
    λ t.
        let ids : first.event_id ≡ o.event_id =
          sym (ap (λ z. z.event_id) e) ∙ text_eq→eq m.event_id o.event_id t in
        let back : same_event o first ≡ true = rw ids (text_eq_refl o.event_id) in
        absurd (ground (arith, back, h.0)),
    no_other m first os e h.1,
  )

  -- Under unique event ids, a row with the id of `m` is `m`.
  same_id :
      (m : OutboxMessageModel) (rows : List OutboxMessageModel)
      → NoClash same_event rows
      → In m rows
      → All (λ o. text_eq m.event_id o.event_id ≡ true → m ≡ o) rows
  same_id m [] u i = absurd i
  same_id m (o ∷ os) u (inl e) = (λ t. e, no_other m o os e u.0)
  same_id m (o ∷ os) u (inr i) = (
    λ t. absurd (ground (arith, t, All-In (λ y. same_event y o ≡ false) m os u.0 i)),
    same_id m os u.1 i,
  )

  Moved-event_id : {old new : OutboxMessageModel} → Moved old new → new.event_id ≡ old.event_id
  unfolding schedule_next
  Moved-event_id kept = refl
  Moved-event_id (sent n due free e) = refl
  Moved-event_id (rescheduled n exc due free e) = ground arith

  store-AllMoved :
      (m new : OutboxMessageModel) (olds news : List OutboxMessageModel)
      → Moved m new
      → All (λ o. text_eq m.event_id o.event_id ≡ true → m ≡ o) olds
      → AllMoved olds news
      → AllMoved olds (store new news)
  store-AllMoved m new [] [] h u p = tt
  store-AllMoved m new [] (c ∷ news) h u p = absurd p
  store-AllMoved m new (o ∷ olds) [] h u p = absurd p
  store-AllMoved m new (o ∷ olds) (c ∷ news) h u p =
      elim (Bool-cases (text_eq new.event_id c.event_id)) [
        | inl e ↦
            let ids : m.event_id ≡ o.event_id =
              sym (Moved-event_id h) ∙ text_eq→eq new.event_id c.event_id e ∙ Moved-event_id p.0 in
            let same : m ≡ o = u.0 (rw ids (text_eq_refl o.event_id)) in
            let moved : Moved o new = rw (sym same) h in
            rw e (moved, store-AllMoved m new olds news h u.1 p.1)
        | inr e ↦ rw e (p.0, store-AllMoved m new olds news h u.1 p.1)
      ]

  read_key-AllMoved :
      (decoded : Decoded) (rows : List OutboxMessageModel) (batch : Batch) (next : Bool × Batch)
      → AllMoved rows batch.rows
      → AllMoved rows next.1.rows
      → AllMoved rows (read_key d decoded batch next).1.rows
  read_key-AllMoved (invalid exc) rows batch next p q = q
  read_key-AllMoved mapping rows batch next p q = q
  read_key-AllMoved other rows batch next p q = p

  AllMoved-refl : (rows : List OutboxMessageModel) → AllMoved rows rows
  AllMoved-refl [] = tt
  AllMoved-refl (m ∷ rows) = (kept, AllMoved-refl rows)

  module _ (rows : List OutboxMessageModel) (unique : NoClash same_event rows) where
    All-AllMoved :
        (n : ℕ) (ms : List OutboxMessageModel) (batch : Batch)
        → All (Selected rows) ms
        → AllMoved rows batch.rows
        → AllMoved rows (dispatch_all d n ms batch).1.rows
    unfolding dispatch_all dispatch_message
    All-AllMoved n [] batch h p = p
    All-AllMoved n (m ∷ ms) batch h p =
        let (i, due, free) = h.0 in
        let stored =
          store-AllMoved m (handle d n m (attempt_publish d n m)) rows batch.rows
            (handled_Moved n m due free) (same_id m rows unique i) p in
        read_key-AllMoved (d.loads m.payload_json) rows batch
          (dispatch_all d (n + 1) ms (dispatch_message d n m batch)) p
          (All-AllMoved (n + 1) ms (dispatch_message d n m batch) h.1 stored)

    -- After a call of `dispatch_once`, whether it comes to its end and commits or not, every row is as
    -- it was, or was due and free and is now sent, which takes a publisher that accepted it, or
    -- rescheduled or failed after an exception. The order of the rows stays.
    pub dispatch_once-AllMoved : (commits : Bool) → AllMoved rows (dispatch_once d commits rows).1
    unfolding dispatch_once
    dispatch_once-AllMoved commits =
        let start : Batch = record { rows = rows; dispatched = 0; published = []; notified = [] } in
        let (finished, batch) = dispatch_all d 0 (list_due_for_update d rows) start in
        let moved : AllMoved rows batch.rows =
          All-AllMoved 0 (list_due_for_update d rows) start (due-Selected rows)
            (AllMoved-refl rows) in
        elim (Bool-cases (finished && commits)) [
          | inl e ↦ rw e moved
          | inr e ↦ rw e (AllMoved-refl rows)
        ]
