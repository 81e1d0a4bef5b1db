-- ===== src/Store/Consistent.antt =====
-- The constraints of models.py on the tables as a whole, and what a flush does to them.
use student_mentor_allocatio.Base.{
  ◌≡◌, refl, inl, inr, Bool, true, false, none, some, List, [], ◌∷◌, ◌++◌, any, arith, All,
  All-append, Bool-cases,
}
use student_mentor_allocatio.Base.Text.{Text, text_eq, text_eq_refl}
use student_mentor_allocatio.Store.{
  AllocationRecord, OutboxMessageModel, Db, find, clashes, same_event, flush,
}

-- No two rows clash, in a list where later rows came later.
abbrev pub NoClash : {A : Type 0} → (A → A → Bool) → List A → Type 0
NoClash clash [] = Unit
NoClash clash (x ∷ xs) = All (λ y. clash y x ≡ false) xs × NoClash clash xs

-- Every allocation has its event in the outbox, under the id that `event_id_of` derives.
abbrev pub HasEvent : (Text → Text) → List OutboxMessageModel → AllocationRecord → Type 0
HasEvent event_id_of outbox r =
    any (λ e. text_eq (event_id_of r.idempotency_key) e.event_id) outbox ≡ true

pub record IsConsistent (event_id_of : Text → Text) (db : Db) : Type 0 where
  pub allocations_unique : NoClash clashes db.allocations
  pub events_unique : NoClash same_event db.outbox
  pub events_present : All (HasEvent event_id_of db.outbox) db.allocations

module _ {A : Type 0} where
  pub any-false :
      (test : A → Bool) (xs : List A) → any test xs ≡ false → All (λ x. test x ≡ false) xs
  any-false test [] h = tt
  any-false test (x ∷ xs) h = (ground (arith, h), any-false test xs (ground (arith, h)))

  pub any-append_left :
      (test : A → Bool) (xs ys : List A) → any test xs ≡ true → any test (xs ++ ys) ≡ true
  any-append_left test [] ys h = cc
  any-append_left test (x ∷ xs) ys h = ground (arith, h, any-append_left test xs ys)

  pub any-append_right :
      (test : A → Bool) (xs ys : List A) → any test ys ≡ true → any test (xs ++ ys) ≡ true
  any-append_right test [] ys h = h
  any-append_right test (x ∷ xs) ys h = ground (arith, h, any-append_right test xs ys)

  NoClash-append :
      (clash : A → A → Bool) (xs : List A) (new : A)
      → NoClash clash xs
      → All (λ x. clash new x ≡ false) xs
      → NoClash clash (xs ++ new ∷ [])
  NoClash-append clash [] new n h = (tt, tt)
  NoClash-append clash (x ∷ xs) new (later, n) h = (
    All-append (λ y. clash y x ≡ false) xs (new ∷ []) later (h.0, tt),
    NoClash-append clash xs new n h.1,
  )

  pub find-none_append :
      (test : A → Bool) (xs : List A) (new : A)
      → find test xs ≡ none
      → test new ≡ true
      → find test (xs ++ new ∷ []) ≡ some new
  find-none_append test [] new h t = ground (arith, t)
  find-none_append test (x ∷ xs) new h t = ground (arith, find-none_append test xs new)

  pub find-none_of_false :
      (test : A → Bool) (xs : List A) → All (λ x. test x ≡ false) xs → find test xs ≡ none
  find-none_of_false test [] h = refl
  find-none_of_false test (x ∷ xs) h = ground (arith, h.0, find-none_of_false test xs h.1)

  -- A row that one test finds makes any weaker test succeed.
  pub any-of_find :
      (test weaker : A → Bool) (xs : List A) (x : A)
      → ((y : A) → test y ≡ true → weaker y ≡ true)
      → find test xs ≡ some x
      → any weaker xs ≡ true
  any-of_find test weaker [] x w h = cc
  any-of_find test weaker (y ∷ ys) x w h = elim (Bool-cases (test y)) [
    | inl e ↦ ground (arith, w y e)
    | inr e ↦ ground (arith, e, any-of_find test weaker ys x w)
  ]

-- What a flush that succeeds has done.
pub record Flushed (new : AllocationRecord) (event : OutboxMessageModel) (db after : Db)
    : Type 0 where
  pub no_clash : All (λ r. clashes new r ≡ false) db.allocations
  pub no_event : All (λ e. same_event event e ≡ false) db.outbox
  pub allocations : after.allocations ≡ db.allocations ++ new ∷ []
  pub outbox : after.outbox ≡ db.outbox ++ event ∷ []
  pub students : after.students ≡ db.students
  pub mentors : after.mentors ≡ db.mentors

module _ (new : AllocationRecord) (event : OutboxMessageModel) (db after : Db) where
  pub flush-Flushed : flush new event db ≡ some after → Flushed new event db after
  unfolding flush
  flush-Flushed h = record {
    no_clash = any-false (clashes new) db.allocations (ground (arith, h));
    no_event = any-false (same_event event) db.outbox (ground (arith, h));
    allocations = ground (arith, h);
    outbox = ground (arith, h);
    students = ground (arith, h);
    mentors = ground (arith, h);
  }

  module _ (event_id_of : Text → Text)
      (named : event.event_id ≡ event_id_of new.idempotency_key) where
    later_events :
        (rs : List AllocationRecord)
        → All (HasEvent event_id_of db.outbox) rs
        → All (HasEvent event_id_of (db.outbox ++ event ∷ [])) rs
    later_events [] h = tt
    later_events (r ∷ rs) h = (
      any-append_left (λ e. text_eq (event_id_of r.idempotency_key) e.event_id) db.outbox
          (event ∷ []) h.0,
      later_events rs h.1,
    )

    new_event_present : HasEvent event_id_of (db.outbox ++ event ∷ []) new
    new_event_present =
        any-append_right (λ e. text_eq (event_id_of new.idempotency_key) e.event_id) db.outbox
          (event ∷ []) (rw named (ground (arith, text_eq_refl (event_id_of new.idempotency_key))))

    -- A flush keeps the constraints, and the new allocation has its event.
    pub flush-IsConsistent :
        flush new event db ≡ some after
        → IsConsistent event_id_of db
        → IsConsistent event_id_of after
    flush-IsConsistent h c =
        let f = flush-Flushed h in
        record {
          allocations_unique =
              rw f.allocations
                (NoClash-append clashes db.allocations new c.allocations_unique f.no_clash);
          events_unique =
              rw f.outbox (NoClash-append same_event db.outbox event c.events_unique f.no_event);
          events_present =
              rw (f.allocations, f.outbox)
                (All-append (HasEvent event_id_of (db.outbox ++ event ∷ [])) db.allocations
                  (new ∷ []) (later_events db.allocations c.events_present)
                  (new_event_present, tt));
        }
