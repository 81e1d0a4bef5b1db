-- ===== src/Repository/Reserve/Rows.antt =====
-- The counters that the rows of the students hold, before and after one has been set.
use student_mentor_allocatio.Base.{
  ℕ, ◌≡◌, ◌≢◌, refl, sym, ◌∙◌, ap, inl, inr, Bool, true, false, not, ◌||◌, ◌&&◌, Option, none, some,
  List, [], ◌∷◌, arith, Bool-cases,
}
use student_mentor_allocatio.Base.Text.{Text, text_eq, text_eq_refl, text_eq→eq}
use student_mentor_allocatio.Store.{StudentModel}
use student_mentor_allocatio.Repository.Reserve.{
  CounterSequence, CounterDb, select_student, select_sequence_row, set_counter, with_counter,
  is_taken, holds_counter, matches_check, existing_counter,
}

-- The counter of the student with a national id, and the last number of a sequence.
abbrev pub held : Option StudentModel → Option Text
held none = none
held (some s) = existing_counter s.counter

abbrev pub counter_at : CounterDb → Text → Option Text
counter_at db national_id = held (select_student db.students national_id)

abbrev pub number_of : Option CounterSequence → ℕ
number_of none = 0
number_of (some row) = row.last_seq

abbrev pub last_number : CounterDb → Text → Text → ℕ
last_number db year_code prefix = number_of (select_sequence_row db.sequences year_code prefix)

pub existing_counter-of :
    (counter : Text) → matches_check counter ≡ true → existing_counter (some counter) ≡ some counter
existing_counter-of [] m = absurd (ground (arith, m))
existing_counter-of (c ∷ s) m = refl

existing_counter-some : (o : Option Text) (c : Text) → existing_counter o ≡ some c → o ≡ some c
existing_counter-some none c e = absurd (ground (arith, e))
existing_counter-some (some []) c e = absurd (ground (arith, e))
existing_counter-some (some (x ∷ s)) c e = e

-- The row of a student after its counter has been set, and the rows of the others.
select-set_counter :
    (xs : List StudentModel) (nid counter : Text) (s : StudentModel)
    → select_student xs nid ≡ some s
    → select_student (set_counter nid counter xs) nid ≡ some (with_counter counter s)
select-set_counter [] nid counter s e = absurd (ground (arith, e))
select-set_counter (x ∷ xs) nid counter s e = elim (Bool-cases (text_eq x.national_id nid)) [
  | inl t ↦
      let same : x ≡ s = ground (arith, rw t at e) in
      rw (t, t) (ap (λ r. some (with_counter counter r)) same)
  | inr f ↦ rw (f, f) (select-set_counter xs nid counter s (rw f at e))
]

select-set_other :
    (xs : List StudentModel) (nid nid' counter : Text)
    → nid' ≢ nid
    → select_student (set_counter nid counter xs) nid' ≡ select_student xs nid'
select-set_other [] nid nid' counter d = refl
select-set_other (x ∷ xs) nid nid' counter d = elim (Bool-cases (text_eq x.national_id nid)) [
  | inl t ↦ elim (Bool-cases (text_eq x.national_id nid')) [
    | inl t' ↦ absurd (d (sym (text_eq→eq _ _ t') ∙ text_eq→eq _ _ t))
    | inr f' ↦ rw (t, f') refl
  ]
  | inr f ↦ rw (f, select-set_other xs nid nid' counter d) refl
]

or-false : (a b : Bool) → a || b ≡ false → (a ≡ false) × (b ≡ false)
or-false a b e = (ground (arith, e), ground (arith, e))

not_here :
    (x : StudentModel) (nid nid' counter : Text)
    → not (text_eq x.national_id nid) && holds_counter counter x.counter ≡ false
    → nid' ≢ nid
    → text_eq x.national_id nid' ≡ true
    → existing_counter x.counter ≢ some counter
not_here x nid nid' counter t d e h =
    let holds : holds_counter counter x.counter ≡ true =
      ap (holds_counter counter) (existing_counter-some x.counter counter h)
      ∙ text_eq_refl counter in
    elim (Bool-cases (text_eq x.national_id nid)) [
      | inl same ↦ d (sym (text_eq→eq _ _ e) ∙ text_eq→eq _ _ same)
      | inr other ↦ absurd (ground (arith, rw (holds, other) at t))
    ]

-- A counter that is not taken is not held by another student.
pub not_taken-held :
    (xs : List StudentModel) (nid nid' counter : Text)
    → is_taken nid counter xs ≡ false
    → nid' ≢ nid
    → held (select_student xs nid') ≢ some counter
not_taken-held [] nid nid' counter t d h = absurd (ground (arith, h))
not_taken-held (x ∷ xs) nid nid' counter t d h =
    let (here, later) = or-false _ _ t in
    elim (Bool-cases (text_eq x.national_id nid')) [
      | inl e ↦ not_here x nid nid' counter here d e (rw e at h)
      | inr f ↦ not_taken-held xs nid nid' counter later d (rw f at h)
    ]

-- The counters after one has been set.
pub counter_at-set :
    (db work : CounterDb) (nid counter : Text) (s : StudentModel)
    → select_student db.students nid ≡ some s
    → matches_check counter ≡ true
    → work.students ≡ set_counter nid counter db.students
    → counter_at work nid ≡ some counter
counter_at-set db work nid counter s e m w =
    ap (λ xs. held (select_student xs nid)) w
    ∙ (ap held (select-set_counter db.students nid counter s e) ∙ existing_counter-of counter m)

pub counter_at-other :
    (db work : CounterDb) (nid nid' counter : Text)
    → work.students ≡ set_counter nid counter db.students
    → nid' ≢ nid
    → counter_at work nid' ≡ counter_at db nid'
counter_at-other db work nid nid' counter w d =
    ap (λ xs. held (select_student xs nid')) w
    ∙ ap held (select-set_other db.students nid nid' counter d)
