-- ===== src/Repository/Reserve/Numbers.antt =====
-- The numbers of the sequences, before and after a session has counted one.
use student_mentor_allocatio.Base.{
  ℕ, suc, ◌≤◌, ◌≡◌, refl, sym, ◌∙◌, ap, ◌⊎◌, inl, inr, true, ◌&&◌, List, [], ◌∷◌, ◌++◌, arith,
  Bool-cases,
}
use student_mentor_allocatio.Base.Text.{Text, text_eq, text_eq→eq}
use student_mentor_allocatio.Repository.Reserve.{
  CounterSequence, CounterDb, select_sequence_row, is_row, set_last_seq,
}
use student_mentor_allocatio.Repository.Reserve.Effects.{IsGrown, there, added, Counted}
use student_mentor_allocatio.Repository.Reserve.Rows.{number_of, last_number}

same_row :
    (row : CounterSequence) (y y' p p' : Text)
    → is_row y p row ≡ true
    → is_row y' p' row ≡ true
    → y' ≡ y
same_row row y y' p p' t t' =
    let a : text_eq row.year_code y ≡ true = ground (arith, t) in
    let b : text_eq row.year_code y' ≡ true = ground (arith, t') in
    sym (text_eq→eq _ _ b) ∙ text_eq→eq _ _ a

same_prefix :
    (row : CounterSequence) (y y' p p' : Text)
    → is_row y p row ≡ true
    → is_row y' p' row ≡ true
    → p' ≡ p
same_prefix row y y' p p' t t' =
    let a : text_eq row.gender_code p ≡ true = ground (arith, t) in
    let b : text_eq row.gender_code p' ≡ true = ground (arith, t') in
    sym (text_eq→eq _ _ b) ∙ text_eq→eq _ _ a

-- The numbers after one row has been set to `q`.
set_number :
    (rows : List CounterSequence) (y p y' p' : Text) (q : ℕ)
    → (number_of (select_sequence_row (set_last_seq y p q rows) y' p')
        ≡ number_of (select_sequence_row rows y' p'))
      ⊎ ((y' ≡ y)
          × (p' ≡ p)
          × (number_of (select_sequence_row (set_last_seq y p q rows) y' p') ≡ q))
set_number [] y p y' p' q = inl refl
set_number (row ∷ rows) y p y' p' q = elim (Bool-cases (is_row y p row)) [
  | inr f ↦ elim (Bool-cases (is_row y' p' row)) [
    | inl t' ↦ inl (rw (f, t') refl)
    | inr f' ↦ rw (f, f') (set_number rows y p y' p' q)
  ]
  | inl t ↦ elim (Bool-cases (is_row y' p' row)) [
    | inl t' ↦ inr (same_row row y y' p p' t t', same_prefix row y y' p p' t t', rw (t, t') refl)
    | inr f' ↦ inl (rw (t, f') refl)
  ]
]

number-added :
    (rows : List CounterSequence) (y p y' p' : Text)
    → number_of (
        select_sequence_row
          (rows ++ (record { year_code = y; gender_code = p; last_seq = 0 } ∷ []))
          y'
          p')
      ≡ number_of (select_sequence_row rows y' p')
number-added [] y p y' p' = elim (Bool-cases (text_eq y y' && text_eq p p')) [
  | inl t ↦ rw t refl
  | inr f ↦ rw f refl
]
number-added (row ∷ rows) y p y' p' = elim (Bool-cases (is_row y' p' row)) [
  | inl t ↦ rw t refl
  | inr f ↦ rw f (number-added rows y p y' p')
]

pub number-grown :
    (base rows : List CounterSequence) (y p y' p' : Text)
    → IsGrown y p base rows
    → number_of (select_sequence_row rows y' p') ≡ number_of (select_sequence_row base y' p')
number-grown base _ y p y' p' there = refl
number-grown base _ y p y' p' (added e) = number-added base y p y' p'

-- What a session does to the number of a sequence.
pub Counted-number :
    (db work : CounterDb) (y p y' p' : Text) (q : ℕ)
    → Counted db y p q work
    → (last_number work y' p' ≡ last_number db y' p')
      ⊎ ((y' ≡ y) × (p' ≡ p) × (last_number work y' p' ≡ q))
Counted-number db work y p y' p' q h =
    let at_end : last_number work y' p'
        ≡ number_of (select_sequence_row (set_last_seq y p q h.rows) y' p') =
      ap (λ r. number_of (select_sequence_row r y' p')) h.sequences in
    elim (set_number h.rows y p y' p' q) [
      | inl e ↦ inl (at_end ∙ (e ∙ number-grown db.sequences h.rows y p y' p' h.grown))
      | inr (a, b, e) ↦ inr (a, b, at_end ∙ e)
    ]

pub Counted-before :
    (db work : CounterDb) (y p : Text) (q : ℕ)
    → Counted db y p q work
    → q ≡ suc (last_number db y p)
Counted-before db work y p q h =
    h.number
    ∙ ap suc (sym (ap number_of h.found) ∙ number-grown db.sequences h.rows y p y p h.grown)

pub Counted-grows :
    (db work : CounterDb) (y p : Text) (q : ℕ)
    → Counted db y p q work
    → (y' p' : Text) → last_number db y' p' ≤ last_number work y' p'
Counted-grows db work y p q h y' p' = elim (Counted-number db work y p y' p' q h) [
  | inl e ↦ omega (arith, e)
  | inr (a, b, e) ↦ rw (a, b) (omega (arith, rw (a, b) at e, Counted-before db work y p q h))
]

pub Counted-bounded :
    (db work : CounterDb) (y p : Text) (q : ℕ)
    → Counted db y p q work
    → ((y' p' : Text) → last_number db y' p' ≤ 9999)
    → (y' p' : Text) → last_number work y' p' ≤ 9999
Counted-bounded db work y p q h b y' p' = elim (Counted-number db work y p y' p' q h) [
  | inl e ↦ omega (arith, e, b y' p')
  | inr (_, _, e) ↦ omega (arith, e, h.limit)
]
