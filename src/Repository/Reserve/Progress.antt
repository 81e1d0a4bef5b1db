-- ===== src/Repository/Reserve/Progress.antt =====
-- A session that nothing strikes, for a student without a counter.
use student_mentor_allocatio.Base.{
  ℕ, zero, suc, ◌+◌, ◌≤◌, ◌≡◌, refl, sym, ◌∙◌, ap, inl, inr, Bool, true, false, not, ◌||◌, ◌&&◌,
  ◌==◌, none, some, [], ◌∷◌, ◌++◌, any, length, leb, arith, Option-cases, All-append, All-map,
  keep-All, map_fixed, if◌then◌else◌,
}
use mathlib.Core.List.{append_assoc}
use student_mentor_allocatio.Base.Text.{Text, text_eq, is_space}
use student_mentor_allocatio.Base.Text.Decimal.{
  is_digit, AllDigits, decimal_pad, AllDigits-decimal_pad,
}
use student_mentor_allocatio.Python.{Unicode}
use student_mentor_allocatio.Python.RoundTrip.{strip_fixed}
use student_mentor_allocatio.Counter.{Gender, male, female, counter_code, validate_counter}
use student_mentor_allocatio.Counter.Format.{build-validate_counter, counter_code-AllDigits}
use student_mentor_allocatio.Store.{StudentModel}
use student_mentor_allocatio.Repository.Validation.{
  fine, fold_persian, normalize, ensure_counter_format, ensure_sequence_bounds,
}
use student_mentor_allocatio.Repository.Reserve.{
  CounterSequence, CounterDb, Session, did, conflict, Strikes, select_student, select_sequence_row,
  set_last_seq, set_counter, is_taken, matches_check, existing_counter, next_sequence, advance,
  with_row, new_row, reserve_once,
}
use student_mentor_allocatio.Repository.Reserve.Effects.{select-added}
use student_mentor_allocatio.Repository.Reserve.Rows.{last_number}

-- No session strikes.
abbrev pub unstruck : Strikes
unstruck = record { sequence_race = none; duplicate_national_id = none; duplicate_counter = none }

-- The counter of a number.
abbrev pub counter_for : Text → Gender → ℕ → Text
counter_for year_code gender q = year_code ++ (counter_code gender ++ decimal_pad 4 q)

-- The table of the interpreter leaves ASCII digits as they are.
abbrev pub KeepsDigits : Unicode → Type 0
KeepsDigits u = (s : Text) → AllDigits s → u.nfkc s ≡ s

counter_for-AllDigits :
    (year : Text) (g : Gender) (q : ℕ) → AllDigits year → AllDigits (counter_for year g q)
counter_for-AllDigits year g q h =
    let Digit = λ (c : ℕ). is_digit c ≡ true in
    All-append Digit year (counter_code g ++ decimal_pad 4 q) h (
      All-append Digit (counter_code g) (decimal_pad 4 q) (counter_code-AllDigits g)
        (AllDigits-decimal_pad 4 q))

digit-fold_persian : (c : ℕ) → is_digit c ≡ true → fold_persian c ≡ c
unfolding fold_persian
digit-fold_persian c h = ground arith

digit-shown : (c : ℕ) → is_digit c ≡ true → not (any (λ d. c == d) (0x200b ∷ 0xfeff ∷ [])) ≡ true
digit-shown c h = ground arith

digit-not_space : (c : ℕ) → is_digit c ≡ true → is_space c ≡ false
unfolding is_space
digit-not_space c h = ground arith

normalize-AllDigits : (u : Unicode) (s : Text) → KeepsDigits u → AllDigits s → normalize u s ≡ s
unfolding normalize
normalize-AllDigits u s k h =
    let Digit = λ (c : ℕ). is_digit c ≡ true in
    rw
      (
        k s h,
        map_fixed fold_persian s (All-map Digit (λ c. fold_persian c ≡ c) s digit-fold_persian h),
        keep-All (λ c. not (any (λ d. c == d) (0x200b ∷ 0xfeff ∷ []))) s
            (All-map Digit (λ c. not (any (λ d. c == d) (0x200b ∷ 0xfeff ∷ [])) ≡ true) s
              digit-shown h),
      )
      (strip_fixed s (All-map Digit (λ c. is_space c ≡ false) s digit-not_space h))

-- The counter of a two-digit year and a number below 10000.
module _ (u : Unicode) (keeps : KeepsDigits u) (year : Text) (g : Gender) (q : ℕ)
    (digits : AllDigits year) (two : length year ≡ 2) (small : q ≤ 9999) where
  assoc : year ++ counter_code g ++ decimal_pad 4 q ≡ counter_for year g q
  assoc = append_assoc year (counter_code g) (decimal_pad 4 q)

  pub counter_for-format :
      ensure_counter_format u (counter_for year g q) ≡ fine (counter_for year g q)
  unfolding ensure_counter_format
  counter_for-format =
      let built = build-validate_counter u (λ s. true) year g q digits two refl small in
      let valid : validate_counter u (some (counter_for year g q)) ≡ some (counter_for year g q) =
        rw assoc at built.2 in
      rw
        (
          normalize-AllDigits u (counter_for year g q) keeps
              (counter_for-AllDigits year g q digits),
          valid,
        )
        refl

  counter_for-length : length (counter_for year g q) ≡ 9
  counter_for-length =
      sym (ap length assoc)
      ∙ (build-validate_counter u (λ s. true) year g q digits two refl small).1

check_parts :
    (year : Text) (g : Gender) (q : ℕ)
    → AllDigits year
    → length year ≡ 2
    → length (counter_for year g q) ≡ 9
    → matches_check (counter_for year g q) ≡ true
unfolding text_eq
check_parts [] g q h two nine = absurd (omega arith)
check_parts (a ∷ []) g q h two nine = absurd (omega arith)
check_parts (a ∷ b ∷ c ∷ year) g q h two nine = absurd (omega arith)
check_parts (a ∷ b ∷ []) male q h two nine = ground (arith, h.0, nine)
check_parts (a ∷ b ∷ []) female q h two nine = ground (arith, h.0, nine)

or_none : (b : Bool) → b || false ≡ b
or_none true = refl
or_none false = refl

bounds-fine : (q : ℕ) → 1 ≤ q → q ≤ 9999 → ensure_sequence_bounds q ≡ fine q
unfolding ensure_sequence_bounds
bounds-fine q a b = let t : leb 1 q && leb q 9999 ≡ true = ground arith in rw t refl

in_bounds-fine : (m : ℕ) → m ≤ 9998 → ensure_sequence_bounds (m + 1) ≡ fine (suc m)
unfolding ensure_sequence_bounds
in_bounds-fine m l =
    let e : m + 1 ≡ suc m = omega arith in
    let t : leb 1 (suc m) && leb (suc m) 9999 ≡ true = ground arith in rw (e, t) refl

module _ (u : Unicode) (max_retries : ℕ) (refusal : Text) where
  -- The tables after the number of a row.
  abbrev numbered : CounterDb → Text → Text → ℕ → CounterDb
  numbered db y p q = record { students = db.students; sequences = set_last_seq y p q db.sequences }

  advance_fine :
      (db : CounterDb) (y p : Text) (row : CounterSequence)
      → row.last_seq ≤ 9998
      → advance u max_retries refusal unstruck db y p row
        ≡ did (suc row.last_seq) (numbered db y p (suc row.last_seq))
  advance_fine db y p row l = rw (in_bounds-fine row.last_seq l) refl

  -- The next number, and the tables that it leaves.
  record IsNext (db : CounterDb) (y p : Text) (session : Session ℕ) : Type 0 where
    pub work : CounterDb
    pub gives : session ≡ did (suc (last_number db y p)) work
    pub students : work.students ≡ db.students

  next_sequence-IsNext :
      (left : ℕ) (db : CounterDb) (y p : Text)
      → last_number db y p ≤ 9998
      → IsNext db y p (next_sequence u max_retries refusal (suc left) unstruck db y p)
  unfolding next_sequence
  next_sequence-IsNext left db y p l = elim (Option-cases (select_sequence_row db.sequences y p)) [
    | inr (row, e) ↦ record {
      work = numbered db y p (suc row.last_seq);
      gives = rw e (advance_fine db y p row (rw e at l));
      students = refl;
    }
    | inl e ↦ record {
      work = numbered (with_row u max_retries refusal db y p) y p 1;
      gives =
          rw (e, select-added db.sequences y p e)
            (advance_fine (with_row u max_retries refusal db y p) y p
              (new_row u max_retries refusal y p) (omega arith));
      students = refl;
    }
  ]

  turns_IsNext :
      (turns : ℕ) (db : CounterDb) (y p : Text)
      → 1 ≤ turns
      → last_number db y p ≤ 9998
      → IsNext db y p (next_sequence u max_retries refusal turns unstruck db y p)
  turns_IsNext zero db y p t l = absurd (omega arith)
  turns_IsNext (suc left) db y p t l = next_sequence-IsNext left db y p l

  -- The session for a student without a counter, where the next number is at most 9999.
  pub record IsBinding (db : CounterDb) (nid counter : Text) (session : Session Text) : Type 0 where
    pub work : CounterDb
    pub gives :
        session
        ≡ (if is_taken nid counter db.students then conflict refusal work else did counter work)

  pub reserve_once-IsBinding :
      (db : CounterDb) (nid : Text) (g : Gender) (year : Text) (s : StudentModel)
      → KeepsDigits u
      → 1 ≤ max_retries
      → AllDigits year
      → length year ≡ 2
      → select_student db.students nid ≡ some s
      → existing_counter s.counter ≡ none
      → last_number db year (counter_code g) ≤ 9998
      → let counter = counter_for year g (suc (last_number db year (counter_code g))) in
        IsBinding db nid counter (reserve_once u max_retries refusal unstruck db nid g year)
  unfolding reserve_once
  reserve_once-IsBinding db nid g year s keeps some_turn digits two found free room =
      let q : ℕ = suc (last_number db year (counter_code g)) in
      let next = turns_IsNext max_retries db year (counter_code g) some_turn room in
      let bounds : ensure_sequence_bounds q ≡ fine q = bounds-fine q (omega arith) (omega arith) in
      let format = counter_for-format u keeps year g q digits two (omega arith) in
      let fits =
        check_parts year g q digits two
          (counter_for-length u keeps year g q digits two (omega arith)) in
      record {
        work = record {
          students = set_counter nid (counter_for year g q) next.work.students;
          sequences = next.work.sequences;
        };
        gives =
            rw
              (
                found,
                free,
                next.gives,
                bounds,
                format,
                fits,
                next.students,
                or_none (is_taken nid (counter_for year g q) db.students),
              )
              refl;
      }
