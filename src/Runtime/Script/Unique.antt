-- ===== src/Runtime/Script/Unique.antt =====
-- The runs of the script, in any order and for any students, with placeholders expiring between
-- them, and the counters that the student keys hold afterwards.
use student_mentor_allocatio.Base.{
  ℕ, ◌≤◌, ◌≡◌, ◌≢◌, refl, sym, ◌∙◌, inl, inr, none, some, length, arith, Bool-cases,
}
use student_mentor_allocatio.Base.Text.{Text, text_eq, text_eq→eq}
use student_mentor_allocatio.Runtime.Script.{
  Normalized, Assigned, placeholder, Redis, put, counter_of, counter_sequence, allocate_script,
}
use student_mentor_allocatio.Runtime.Script.Keys.{counter_of-injective, counter_student-injective}
use student_mentor_allocatio.Runtime.Script.Writes.{
  IsNew, IsWritten, Holds, seq_number, put_here, put_there, student,
}
use student_mentor_allocatio.Runtime.Script.Changes.{allocate_script-IsWritten}

module _ (base : Text) (max_serial : ℕ) where
  -- One change of the server: a run of the script, or the end of a placeholder's `PX`.
  pub data Step (s : Redis) : Redis → Type 0 where
    ran : (n : Normalized) → length n.year_code ≡ 2 → Step s (allocate_script base max_serial n s).1
    expired : (k : Text) → s k ≡ some placeholder → Step s (put k none s)

  pub data Steps : Redis → Redis → Type 0 where
    done : (s : Redis) → Steps s s
    then_step : (s t u : Redis) → Steps s t → Step t u → Steps s u

  pub Steps-trans : (s t u : Redis) → Steps s t → Steps t u → Steps s u
  Steps-trans s t _ a (done _) = a
  Steps-trans s t u a (then_step _ m _ b last) = then_step s m u (Steps-trans s t m a b) last

  -- What is so of an assignment of a state on its own.
  pub record IsIssued (s : Redis) (p : Assigned) : Type 0 where
    pub two : length p.year_code ≡ 2
    pub form : p.counter ≡ counter_of p.year_code p.gender p.serial
    pub least : 1 ≤ p.serial
    pub most : p.serial ≤ max_serial
    pub bounded : p.serial ≤ seq_number (s (counter_sequence base p.year_code p.gender))

  pub record IsSound (s : Redis) : Type 0 where
    pub issued : (k : Text) (p : Assigned) → Holds s k p → IsIssued s p
    pub distinct :
        (k k' : Text) (p p' : Assigned)
        → Holds s k p
        → Holds s k' p'
        → p.counter ≡ p'.counter
        → k ≡ k'

  pub IsIssued-grows :
      (s t : Redis) (p : Assigned)
      → ((j : Text) → seq_number (s j) ≤ seq_number (t j))
      → IsIssued s p
      → IsIssued t p
  IsIssued-grows s t p g i = record {
    two = i.two;
    form = i.form;
    least = i.least;
    most = i.most;
    bounded = omega (arith, i.bounded, g (counter_sequence base p.year_code p.gender));
  }

  -- The serials of two equal counters of one form, and of their years and genders.
  same_counter :
      (s : Redis) (p p' : Assigned)
      → IsIssued s p
      → length p'.year_code ≡ 2
      → p'.counter ≡ counter_of p'.year_code p'.gender p'.serial
      → p.counter ≡ p'.counter
      → p'.serial ≤ seq_number (s (counter_sequence base p'.year_code p'.gender))
  same_counter s p p' i two form e =
      let (ey, eg, en) =
        counter_of-injective p.year_code p'.year_code p.gender p'.gender p.serial p'.serial i.two
          two (sym i.form ∙ (e ∙ form)) in
      rw (sym ey, sym eg, sym en) i.bounded

  module _ (n : Normalized) (s t : Redis) (two : length n.year_code ≡ 2) where
    IsNew-IsIssued : (k : Text) (p : Assigned) → IsNew base max_serial n s t k p → IsIssued t p
    IsNew-IsIssued k p w = rw w.made (record {
      two = two;
      form = refl;
      least = omega arith;
      most = rw w.made at w.limited;
      bounded = omega (arith, w.counted);
    })

    -- A new counter is not held by a key before.
    pub new_apart :
        (k k' : Text) (p p' : Assigned)
        → IsIssued s p
        → IsNew base max_serial n s t k' p'
        → p.counter ≢ p'.counter
    new_apart k k' p p' i w e =
        let le = same_counter s p p' i (rw w.made two) (rw w.made refl) e in
        absurd (omega (arith, rw w.made at le))

    written-IsSound : IsSound s → IsWritten base max_serial n s t → IsSound t
    written-IsSound i w = record {
      issued = λ k p h. elim (w.holds k p h) [
        | inl o ↦ IsIssued-grows s t p w.grows (i.issued k p o)
        | inr f ↦ IsNew-IsIssued k p f
      ];
      distinct = λ k k' p p' h h' e. elim (w.holds k p h) [
        | inl o ↦ elim (w.holds k' p' h') [
          | inl o' ↦ i.distinct k k' p p' o o' e
          | inr f' ↦ absurd (new_apart k k' p p' (i.issued k p o) f' e)
        ]
        | inr f ↦ elim (w.holds k' p' h') [
          | inl o' ↦ absurd (new_apart k' k p' p (i.issued k' p' o') f (sym e))
          | inr f' ↦ f.at ∙ sym f'.at
        ]
      ];
    }

  -- What an expired placeholder leaves.
  expired-Holds :
      (s : Redis) (k : Text) (j : Text) (p : Assigned) → Holds (put k none s) j p → Holds s j p
  expired-Holds s k j p h = elim (Bool-cases (text_eq j k)) [
    | inl e ↦ absurd (ground (arith, sym (put_here k none s j (text_eq→eq j k e)) ∙ h))
    | inr e ↦ sym (put_there k none s j e) ∙ h
  ]

  expired_grows :
      (s : Redis) (k : Text)
      → s k ≡ some placeholder
      → (j : Text) → seq_number (s j) ≤ seq_number (put k none s j)
  expired_grows s k m j = elim (Bool-cases (text_eq j k)) [
    | inl e ↦ rw (text_eq→eq j k e, m) (omega arith)
    | inr e ↦ rw (put_there k none s j e) (omega arith)
  ]

  expired-IsSound :
      (s : Redis) (k : Text) → s k ≡ some placeholder → IsSound s → IsSound (put k none s)
  expired-IsSound s k m i = record {
    issued = λ j p h.
        IsIssued-grows s (put k none s) p (expired_grows s k m)
          (i.issued j p (expired-Holds s k j p h));
    distinct = λ j j' p p' h h' e.
        i.distinct j j' p p' (expired-Holds s k j p h) (expired-Holds s k j' p' h') e;
  }

  Step-IsSound : (s t : Redis) → Step s t → IsSound s → IsSound t
  Step-IsSound s _ (ran n two) i =
      written-IsSound n s _ two i (allocate_script-IsWritten base max_serial n s)
  Step-IsSound s _ (expired k m) i = expired-IsSound s k m i

  -- From a state in which every assignment is in the form of the script and no two keys hold one
  -- counter, every sequence of script runs, for any students of two-character year codes and
  -- interleaved with placeholders that expire, leads to such a state: each counter is the year
  -- code, the gender's code and the serial, the serial is between 1 and the largest one and at
  -- most the number of its sequence, and no two keys hold the same counter.
  pub Steps-IsSound : (s t : Redis) → Steps s t → IsSound s → IsSound t
  Steps-IsSound s _ (done _) i = i
  Steps-IsSound s u (then_step _ t _ st last) i = Step-IsSound t u last (Steps-IsSound s t st i)

  abbrev pub nothing_held : Redis
  nothing_held = λ k. none

  pub nothing_held-IsSound : IsSound nothing_held
  nothing_held-IsSound = record {
    issued = λ k p h. absurd (ground (arith, h));
    distinct = λ k k' p p' h h' e. absurd (ground (arith, h));
  }

  -- From an empty server, after any sequence of script runs and expired placeholders: if the keys
  -- of two requests with two-character year codes hold equal counters, the requests are for the
  -- same year code and the same student.
  pub one_student :
      (t : Redis) (n n' : Normalized) (p p' : Assigned)
      → Steps nothing_held t
      → length n.year_code ≡ 2
      → length n'.year_code ≡ 2
      → Holds t (student base max_serial n) p
      → Holds t (student base max_serial n') p'
      → p.counter ≡ p'.counter
      → (n.year_code ≡ n'.year_code) × (n.student_id ≡ n'.student_id)
  one_student t n n' p p' st two two' h h' e =
      counter_student-injective base n.year_code n'.year_code n.student_id n'.student_id two two'
        ((Steps-IsSound nothing_held t st nothing_held-IsSound).distinct _ _ p p' h h' e)
