-- ===== src/Runtime/Script/Writes.antt =====
-- What one run of the script does to every key of the server.
use student_mentor_allocatio.Base.{
  ℕ, suc, ◌≤◌, ◌≡◌, sym, ◌∙◌, ◌⊎◌, inl, inr, false, Option, none, some, arith, Bool-cases,
}
use student_mentor_allocatio.Base.Text.{Text, text_eq, text_eq→eq, text_eq_refl}
use student_mentor_allocatio.Runtime.Script.{
  Normalized, Assigned, Cell, placeholder, assigned, number, garbled, Redis, put, incr, assignment,
  student_key, sequence_key,
}
use student_mentor_allocatio.Runtime.Script.Keys.{sequence≢student}

-- The number that a key counts.
abbrev pub seq_number : Option Cell → ℕ
seq_number (some (number n)) = n
seq_number (some placeholder) = 0
seq_number (some (assigned p)) = 0
seq_number (some garbled) = 0
seq_number none = 0

abbrev pub Holds : Redis → Text → Assigned → Type 0
Holds redis k p = redis k ≡ some (assigned p)

pub put_here : (k : Text) (v : Option Cell) (s : Redis) (j : Text) → j ≡ k → put k v s j ≡ v
put_here k v s j e = rw e (ground (arith, text_eq_refl k))

pub put_there :
    (k : Text) (v : Option Cell) (s : Redis) (j : Text) → text_eq j k ≡ false → put k v s j ≡ s j
put_there k v s j e = ground (arith, e)

pub incr-seq_number : (c : Option Cell) (q : ℕ) → incr c ≡ some q → q ≡ suc (seq_number c)
incr-seq_number none q e = ground (arith, e)
incr-seq_number (some (number n)) q e = ground (arith, e)
incr-seq_number (some placeholder) q e = absurd (ground (arith, e))
incr-seq_number (some (assigned p)) q e = absurd (ground (arith, e))
incr-seq_number (some garbled) q e = absurd (ground (arith, e))

module _ (base : Text) (max_serial : ℕ) (n : Normalized) where
  abbrev pub student : Text
  student = student_key base max_serial n

  abbrev pub sequence : Text
  sequence = sequence_key base max_serial n

  -- The assignment that is new.
  pub record IsNew (before after : Redis) (k : Text) (p : Assigned) : Type 0 where
    pub at : k ≡ student
    pub free : before student ≡ none
    pub made : p ≡ assignment n (suc (seq_number (before sequence)))
    pub limited : p.serial ≤ max_serial
    pub counted : seq_number (after sequence) ≡ suc (seq_number (before sequence))

  pub record IsWritten (before after : Redis) : Type 0 where
    pub grows : (j : Text) → seq_number (before j) ≤ seq_number (after j)
    pub keeps : (k : Text) (p : Assigned) → Holds before k p → Holds after k p
    pub holds :
        (k : Text) (p : Assigned) → Holds after k p → Holds before k p ⊎ IsNew before after k p

  pub IsWritten-unchanged : (s : Redis) → IsWritten s s
  IsWritten-unchanged s = record {
    grows = λ j. omega arith;
    keeps = λ k p h. h;
    holds = λ k p h. inl h;
  }

  pub apart : text_eq sequence student ≡ false
  apart = elim (Bool-cases (text_eq sequence student)) [
    | inl e ↦ absurd (
        sequence≢student base n.year_code n.year_code n.student_id n.gender
          (text_eq→eq sequence student e))
    | inr e ↦ e
  ]

  -- Two states that differ at most at the keys of the request.
  pub record Differs (s t : Redis) (w : Option Cell) : Type 0 where
    pub free : s student ≡ none
    pub same : (j : Text) → text_eq j student ≡ false → text_eq j sequence ≡ false → t j ≡ s j
    pub at_student : t student ≡ w
    pub grows : seq_number (s sequence) ≤ seq_number (t sequence)
    pub keeps : (p : Assigned) → Holds s sequence p → Holds t sequence p
    pub holds : (p : Assigned) → Holds t sequence p → Holds s sequence p

  -- Where a key stands to the two keys of the request.
  which :
      (j : Text)
      → (j ≡ student)
        ⊎ ((j ≡ sequence) ⊎ ((text_eq j student ≡ false) × (text_eq j sequence ≡ false)))
  which j = elim (Bool-cases (text_eq j student)) [
    | inl e ↦ inl (text_eq→eq j student e)
    | inr e ↦ elim (Bool-cases (text_eq j sequence)) [
      | inl f ↦ inr (inl (text_eq→eq j sequence f))
      | inr f ↦ inr (inr (e, f))
    ]
  ]

  pub Differs-IsWritten :
      (s t : Redis) (w : Option Cell)
      → Differs s t w
      → ((p : Assigned) → w ≡ some (assigned p) → IsNew s t student p)
      → IsWritten s t
  Differs-IsWritten s t w d fresh = record {
    grows = λ j. elim (which j) [
      | inl e ↦ rw (e, d.free) (omega arith)
      | inr (inl e) ↦ rw e d.grows
      | inr (inr (e, f)) ↦ rw (d.same j e f) (omega arith)
    ];
    keeps = λ k p h. elim (which k) [
      | inl e ↦ absurd (ground (arith, d.free, rw e at h))
      | inr (inl e) ↦ rw e (d.keeps p (rw e at h))
      | inr (inr (e, f)) ↦ d.same k e f ∙ h
    ];
    holds = λ k p h. elim (which k) [
      | inl e ↦ inr (rw e (fresh p (sym d.at_student ∙ rw e at h)))
      | inr (inl e) ↦ inl (rw e (d.holds p (rw e at h)))
      | inr (inr (e, f)) ↦ inl (sym (d.same k e f) ∙ h)
    ];
  }
