-- ===== src/Runtime/Script/Changes.antt =====
-- Each branch of a run of the script, as a change of what the keys hold.
use student_mentor_allocatio.Base.{
  ℕ, ◌≤◌, ◌≡◌, refl, sym, ◌∙◌, ap, false, Option, none, some, arith,
}
use student_mentor_allocatio.Base.Text.{Text, text_eq}
use student_mentor_allocatio.Runtime.Script.{
  Normalized, Assigned, Cell, placeholder, assigned, number, Redis, incr, Reply, assignment,
  allocate_script,
}
use student_mentor_allocatio.Runtime.Script.Writes.{
  Differs, IsNew, IsWritten, IsWritten-unchanged, Differs-IsWritten, put_here, put_there, apart,
  incr-seq_number, student, sequence,
}
use student_mentor_allocatio.Runtime.Script.Outcome.{
  marked, numbered, counted, Outcome, existing, broken, full, fresh, allocate_script-Outcome,
}

incr-assigned :
    (p : Assigned) (c : Option Cell) (q : ℕ) → c ≡ some (assigned p) → incr c ≡ some q → ⊥
incr-assigned p c q e i = ground (arith, rw e at i)

module _ (base : Text) (max_serial : ℕ) (n : Normalized) (s : Redis) where
  marked-Differs :
      s (student base max_serial n) ≡ none
      → Differs base max_serial n s (marked base max_serial n s) (some placeholder)
  marked-Differs e = record {
    free = e;
    same = λ j f g. put_there _ _ s j f;
    at_student = put_here (student base max_serial n) _ s _ refl;
    grows =
        rw (put_there (student base max_serial n) (some placeholder) s _ (apart base max_serial n))
          (omega arith);
    keeps = λ p h. put_there _ _ s _ (apart base max_serial n) ∙ h;
    holds = λ p h. sym (put_there _ _ s _ (apart base max_serial n)) ∙ h;
  }

  pub counted-sequence :
      (q : ℕ) (w : Option Cell)
      → counted base max_serial n q w s (sequence base max_serial n) ≡ some (number q)
  counted-sequence q w =
      put_there (student base max_serial n) w (numbered base max_serial n q s) _
        (apart base max_serial n)
      ∙ put_here (sequence base max_serial n) (some (number q)) (marked base max_serial n s) _ refl

  pub counted-same :
      (q : ℕ) (w : Option Cell) (j : Text)
      → text_eq j (student base max_serial n) ≡ false
      → text_eq j (sequence base max_serial n) ≡ false
      → counted base max_serial n q w s j ≡ s j
  counted-same q w j f g =
      put_there (student base max_serial n) w (numbered base max_serial n q s) j f
      ∙ (put_there (sequence base max_serial n) (some (number q)) (marked base max_serial n s) j g
          ∙ put_there (student base max_serial n) (some placeholder) s j f)

  counted-Differs :
      (q : ℕ) (w : Option Cell)
      → s (student base max_serial n) ≡ none
      → incr (s (sequence base max_serial n)) ≡ some q
      → Differs base max_serial n s (counted base max_serial n q w s) w
  counted-Differs q w e i = record {
    free = e;
    same = counted-same q w;
    at_student = put_here (student base max_serial n) w (numbered base max_serial n q s) _ refl;
    grows = rw (counted-sequence q w) (omega (arith, incr-seq_number _ q i));
    keeps = λ p h. absurd (incr-assigned p _ q h i);
    holds = λ p h. absurd (ground (arith, sym (counted-sequence q w) ∙ h));
  }

  pub fresh-IsNew :
      (q : ℕ) (w : Option Cell) (p : Assigned)
      → s (student base max_serial n) ≡ none
      → incr (s (sequence base max_serial n)) ≡ some q
      → p ≡ assignment n q
      → q ≤ max_serial
      → IsNew base max_serial n s (counted base max_serial n q w s) (student base max_serial n) p
  fresh-IsNew q w p e i m l = record {
    at = refl;
    free = e;
    made = m ∙ ap (assignment n) (incr-seq_number _ q i);
    limited = rw m l;
    counted = rw (counted-sequence q w) (incr-seq_number _ q i);
  }

  Outcome-IsWritten :
      (r : Reply × Redis) → Outcome base max_serial n s r → IsWritten base max_serial n s r.1
  Outcome-IsWritten _ (existing cell e) = IsWritten-unchanged base max_serial n s
  Outcome-IsWritten _ (broken e) =
      Differs-IsWritten base max_serial n s _ _ (marked-Differs e)
        (λ p h. absurd (ground (arith, h)))
  Outcome-IsWritten _ (full q e i l) =
      Differs-IsWritten base max_serial n s _ _ (counted-Differs q none e i)
        (λ p h. absurd (ground (arith, h)))
  Outcome-IsWritten _ (fresh q e i l) =
      Differs-IsWritten base max_serial n s _ _ (counted-Differs q _ e i)
        (λ p h. fresh-IsNew q _ p e i (ground (arith, h)) l)

  pub allocate_script-IsWritten :
      IsWritten base max_serial n s (allocate_script base max_serial n s).1
  allocate_script-IsWritten = Outcome-IsWritten _ (allocate_script-Outcome base max_serial n s)
