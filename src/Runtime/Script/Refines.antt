-- ===== src/Runtime/Script/Refines.antt =====
-- The contract of the script: which counter each key shows, and what a run may answer and change.
use student_mentor_allocatio.Base.{
  ℕ, ◌≤◌, ◌≡◌, ◌≢◌, refl, sym, ◌∙◌, ap, inl, inr, Option, none, some, length, arith, Bool-cases,
  false,
}
use student_mentor_allocatio.Base.Text.{Text, text_eq, text_eq→eq}
use student_mentor_allocatio.Runtime.Script.{
  Normalized, Assigned, Cell, placeholder, assigned, number, garbled, Redis, Reply, new, reused,
  pending, exhausted, script_error, reply_existing, incr, assignment, counter_of, allocate_script,
}
use student_mentor_allocatio.Runtime.Script.Writes.{put_here, put_there, student, sequence}
use student_mentor_allocatio.Runtime.Script.Outcome.{
  marked, numbered, counted, Outcome, existing, broken, full, fresh, allocate_script-Outcome,
}
use student_mentor_allocatio.Runtime.Script.Changes.{counted-sequence, counted-same, fresh-IsNew}
use student_mentor_allocatio.Runtime.Script.Unique.{IsSound, new_apart}

-- The counter that a key shows.
abbrev pub shown : Option Cell → Option Text
shown none = none
shown (some (assigned p)) = some p.counter
shown (some placeholder) = none
shown (some (number n)) = none
shown (some garbled) = none

abbrev pub View : Type 0
View = Text → Option Text

-- What the holder of `key` may be answered, and what the counters shown are afterwards.
pub data Allows (key : Text) (v w : View) : Reply → Type 0 where
  granted :
      (c : Text)
      → v key ≡ none
      → ((j : Text) → v j ≢ some c)
      → w key ≡ some c
      → ((j : Text) → text_eq j key ≡ false → w j ≡ v j)
      → Allows key v w (new c)
  repeated : (c : Text) → v key ≡ some c → ((j : Text) → w j ≡ v j) → Allows key v w (reused c)
  waiting : v key ≡ none → ((j : Text) → w j ≡ v j) → Allows key v w pending
  refused : v key ≡ none → ((j : Text) → w j ≡ v j) → Allows key v w exhausted
  broke : v key ≡ none → ((j : Text) → w j ≡ v j) → Allows key v w script_error

abbrev pub view : Redis → View
view s = λ k. shown (s k)

pub shown-assigned :
    (o : Option Cell) (c : Text)
    → shown o ≡ some c
    → (p : Assigned) × (o ≡ some (assigned p)) × (p.counter ≡ c)
shown-assigned none c e = absurd (ground (arith, e))
shown-assigned (some placeholder) c e = absurd (ground (arith, e))
shown-assigned (some (number n)) c e = absurd (ground (arith, e))
shown-assigned (some garbled) c e = absurd (ground (arith, e))
shown-assigned (some (assigned p)) c e = (p, refl, ground (arith, e))

shown-incr : (o : Option Cell) (q : ℕ) → incr o ≡ some q → shown o ≡ none
shown-incr none q e = refl
shown-incr (some (number n)) q e = refl
shown-incr (some placeholder) q e = refl
shown-incr (some garbled) q e = refl
shown-incr (some (assigned p)) q e = absurd (ground (arith, e))

-- Two views that agree at a key agree at each key that is equal to it.
view_at : (s t : Redis) (j k : Text) → j ≡ k → view t k ≡ view s k → view t j ≡ view s j
view_at s t j k e h = ap (view t) e ∙ (h ∙ sym (ap (view s) e))

module _ (base : Text) (max_serial : ℕ) (n : Normalized) (s : Redis) where
  -- The views of the states that the branches lead to.
  view-marked :
      s (student base max_serial n) ≡ none
      → (j : Text) → view (marked base max_serial n s) j ≡ view s j
  view-marked e j = elim (Bool-cases (text_eq j (student base max_serial n))) [
    | inl f ↦ view_at s (marked base max_serial n s) j _ (text_eq→eq j _ f) (
        ap shown (put_here (student base max_serial n) (some placeholder) s _ refl)
        ∙ sym (ap shown e))
    | inr f ↦ ap shown (put_there _ _ s j f)
  ]

  view-counted :
      (q : ℕ) (w : Option Cell) (j : Text)
      → incr (s (sequence base max_serial n)) ≡ some q
      → text_eq j (student base max_serial n) ≡ false
      → view (counted base max_serial n q w s) j ≡ view s j
  view-counted q w j i f = elim (Bool-cases (text_eq j (sequence base max_serial n))) [
    | inl g ↦
        view_at s (counted base max_serial n q w s) j _ (text_eq→eq j _ g)
          (ap shown (counted-sequence base max_serial n s q w) ∙ sym (shown-incr _ q i))
    | inr g ↦ ap shown (counted-same base max_serial n s q w j f g)
  ]

  view-full :
      (q : ℕ) (j : Text)
      → s (student base max_serial n) ≡ none
      → incr (s (sequence base max_serial n)) ≡ some q
      → view (counted base max_serial n q none s) j ≡ view s j
  view-full q j e i = elim (Bool-cases (text_eq j (student base max_serial n))) [
    | inl f ↦ view_at s (counted base max_serial n q none s) j _ (text_eq→eq j _ f) (
        ap shown (put_here (student base max_serial n) none (numbered base max_serial n q s) _ refl)
        ∙ sym (ap shown e))
    | inr f ↦ view-counted q none j i f
  ]

  existing-Allows :
      (cell : Cell)
      → s (student base max_serial n) ≡ some cell
      → Allows (student base max_serial n) (view s) (view s) (reply_existing cell)
  existing-Allows placeholder e = waiting (ap shown e) (λ j. refl)
  existing-Allows garbled e = waiting (ap shown e) (λ j. refl)
  existing-Allows (number q) e = broke (ap shown e) (λ j. refl)
  existing-Allows (assigned p) e = repeated p.counter (ap shown e) (λ j. refl)

  module _ (sound : IsSound base max_serial s) (two : length n.year_code ≡ 2) where
    fresh-unseen :
        (q : ℕ) (j : Text)
        → s (student base max_serial n) ≡ none
        → incr (s (sequence base max_serial n)) ≡ some q
        → q ≤ max_serial
        → view s j ≢ some (counter_of n.year_code n.gender q)
    fresh-unseen q j e i l h =
        let (p, o, c) = shown-assigned (s j) _ h in
        new_apart base max_serial n s _ two j _ p (assignment n q) (sound.issued j p o)
          (fresh-IsNew base max_serial n s q none (assignment n q) e i refl l) c

    Outcome-Allows :
        (r : Reply × Redis)
        → Outcome base max_serial n s r
        → Allows (student base max_serial n) (view s) (view r.1) r.0
    Outcome-Allows _ (existing cell e) = existing-Allows cell e
    Outcome-Allows _ (broken e) = broke (ap shown e) (view-marked e)
    Outcome-Allows _ (full q e i l) = refused (ap shown e) (λ j. view-full q j e i)
    Outcome-Allows _ (fresh q e i l) =
        granted _ (ap shown e) (λ j. fresh-unseen q j e i l)
          (ap shown (
            put_here (student base max_serial n) (some (assigned (assignment n q)))
              (numbered base max_serial n q s) _ refl))
          (λ j f. view-counted q _ j i f)

    -- In a sound state, a run of the script for a two-character year code does what its contract
    -- allows, in terms of the counters that the keys show: NEW answers a counter that no key
    -- showed, when the student's key showed none, and this key alone shows it afterwards; REUSED
    -- answers the counter that the key showed; PENDING, EXHAUSTED and the error leave every key
    -- as it was, and the student's key showing none.
    pub allocate_script-Allows :
        Allows
          (student base max_serial n)
          (view s)
          (view (allocate_script base max_serial n s).1)
          (allocate_script base max_serial n s).0
    allocate_script-Allows = Outcome-Allows _ (allocate_script-Outcome base max_serial n s)
