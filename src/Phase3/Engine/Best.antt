-- ===== src/Phase3/Engine/Best.antt =====
-- The engine of engine.py picks an eligible mentor with the least key, and none only if there is
-- none.
use student_mentor_allocatio.Base.{
  ◌≡◌, refl, ◌∙◌, sym, ap, ◌↔◌, inl, inr, true, false, Option, none, some, List, [], ◌∷◌, ◌++◌, map,
  arith, In, In-append_right, All, All-In, Bool-cases,
}
use student_mentor_allocatio.Base.Sort.{sort_by, sort_by-head-le, In-sort_by, All-sort_by}
use student_mentor_allocatio.Python.Float.{Floats}
use student_mentor_allocatio.Ranking.{key_le, key_IsOrder}
use student_mentor_allocatio.Phase3.Contracts.{
  StudentLike, MentorLike, NormalizedStudent, NormalizedMentor, NormalizationError,
  Normalized-cases, ok, err,
}
use student_mentor_allocatio.Phase3.Rules.Eligible.{IsEligible}
use student_mentor_allocatio.Phase3.Policy.{
  EligibilityPolicy, normalize_student, normalize_mentor, run_rules,
}
use student_mentor_allocatio.Phase3.Policy.Trace.{run_rules-iff-IsEligible}
use student_mentor_allocatio.Phase3.Engine.{
  AllocationTraceEntry, ranking_key_of, judged_entry, evaluate_mentor, Candidate, candidate,
  evaluate_all, first_mentor, candidate_le, evaluate,
}
use mathlib.Core.List.{append-nil, append_assoc}

-- A mentor of the list that is normalised without an error to `n`, and that the rules approve.
pub record IsEligibleAs (policy : EligibilityPolicy) (s : NormalizedStudent) (mentor : MentorLike)
    (n : NormalizedMentor) : Type 0 where
  pub normalized : normalize_mentor policy mentor ≡ ok n
  pub eligible : IsEligible policy.manager_centers s n

module _ (fl : Floats) (policy : EligibilityPolicy) (s : NormalizedStudent) where
  -- An eligible mentor of the list such that no eligible mentor has a lesser key.
  pub record IsBest (mentors : List MentorLike) (mentor : MentorLike) : Type 0 where
    pub listed : In mentor mentors
    pub normalized : NormalizedMentor
    pub approved : IsEligibleAs policy s mentor normalized
    pub least :
        (other : MentorLike) (n : NormalizedMentor)
        → In other mentors
        → IsEligibleAs policy s other n
        → key_le fl (ranking_key_of fl normalized) (ranking_key_of fl n) ≡ true

  -- The candidates as a plain recursion.
  abbrev candidates : List MentorLike → List (Candidate fl)
  candidates [] = []
  candidates (m ∷ ms) = candidate fl (evaluate_mentor fl policy s m) ++ candidates ms

  evaluate_all_lem :
      (ms : List MentorLike) (ev : List (AllocationTraceEntry fl)) (cs : List (Candidate fl))
      → evaluate_all fl policy s ms ev cs
        ≡ (ev ++ map (evaluate_mentor fl policy s) ms, cs ++ candidates ms)
  unfolding evaluate_all
  evaluate_all_lem [] ev cs = rw (append-nil ev, append-nil cs)
  evaluate_all_lem (m ∷ ms) ev cs = rw (
    evaluate_all_lem ms (ev ++ evaluate_mentor fl policy s m ∷ [])
        (cs ++ candidate fl (evaluate_mentor fl policy s m)),
    append_assoc ev (evaluate_mentor fl policy s m ∷ []) (map (evaluate_mentor fl policy s) ms),
    append_assoc cs (candidate fl (evaluate_mentor fl policy s m)) (candidates ms),
  )

  -- A candidate stands for an eligible mentor of the list, under that mentor's key.
  abbrev IsCandidate : List MentorLike → Candidate fl → Type 0
  IsCandidate ms c =
      (m : MentorLike) × (n : NormalizedMentor) × In m ms
      × IsEligibleAs policy s m n
      × (c.1.mentor ≡ some m)
      × (c.0 ≡ ranking_key_of fl n)

  evaluate_mentor_rejected :
      (m : MentorLike) (n : NormalizedMentor)
      → normalize_mentor policy m ≡ ok n
      → (run_rules policy s n).0 ≡ false
      → candidate fl (evaluate_mentor fl policy s m) ≡ []
  unfolding evaluate_mentor
  evaluate_mentor_rejected m n e r = ground (arith, e)

  evaluate_mentor_failed :
      (m : MentorLike) (error : NormalizationError)
      → normalize_mentor policy m ≡ err error
      → candidate fl (evaluate_mentor fl policy s m) ≡ []
  unfolding evaluate_mentor
  evaluate_mentor_failed m error e = ground (arith, e)

  evaluate_mentor_passed :
      (m : MentorLike) (n : NormalizedMentor)
      → normalize_mentor policy m ≡ ok n
      → (run_rules policy s n).0 ≡ true
      → candidate fl (evaluate_mentor fl policy s m)
        ≡ (ranking_key_of fl n, judged_entry fl m n (true, (run_rules policy s n).1)) ∷ []
  unfolding evaluate_mentor
  evaluate_mentor_passed m n e r = ground (arith, e)

  mentor-evaluate_mentor : (m : MentorLike) → (evaluate_mentor fl policy s m).mentor ≡ some m
  unfolding evaluate_mentor
  mentor-evaluate_mentor m = elim (Normalized-cases (normalize_mentor policy m)) [
    | inl (n, e) ↦ rw e
    | inr (error, e) ↦ rw e
  ]

  later_candidates :
      (m : MentorLike) (ms : List MentorLike) (cs : List (Candidate fl))
      → All (IsCandidate ms) cs
      → All (IsCandidate (m ∷ ms)) cs
  later_candidates m ms [] h = tt
  later_candidates m ms (c ∷ cs) ((m', n, i, el, em, ek), h) =
      ((m', n, inr i, el, em, ek), later_candidates m ms cs h)

  candidates_sound : (ms : List MentorLike) → All (IsCandidate ms) (candidates ms)
  candidates_sound [] = tt
  candidates_sound (m ∷ ms) =
      let later = later_candidates m ms (candidates ms) (candidates_sound ms) in
      elim (Normalized-cases (normalize_mentor policy m)) [
        | inl (n, e) ↦ elim (Bool-cases (run_rules policy s n).0) [
          | inl r ↦ rw (evaluate_mentor_passed m n e r) (
            (
              m,
              n,
              inl refl,
              record { normalized = e; eligible = (run_rules-iff-IsEligible policy s n).0 r },
              refl,
              refl,
            ),
            later,
          )
          | inr r ↦ rw (evaluate_mentor_rejected m n e r) later
        ]
        | inr (error, e) ↦ rw (evaluate_mentor_failed m error e) later
      ]

  candidates_complete :
      (ms : List MentorLike) (m : MentorLike) (n : NormalizedMentor)
      → In m ms
      → IsEligibleAs policy s m n
      → (c : Candidate fl) × In c (candidates ms) × (c.0 ≡ ranking_key_of fl n)
  candidates_complete [] m n i el = absurd i
  candidates_complete (m' ∷ ms) m n (inl e) el =
      let passed = (run_rules-iff-IsEligible policy s n).1 el.eligible in
      let e' : normalize_mentor policy m' ≡ ok n = rw (← e) el.normalized in
      rw (evaluate_mentor_passed m' n e' passed) ((_, inl refl, refl))
  candidates_complete (m' ∷ ms) m n (inr i) el =
      let (c, ic, ek) = candidates_complete ms m n i el in
      (c, In-append_right c (candidate fl (evaluate_mentor fl policy s m')) (candidates ms) ic, ek)

  -- The candidates in the order of their keys.
  abbrev ranked : List MentorLike → List (Candidate fl)
  ranked ms = sort_by (candidate_le fl) (candidates ms)

  IsBest-first :
      (ms : List MentorLike) (m : MentorLike) (cs : List (Candidate fl))
      → ranked ms ≡ cs
      → All (IsCandidate ms) cs
      → first_mentor fl cs ≡ some m
      → IsBest ms m
  IsBest-first ms m [] e h f = cc
  IsBest-first ms m ((k, entry) ∷ rest) e ((m', n, i, el, em, ek), h) f =
      let same : m' ≡ m = cc in
      record {
        listed = rw (← same) i;
        normalized = n;
        approved = rw (← same) el;
        least = λ other n' i' el'.
            let (c, ic, ec) = candidates_complete ms other n' i' el' in
            let below =
              sort_by-head-le (candidate_le fl) (key_IsOrder fl (λ (x : Candidate fl). x.0))
                (candidates ms) (k, entry) rest e in
            rw (← ek, ← ec)
              (All-In (λ z. candidate_le fl (k, entry) z ≡ true) c (candidates ms) below ic);
      }

  first-none :
      (ms : List MentorLike) (cs : List (Candidate fl))
      → All (IsCandidate ms) cs
      → first_mentor fl cs ≡ none
      → cs ≡ []
  first-none ms [] h f = refl
  first-none ms ((k, entry) ∷ rest) ((m, n, i, el, em, ek), h) f = cc

  none-first :
      (ms : List MentorLike) (cs : List (Candidate fl))
      → All (IsCandidate ms) cs
      → ((m : MentorLike) (n : NormalizedMentor) → In m ms → ¬ IsEligibleAs policy s m n)
      → first_mentor fl cs ≡ none
  none-first ms [] h f = refl
  none-first ms ((k, entry) ∷ rest) ((m, n, i, el, em, ek), h) f = absurd (f m n i el)

  ranked_sound : (ms : List MentorLike) → All (IsCandidate ms) (ranked ms)
  ranked_sound ms =
      All-sort_by (IsCandidate ms) (candidate_le fl) (candidates ms) (candidates_sound ms)

  module _ (student : StudentLike) (normal : normalize_student policy student ≡ ok s) where
    evaluate_lem :
        (ms : List MentorLike)
        → evaluate fl policy student ms
          ≡ (first_mentor fl (ranked ms), map (evaluate_mentor fl policy s) ms)
    unfolding evaluate
    evaluate_lem ms = rw (normal, evaluate_all_lem ms [] [])

    -- For a student that has a normal form: the mentor that `evaluate` returns is in the list, is
    -- eligible for the student, and has the least key (occupancy, load, id) of all eligible mentors
    -- of the list.
    pub evaluate-IsBest :
        (ms : List MentorLike) (m : MentorLike)
        → (evaluate fl policy student ms).0 ≡ some m
        → IsBest ms m
    evaluate-IsBest ms m h = IsBest-first ms m (ranked ms) refl (ranked_sound ms) (
        sym (ap (λ (r : Option MentorLike × List (AllocationTraceEntry fl)). r.0) (evaluate_lem ms))
        ∙ h)

    -- For a student that has a normal form, `evaluate` returns no mentor exactly when no mentor of
    -- the list is eligible.
    pub evaluate-none :
        (ms : List MentorLike)
        → ((evaluate fl policy student ms).0 ≡ none)
          ↔ ((m : MentorLike) (n : NormalizedMentor) → In m ms → ¬ IsEligibleAs policy s m n)
    evaluate-none ms = rw evaluate_lem (nobody, none-first ms (ranked ms) (ranked_sound ms))
      where
        nobody :
            first_mentor fl (ranked ms) ≡ none
            → (m : MentorLike) (n : NormalizedMentor) → In m ms
            → ¬ IsEligibleAs policy s m n
        nobody f m n i el =
            let (c, ic, ek) = candidates_complete ms m n i el in
            let empty = first-none ms (ranked ms) (ranked_sound ms) f in
            rw empty at (In-sort_by (candidate_le fl) c (candidates ms) ic)

    -- For a student that has a normal form, `evaluate` leaves one trace entry for each mentor of the
    -- list, in its order.
    pub evaluate_trace :
        (ms : List MentorLike)
        → map (λ (e : AllocationTraceEntry fl). e.mentor) (evaluate fl policy student ms).1
          ≡ map (λ m. some m) ms
    evaluate_trace ms = rw evaluate_lem (entries ms)
      where
        entries :
            (ms : List MentorLike)
            → map (λ (e : AllocationTraceEntry fl). e.mentor) (map (evaluate_mentor fl policy s) ms)
              ≡ map (λ m. some m) ms
        entries [] = refl
        entries (m ∷ ms) = rw (mentor-evaluate_mentor m, entries ms)
