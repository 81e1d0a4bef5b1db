-- ===== src/Domain/Fairness/Interleave.antt =====
-- The loop of the round robin over buckets, with `enough` fuel.
use student_mentor_allocatio.Base.{
  ℕ, zero, suc, ◌+◌, ◌*◌, ◌≤◌, ◌<◌, ◌≡◌, refl, sym, ◌∙◌, ap, List, [], ◌∷◌, ◌++◌, arith, length,
  length-append, lt→ltb,
}
use student_mentor_allocatio.Domain.Fairness.{interleave, total_of, enough}
use mathlib.Core.List.{Perm, append_assoc, append-nil}
use mathlib.Core.List.Perm

module _ {A : Type 0} where
  abbrev pub flat : List (List A) → List A
  flat [] = []
  flat (b ∷ bs) = b ++ flat bs

  -- The empty buckets before the first one that holds an item.
  abbrev gap : List (List A) → ℕ
  gap [] = 0
  gap ([] ∷ bs) = suc (gap bs)
  gap ((x ∷ b) ∷ bs) = 0

  gap-lt : (bs : List (List A)) → 0 < total_of bs → gap bs < length bs
  gap-lt [] h = absurd (omega arith)
  gap-lt ([] ∷ bs) h = omega (arith, gap-lt bs (omega arith))
  gap-lt ((x ∷ b) ∷ bs) h = omega arith

  gap-append : (bs : List (List A)) (b : List A) → 0 < total_of bs → gap (bs ++ b ∷ []) ≡ gap bs
  gap-append [] b h = absurd (omega arith)
  gap-append ([] ∷ bs) b h = ap suc (gap-append bs b (omega arith))
  gap-append ((x ∷ c) ∷ bs) b h = refl

  pub total_of-append :
      (bs : List (List A)) (b : List A) → total_of (bs ++ b ∷ []) ≡ length b + total_of bs
  total_of-append [] b = omega arith
  total_of-append (c ∷ bs) b = omega (arith, total_of-append bs b)

  total_of-flat : (bs : List (List A)) → length (flat bs) ≡ total_of bs
  total_of-flat [] = refl
  total_of-flat (b ∷ bs) = rw length-append (omega (arith, total_of-flat bs))

  pub append_middle : (x : A) (xs ys : List A) → Perm (xs ++ x ∷ ys) (x ∷ xs ++ ys)
  append_middle x [] ys = Perm.rfl
  append_middle x (y ∷ xs) ys =
      Perm.trans (Perm.cons y (append_middle x xs ys)) (Perm.swap x y (xs ++ ys))

  pub append_comm : (xs ys : List A) → Perm (xs ++ ys) (ys ++ xs)
  append_comm [] ys = rw (append-nil ys) Perm.rfl
  append_comm (x ∷ xs) ys =
      Perm.trans (Perm.cons x (append_comm xs ys)) (Perm.symm (append_middle x ys xs))

  flat-append : (bs : List (List A)) (b : List A) → Perm (flat (bs ++ b ∷ [])) (b ++ flat bs)
  flat-append [] b = Perm.rfl
  flat-append (c ∷ bs) b = Perm.trans (Perm.append_left c (flat-append bs b)) (
      rw (sym (append_assoc c b (flat bs)), sym (append_assoc b c (flat bs)))
        (Perm.append_right (flat bs) (append_comm c b)))

  empty_of_length : (xs : List A) → length xs ≡ 0 → xs ≡ []
  empty_of_length [] h = refl
  empty_of_length (x ∷ xs) h = absurd (omega arith)

  pub idle :
      (fuel total : ℕ) (buckets : List (List A)) (acc : List A)
      → total ≡ length acc
      → interleave fuel total buckets acc ≡ acc
  unfolding interleave
  idle zero total buckets acc e = refl
  idle (suc fuel) total [] acc e = refl
  idle (suc fuel) total ([] ∷ buckets) acc e = ground arith
  idle (suc fuel) total ((x ∷ b) ∷ buckets) acc e = ground arith

  interleave_perm :
      (fuel r n total : ℕ) (buckets : List (List A)) (acc : List A)
      → total_of buckets ≡ r
      → length buckets ≡ n
      → total ≡ length acc + r
      → (0 < r → r * n + gap buckets ≤ fuel)
      → Perm (interleave fuel total buckets acc) (acc ++ flat buckets)
  unfolding interleave
  interleave_perm fuel zero n total buckets acc t l e f =
      let none_left : flat buckets ≡ [] =
        empty_of_length (flat buckets) (omega (arith, total_of-flat buckets)) in
      rw (idle fuel total buckets acc (omega arith), none_left, append-nil acc) Perm.rfl
  interleave_perm zero (suc r) n total [] acc t l e f = absurd (omega arith)
  interleave_perm zero (suc r) n total (b ∷ bs) acc t l e f =
      absurd (omega (arith, f (omega arith)))
  interleave_perm (suc fuel) (suc r) n total [] acc t l e f = absurd (omega arith)
  interleave_perm (suc fuel) (suc r) n total ([] ∷ bs) acc t l e f =
      rw (lt→ltb (length acc) total (omega arith)) (
        Perm.trans
          (interleave_perm fuel (suc r) n total (bs ++ [] ∷ []) acc
            (total_of-append bs [] ∙ omega arith) (length-append bs ([] ∷ []) ∙ omega arith) e
            (λ h. omega (arith, f h, gap-append bs [] (omega arith))))
          (Perm.append_left acc (flat-append bs [])))
  interleave_perm (suc fuel) (suc r) n total ((x ∷ b) ∷ bs) acc t l e f =
      rw (lt→ltb (length acc) total (omega arith)) (
        Perm.trans
          (interleave_perm fuel r n total (bs ++ b ∷ []) (acc ++ x ∷ [])
            (total_of-append bs b ∙ omega arith) (length-append bs (b ∷ []) ∙ omega arith)
            (rw length-append (omega arith))
            (λ h. omega (
              arith,
              f (omega arith),
              gap-lt (bs ++ b ∷ []) (omega (arith, total_of-append bs b)),
              length-append bs (b ∷ []),
            )))
          (rw append_assoc (Perm.append_left acc (Perm.cons x (flat-append bs b)))))

  -- With `enough` fuel, which the model gives its loop, every item of every bucket comes out exactly once.
  pub interleave-flat :
      (buckets : List (List A))
      → Perm (interleave (enough buckets) (total_of buckets) buckets []) (flat buckets)
  interleave-flat buckets =
      interleave_perm (enough buckets) (total_of buckets) (length buckets) (total_of buckets)
        buckets [] refl refl (omega arith) (λ h. omega (arith, gap-lt buckets h))
