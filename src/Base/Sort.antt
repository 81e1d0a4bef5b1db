-- ===== src/Base/Sort.antt =====
-- Python's `sorted(xs, key=...)` and `list.sort(key=...)`: a stable sort by a Boolean order.
-- `le x y` is "the key of y is not less than the key of x".
use student_mentor_allocatio.Base.Tests.{Bool-cases, if◌then◌else◌}
use student_mentor_allocatio.Base.Lists.{all, All, In, All-In, All-of_In}
use mathlib.Core.Path.{◌≡◌, refl, ◌∙◌}
use mathlib.Core.Logic.{inl, inr, ∥∥₁_elim}
use mathlib.Core.Bool.{Bool, true, false, Bool-set}
use native.Mathlib.Omega.{arith}
use mathlib.Core.List.{List, [], ◌∷◌, Perm, Permᴰ}
use mathlib.Core.List.Perm

-- A total and transitive Boolean order on the keys.
pub record IsOrder {A : Type 0} (le : A → A → Bool) : Type 0 where
  pub total : (x y : A) → le x y ≡ false → le y x ≡ true
  pub trans : (x y z : A) → le x y ≡ true → le y z ≡ true → le x z ≡ true

module _ {A : Type 0} where
  -- A new element goes before the first one that it may stand before.
  unfoldable pub insert_by : (A → A → Bool) → A → List A → List A
  insert_by le x [] = x ∷ []
  insert_by le x (y ∷ ys) = if le x y then x ∷ y ∷ ys else y ∷ insert_by le x ys

  unfoldable pub sort_by : (A → A → Bool) → List A → List A
  unfolding insert_by
  sort_by le [] = []
  sort_by le (x ∷ xs) = insert_by le x (sort_by le xs)

  -- Every element stands before those that follow it.
  abbrev pub IsSorted : (A → A → Bool) → List A → Type 0
  IsSorted le [] = Unit
  IsSorted le (x ∷ xs) = All (λ y. le x y ≡ true) xs × IsSorted le xs

  insert_by-perm : (le : A → A → Bool) (x : A) (ys : List A) → Perm (insert_by le x ys) (x ∷ ys)
  unfolding insert_by
  insert_by-perm le x [] = Perm.rfl
  insert_by-perm le x (y ∷ ys) = elim (Bool-cases (le x y)) [
    | inl e ↦ rw e Perm.rfl
    | inr e ↦ rw e (Perm.trans (Perm.cons y (insert_by-perm le x ys)) (Perm.swap x y ys))
  ]

  pub sort_by-perm : (le : A → A → Bool) (xs : List A) → Perm (sort_by le xs) xs
  unfolding sort_by
  sort_by-perm le [] = Perm.rfl
  sort_by-perm le (x ∷ xs) =
      Perm.trans (insert_by-perm le x (sort_by le xs)) (Perm.cons x (sort_by-perm le xs))

  pub All-insert_by :
      (P : A → Type 0) (le : A → A → Bool) (x : A) (ys : List A)
      → P x
      → All P ys
      → All P (insert_by le x ys)
  unfolding insert_by
  All-insert_by P le x [] p h = (p, tt)
  All-insert_by P le x (y ∷ ys) p h = elim (Bool-cases (le x y)) [
    | inl e ↦ rw e (p, h)
    | inr e ↦ rw e (h.0, All-insert_by P le x ys p h.1)
  ]

  pub All-sort_by :
      (P : A → Type 0) (le : A → A → Bool) (xs : List A) → All P xs → All P (sort_by le xs)
  unfolding sort_by
  All-sort_by P le [] h = tt
  All-sort_by P le (x ∷ xs) h = All-insert_by P le x (sort_by le xs) h.0 (All-sort_by P le xs h.1)

  In-insert_by_self : (le : A → A → Bool) (x : A) (ys : List A) → In x (insert_by le x ys)
  unfolding insert_by
  In-insert_by_self le x [] = inl refl
  In-insert_by_self le x (y ∷ ys) = elim (Bool-cases (le x y)) [
    | inl e ↦ rw e (inl refl)
    | inr e ↦ rw e (inr (In-insert_by_self le x ys))
  ]

  In-insert_by : (le : A → A → Bool) (a x : A) (ys : List A) → In a ys → In a (insert_by le x ys)
  unfolding insert_by
  In-insert_by le a x [] m = absurd m
  In-insert_by le a x (y ∷ ys) (inl p) = elim (Bool-cases (le x y)) [
    | inl e ↦ rw e (inr (inl p))
    | inr e ↦ rw e (inl p)
  ]
  In-insert_by le a x (y ∷ ys) (inr n) = elim (Bool-cases (le x y)) [
    | inl e ↦ rw e (inr (inr n))
    | inr e ↦ rw e (inr (In-insert_by le a x ys n))
  ]

  pub In-sort_by : (le : A → A → Bool) (a : A) (xs : List A) → In a xs → In a (sort_by le xs)
  unfolding sort_by
  In-sort_by le a [] m = absurd m
  In-sort_by le a (x ∷ xs) (inl e) = rw e (In-insert_by_self le x (sort_by le xs))
  In-sort_by le a (x ∷ xs) (inr m) = In-insert_by le a x (sort_by le xs) (In-sort_by le a xs m)

module _ {A : Type 0} (le : A → A → Bool) (o : IsOrder le) where
  All-trans :
      (x y : A) (zs : List A)
      → le x y ≡ true
      → All (λ z. le y z ≡ true) zs
      → All (λ z. le x z ≡ true) zs
  All-trans x y [] e h = tt
  All-trans x y (z ∷ zs) e h = (o.trans x y z e h.0, All-trans x y zs e h.1)

  insert_by-IsSorted : (x : A) (ys : List A) → IsSorted le ys → IsSorted le (insert_by le x ys)
  unfolding insert_by
  insert_by-IsSorted x [] s = (tt, tt)
  insert_by-IsSorted x (y ∷ ys) s = elim (Bool-cases (le x y)) [
    | inl e ↦ rw e ((e, All-trans x y ys e s.0), s)
    | inr e ↦ rw e (
      All-insert_by (λ z. le y z ≡ true) le x ys (o.total x y e) s.0,
      insert_by-IsSorted x ys s.1,
    )
  ]

  pub sort_by-IsSorted : (xs : List A) → IsSorted le (sort_by le xs)
  unfolding sort_by
  sort_by-IsSorted [] = tt
  sort_by-IsSorted (x ∷ xs) = insert_by-IsSorted x (sort_by le xs) (sort_by-IsSorted xs)

  le_refl_of_total : (x : A) → le x x ≡ true
  le_refl_of_total x = elim (Bool-cases (le x x)) [ inl e ↦ e | inr e ↦ o.total x x e ]

  -- The head of a sorted list stands before every element of the list that was sorted.
  pub sort_by-head-le :
      (xs : List A) (y : A) (ys : List A) → sort_by le xs ≡ y ∷ ys → All (λ z. le y z ≡ true) xs
  sort_by-head-le xs y ys e =
      All-of_In (λ z. le y z ≡ true) xs
        λ a m.
          All-In (λ z. le y z ≡ true) a (y ∷ ys)
            (le_refl_of_total y, (rw e at (sort_by-IsSorted xs)).0) (rw e at (In-sort_by le a xs m))

-- What a permutation keeps: a test that all elements pass.
module _ {A : Type 0} (test : A → Bool) where
  all-swaps : {xs ys : List A} → Permᴰ xs ys → all test xs ≡ all test ys
  all-swaps Permᴰ.nil = refl
  all-swaps (Permᴰ.cons e d) = rw (e, all-swaps d) refl
  all-swaps (Permᴰ.swap e f) = rw (e, f) (ground arith)
  all-swaps (Permᴰ.trans d e) = all-swaps d ∙ all-swaps e

  pub all-perm : {xs ys : List A} → Perm xs ys → all test xs ≡ all test ys
  all-perm {xs} {ys} p = ∥∥₁_elim p (Bool-set (all test xs) (all test ys)) all-swaps
