-- ===== src/Sabt/Merge.antt =====
-- The loop on the heap of `iter_sorted`, for any elements and any order.
pub mod Sorts
use student_mentor_allocatio.Base.{
  ℕ, zero, suc, ◌≡◌, refl, sym, ◌∙◌, ap, inl, inr, Bool, true, false, Option, none, some, List, [],
  ◌∷◌, ◌++◌, length, length-append, All, All-append, arith, Bool-cases, if◌then◌else◌,
}
use student_mentor_allocatio.Base.Sort.{IsOrder, insert_by, sort_by, IsSorted, All-sort_by}

module _ {A : Type 0} (le : A → A → Bool) where
  -- The least head, the first of equal ones, with what is left of the lists.
  abbrev pub earlier :
      A → List A → List (List A) → Option (A × List (List A)) → Option (A × List (List A))
  earlier x xs rest none = some (x, xs ∷ rest)
  earlier x xs rest (some least) =
      if le x least.0 then some (x, xs ∷ rest) else some (least.0, (x ∷ xs) ∷ least.1)

  abbrev pub after_empty : Option (A × List (List A)) → Option (A × List (List A))
  after_empty none = none
  after_empty (some least) = some (least.0, [] ∷ least.1)

  unfoldable pub pop_least : List (List A) → Option (A × List (List A))
  pop_least [] = none
  pop_least ([] ∷ rest) = after_empty (pop_least rest)
  pop_least ((x ∷ xs) ∷ rest) = earlier x xs rest (pop_least rest)

  -- The loop on the heap, with one turn for each element.
  abbrev pub and_rest : (List (List A) → List A) → Option (A × List (List A)) → List A
  and_rest next none = []
  and_rest next (some least) = least.0 ∷ next least.1

  unfoldable pub merge_loop : ℕ → List (List A) → List A
  unfolding pop_least
  merge_loop zero heap = []
  merge_loop (suc turns) heap = and_rest (merge_loop turns) (pop_least heap)

  abbrev pub concat : List (List A) → List A
  concat [] = []
  concat (xs ∷ rest) = xs ++ concat rest

  unfoldable pub merge : List (List A) → List A
  unfolding merge_loop
  merge heap = merge_loop (length (concat heap)) heap
