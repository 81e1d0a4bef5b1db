-- ===== src/Sabt/Merge/Sorts.antt =====
-- The merge of sorted lists by their least heads, and the stable sort of them put together.
use student_mentor_allocatio.Base.{
  ℕ, zero, suc, ◌≡◌, refl, sym, ◌∙◌, ap, inl, inr, Bool, true, false, Option, none, some, List, [],
  ◌∷◌, ◌++◌, length, length-append, All, All-append, arith, Bool-cases,
}
use student_mentor_allocatio.Base.Sort.{IsOrder, insert_by, sort_by, IsSorted, All-sort_by}
use student_mentor_allocatio.Sabt.Merge.{
  earlier, after_empty, pop_least, and_rest, merge_loop, concat, merge,
}

no_elements : {A : Type 0} (xs : List A) → length xs ≡ 0 → xs ≡ []
no_elements [] e = refl
no_elements (x ∷ xs) e = absurd (omega arith)

module _ {A : Type 0} (le : A → A → Bool) where
  -- `xs` inserted from its end.
  abbrev pub inserts : List A → List A → List A
  inserts [] zs = zs
  inserts (x ∷ xs) zs = insert_by le x (inserts xs zs)

  pub sort_by-append : (xs ys : List A) → sort_by le (xs ++ ys) ≡ inserts xs (sort_by le ys)
  unfolding sort_by
  sort_by-append [] ys = refl
  sort_by-append (x ∷ xs) ys = ap (insert_by le x) (sort_by-append xs ys)

  insert_by-least : (x : A) (ys : List A) → All (λ y. le x y ≡ true) ys → insert_by le x ys ≡ x ∷ ys
  unfolding insert_by
  insert_by-least x [] h = refl
  insert_by-least x (y ∷ ys) h = rw h.0 refl

  pub sort_by-fixed : (xs : List A) → IsSorted le xs → sort_by le xs ≡ xs
  unfolding sort_by
  sort_by-fixed [] h = refl
  sort_by-fixed (x ∷ xs) h = rw (sort_by-fixed xs h.1) (insert_by-least x xs h.0)

  -- What stands after `e` is inserted after `e`.
  inserts-after :
      (ys : List A) (e : A) (zs : List A)
      → All (λ y. le y e ≡ false) ys
      → inserts ys (e ∷ zs) ≡ e ∷ inserts ys zs
  unfolding insert_by
  inserts-after [] e zs h = refl
  inserts-after (y ∷ ys) e zs h = rw (inserts-after ys e zs h.1, h.0) refl

  module _ (o : IsOrder le) where
    refl-le : (x : A) → le x x ≡ true
    refl-le x = elim (Bool-cases (le x x)) [ inl t ↦ t | inr f ↦ o.total x x f ]

    -- If `e` is before `x`, it is before all that follow `x`.
    not_before : (e x y : A) → le x e ≡ false → le x y ≡ true → le y e ≡ false
    not_before e x y f t = elim (Bool-cases (le y e)) [
      | inl s ↦ absurd (ground (arith, f, o.trans x y e t s))
      | inr s ↦ s
    ]

    All-not_before :
        (e x : A) (ys : List A)
        → le x e ≡ false
        → All (λ y. le x y ≡ true) ys
        → All (λ y. le y e ≡ false) ys
    All-not_before e x [] f h = tt
    All-not_before e x (y ∷ ys) f h = (not_before e x y f h.0, All-not_before e x ys f h.1)

    All-before :
        (x e : A) (ys : List A)
        → le x e ≡ true
        → All (λ y. le e y ≡ true) ys
        → All (λ y. le x y ≡ true) ys
    All-before x e [] t h = tt
    All-before x e (y ∷ ys) t h = (o.trans x e y t h.0, All-before x e ys t h.1)

    -- What the least head and the rest of the lists are.
    record IsLeast (heap : List (List A)) (e : A) (rest : List (List A)) : Type 0 where
      pub first : sort_by le (concat le heap) ≡ e ∷ sort_by le (concat le rest)
      pub sorted : All (IsSorted le) rest
      pub below : All (λ y. le e y ≡ true) (concat le heap)
      pub count : length (concat le heap) ≡ suc (length (concat le rest))

    abbrev Popped : List (List A) → Option (A × List (List A)) → Type 0
    Popped heap none = concat le heap ≡ []
    Popped heap (some least) = IsLeast heap least.0 least.1

    -- The head of the first list is the least.
    head-IsLeast :
        (x : A) (xs : List A) (rest : List (List A))
        → All (λ y. le x y ≡ true) xs
        → IsSorted le xs
        → All (λ y. le x y ≡ true) (concat le rest)
        → All (IsSorted le) rest
        → IsLeast ((x ∷ xs) ∷ rest) x (xs ∷ rest)
    unfolding sort_by
    head-IsLeast x xs rest h s b r =
        let all = All-append (λ y. le x y ≡ true) xs (concat le rest) h b in
        record {
          first =
              insert_by-least x (sort_by le (xs ++ concat le rest))
                (All-sort_by (λ y. le x y ≡ true) le (xs ++ concat le rest) all);
          sorted = (s, r);
          below = (refl-le x, all);
          count = refl;
        }

    -- The least head of the rest is before the head of the first list.
    rest-IsLeast :
        (x e : A) (xs : List A) (rest left : List (List A))
        → All (λ y. le x y ≡ true) xs
        → IsSorted le xs
        → le x e ≡ false
        → IsLeast rest e left
        → IsLeast ((x ∷ xs) ∷ rest) e ((x ∷ xs) ∷ left)
    rest-IsLeast x e xs rest left h s f l =
        let before : le e x ≡ true = o.total x e f in
        record {
          first =
              sort_by-append (x ∷ xs) (concat le rest)
              ∙ (ap (inserts (x ∷ xs)) l.first
                  ∙ (inserts-after (x ∷ xs) e (sort_by le (concat le left))
                        (f, All-not_before e x xs f h)
                      ∙ ap (λ r. e ∷ r) (sym (sort_by-append (x ∷ xs) (concat le left)))));
          sorted = ((h, s), l.sorted);
          below =
              All-append (λ y. le e y ≡ true) (x ∷ xs) (concat le rest)
                (before, All-before e x xs before h) l.below;
          count = omega (
            arith,
            l.count,
            length-append xs (concat le rest),
            length-append xs (concat le left),
          );
        }

    empty-Popped :
        (heap : List (List A)) (p : Option (A × List (List A)))
        → Popped heap p
        → Popped ([] ∷ heap) (after_empty le p)
    empty-Popped heap none h = h
    empty-Popped heap (some least) h = record {
      first = h.first;
      sorted = (tt, h.sorted);
      below = h.below;
      count = h.count;
    }

    earlier-Popped :
        (x : A) (xs : List A) (rest : List (List A)) (p : Option (A × List (List A)))
        → All (λ y. le x y ≡ true) xs
        → IsSorted le xs
        → All (IsSorted le) rest
        → Popped rest p
        → Popped ((x ∷ xs) ∷ rest) (earlier le x xs rest p)
    earlier-Popped x xs rest none h s r e = head-IsLeast x xs rest h s (rw e tt) r
    earlier-Popped x xs rest (some least) h s r l = elim (Bool-cases (le x least.0)) [
      | inl t ↦
          rw t (head-IsLeast x xs rest h s (All-before x least.0 (concat le rest) t l.below) r)
      | inr f ↦ rw f (rest-IsLeast x least.0 xs rest least.1 h s f l)
    ]

    pop_least-Popped :
        (heap : List (List A)) → All (IsSorted le) heap → Popped heap (pop_least le heap)
    unfolding pop_least
    pop_least-Popped [] h = refl
    pop_least-Popped ([] ∷ rest) h = empty-Popped rest _ (pop_least-Popped rest h.1)
    pop_least-Popped ((x ∷ xs) ∷ rest) h =
        earlier-Popped x xs rest _ h.0.0 h.0.1 h.1 (pop_least-Popped rest h.1)

    and_rest-sort :
        (turns : ℕ) (heap : List (List A)) (p : Option (A × List (List A)))
        → Popped heap p
        → length (concat le heap) ≡ suc turns
        → ((left : List (List A))
            → All (IsSorted le) left
            → length (concat le left) ≡ turns
            → merge_loop le turns left ≡ sort_by le (concat le left))
        → and_rest le (merge_loop le turns) p ≡ sort_by le (concat le heap)
    and_rest-sort turns heap none e n g = absurd (omega (arith, ap length e))
    and_rest-sort turns heap (some least) l n g =
        ap (λ r. least.0 ∷ r) (g least.1 l.sorted (omega (arith, l.count))) ∙ sym l.first

    merge_loop-sort :
        (turns : ℕ) (heap : List (List A))
        → All (IsSorted le) heap
        → length (concat le heap) ≡ turns
        → merge_loop le turns heap ≡ sort_by le (concat le heap)
    unfolding merge_loop sort_by
    merge_loop-sort zero heap h n = rw (no_elements (concat le heap) n) refl
    merge_loop-sort (suc turns) heap h n =
        and_rest-sort turns heap _ (pop_least-Popped heap h) n
          (λ left s m. merge_loop-sort turns left s m)

    -- The loop that takes the least head, and among equal ones that of the first list, until all
    -- lists are empty, gives the stable sort of the lists put together, if each of them is sorted.
    pub merge-sort :
        (heap : List (List A))
        → All (IsSorted le) heap
        → merge le heap ≡ sort_by le (concat le heap)
    unfolding merge
    merge-sort heap h = merge_loop-sort (length (concat le heap)) heap h refl

    -- Two insertions of elements that are not equal in the order.
    insert-twice :
        (x y : A) (zs : List A)
        → le y x ≡ false
        → insert_by le y (insert_by le x zs) ≡ insert_by le x (insert_by le y zs)
    unfolding insert_by
    insert-twice x y [] f = rw (f, o.total y x f) refl
    insert-twice x y (z ∷ zs) f = elim (Bool-cases (le x z)) [
      | inl t ↦ elim (Bool-cases (le y z)) [
        | inl s ↦ rw (t, s, f, o.total y x f) refl
        | inr s ↦ rw (t, s, f) (rw t refl)
      ]
      | inr g ↦
          let s : le y z ≡ false = not_before z x y g (o.total y x f) in
          rw (g, s) (rw g (ap (λ r. z ∷ r) (insert-twice x y zs f)))
    ]

    inserts-insert :
        (x : A) (ys zs : List A) → inserts (insert_by le x ys) zs ≡ insert_by le x (inserts ys zs)
    unfolding insert_by
    inserts-insert x [] zs = refl
    inserts-insert x (y ∷ ys) zs = elim (Bool-cases (le x y)) [
      | inl t ↦ rw t refl
      | inr f ↦
          rw f (
            ap (insert_by le y) (inserts-insert x ys zs) ∙ sym (insert-twice y x (inserts ys zs) f))
    ]

    inserts-sort : (xs zs : List A) → inserts (sort_by le xs) zs ≡ inserts xs zs
    unfolding sort_by
    inserts-sort [] zs = refl
    inserts-sort (x ∷ xs) zs =
        inserts-insert x (sort_by le xs) zs ∙ ap (insert_by le x) (inserts-sort xs zs)

    -- A part that has been sorted before does not change the sort of the whole.
    pub sort_by-part :
        (before part after : List A)
        → sort_by le (before ++ (sort_by le part ++ after)) ≡ sort_by le (before ++ (part ++ after))
    sort_by-part before part after =
        sort_by-append before (sort_by le part ++ after)
        ∙ (ap (inserts before) (
              sort_by-append (sort_by le part) after
              ∙ (inserts-sort part (sort_by le after) ∙ sym (sort_by-append part after)))
            ∙ sym (sort_by-append before (part ++ after)))
