-- ===== src/Domain/Fairness/Shuffle.antt =====
-- Every fairness strategy reorders the candidates: none is lost and none is doubled.
use student_mentor_allocatio.Base.{
  ℕ, ◌≡◌, refl, sym, inl, inr, true, false, List, [], ◌∷◌, ◌++◌, map, keep, take, drop, arith,
  Bool-cases, All, All-In, All-map, In, leb, length, take-append-drop,
}
use student_mentor_allocatio.Base.Int.{ℤ, eq_ℤ, ltb_ℤ, eq_ℤ_iff}
use student_mentor_allocatio.Base.Text.{Text}
use student_mentor_allocatio.Base.Sort.{sort_by-perm}
use student_mentor_allocatio.Python.Float.{Floats}
use student_mentor_allocatio.Ranking.{key_le}
use student_mentor_allocatio.Domain.Fairness.{
  Item, RoundRobin, FairnessStrategy, none_, deterministic_jitter, bucket_round_robin, interleave,
  total_of, enough, insert_key, sorted_keys, start_of, recall, jitter_key,
  with_deterministic_jitter, clamp, bucket_key, bucket_le, bucket_of, buckets_of,
  with_bucket_round_robin, rank_by, rank,
}
use student_mentor_allocatio.Domain.Fairness.Interleave.{
  flat, interleave-flat, append_middle, append_comm,
}
use mathlib.Core.List.{Perm}
use mathlib.Core.List.Perm

-- The items of one key.
abbrev group : {A : Type 0} → (A → ℤ) → List A → ℤ → List A
group key xs k = keep (λ x. eq_ℤ k (key x)) xs

-- Keys in ascending order, each once.
abbrev IsStrict : List ℤ → Type 0
IsStrict [] = Unit
IsStrict (k ∷ ks) = All (λ j. ltb_ℤ k j ≡ true) ks × IsStrict ks

All-insert_key : (P : ℤ → Type 0) (k : ℤ) (ks : List ℤ) → P k → All P ks → All P (insert_key k ks)
All-insert_key P k [] p h = (p, tt)
All-insert_key P k (j ∷ js) p h = elim (Bool-cases (eq_ℤ k j)) [
  | inl e ↦ rw (e, insert_key) h
  | inr e ↦ elim (Bool-cases (ltb_ℤ k j)) [
    | inl l ↦ rw (e, l, insert_key) (p, h)
    | inr l ↦ rw (e, l, insert_key) (h.0, All-insert_key P k js p h.1)
  ]
]

All-ltb :
    (k j : ℤ) (js : List ℤ)
    → ltb_ℤ k j ≡ true
    → All (λ i. ltb_ℤ j i ≡ true) js
    → All (λ i. ltb_ℤ k i ≡ true) js
All-ltb k j [] l h = tt
All-ltb k j (i ∷ is) l h = (ground (arith, l, h.0), All-ltb k j is l h.1)

insert_key-IsStrict : (k : ℤ) (ks : List ℤ) → IsStrict ks → IsStrict (insert_key k ks)
insert_key-IsStrict k [] h = (tt, tt)
insert_key-IsStrict k (j ∷ js) h = elim (Bool-cases (eq_ℤ k j)) [
  | inl e ↦ rw (e, insert_key) h
  | inr e ↦ elim (Bool-cases (ltb_ℤ k j)) [
    | inl l ↦ rw (e, l, insert_key) ((l, All-ltb k j js l h.0), h)
    | inr l ↦
        rw (e, l, insert_key)
          (
            All-insert_key (λ i. ltb_ℤ j i ≡ true) k js (ground (arith, e, l)) h.0,
            insert_key-IsStrict k js h.1,
          )
  ]
]

sorted_keys-IsStrict : (ks : List ℤ) → IsStrict (sorted_keys ks)
sorted_keys-IsStrict [] = tt
sorted_keys-IsStrict (k ∷ ks) = insert_key-IsStrict k (sorted_keys ks) (sorted_keys-IsStrict ks)

In-insert_key_self : (k : ℤ) (ks : List ℤ) → In k (insert_key k ks)
In-insert_key_self k [] = inl refl
In-insert_key_self k (j ∷ js) = elim (Bool-cases (eq_ℤ k j)) [
  | inl e ↦ rw (e, insert_key) (inl ((eq_ℤ_iff k j).0 e))
  | inr e ↦ elim (Bool-cases (ltb_ℤ k j)) [
    | inl l ↦ rw (e, l, insert_key) (inl refl)
    | inr l ↦ rw (e, l, insert_key) (inr (In-insert_key_self k js))
  ]
]

In-insert_key : (i k : ℤ) (ks : List ℤ) → In i ks → In i (insert_key k ks)
In-insert_key i k [] m = absurd m
In-insert_key i k (j ∷ js) m = elim (Bool-cases (eq_ℤ k j)) [
  | inl e ↦ rw (e, insert_key) m
  | inr e ↦ elim (Bool-cases (ltb_ℤ k j)) [
    | inl l ↦ rw (e, l, insert_key) (inr m)
    | inr l ↦
        rw (e, l, insert_key) (elim m [ inl a ↦ inl a | inr a ↦ inr (In-insert_key i k js a) ])
  ]
]

module _ {A : Type 0} (key : A → ℤ) where
  sorted_keys-has : (xs : List A) → All (λ x. In (key x) (sorted_keys (map key xs))) xs
  sorted_keys-has [] = tt
  sorted_keys-has (x ∷ xs) =
      let ks = sorted_keys (map key xs) in
      (
        In-insert_key_self (key x) ks,
        All-map (λ y. In (key y) ks) (λ y. In (key y) (insert_key (key x) ks)) xs
            (λ y. In-insert_key (key y) (key x) ks) (sorted_keys-has xs),
      )

  group_takes :
      (x : A) (xs : List A) (k : ℤ)
      → eq_ℤ k (key x) ≡ true
      → group key (x ∷ xs) k ≡ x ∷ group key xs k
  group_takes x xs k e = ground (arith, e)

  group_skips :
      (x : A) (xs : List A) (k : ℤ) → eq_ℤ k (key x) ≡ false → group key (x ∷ xs) k ≡ group key xs k
  group_skips x xs k e = ground (arith, e)

  groups_skip :
      (x : A) (xs : List A) (ks : List ℤ)
      → All (λ j. ltb_ℤ (key x) j ≡ true) ks
      → map (group key (x ∷ xs)) ks ≡ map (group key xs) ks
  groups_skip x xs [] h = refl
  groups_skip x xs (k ∷ ks) h =
      rw (group_skips x xs k (ground (arith, h.0)), groups_skip x xs ks h.1) refl

  -- Adding one item to a grouping that has its key adds it once.
  groups_take :
      (x : A) (xs : List A) (ks : List ℤ)
      → IsStrict ks
      → In (key x) ks
      → Perm (flat (map (group key (x ∷ xs)) ks)) (x ∷ flat (map (group key xs) ks))
  groups_take x xs [] d i = absurd i
  groups_take x xs (k ∷ ks) d (inl e) =
      rw (group_takes x xs k ((eq_ℤ_iff k (key x)).1 (sym e)), groups_skip x xs ks (rw e d.0))
        Perm.rfl
  groups_take x xs (k ∷ ks) d (inr i) =
      rw (group_skips x xs k (ground (arith, All-In (λ j. ltb_ℤ k j ≡ true) (key x) ks d.0 i))) (
        Perm.trans (Perm.append_left (group key xs k) (groups_take x xs ks d.1 i))
          (append_middle x (group key xs k) (flat (map (group key xs) ks))))

  no_items : (ks : List ℤ) → flat (map (group key []) ks) ≡ []
  no_items [] = refl
  no_items (k ∷ ks) = no_items ks

  -- A grouping that has the key of every item holds the items.
  groups_all :
      (xs : List A) (ks : List ℤ)
      → IsStrict ks
      → All (λ x. In (key x) ks) xs
      → Perm (flat (map (group key xs) ks)) xs
  groups_all [] ks d h = rw (no_items ks) Perm.rfl
  groups_all (x ∷ xs) ks d h =
      Perm.trans (groups_take x xs ks d h.0) (Perm.cons x (groups_all xs ks d h.1))

-- Lists that are permuted one by one.
flat_perm :
    {A : Type 0} (f g : ℤ → List A) (ks : List ℤ)
    → ((k : ℤ) → Perm (f k) (g k))
    → Perm (flat (map f ks)) (flat (map g ks))
flat_perm f g [] h = Perm.rfl
flat_perm f g (k ∷ ks) h = Perm.append (h k) (flat_perm f g ks h)

rotate : {A : Type 0} (n : ℕ) (xs : List A) → Perm (drop n xs ++ take n xs) xs
rotate n xs = Perm.trans (append_comm (drop n xs) (take n xs)) (rw (take-append-drop n xs) Perm.rfl)

module _ (fl : Floats) (hash : Text → ℕ) where
  open fl use {Float}

  buckets_perm :
      (key : Text) (size : Float) (items : List Item)
      → Perm (flat (buckets_of fl hash key size items)) items
  buckets_perm key size items =
      let ks = sorted_keys (map (bucket_key fl hash size) items) in
      Perm.trans
        (flat_perm (bucket_of fl hash key size items) (group (bucket_key fl hash size) items) ks
          (λ k. sort_by-perm (bucket_le fl hash key k) (group (bucket_key fl hash size) items k)))
        (groups_all (bucket_key fl hash size) items ks
          (sorted_keys-IsStrict (map (bucket_key fl hash size) items))
          (sorted_keys-has (bucket_key fl hash size) items))

  round_robin_perm :
      (size : Float) (key : Text) (state : RoundRobin) (items : List Item)
      → Perm (with_bucket_round_robin fl hash size key state items).0 items
  unfolding with_bucket_round_robin
  round_robin_perm size key state items =
      let buckets = buckets_of fl hash key (clamp fl hash size) items in
      let interleaved = interleave (enough buckets) (total_of buckets) buckets [] in
      Perm.trans (rotate (start_of fl hash (recall key state) interleaved) interleaved)
        (Perm.trans (interleave-flat buckets) (buckets_perm key (clamp fl hash size) items))

  -- Whatever the strategy, the bucket size, the key and the state of the round robin are, `rank`
  -- gives a permutation of the candidates.
  pub rank-perm :
      (strategy : FairnessStrategy) (size : Float) (key : Text) (state : RoundRobin)
      (items : List Item)
      → Perm (rank fl hash strategy size key state items).0 items
  unfolding rank with_deterministic_jitter
  rank-perm strategy size key state items = elim (Bool-cases (leb (length items) 1)) [
    | inl e ↦ rw e Perm.rfl
    | inr e ↦ rw e (ranked strategy)
  ]
    where
      ranked : (t : FairnessStrategy) → Perm (rank_by fl hash t size key state items).0 items
      ranked none_ = Perm.rfl
      ranked deterministic_jitter =
          sort_by-perm (λ x y. key_le fl (jitter_key fl hash key x) (jitter_key fl hash key y))
            items
      ranked bucket_round_robin = round_robin_perm size key state items
