-- ===== src/Domain/Fairness/Turns.antt =====
-- Where the round robin begins: with the item after the one that was first the last time.
use student_mentor_allocatio.Base.{
  ℕ, suc, ◌%◌, ◌<◌, ◌≡◌, ◌≢◌, refl, sym, ap, inl, inr, ◌⊎◌, Option, none, some, List, [], ◌∷◌, ◌++◌,
  arith, Bool-cases, All, take, drop, length, length-append,
}
use student_mentor_allocatio.Base.Int.{ℤ, eq_ℤ, eq_ℤ_iff}
use student_mentor_allocatio.Base.Text.{Text, text_eq_refl}
use student_mentor_allocatio.Python.Float.{Floats}
use student_mentor_allocatio.Domain.Fairness.{
  Item, RoundRobin, total_of, enough, interleave, index_after, start_of, recall, remember, clamp,
  buckets_of, with_bucket_round_robin,
}
use student_mentor_allocatio.Domain.Fairness.Rounds.{rounds, interleave-rounds}
use mathlib.Core.List.{append-nil}
use native.Mathlib.Nat.{mod-eq_of_lt, mod_self}

-- No item has the mentor `id`.
abbrev pub Lacks : ℤ → List Item → Type 0
Lacks id items = All (λ i. i.0.mentor_id ≢ id) items

-- The items before the first one with the mentor `id`, that one, and those after it.
record Located (id : ℤ) (items : List Item) : Type 0 where
  pub earlier : List Item
  pub served : Item
  pub later : List Item
  pub split : items ≡ earlier ++ served ∷ later
  pub named : served.0.mentor_id ≡ id
  pub first : Lacks id earlier
  pub index : index_after id items ≡ some (suc (length earlier))

locate :
    (id : ℤ) (items : List Item)
    → ((index_after id items ≡ none) × Lacks id items) ⊎ Located id items
locate id [] = inl (refl, tt)
locate id (x ∷ items) = elim (Bool-cases (eq_ℤ x.0.mentor_id id)) [
  | inl e ↦ inr (record {
    earlier = [];
    served = x;
    later = items;
    split = refl;
    named = (eq_ℤ_iff x.0.mentor_id id).0 e;
    first = tt;
    index = rw e refl;
  })
  | inr e ↦
      let other : x.0.mentor_id ≢ id =
        λ same. absurd (ground (arith, e, (eq_ℤ_iff x.0.mentor_id id).1 same)) in
      elim (locate id items) [
        | inl (missing, lacks) ↦ inl (rw (e, missing) refl, (other, lacks))
        | inr l ↦ inr (record {
          earlier = x ∷ l.earlier;
          served = l.served;
          later = l.later;
          split = ap (λ (r : List Item). x ∷ r) l.split;
          named = l.named;
          first = (other, l.first);
          index = rw (e, l.index) refl;
        })
      ]
]

drop_past :
    (xs : List Item) (s : Item) (ys : List Item) → drop (suc (length xs)) (xs ++ s ∷ ys) ≡ ys
drop_past [] s ys = refl
drop_past (x ∷ xs) s ys = drop_past xs s ys

take_past :
    (xs : List Item) (s : Item) (ys : List Item)
    → take (suc (length xs)) (xs ++ s ∷ ys) ≡ xs ++ s ∷ []
take_past [] s ys = refl
take_past (x ∷ xs) s ys = ap (λ (r : List Item). x ∷ r) (take_past xs s ys)

abbrev rotate_by : ℕ → List Item → List Item
rotate_by n items = drop n items ++ take n items

-- Modulo the length, so that after the last item comes the first one.
rotate_past :
    (xs : List Item) (s : Item) (ys : List Item)
    → rotate_by (suc (length xs) % length (xs ++ s ∷ ys)) (xs ++ s ∷ ys) ≡ ys ++ (xs ++ s ∷ [])
rotate_past xs s [] =
    let whole : suc (length xs) ≡ length (xs ++ s ∷ []) =
      omega (arith, length-append xs (s ∷ [])) in
    rw (whole, mod_self (length (xs ++ s ∷ []))) (append-nil (xs ++ s ∷ []))
rotate_past xs s (y ∷ ys) =
    let within : suc (length xs) < length (xs ++ s ∷ y ∷ ys) =
      omega (arith, length-append xs (s ∷ y ∷ ys)) in
    rw (mod-eq_of_lt within, drop_past xs s (y ∷ ys), take_past xs s (y ∷ ys)) refl

-- How the items are turned when the mentor `last` was first the last time: they are as they were if
-- there was none, or if no item has it; and else they begin after the first item that has it.
pub data IsTurn (last : Option ℤ) (items turned : List Item) : Type 0 where
  fresh : last ≡ none → turned ≡ items → IsTurn last items turned
  missing : (id : ℤ) → last ≡ some id → Lacks id items → turned ≡ items → IsTurn last items turned
  past :
      (earlier later : List Item) (served : Item)
      → last ≡ some served.0.mentor_id
      → items ≡ earlier ++ served ∷ later
      → Lacks served.0.mentor_id earlier
      → turned ≡ later ++ (earlier ++ served ∷ [])
      → IsTurn last items turned

module _ (fl : Floats) (hash : Text → ℕ) where
  open fl use {Float}

  start_of-IsTurn :
      (last : Option ℤ) (items : List Item)
      → IsTurn last items (rotate_by (start_of fl hash last items) items)
  start_of-IsTurn none items = fresh refl (append-nil items)
  start_of-IsTurn (some id) items = elim (locate id items) [
    | inl (none_there, lacks) ↦ missing id refl lacks (rw (none_there, start_of) (append-nil items))
    | inr l ↦
        past l.earlier l.later l.served (ap some (sym l.named)) l.split (rw l.named l.first)
          (rw (l.index, start_of, l.split) (rotate_past l.earlier l.served l.later))
  ]

  -- The mentor of the first item, or what was there before.
  abbrev pub mentor_first : List Item → Option ℤ → Option ℤ
  mentor_first [] last = last
  mentor_first (first ∷ rest) last = some first.0.mentor_id

  remember-recall :
      (key : Text) (items : List Item) (state : RoundRobin)
      → recall key (remember fl hash key items state) ≡ mentor_first items (recall key state)
  remember-recall key [] state = refl
  remember-recall key (first ∷ rest) state = rw (text_eq_refl key) refl

  -- Items that are turned from their order, and a state that has the mentor of the first of them.
  pub record IsRound (key : Text) (state : RoundRobin) (order : List Item)
      (result : List Item × RoundRobin) : Type 0 where
    pub turned : IsTurn (recall key state) order result.0
    pub remembered : recall key result.1 ≡ mentor_first result.0 (recall key state)

  -- The bucket round robin puts the items in rounds, the first ones of all its buckets, in their
  -- order, then the second ones, and so on, until all are taken. It begins after the first item of the
  -- mentor that was first the last time under this key, if there was one and an item has it, and
  -- notes the mentor that is first now.
  pub with_bucket_round_robin-IsRound :
      (size : Float) (key : Text) (state : RoundRobin) (items : List Item)
      → let buckets = buckets_of fl hash key (clamp fl hash size) items in
        IsRound key state
          (rounds (total_of buckets) buckets)
          (with_bucket_round_robin fl hash size key state items)
  unfolding with_bucket_round_robin
  with_bucket_round_robin-IsRound size key state items =
      let buckets = buckets_of fl hash key (clamp fl hash size) items in
      let order : interleave (enough buckets) (total_of buckets) buckets []
          ≡ rounds (total_of buckets) buckets =
        interleave-rounds buckets (enough buckets) (omega arith) in
      record {
        turned = rw (sym order) (
            start_of-IsTurn (recall key state)
              (interleave (enough buckets) (total_of buckets) buckets []));
        remembered = remember-recall key _ state;
      }
