-- ===== src/Domain/Fairness/Rounds.antt =====
-- The order in which the round robin takes the items of its buckets.
use student_mentor_allocatio.Base.{
  ℕ, zero, suc, ◌+◌, ◌-◌, ◌*◌, ◌≤◌, ◌<◌, ◌≡◌, refl, sym, ◌∙◌, ap, inl, inr, true, List, [], ◌∷◌,
  ◌++◌, arith, length, length-append, lt→ltb, ltb, Bool-cases, ltb→lt,
}
use student_mentor_allocatio.Domain.Fairness.{interleave, total_of, enough}
use student_mentor_allocatio.Domain.Fairness.Interleave.{idle, total_of-append}
use mathlib.Core.List.{append_assoc, append-nil}

module _ {A : Type 0} where
  -- The first items of the buckets that have one, in the order of the buckets.
  abbrev pub heads : List (List A) → List A
  heads [] = []
  heads ([] ∷ bs) = heads bs
  heads ((x ∷ b) ∷ bs) = x ∷ heads bs

  -- What the buckets have left then.
  abbrev pub tails : List (List A) → List (List A)
  tails [] = []
  tails ([] ∷ bs) = [] ∷ tails bs
  tails ((x ∷ b) ∷ bs) = b ∷ tails bs

  -- The first items, then the second ones, and so on, for `k` rounds.
  abbrev pub rounds : ℕ → List (List A) → List A
  rounds zero bs = []
  rounds (suc k) bs = heads bs ++ rounds k (tails bs)

  heads-total : (bs : List (List A)) → length (heads bs) + total_of (tails bs) ≡ total_of bs
  heads-total [] = omega arith
  heads-total ([] ∷ bs) = omega (arith, heads-total bs)
  heads-total ((x ∷ b) ∷ bs) = omega (arith, heads-total bs)

  heads-some : (bs : List (List A)) → 0 < total_of bs → 0 < length (heads bs)
  heads-some [] h = absurd (omega arith)
  heads-some ([] ∷ bs) h = heads-some bs (omega arith)
  heads-some ((x ∷ b) ∷ bs) h = omega arith

  heads-none : (bs : List (List A)) → total_of bs ≡ 0 → heads bs ≡ []
  heads-none [] h = refl
  heads-none ([] ∷ bs) h = heads-none bs (omega arith)
  heads-none ((x ∷ b) ∷ bs) h = absurd (omega arith)

  length-tails : (bs : List (List A)) → length (tails bs) ≡ length bs
  length-tails [] = refl
  length-tails ([] ∷ bs) = ap suc (length-tails bs)
  length-tails ((x ∷ b) ∷ bs) = ap suc (length-tails bs)

  total_of-both : (bs cs : List (List A)) → total_of (bs ++ cs) ≡ total_of bs + total_of cs
  total_of-both [] cs = omega arith
  total_of-both (b ∷ bs) cs = omega (arith, total_of-both bs cs)

  -- Where no item is left, the turns of the loop take nothing.
  over :
      (fuel more total : ℕ) (bs cs rest : List (List A)) (acc : List A)
      → total ≡ length acc
      → total_of rest ≡ 0
      → interleave more total bs acc ≡ interleave fuel total cs (acc ++ heads rest)
  over fuel more total bs cs rest acc e none_left =
      rw (heads-none rest none_left, append-nil acc)
        (idle more total bs acc e ∙ sym (idle fuel total cs acc e))

  turn_empty :
      (fuel total : ℕ) (bs : List (List A)) (acc : List A)
      → ltb (length acc) total ≡ true
      → interleave (suc fuel) total ([] ∷ bs) acc ≡ interleave fuel total (bs ++ [] ∷ []) acc
  unfolding interleave
  turn_empty fuel total bs acc t = rw t refl

  turn_item :
      (fuel total : ℕ) (x : A) (b : List A) (bs : List (List A)) (acc : List A)
      → ltb (length acc) total ≡ true
      → interleave (suc fuel) total ((x ∷ b) ∷ bs) acc
        ≡ interleave fuel total (bs ++ b ∷ []) (acc ++ x ∷ [])
  unfolding interleave
  turn_item fuel total x b bs acc t = rw t refl

  -- The queue after a bucket has gone behind those that had their turn, and the next ones too.
  queue : (had after : List (List A)) (b : List A) → (had ++ b ∷ []) ++ after ≡ had ++ b ∷ after
  queue had after b = append_assoc had (b ∷ []) after

  -- One round: a turn for each of the buckets `rest`, which go behind those that had theirs.
  sweep :
      (fuel total : ℕ) (rest had : List (List A)) (acc : List A)
      → total ≡ length acc + (total_of rest + total_of had)
      → interleave (length rest + fuel) total (rest ++ had) acc
        ≡ interleave fuel total (had ++ tails rest) (acc ++ heads rest)
  sweep fuel total [] had acc e =
      let f : 0 + fuel ≡ fuel = omega arith in rw (f, append-nil had, append-nil acc) refl
  sweep fuel total ([] ∷ rest) had acc e = elim (Bool-cases (ltb (length acc) total)) [
    | inl t ↦
        let f : suc (length rest) + fuel ≡ suc (length rest + fuel) = omega arith in
        let later =
          sweep fuel total rest (had ++ [] ∷ []) acc (omega (arith, total_of-append had [])) in
        rw f (
          turn_empty (length rest + fuel) total (rest ++ had) acc t
          ∙ rw (append_assoc rest had ([] ∷ [])) (rw (queue had (tails rest) []) at later))
    | inr t ↦
        over fuel _ total _ (had ++ [] ∷ tails rest) ([] ∷ rest) acc (ground (arith, t, e))
          (ground (arith, t, e))
  ]
  sweep fuel total ((x ∷ b) ∷ rest) had acc e =
      let t : ltb (length acc) total ≡ true = lt→ltb (length acc) total (omega arith) in
      let f : suc (length rest) + fuel ≡ suc (length rest + fuel) = omega arith in
      let later =
        sweep fuel total rest (had ++ b ∷ []) (acc ++ x ∷ [])
          (omega (arith, total_of-append had b, length-append acc (x ∷ []))) in
      rw f (
        turn_item (length rest + fuel) total x b (rest ++ had) acc t
        ∙ rw (append_assoc rest had (b ∷ []))
            (rw (queue had (tails rest) b, append_assoc acc (x ∷ []) (heads rest)) at later))

  rounds_loop :
      (extra k n total : ℕ) (bs : List (List A)) (acc : List A)
      → length bs ≡ n
      → total ≡ length acc + total_of bs
      → total_of bs ≤ k
      → interleave (k * n + extra) total bs acc ≡ acc ++ rounds k bs
  rounds_loop extra zero n total bs acc l e h =
      idle (0 * n + extra) total bs acc (omega arith) ∙ sym (append-nil acc)
  rounds_loop extra (suc k) n total bs acc l e h =
      let f : suc k * n + extra ≡ length bs + (k * n + extra) = omega arith in
      let left = heads-total bs in
      let round = sweep (k * n + extra) total bs [] acc (omega arith) in
      let later =
        rounds_loop extra k n total (tails bs) (acc ++ heads bs) (length-tails bs ∙ l)
          (omega (arith, left, length-append acc (heads bs))) (fewer k bs left h) in
      rw f
        (rw (append-nil bs) at round ∙ (later ∙ append_assoc acc (heads bs) (rounds k (tails bs))))
    where
      fewer :
          (k : ℕ) (bs : List (List A))
          → length (heads bs) + total_of (tails bs) ≡ total_of bs
          → total_of bs ≤ suc k
          → total_of (tails bs) ≤ k
      fewer k bs left h = elim (Bool-cases (ltb 0 (total_of bs))) [
        | inl t ↦ omega (arith, left, heads-some bs (ltb→lt 0 (total_of bs) t))
        | inr t ↦ let none_left : total_of bs ≡ 0 = ground (arith, t) in omega (arith, left)
      ]

  -- With `enough` fuel or any more, so that the fuel does not show, the loop of the round robin takes
  -- first the first item of every bucket that has one, in the order of the buckets, then the second
  -- items, and so on, until all are taken.
  pub interleave-rounds :
      (buckets : List (List A)) (fuel : ℕ)
      → enough buckets ≤ fuel
      → interleave fuel (total_of buckets) buckets [] ≡ rounds (total_of buckets) buckets
  interleave-rounds buckets fuel h =
      let turns : ℕ = total_of buckets * length buckets in
      let small : turns ≤ fuel = grind arith in
      let split : turns + (fuel - turns) ≡ fuel = omega arith in
      ap (λ (f : ℕ). interleave f (total_of buckets) buckets []) (sym split)
      ∙ rounds_loop (fuel - turns) (total_of buckets) (length buckets) (total_of buckets) buckets []
          refl (omega arith) (omega arith)
