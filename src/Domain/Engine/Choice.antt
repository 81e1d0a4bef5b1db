-- ===== src/Domain/Engine/Choice.antt =====
-- Whom `select_best` selects.
use student_mentor_allocatio.Base.{
  ◌≡◌, ◌≢◌, refl, sym, ◌∙◌, ap, inl, inr, ◌↔◌, Bool, true, false, Option, none, some, List, [], ◌∷◌,
  ◌++◌, arith, Bool-cases, All, In, All-append, All-of_In, any, all, not, ◌&&◌,
}
use student_mentor_allocatio.Base.Int.{ℤ, eq_ℤ, eq_ℤ_iff}
use student_mentor_allocatio.Base.Text.{Text}
use student_mentor_allocatio.Base.Sort.{sort_by-perm, all-perm}
use student_mentor_allocatio.Python.Float.{Floats}
use student_mentor_allocatio.Ranking.{key_le}
use student_mentor_allocatio.Domain.Rules.{Mentor, Student, ReasonCode, RuleResult}
use student_mentor_allocatio.Domain.Fairness.{Item, RoundRobin, rank}
use student_mentor_allocatio.Domain.Fairness.Shuffle.{rank-perm}
use student_mentor_allocatio.Domain.Engine.{
  AllocationEngine, check_rules, pass_all, resolve_fairness_key, item_key, base_sorted, first_of,
  choose, select_best,
}
use mathlib.Core.List.{Perm}
use mathlib.Core.List.Perm

-- Every rule lets the pair pass.
abbrev pub Passes : List (Student → Mentor → RuleResult) → Student → Mentor → Type 0
Passes rules student m = All (λ rule. (rule student m).ok ≡ true) rules

check_rules-iff-Passes :
    (rules : List (Student → Mentor → RuleResult)) (student : Student) (m : Mentor)
    (trace : List (Option ReasonCode))
    → ((check_rules rules student m trace).0 ≡ false) ↔ Passes rules student m
unfolding check_rules
check_rules-iff-Passes [] student m trace = (λ e. tt, λ h. refl)
check_rules-iff-Passes (rule ∷ rules) student m trace =
    let (to, from) =
      check_rules-iff-Passes rules student m (trace ++ (rule student m).reason ∷ []) in
    elim (Bool-cases (rule student m).ok) [
      | inl e ↦ (λ h. (e, to (ground (arith, e, h))), λ h. ground (arith, e, from h.1))
      | inr e ↦ (λ h. absurd (ground (arith, e, h)), λ h. absurd (ground (arith, e, h.0)))
    ]

not_empty : {A : Type 0} (xs : List A) (x : A) → xs ++ x ∷ [] ≢ []
not_empty [] x e = absurd (ground (arith, e))
not_empty (y ∷ xs) x e = absurd (ground (arith, e))

module _ (fl : Floats) (engine : AllocationEngine fl) where
  open engine use {rules, strategy, bucket_size, stable_counter_hash}

  module _ (student : Student) where
    -- A candidate that passed.
    abbrev Passed : List Mentor → Item → Type 0
    Passed candidates item = In item.0 candidates × Passes rules student item.0

    abbrev verdict : Mentor → Bool × List (Option ReasonCode)
    verdict m = check_rules rules student m []

    pass_all-fail :
        (m : Mentor) (ms : List Mentor) (passing : List Item)
        (last : Option (List (Option ReasonCode)))
        → (verdict m).0 ≡ true
        → pass_all fl engine student (m ∷ ms) (passing, last)
          ≡ pass_all fl engine student ms (passing, some (verdict m).1)
    unfolding pass_all
    pass_all-fail m ms passing last e = ap (pass_all fl engine student ms) (ground (arith, e))

    pass_all-pass :
        (m : Mentor) (ms : List Mentor) (passing : List Item)
        (last : Option (List (Option ReasonCode)))
        → (verdict m).0 ≡ false
        → pass_all fl engine student (m ∷ ms) (passing, last)
          ≡ pass_all fl engine student ms (passing ++ (m, (verdict m).1) ∷ [], last)
    unfolding pass_all
    pass_all-pass m ms passing last e = ap (pass_all fl engine student ms) (ground (arith, e))

    pass_all-Passed :
        (candidates ms : List Mentor) (passing : List Item)
        (last : Option (List (Option ReasonCode)))
        → All (λ m. In m candidates) ms
        → All (Passed candidates) passing
        → All (Passed candidates) (pass_all fl engine student ms (passing, last)).0
    unfolding pass_all
    pass_all-Passed candidates [] passing last i h = h
    pass_all-Passed candidates (m ∷ ms) passing last i h = elim (Bool-cases (verdict m).0) [
      | inl e ↦
          rw (pass_all-fail m ms passing last e)
            (pass_all-Passed candidates ms passing (some (verdict m).1) i.1 h)
      | inr e ↦ rw (pass_all-pass m ms passing last e) (
          pass_all-Passed candidates ms (passing ++ (m, (verdict m).1) ∷ []) last i.1 (
            All-append (Passed candidates) passing ((m, (verdict m).1) ∷ []) h
              ((i.0, (check_rules-iff-Passes rules student m []).0 e), tt)))
    ]

    -- Nobody passes if the list of those that did is empty.
    pass_all-none :
        (ms : List Mentor) (passing : List Item) (last : Option (List (Option ReasonCode)))
        → (pass_all fl engine student ms (passing, last)).0 ≡ []
        → (passing ≡ []) × All (λ m. ¬ Passes rules student m) ms
    unfolding pass_all
    pass_all-none [] passing last e = (e, tt)
    pass_all-none (m ∷ ms) passing last e = elim (Bool-cases (verdict m).0) [
      | inl f ↦
          let (nobody, rest) =
            pass_all-none ms passing (some (verdict m).1)
              (sym (ap (λ p. p.0) (pass_all-fail m ms passing last f)) ∙ e) in
          (
            nobody,
            (
              λ h. absurd (ground (arith, f, (check_rules-iff-Passes rules student m []).1 h)),
              rest,
            ),
          )
      | inr f ↦
          let (nobody, rest) =
            pass_all-none ms (passing ++ (m, (verdict m).1) ∷ []) last
              (sym (ap (λ p. p.0) (pass_all-pass m ms passing last f)) ∙ e) in
          absurd (not_empty passing (m, (verdict m).1) nobody)
    ]

    -- One of the candidates with this id, and every rule lets the student have it.
    pub record IsChoice (candidates : List Mentor) (id : ℤ) : Type 0 where
      pub mentor : Mentor
      pub member : In mentor candidates
      pub named : mentor.mentor_id ≡ id
      pub passes : Passes rules student mentor

    abbrev fits : ℤ → Mentor → Bool
    fits id m = eq_ℤ m.mentor_id id && not (verdict m).0

    fits-IsChoice :
        (id : ℤ) (ms candidates : List Mentor)
        → All (λ m. In m candidates) ms
        → any (fits id) ms ≡ true
        → IsChoice candidates id
    fits-IsChoice id [] candidates i h = absurd (ground (arith, h))
    fits-IsChoice id (m ∷ ms) candidates i h = elim (Bool-cases (fits id m)) [
      | inl e ↦ record {
        mentor = m;
        member = i.0;
        named = (eq_ℤ_iff m.mentor_id id).0 (ground (arith, e));
        passes = (check_rules-iff-Passes rules student m []).0 (ground (arith, e));
      }
      | inr e ↦ fits-IsChoice id ms candidates i.1 (ground (arith, e, h))
    ]

    fits-any :
        (item : Item) (ms : List Mentor)
        → In item.0 ms
        → Passes rules student item.0
        → any (fits item.0.mentor_id) ms ≡ true
    fits-any item [] i p = absurd i
    fits-any item (m ∷ ms) (inl e) p =
        let same = (eq_ℤ_iff m.mentor_id item.0.mentor_id).1 (ap (λ z. z.mentor_id) (sym e)) in
        let passed : (verdict m).0 ≡ false =
          (check_rules-iff-Passes rules student m []).1 (rw (sym e) p) in
        ground (arith, same, passed)
    fits-any item (m ∷ ms) (inr i) p = ground (arith, fits-any item ms i p)

    abbrev choice : Text → RoundRobin → List Item × Option (List (Option ReasonCode)) → Option ℤ
    choice key state found = (choose fl engine key state found).0.mentor_id

    choice_fits :
        (candidates : List Mentor) (items : List Item)
        → All (Passed candidates) items
        → all (λ i. any (fits i.0.mentor_id) candidates) items ≡ true
    choice_fits candidates [] h = refl
    choice_fits candidates (item ∷ items) h =
        let (i, p) = h.0 in
        ground (arith, fits-any item candidates i p, choice_fits candidates items h.1)

    first_fits :
        (candidates : List Mentor) (key : Text) (last : Option (List (Option ReasonCode)))
        (ranked : List Item) (id : ℤ)
        → all (λ i. any (fits i.0.mentor_id) candidates) ranked ≡ true
        → (first_of fl engine key last ranked).mentor_id ≡ some id
        → any (fits id) candidates ≡ true
    first_fits candidates key last [] id h e = absurd (ground (arith, e))
    first_fits candidates key last ((best, trace) ∷ rest) id h e =
        let same : best.mentor_id ≡ id = ground (arith, e) in
        let first : any (fits best.mentor_id) candidates ≡ true = ground (arith, h) in
        rw (sym same) first

    ranked_perm :
        (key : Text) (state : RoundRobin) (items : List Item)
        → Perm
            (rank fl stable_counter_hash strategy bucket_size key state
              (base_sorted fl engine items)).0
            items
    ranked_perm key state items =
        Perm.trans
          (rank-perm fl stable_counter_hash strategy bucket_size key state
            (base_sorted fl engine items))
          (sort_by-perm (λ x y. key_le fl (item_key fl engine x) (item_key fl engine y)) items)

    choose-fits :
        (candidates : List Mentor) (key : Text) (state : RoundRobin) (items : List Item)
        (last : Option (List (Option ReasonCode))) (id : ℤ)
        → All (Passed candidates) items
        → choice key state (items, last) ≡ some id
        → any (fits id) candidates ≡ true
    choose-fits candidates key state [] last id h e = absurd (ground (arith, e))
    choose-fits candidates key state (item ∷ items) last id h e =
        first_fits candidates key last
          (rank fl stable_counter_hash strategy bucket_size key state
            (base_sorted fl engine (item ∷ items))).0
          id
          (all-perm (λ i. any (fits i.0.mentor_id) candidates)
              (ranked_perm key state (item ∷ items))
            ∙ choice_fits candidates (item ∷ items) h)
          e

    first-none :
        (key : Text) (last : Option (List (Option ReasonCode))) (ranked : List Item)
        → (first_of fl engine key last ranked).mentor_id ≡ none
        → ranked ≡ []
    first-none key last [] e = refl
    first-none key last ((best, trace) ∷ rest) e = absurd (ground (arith, e))

    choose-none :
        (key : Text) (state : RoundRobin) (items : List Item)
        (last : Option (List (Option ReasonCode)))
        → choice key state (items, last) ≡ none
        → items ≡ []
    choose-none key state [] last e = refl
    choose-none key state (item ∷ items) last e =
        let ranked =
          (rank fl stable_counter_hash strategy bucket_size key state
            (base_sorted fl engine (item ∷ items))).0 in
        let nothing : ranked ≡ [] = first-none key last ranked e in
        let lost : all (λ i. false) ranked ≡ false =
          all-perm (λ i. false) (ranked_perm key state (item ∷ items)) in
        absurd (ground (arith, lost, ap (all (λ i. false)) nothing))

    -- Whatever the rules, the fairness strategy and its state are, the mentor that `select_best` names
    -- is that of a candidate whom every rule lets the student have.
    pub select_best-IsChoice :
        (candidates : List Mentor) (academic_year : Option Text) (state : RoundRobin) (id : ℤ)
        → (select_best fl engine student candidates academic_year state).0.mentor_id ≡ some id
        → IsChoice candidates id
    unfolding select_best
    select_best-IsChoice candidates academic_year state id e =
        let found = pass_all fl engine student candidates ([], none) in
        let here = All-of_In (λ m. In m candidates) candidates (λ m i. i) in
        fits-IsChoice id candidates candidates here (
          choose-fits candidates (resolve_fairness_key fl engine student academic_year) state
            found.0 found.1 id (pass_all-Passed candidates candidates [] none here tt) e)

    -- `select_best` names nobody only when some rule refuses the student every candidate, whatever the
    -- strategy.
    pub select_best-none :
        (candidates : List Mentor) (academic_year : Option Text) (state : RoundRobin)
        → (select_best fl engine student candidates academic_year state).0.mentor_id ≡ none
        → All (λ m. ¬ Passes rules student m) candidates
    unfolding select_best
    select_best-none candidates academic_year state e =
        let found = pass_all fl engine student candidates ([], none) in
        (pass_all-none candidates [] none (
          choose-none (resolve_fairness_key fl engine student academic_year) state found.0 found.1
            e)).1
