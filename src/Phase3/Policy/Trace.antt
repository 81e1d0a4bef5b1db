-- ===== src/Phase3/Policy/Trace.antt =====
-- The verdict and the trace of `_run_rules` in policy.py.
use student_mentor_allocatio.Base.{
  ◌≡◌, refl, ◌∙◌, sym, ◌↔◌, inl, inr, Bool, true, false, ◌&&◌, Option, none, some, List, [], ◌∷◌,
  ◌++◌, map, arith, all, Bool-cases,
}
use student_mentor_allocatio.Base.Int.{ℤ}
use student_mentor_allocatio.Phase3.Contracts.{TraceEntry, NormalizedStudent, NormalizedMentor}
use student_mentor_allocatio.Phase3.Rules.{Rule}
use student_mentor_allocatio.Phase3.Rules.Eligible.{
  IsEligible, gender_iff, group_iff, center_iff, status_iff, capacity_iff, schools_iff,
  graduate_iff, manager_iff,
}
use student_mentor_allocatio.Phase3.Policy.{
  EligibilityPolicy, rules, entry_of, run_loop, limit_trace, run_rules,
}
use mathlib.Core.List.{append-nil, append_assoc}

module _ (s : NormalizedStudent) (m : NormalizedMentor) where
  abbrev passes : Rule → Bool
  passes rule = (rule.check s m).passed

  -- The entries that all rules would leave.
  abbrev pub full_trace : List Rule → List TraceEntry
  full_trace = map (λ rule. entry_of rule (rule.check s m))

  run_loop-verdict :
      (fast : Bool) (rs : List Rule) (p : Bool) (tr : List TraceEntry)
      → (run_loop fast s m rs p tr).0 ≡ (p && all passes rs)
  unfolding run_loop
  run_loop-verdict fast [] p tr = ground arith
  run_loop-verdict fast (r ∷ rs) p tr = ground (
    arith,
    run_loop-verdict fast rs p (tr ++ entry_of r (r.check s m) ∷ []),
    run_loop-verdict fast rs false (tr ++ entry_of r (r.check s m) ∷ []),
  )

  -- Without fast fail every rule leaves its entry.
  run_loop-slow :
      (rs : List Rule) (p : Bool) (tr : List TraceEntry)
      → (run_loop false s m rs p tr).1 ≡ tr ++ full_trace rs
  unfolding run_loop
  run_loop-slow [] p tr = rw append-nil
  run_loop-slow (r ∷ rs) p tr = ground (
    arith,
    run_loop-slow rs p (tr ++ entry_of r (r.check s m) ∷ []),
    run_loop-slow rs false (tr ++ entry_of r (r.check s m) ∷ []),
    append_assoc tr (entry_of r (r.check s m) ∷ []) (full_trace rs),
  )

  -- When all rules pass, fast fail makes no difference.
  run_loop-passed :
      (fast : Bool) (rs : List Rule) (tr : List TraceEntry)
      → all passes rs ≡ true
      → (run_loop fast s m rs true tr).1 ≡ tr ++ full_trace rs
  unfolding run_loop
  run_loop-passed fast [] tr h = rw append-nil
  run_loop-passed fast (r ∷ rs) tr h = ground (
    arith,
    run_loop-passed fast rs (tr ++ entry_of r (r.check s m) ∷ []),
    append_assoc tr (entry_of r (r.check s m) ∷ []) (full_trace rs),
  )

  -- Up to the first rule that fails, which is the last one run.
  abbrev pub StopsAtFailure : List Rule → List TraceEntry → List TraceEntry → Type 0
  StopsAtFailure rs tr result =
      (before : List Rule) × (failed : Rule) × (after : List Rule) × (rs ≡ before ++ failed ∷ after)
      × (all passes before ≡ true)
      × (passes failed ≡ false)
      × (result ≡ tr ++ full_trace (before ++ failed ∷ []))

  stops_later :
      (r : Rule) (rs : List Rule) (tr result : List TraceEntry)
      → passes r ≡ true
      → StopsAtFailure rs (tr ++ entry_of r (r.check s m) ∷ []) result
      → StopsAtFailure (r ∷ rs) tr result
  stops_later r rs tr result p (before, failed, after, e, pb, pf, er) = (
    r ∷ before,
    failed,
    after,
    rw e,
    rw p pb,
    pf,
    rw er (append_assoc tr (entry_of r (r.check s m) ∷ []) (full_trace (before ++ failed ∷ []))),
  )

  run_loop_passed_step :
      (r : Rule) (rs : List Rule) (tr : List TraceEntry)
      → passes r ≡ true
      → run_loop true s m (r ∷ rs) true tr
        ≡ run_loop true s m rs true (tr ++ entry_of r (r.check s m) ∷ [])
  unfolding run_loop
  run_loop_passed_step r rs tr p = ground arith

  run_loop_failed_step :
      (r : Rule) (rs : List Rule) (tr : List TraceEntry)
      → passes r ≡ false
      → run_loop true s m (r ∷ rs) true tr ≡ (false, tr ++ entry_of r (r.check s m) ∷ [])
  unfolding run_loop
  run_loop_failed_step r rs tr p = ground arith

  run_loop-fast :
      (rs : List Rule) (tr : List TraceEntry)
      → all passes rs ≡ false
      → StopsAtFailure rs tr (run_loop true s m rs true tr).1
  run_loop-fast [] tr h = cc
  run_loop-fast (r ∷ rs) tr h = elim (Bool-cases (passes r)) [
    | inl p ↦ rw (run_loop_passed_step r rs tr p) (
        stops_later r rs tr _ p
          (run_loop-fast rs (tr ++ entry_of r (r.check s m) ∷ []) (ground (arith, h, p))))
    | inr p ↦ rw (run_loop_failed_step r rs tr p) ([], r, rs, refl, refl, p, refl)
  ]

module _ (policy : EligibilityPolicy) (s : NormalizedStudent) (m : NormalizedMentor) where
  limit-verdict : (limit : Option ℤ) (r : Bool × List TraceEntry) → (limit_trace limit r).0 ≡ r.0
  limit-verdict none r = refl
  limit-verdict (some limit) (passed, trace) = refl

  limit_approved :
      (limit : Option ℤ) (r : Bool × List TraceEntry) → r.0 ≡ true → (limit_trace limit r).1 ≡ r.1
  limit_approved none r h = refl
  limit_approved (some limit) r h = ground arith

  run_rules-verdict : (run_rules policy s m).0 ≡ all (passes s m) (rules policy)
  unfolding run_rules
  run_rules-verdict =
      limit-verdict policy.config.trace_limit_rejected
        (run_loop policy.config.fast_fail s m (rules policy) true [])
      ∙ run_loop-verdict s m policy.config.fast_fail (rules policy) true []

  all_passed→IsEligible :
      all (passes s m) (rules policy) ≡ true → IsEligible policy.manager_centers s m
  all_passed→IsEligible h = record {
    genders = (gender_iff s m).0 (ground (arith, h));
    group = (group_iff s m).0 (ground (arith, h));
    center = (center_iff s m).0 (ground (arith, h));
    status = (status_iff s m).0 (ground (arith, h));
    room = (capacity_iff s m).0 (ground (arith, h));
    schools = (schools_iff s m).0 (ground (arith, h));
    graduate = (graduate_iff s m).0 (ground (arith, h));
    manager = (manager_iff policy.manager_centers s m).0 (ground (arith, h));
  }

  IsEligible→all_passed :
      IsEligible policy.manager_centers s m → all (passes s m) (rules policy) ≡ true
  IsEligible→all_passed h = rw (
    (gender_iff s m).1 h.genders,
    (group_iff s m).1 h.group,
    (center_iff s m).1 h.center,
    (status_iff s m).1 h.status,
    (capacity_iff s m).1 h.room,
    (schools_iff s m).1 h.schools,
    (graduate_iff s m).1 h.graduate,
    (manager_iff policy.manager_centers s m).1 h.manager,
  )

  -- Whatever the configuration, the run of the rules approves exactly the pairs that are eligible:
  -- genders, group, center, registration status, room, schools, graduates and the manager's centers.
  pub run_rules-iff-IsEligible :
      ((run_rules policy s m).0 ≡ true) ↔ IsEligible policy.manager_centers s m
  run_rules-iff-IsEligible = rw run_rules-verdict (all_passed→IsEligible, IsEligible→all_passed)

  -- With neither fast fail nor a limit the trace has one entry for each of the eight rules, in
  -- their order, with the rule's own verdict, whether the pair is approved or not.
  pub run_rules-full_trace :
      policy.config.fast_fail ≡ false
      → policy.config.trace_limit_rejected ≡ none
      → (run_rules policy s m).1 ≡ full_trace s m (rules policy)
  unfolding run_rules
  run_rules-full_trace slow unlimited =
      rw (slow, unlimited) (run_loop-slow s m (rules policy) true [])

  -- An approval carries the complete trace, whatever the configuration.
  pub run_rules_approved_trace :
      (run_rules policy s m).0 ≡ true → (run_rules policy s m).1 ≡ full_trace s m (rules policy)
  unfolding run_rules
  run_rules_approved_trace h =
      let all_true = sym run_rules-verdict ∙ h in
      let result = run_loop policy.config.fast_fail s m (rules policy) true [] in
      limit_approved policy.config.trace_limit_rejected result
        (run_loop-verdict s m policy.config.fast_fail (rules policy) true [] ∙ all_true)
      ∙ run_loop-passed s m policy.config.fast_fail (rules policy) [] all_true

  -- Under fast fail without a limit, the trace of a rejection ends with its one failed rule: those
  -- before it have passed, and the rules after it were not run.
  pub run_rules_fast_fail :
      policy.config.fast_fail ≡ true
      → policy.config.trace_limit_rejected ≡ none
      → (run_rules policy s m).0 ≡ false
      → StopsAtFailure s m (rules policy) [] (run_rules policy s m).1
  unfolding run_rules
  run_rules_fast_fail fast unlimited h =
      let all_false = sym run_rules-verdict ∙ h in
      rw (run_rules, fast, unlimited) (run_loop-fast s m (rules policy) [] all_false)
