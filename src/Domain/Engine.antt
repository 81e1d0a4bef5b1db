-- ===== src/Domain/Engine.antt =====
-- `AllocationEngine` of src/sma/domain/allocation/engine.py: the rules up to the first that fails, then
-- the ranking and the fairness strategy. A `Student` of the domain has no academic year of its own.
pub mod Choice
use student_mentor_allocatio.Base.{
  ℕ, ◌-◌, Bool, true, false, not, Option, none, some, List, [], ◌∷◌, ◌++◌, map, take, replicate,
  length, ltb, leb, ◌&&◌, if◌then◌else◌,
}
use student_mentor_allocatio.Base.Int.{ℤ}
use student_mentor_allocatio.Base.Text.{Text, codes}
use student_mentor_allocatio.Base.Sort.{sort_by}
use student_mentor_allocatio.Python.Float.{Floats}
use student_mentor_allocatio.Ranking.{RankingKey, key_le}
use student_mentor_allocatio.Domain.Rules.{Mentor, Student, ReasonCode, RuleResult}
use student_mentor_allocatio.Domain.Fairness.{
  FairnessStrategy, Item, RoundRobin, occupancy_ratio, rank,
}

-- What the engine is made with: the rules, the fairness configuration, the hash, and `str.isdigit`.
pub record AllocationEngine (fl : Floats) : Type 0 where
  pub rules : List (Student → Mentor → RuleResult)
  pub strategy : FairnessStrategy
  pub bucket_size : fl.Float
  pub stable_counter_hash : Text → ℕ
  pub isdigit : Text → Bool

pub record SelectionResult : Type 0 where
  pub mentor_id : Option ℤ
  pub reason : Option ReasonCode
  pub rule_trace : List (Option ReasonCode)
  pub fairness_strategy : FairnessStrategy
  pub fairness_key : Text

-- The loop over the rules: whether one failed, and the trace.
unfoldable pub check_rules :
    List (Student → Mentor → RuleResult)
    → Student
    → Mentor
    → List (Option ReasonCode)
    → Bool × List (Option ReasonCode)
check_rules [] student m trace = (false, trace)
check_rules (rule ∷ rules) student m trace =
    let result = rule student m in
    let next = check_rules rules student m (trace ++ result.reason ∷ []) in
    if result.ok then next else (true, trace ++ result.reason ∷ [])

-- `entry or reason`
abbrev pub or_reason : Option ReasonCode → Option ReasonCode
or_reason none = some ReasonCode.no_eligible_mentor
or_reason (some reason) = some reason

abbrev pub or_empty : Option (List (Option ReasonCode)) → List (Option ReasonCode)
or_empty none = []
or_empty (some trace) = trace

-- The trace of a failure, padded to the number of rules.
abbrev pub failure_trace : ℕ → Option (List (Option ReasonCode)) → List (Option ReasonCode)
failure_trace n last_failure_trace =
    let trace = or_empty last_failure_trace in
    let padded =
      if ltb (length trace) n then trace ++ replicate (n - length trace) none else trace in
    map or_reason (take n padded)

module _ (fl : Floats) (engine : AllocationEngine fl) where
  open engine use {rules, strategy, bucket_size, stable_counter_hash, isdigit}

  -- The loop over the candidates: those that pass, and the trace of the last one that does not.
  unfoldable pub pass_all :
      Student
      → List Mentor
      → List Item × Option (List (Option ReasonCode))
      → List Item × Option (List (Option ReasonCode))
  pass_all student [] found = found
  pass_all student (m ∷ candidates) (passing, last) =
      let (failed, trace) = check_rules rules student m [] in
      pass_all student candidates
        (if failed then (passing, some trace) else (passing ++ (m, trace) ∷ [], last))

  abbrev key_of_counter : Option Text → Text
  key_of_counter none = codes "default"
  key_of_counter (some counter) =
      if leb 2 (length counter) && isdigit (take 2 counter) then take 2 counter else codes "default"

  -- `_resolve_fairness_key`
  unfoldable pub resolve_fairness_key : Student → Option Text → Text
  resolve_fairness_key student (some (c ∷ year)) = c ∷ year
  resolve_fairness_key student (some []) = key_of_counter student.counter
  resolve_fairness_key student none = key_of_counter student.counter

  abbrev pub item_key : Item → RankingKey fl
  item_key item = record {
    occupancy = occupancy_ratio fl stable_counter_hash item.0;
    load = item.0.current_load;
    id = item.0.mentor_id;
  }

  abbrev pub base_sorted : List Item → List Item
  base_sorted passing = sort_by (λ x y. key_le fl (item_key x) (item_key y)) passing

  -- The result for the ranked candidates; there is one where the code reads `ranked[0]`.
  abbrev pub first_of : Text → Option (List (Option ReasonCode)) → List Item → SelectionResult
  first_of key last ((best, trace) ∷ rest) = record {
    mentor_id = some best.mentor_id;
    reason = none;
    rule_trace = trace;
    fairness_strategy = strategy;
    fairness_key = key;
  }
  first_of key last [] = record {
    mentor_id = none;
    reason = some ReasonCode.no_eligible_mentor;
    rule_trace = failure_trace (length rules) last;
    fairness_strategy = strategy;
    fairness_key = key;
  }

  abbrev pub choose :
      Text
      → RoundRobin
      → List Item × Option (List (Option ReasonCode))
      → SelectionResult × RoundRobin
  choose key state ([], last) = (first_of key last [], state)
  choose key state (item ∷ passing, last) =
      let (ranked, after) =
        rank fl stable_counter_hash strategy bucket_size key state (base_sorted (item ∷ passing)) in
      (first_of key last ranked, after)

  -- `select_best`, with the state of the fairness planner.
  unfoldable pub select_best :
      Student → List Mentor → Option Text → RoundRobin → SelectionResult × RoundRobin
  unfolding pass_all resolve_fairness_key
  select_best student candidates academic_year state =
      choose (resolve_fairness_key student academic_year) state
        (pass_all student candidates ([], none))
