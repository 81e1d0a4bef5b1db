-- ===== src/Phase3/Engine.antt =====
-- src/sma/phase3_allocation/engine.py: evaluates every mentor and picks the one with the least
-- ranking key. The performance observer, which only counts and times, is left out.
pub mod Best
use student_mentor_allocatio.Base.{
  Bool, true, false, Option, none, some, List, [], ◌∷◌, ◌++◌, if◌then◌else◌,
}
use student_mentor_allocatio.Base.Int.{pos, leb_ℤ}
use student_mentor_allocatio.Base.Sort.{sort_by}
use student_mentor_allocatio.Python.Float.{Floats}
use student_mentor_allocatio.Ranking.{RankingKey, key_le}
use student_mentor_allocatio.Phase3.Contracts.{
  TraceEntry, StudentLike, MentorLike, NormalizedStudent, NormalizedMentor, NormalizationError,
  Normalized, ok, err,
}
use student_mentor_allocatio.Phase3.Policy.{
  EligibilityPolicy, normalize_student, normalize_mentor, run_rules, error_entry,
}

module _ (fl : Floats) where
  open fl use {Float, quotient, one}

  pub record AllocationTraceEntry : Type 0 where
    pub mentor : Option MentorLike
    pub normalized : Option NormalizedMentor
    pub passed : Bool
    pub trace : List TraceEntry
    pub ranking_key : Option (RankingKey fl)

  -- `_compute_occupancy_ratio`
  unfoldable pub compute_occupancy_ratio : NormalizedMentor → Float
  compute_occupancy_ratio mentor =
      if leb_ℤ mentor.capacity (pos 0) then one else quotient mentor.current_load mentor.capacity

  abbrev pub ranking_key_of : NormalizedMentor → RankingKey fl
  ranking_key_of mentor = record {
    occupancy = compute_occupancy_ratio mentor;
    load = mentor.current_load;
    id = mentor.mentor_id;
  }

  -- The entry for a mentor, on the result of its normalisation and on the policy's verdict.
  abbrev pub judged_entry :
      MentorLike → NormalizedMentor → Bool × List TraceEntry → AllocationTraceEntry
  judged_entry mentor normalized (passed, trace) = record {
    mentor = some mentor;
    normalized = some normalized;
    passed = passed;
    trace = trace;
    ranking_key = if passed then some (ranking_key_of normalized) else none;
  }

  abbrev pub failed_entry : Option MentorLike → NormalizationError → AllocationTraceEntry
  failed_entry mentor error = record {
    mentor = mentor;
    normalized = none;
    passed = false;
    trace = error_entry error ∷ [];
    ranking_key = none;
  }

  abbrev pub entry_for :
      EligibilityPolicy
      → NormalizedStudent
      → MentorLike
      → Normalized NormalizedMentor
      → AllocationTraceEntry
  entry_for policy student mentor (err error) = failed_entry (some mentor) error
  entry_for policy student mentor (ok normalized) =
      judged_entry mentor normalized (run_rules policy student normalized)

  -- The body of the loop over the mentors.
  unfoldable pub evaluate_mentor :
      EligibilityPolicy → NormalizedStudent → MentorLike → AllocationTraceEntry
  evaluate_mentor policy student mentor =
      entry_for policy student mentor (normalize_mentor policy mentor)

  abbrev pub Candidate : Type 0
  Candidate = RankingKey fl × AllocationTraceEntry

  -- What a round appends to `passed_candidates`.
  abbrev pub candidate : AllocationTraceEntry → List Candidate
  candidate entry = elim entry.ranking_key [ none ↦ [] | some key ↦ (key, entry) ∷ [] ]

  -- The loop, with `evaluations` and `passed_candidates` so far.
  unfoldable pub evaluate_all :
      EligibilityPolicy
      → NormalizedStudent
      → List MentorLike
      → List AllocationTraceEntry
      → List Candidate
      → List AllocationTraceEntry × List Candidate
  evaluate_all policy student [] evaluations candidates = (evaluations, candidates)
  evaluate_all policy student (mentor ∷ rest) evaluations candidates =
      let entry = evaluate_mentor policy student mentor in
      evaluate_all policy student rest (evaluations ++ entry ∷ []) (candidates ++ candidate entry)

  abbrev pub first_mentor : List Candidate → Option MentorLike
  first_mentor [] = none
  first_mentor ((key, entry) ∷ rest) = entry.mentor

  abbrev pub candidate_le : Candidate → Candidate → Bool
  candidate_le x y = key_le fl x.0 y.0

  unfoldable pub select :
      List AllocationTraceEntry × List Candidate → Option MentorLike × List AllocationTraceEntry
  select (evaluations, candidates) = (first_mentor (sort_by candidate_le candidates), evaluations)

  abbrev pub evaluate_for :
      EligibilityPolicy
      → List MentorLike
      → Normalized NormalizedStudent
      → Option MentorLike × List AllocationTraceEntry
  evaluate_for policy mentors (err error) = (none, failed_entry none error ∷ [])
  evaluate_for policy mentors (ok student) = select (evaluate_all policy student mentors [] [])

  unfoldable pub evaluate :
      EligibilityPolicy
      → StudentLike
      → List MentorLike
      → Option MentorLike × List AllocationTraceEntry
  unfolding evaluate_all evaluate_mentor select
  evaluate policy student mentors = evaluate_for policy mentors (normalize_student policy student)
