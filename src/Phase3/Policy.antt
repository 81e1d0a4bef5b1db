-- ===== src/Phase3/Policy.antt =====
-- src/sma/phase3_allocation/policy.py, `EligibilityPolicy`: normalisation of whole students and
-- mentors, and the run of the rules with its trace. The two providers are arguments.
pub mod Trace
pub mod Domains
use student_mentor_allocatio.Base.{
  ℕ, zero, suc, ◌+◌, ◌-◌, String, Bool, true, false, not, Option, none, some, List, [], ◌∷◌, ◌++◌,
  take, length, map, if◌then◌else◌,
}
use student_mentor_allocatio.Base.Int.{ℤ, pos, negsuc, eq_ℤ}
use student_mentor_allocatio.Base.Text.{Text, codes, text_eq}
use student_mentor_allocatio.Python.{Unicode, PyValue}
use student_mentor_allocatio.Phase3.Contracts.{
  RuleCode, Message, MentorType, Detail, Details, TraceEntry, StudentLike, MentorLike,
  AllocationConfig, NormalizedStudent, NormalizedMentor, NormalizationError, Normalized, ok, err,
  ◌>>=◌,
}
use student_mentor_allocatio.Phase3.Rules.{
  RuleResult, Rule, ManagerCenters, has_number, all_rules, manager_center_gate_rule,
}
use student_mentor_allocatio.Phase3.Normalize.{
  normalize_text, raise, normalize_int, normalize_optional_int, normalize_enum,
  normalize_optional_enum, normalize_bool,
}

-- `providers.SpecialSchoolsProvider.get`
abbrev pub SpecialSchools : Type 0
SpecialSchools = ℤ → Option (List ℤ)

pub record EligibilityPolicy : Type 0 where
  pub unicode : Unicode
  pub special_schools : SpecialSchools
  pub manager_centers : ManagerCenters
  pub config : AllocationConfig

-- `self._rules`
abbrev pub rules : EligibilityPolicy → List Rule
rules policy = all_rules ++ manager_center_gate_rule policy.manager_centers ∷ []

-- `value or 0`
abbrev pub or_zero : Option ℤ → ℤ
or_zero none = pos 0
or_zero (some z) = z

abbrev derive_in : ℤ → Option (List ℤ) → Option ℤ
derive_in school_code none = none
derive_in school_code (some schools) =
    some (if has_number school_code schools then pos 1 else pos 0)

unfoldable pub derive_student_type : SpecialSchools → Option ℤ → Option ℤ → Option ℤ
derive_student_type special_schools none school_code = none
derive_student_type special_schools (some year) none = none
derive_student_type special_schools (some year) (some school_code) =
    derive_in school_code (special_schools year)

abbrev pub mismatch_warning : List String
mismatch_warning = "student_type_mismatch_roster" ∷ []

-- The student's type and warnings: what the roster says goes before what was provided.
abbrev pub resolve_type : ℤ → Option ℤ → ℤ × List String
resolve_type provided none = (provided, [])
resolve_type provided (some derived) =
    (derived, if not (eq_ℤ provided derived) then mismatch_warning else [])

abbrev require_group : Text → Normalized Text
require_group [] =
    raise RuleCode.group_allowed Message.group_code_empty (("field", Detail.word "group_code") ∷ [])
require_group (c ∷ s) = ok (c ∷ s)

abbrev mentor_type_of : Unicode → PyValue → Normalized MentorType
mentor_type_of u value =
    let text = u.upper (normalize_text value) in
    if text_eq text (codes "NORMAL")
    then ok MentorType.normal
    else if text_eq text (codes "SCHOOL")
    then ok MentorType.school
    else raise RuleCode.school_type_compatible Message.mentor_type_invalid
        (("mentor_type", Detail.raw value) ∷ [])

abbrev pub map_all : {A B : Type 0} → (A → Normalized B) → List A → Normalized (List B)
map_all f [] = ok []
map_all f (x ∷ xs) = f x >>= λ y. map_all f xs >>= λ ys. ok (y ∷ ys)

abbrev pub gender_values : List ℤ
gender_values = pos 0 ∷ pos 1 ∷ []

abbrev pub center_values : List ℤ
center_values = pos 0 ∷ pos 1 ∷ pos 2 ∷ []

abbrev pub status_values : List ℤ
status_values = pos 0 ∷ pos 1 ∷ pos 3 ∷ []

unfoldable pub normalize_student : EligibilityPolicy → StudentLike → Normalized NormalizedStudent
normalize_student policy student = do
  let u = policy.unicode
  gender ← normalize_enum u RuleCode.gender_match "gender" gender_values student.gender
  group_code ← require_group (normalize_text student.group_code)
  reg_center ←
      normalize_enum u RuleCode.center_allowed "reg_center" center_values student.reg_center
  reg_status ←
      normalize_enum u RuleCode.reg_status_allowed "reg_status" status_values student.reg_status
  edu_status ←
      normalize_optional_int u RuleCode.graduate_not_to_school "edu_status" (some (pos 0))
        student.edu_status
  school_code ←
      normalize_optional_int u RuleCode.school_type_compatible "school_code" none
        student.school_code
  roster_year ←
      normalize_optional_int u RuleCode.school_type_compatible "roster_year" none
        student.roster_year
  provided_type ←
      normalize_optional_enum u RuleCode.school_type_compatible "student_type" gender_values (pos 0)
        student.student_type
  let resolved =
      resolve_type provided_type
        (derive_student_type policy.special_schools roster_year school_code)
  ok (record {
    gender = gender;
    group_code = group_code;
    reg_center = reg_center;
    reg_status = reg_status;
    edu_status = or_zero edu_status;
    school_code = school_code;
    student_type = resolved.0;
    roster_year = roster_year;
    warnings = resolved.1;
  })

unfoldable pub normalize_mentor : EligibilityPolicy → MentorLike → Normalized NormalizedMentor
normalize_mentor policy mentor = do
  let u = policy.unicode
  mentor_id ← normalize_int u RuleCode.capacity_available "mentor_id" mentor.mentor_id
  gender ← normalize_enum u RuleCode.gender_match "mentor_gender" gender_values mentor.gender
  let allowed_groups = map normalize_text mentor.allowed_groups
  allowed_centers ←
      map_all (normalize_enum u RuleCode.center_allowed "allowed_center" center_values)
        mentor.allowed_centers
  capacity ← normalize_int u RuleCode.capacity_available "capacity" mentor.capacity
  current_load ← normalize_int u RuleCode.capacity_available "current_load" mentor.current_load
  is_active ← normalize_bool u "is_active" mentor.is_active
  mentor_type ← mentor_type_of u mentor.mentor_type
  special_schools ←
      map_all (normalize_int u RuleCode.school_type_compatible "special_school")
        mentor.special_schools
  manager_id ←
      normalize_optional_int u RuleCode.manager_center_gate "manager_id" none mentor.manager_id
  ok (record {
    mentor_id = mentor_id;
    gender = gender;
    allowed_groups = allowed_groups;
    allowed_centers = allowed_centers;
    capacity = capacity;
    current_load = current_load;
    is_active = is_active;
    mentor_type = mentor_type;
    special_schools = special_schools;
    manager_id = manager_id;
  })

abbrev pub entry_of : Rule → RuleResult → TraceEntry
entry_of rule result = record { code = rule.code; passed = result.passed; details = result.details }

-- The loop over the rules, with the verdict and the trace so far.
unfoldable pub run_loop :
    Bool
    → NormalizedStudent
    → NormalizedMentor
    → List Rule
    → Bool
    → List TraceEntry
    → Bool × List TraceEntry
run_loop fast_fail student mentor [] policy_passed trace = (policy_passed, trace)
run_loop fast_fail student mentor (rule ∷ rest) policy_passed trace =
    let result = rule.check student mentor in
    let trace' = trace ++ entry_of rule result ∷ [] in
    elim result.passed [
      | true ↦ run_loop fast_fail student mentor rest policy_passed trace'
      | false ↦ elim fast_fail [
        | true ↦ (false, trace')
        | false ↦ run_loop fast_fail student mentor rest false trace'
      ]
    ]

-- `items[:limit]`, where a negative limit counts from the end
abbrev pub slice_to : {A : Type 0} → ℤ → List A → List A
slice_to (pos n) items = take n items
slice_to (negsuc n) items = take (length items - suc n) items

abbrev pub limit_trace : Option ℤ → Bool × List TraceEntry → Bool × List TraceEntry
limit_trace none result = result
limit_trace (some limit) (passed, trace) = (passed, if passed then trace else slice_to limit trace)

unfoldable pub run_rules :
    EligibilityPolicy → NormalizedStudent → NormalizedMentor → Bool × List TraceEntry
run_rules policy student mentor =
    limit_trace policy.config.trace_limit_rejected
      (run_loop policy.config.fast_fail student mentor (rules policy) true [])

-- What `evaluate` accepts: a normalised value is taken as it is.
pub data StudentInput : Type 0 where
  like : StudentLike → StudentInput
  normalized : NormalizedStudent → StudentInput

pub data MentorInput : Type 0 where
  like : MentorLike → MentorInput
  normalized : NormalizedMentor → MentorInput

abbrev pub student_of : EligibilityPolicy → StudentInput → Normalized NormalizedStudent
student_of policy (StudentInput.like student) = normalize_student policy student
student_of policy (StudentInput.normalized student) = ok student

abbrev pub mentor_of : EligibilityPolicy → MentorInput → Normalized NormalizedMentor
mentor_of policy (MentorInput.like mentor) = normalize_mentor policy mentor
mentor_of policy (MentorInput.normalized mentor) = ok mentor

-- The single entry that stands for a `NormalizationError`; its own items follow the message.
abbrev pub error_entry : NormalizationError → TraceEntry
error_entry error = record {
  code = error.rule_code;
  passed = false;
  details = ("message", Detail.message error.message) ∷ error.details;
}

abbrev verdict :
    EligibilityPolicy → Normalized (NormalizedStudent × NormalizedMentor) → Bool × List TraceEntry
verdict policy (ok (student, mentor)) = run_rules policy student mentor
verdict policy (err error) = (false, error_entry error ∷ [])

unfoldable pub evaluate : EligibilityPolicy → StudentInput → MentorInput → Bool × List TraceEntry
evaluate policy student mentor =
    verdict policy (student_of policy student >>= λ s. mentor_of policy mentor >>= λ m. ok (s, m))
