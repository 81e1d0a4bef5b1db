-- ===== src/Phase3/Rules.antt =====
-- src/sma/phase3_allocation/rules.py: the eight eligibility rules, each a function of the
-- normalised student and mentor.
pub mod Eligible
use student_mentor_allocatio.Base.{
  ℕ, String, ◌≡◌, Bool, true, false, not, ◌&&◌, ◌||◌, Option, none, some, List, [], ◌∷◌, ◌++◌, any,
  if◌then◌else◌,
}
use student_mentor_allocatio.Base.Int.{ℤ, pos, ltb_ℤ, eq_ℤ}
use student_mentor_allocatio.Base.Text.{Text, text_eq}
use student_mentor_allocatio.Phase3.Contracts.{
  RuleCode, MentorType, Message, Detail, Details, NormalizedStudent, NormalizedMentor,
}

pub record RuleResult : Type 0 where
  pub passed : Bool
  pub details : Details

pub record Rule : Type 0 where
  pub code : RuleCode
  pub check : NormalizedStudent → NormalizedMentor → RuleResult

-- `providers.ManagerCentersProvider.get_allowed_centers`, implemented by the caller
abbrev pub ManagerCenters : Type 0
ManagerCenters = ℤ → Option (List ℤ)

abbrev pub passing : RuleResult
passing = record { passed = true; details = [] }

abbrev pub failing : Details → RuleResult
failing details = record { passed = false; details = details }

abbrev pub is_school : MentorType → Bool
is_school MentorType.normal = false
is_school MentorType.school = true

-- `z in numbers`
abbrev pub has_number : ℤ → List ℤ → Bool
has_number z numbers = any (eq_ℤ z) numbers

-- `text in texts`
abbrev pub has_text : Text → List Text → Bool
has_text text texts = any (text_eq text) texts

unfoldable pub check_gender : NormalizedStudent → NormalizedMentor → RuleResult
check_gender student mentor =
    if eq_ℤ student.gender mentor.gender
    then passing
    else failing (
        ("message", Detail.message Message.genders_differ)
        ∷ ("student_gender", Detail.number student.gender)
        ∷ ("mentor_gender", Detail.number mentor.gender)
        ∷ [])

unfoldable pub check_group : NormalizedStudent → NormalizedMentor → RuleResult
check_group student mentor =
    if has_text student.group_code mentor.allowed_groups
    then passing
    else failing (
        ("message", Detail.message Message.group_not_allowed)
        ∷ ("group_code", Detail.text student.group_code)
        ∷ [])

unfoldable pub check_center : NormalizedStudent → NormalizedMentor → RuleResult
check_center student mentor =
    if has_number student.reg_center mentor.allowed_centers
    then passing
    else failing (
        ("message", Detail.message Message.center_not_allowed)
        ∷ ("reg_center", Detail.number student.reg_center)
        ∷ [])

unfoldable pub check_reg_status : NormalizedStudent → NormalizedMentor → RuleResult
check_reg_status student mentor =
    if has_number student.reg_status (pos 0 ∷ pos 1 ∷ pos 3 ∷ [])
    then passing
    else failing (
        ("message", Detail.message Message.reg_status_invalid)
        ∷ ("reg_status", Detail.number student.reg_status)
        ∷ [])

abbrev capacity_details : Message → NormalizedMentor → Details
capacity_details message mentor =
    ("message", Detail.message message)
    ∷ ("capacity", Detail.number mentor.capacity)
    ∷ ("current_load", Detail.number mentor.current_load)
    ∷ []

unfoldable pub check_capacity : NormalizedStudent → NormalizedMentor → RuleResult
check_capacity student mentor =
    if ltb_ℤ mentor.capacity (pos 0) || ltb_ℤ mentor.current_load (pos 0)
    then failing (capacity_details Message.capacity_negative mentor)
    else if not mentor.is_active
    then failing (("message", Detail.message Message.mentor_inactive) ∷ [])
    else if not (ltb_ℤ mentor.current_load mentor.capacity)
    then failing (capacity_details Message.capacity_full mentor)
    else passing

abbrev warning_details : List String → Details
warning_details [] = []
warning_details (w ∷ ws) = ("warnings", Detail.names (w ∷ ws)) ∷ []

-- The branch for a student of a special school, on the school code.
abbrev check_school : Details → Option ℤ → NormalizedMentor → RuleResult
check_school details none mentor =
    failing (details ++ ("message", Detail.message Message.school_code_missing) ∷ [])
check_school details (some school_code) mentor =
    if not (has_number school_code mentor.special_schools)
    then failing (
        details
        ++ (("message", Detail.message Message.school_not_allowed)
            ∷ ("school_code", Detail.number school_code)
            ∷ []))
    else record { passed = true; details = details }

unfoldable pub check_school_type : NormalizedStudent → NormalizedMentor → RuleResult
check_school_type student mentor =
    let details = warning_details student.warnings in
    if eq_ℤ student.student_type (pos 1)
    then (if not (is_school mentor.mentor_type)
        then failing (
            details
            ++ (("message", Detail.message Message.school_mentor_needed)
                ∷ ("mentor_type", Detail.mentor_type mentor.mentor_type)
                ∷ []))
        else check_school details student.school_code mentor)
    else if is_school mentor.mentor_type
    then failing (details ++ ("message", Detail.message Message.school_mentor_forbidden) ∷ [])
    else record { passed = true; details = details }

unfoldable pub check_graduate : NormalizedStudent → NormalizedMentor → RuleResult
check_graduate student mentor =
    if eq_ℤ student.edu_status (pos 0) && is_school mentor.mentor_type
    then failing (("message", Detail.message Message.graduate_forbidden) ∷ [])
    else passing

-- The gate of a mentor with a manager, on the centers that the provider returns.
abbrev check_centers : NormalizedStudent → Option (List ℤ) → RuleResult
check_centers student none = failing (
    ("message", Detail.message Message.manager_centers_missing)
    ∷ ("reason", Detail.word "manager_centers_not_found")
    ∷ [])
check_centers student (some centers) =
    if not (has_number student.reg_center centers)
    then failing (
        ("message", Detail.message Message.manager_center_forbidden)
        ∷ ("reg_center", Detail.number student.reg_center)
        ∷ [])
    else passing

abbrev check_manager : ManagerCenters → NormalizedStudent → Option ℤ → RuleResult
check_manager get_allowed_centers student none = passing
check_manager get_allowed_centers student (some manager_id) =
    check_centers student (get_allowed_centers manager_id)

unfoldable pub check_manager_gate :
    ManagerCenters → NormalizedStudent → NormalizedMentor → RuleResult
check_manager_gate get_allowed_centers student mentor =
    check_manager get_allowed_centers student mentor.manager_id

abbrev pub all_rules : List Rule
all_rules =
    record { code = RuleCode.gender_match; check = check_gender }
    ∷ record { code = RuleCode.group_allowed; check = check_group }
    ∷ record { code = RuleCode.center_allowed; check = check_center }
    ∷ record { code = RuleCode.reg_status_allowed; check = check_reg_status }
    ∷ record { code = RuleCode.capacity_available; check = check_capacity }
    ∷ record { code = RuleCode.school_type_compatible; check = check_school_type }
    ∷ record { code = RuleCode.graduate_not_to_school; check = check_graduate }
    ∷ []

abbrev pub manager_center_gate_rule : ManagerCenters → Rule
manager_center_gate_rule get_allowed_centers = record {
  code = RuleCode.manager_center_gate;
  check = check_manager_gate get_allowed_centers;
}
