-- ===== src/Domain/Rules.antt =====
-- src/sma/domain/allocation/rules.py and reasons.py, with the entities of src/sma/domain/student and
-- src/sma/domain/mentor. A reason's message is a function of its code, so the code stands for both.
use student_mentor_allocatio.Base.{
  Bool, true, false, not, ◌&&◌, Option, none, some, List, [], ◌∷◌, any, if◌then◌else◌,
}
use student_mentor_allocatio.Base.Int.{ℤ, pos, ltb_ℤ, eq_ℤ}
use student_mentor_allocatio.Base.Text.{Text}

pub data MentorKind : Type 0 where
  normal school : MentorKind

abbrev pub is_school : MentorKind → Bool
is_school MentorKind.school = true
is_school MentorKind.normal = false

pub record Mentor : Type 0 where
  pub mentor_id : ℤ
  pub gender : ℤ
  pub kind : MentorKind
  pub capacity : ℤ
  pub current_load : ℤ
  pub allowed_groups : List ℤ
  pub allowed_centers : List ℤ
  pub school_codes : List ℤ

-- The enumerations of the student are their values.
pub record Student : Type 0 where
  pub gender : ℤ
  pub edu_status : ℤ
  pub reg_center : ℤ
  pub group_code : ℤ
  pub school_code : Option ℤ
  pub student_type : ℤ
  pub counter : Option Text

pub data ReasonCode : Type 0 where
  gender_mismatch group_not_allowed center_not_allowed capacity_full graduate_school_forbidden
        school_student_needs_school_mentor school_code_mismatch
        normal_student_cannot_get_school_mentor no_eligible_mentor :
      ReasonCode

pub record RuleResult : Type 0 where
  pub ok : Bool
  pub reason : Option ReasonCode

-- `RuleResult(True)` and `RuleResult(False, build_reason(code))`
abbrev accept : RuleResult
accept = record { ok = true; reason = none }

abbrev refuse : ReasonCode → RuleResult
refuse code = record { ok = false; reason = some code }

abbrev pub member : ℤ → List ℤ → Bool
member x xs = any (eq_ℤ x) xs

unfoldable pub has_capacity : Mentor → Bool
has_capacity m = ltb_ℤ m.current_load m.capacity

unfoldable pub gender_rule : Student → Mentor → RuleResult
gender_rule s m = if eq_ℤ s.gender m.gender then accept else refuse ReasonCode.gender_mismatch

unfoldable pub group_rule : Student → Mentor → RuleResult
group_rule s m =
    if member s.group_code m.allowed_groups then accept else refuse ReasonCode.group_not_allowed

unfoldable pub center_rule : Student → Mentor → RuleResult
center_rule s m =
    if member s.reg_center m.allowed_centers then accept else refuse ReasonCode.center_not_allowed

unfoldable pub capacity_rule : Student → Mentor → RuleResult
unfolding has_capacity
capacity_rule s m = if has_capacity m then accept else refuse ReasonCode.capacity_full

unfoldable pub graduate_rule : Student → Mentor → RuleResult
graduate_rule s m =
    if eq_ℤ s.edu_status (pos 0) && is_school m.kind
    then refuse ReasonCode.graduate_school_forbidden
    else accept

abbrev teaches : Option ℤ → Mentor → Bool
teaches none m = false
teaches (some code) m = member code m.school_codes

unfoldable pub school_rule : Student → Mentor → RuleResult
school_rule s m =
    if eq_ℤ s.student_type (pos 1)
    then (if not (is_school m.kind)
        then refuse ReasonCode.school_student_needs_school_mentor
        else if teaches s.school_code m
        then accept
        else refuse ReasonCode.school_code_mismatch)
    else if is_school m.kind
    then refuse ReasonCode.normal_student_cannot_get_school_mentor
    else accept

-- The default `rules` of the engine.
abbrev pub default_rules : List (Student → Mentor → RuleResult)
default_rules =
    gender_rule ∷ group_rule ∷ center_rule ∷ capacity_rule ∷ graduate_rule ∷ school_rule ∷ []
