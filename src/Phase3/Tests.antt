-- ===== src/Phase3/Tests.antt =====
-- The phase 3 theorems at concrete students and mentors.
use student_mentor_allocatio.Base.{
  ℕ, ◌≡◌, refl, ◌↔◌, Bool, true, false, Option, none, some, List, [], ◌∷◌, In,
}
use student_mentor_allocatio.Base.Int.{ℤ, pos}
use student_mentor_allocatio.Base.Text.{codes, text_eq, is_space, strip, fold_digit, fold_letter}
use student_mentor_allocatio.Base.Text.Decimal.{decimal}
use student_mentor_allocatio.Python.{PyValue, int, str}
use student_mentor_allocatio.Python.Database.{ascii}
use student_mentor_allocatio.Python.Float.{millionths}
use student_mentor_allocatio.Phase3.Contracts.{
  MentorType, StudentLike, MentorLike, NormalizedStudent, NormalizedMentor, ok,
}
use student_mentor_allocatio.Phase3.Rules.{
  check_gender, check_group, check_center, check_reg_status, check_capacity, check_school_type,
  check_graduate, check_manager_gate,
}
use student_mentor_allocatio.Phase3.Rules.Eligible.{IsEligible}
use student_mentor_allocatio.Phase3.Normalize.{
  normalize_text, normalize_int, normalize_optional_int, normalize_enum, normalize_optional_enum,
  normalize_bool,
}
use student_mentor_allocatio.Phase3.Policy.{
  EligibilityPolicy, derive_student_type, normalize_student, normalize_mentor, run_loop, run_rules,
}
use student_mentor_allocatio.Phase3.Policy.Trace.{run_rules-iff-IsEligible}
use student_mentor_allocatio.Phase3.Policy.Domains.{IsInDomain, normalize_student-IsInDomain}
use student_mentor_allocatio.Phase3.Engine.{compute_occupancy_ratio, evaluate}
use student_mentor_allocatio.Phase3.Engine.Best.{
  IsBest, IsEligibleAs, evaluate-IsBest, evaluate-none,
}
use student_mentor_allocatio.Base.Sort.{sort_by}
use student_mentor_allocatio.Ranking.{key_le}

abbrev schools : ℤ → Option (List ℤ)
schools year = some (pos 501 ∷ [])

abbrev centers : ℤ → Option (List ℤ)
centers manager = some (pos 1 ∷ [])

abbrev policy_with : Bool → EligibilityPolicy
policy_with fast = record {
  unicode = ascii;
  special_schools = schools;
  manager_centers = centers;
  config = record { fast_fail = fast; trace_limit_rejected = none };
}

abbrev policy : EligibilityPolicy
policy = policy_with false

-- A school student, whose type is given as 0 and whose gender comes as a text.
abbrev student : StudentLike
student = record {
  gender = PyValue.text (codes " 1 ");
  group_code = PyValue.text (codes "A1");
  reg_center = PyValue.integer (pos 1);
  reg_status = PyValue.integer (pos 3);
  edu_status = PyValue.integer (pos 1);
  school_code = PyValue.integer (pos 501);
  student_type = PyValue.integer (pos 0);
  roster_year = PyValue.integer (pos 1402);
}

abbrev normal_student : NormalizedStudent
normal_student = record {
  gender = pos 1;
  group_code = codes "A1";
  reg_center = pos 1;
  reg_status = pos 3;
  edu_status = pos 1;
  school_code = some (pos 501);
  student_type = pos 1;
  roster_year = some (pos 1402);
  warnings = "student_type_mismatch_roster" ∷ [];
}

abbrev mentor_with : ℕ → ℕ → MentorLike
mentor_with id load = record {
  mentor_id = PyValue.integer (pos id);
  gender = PyValue.integer (pos 1);
  allowed_groups = PyValue.text (codes "A1") ∷ [];
  allowed_centers = PyValue.integer (pos 1) ∷ PyValue.text (codes "2") ∷ [];
  capacity = PyValue.integer (pos 10);
  current_load = PyValue.integer (pos load);
  is_active = PyValue.text (codes "Yes");
  mentor_type = PyValue.text (codes "school");
  special_schools = PyValue.integer (pos 501) ∷ [];
  manager_id = PyValue.integer (pos 7);
}

abbrev normal_mentor : ℕ → ℕ → NormalizedMentor
normal_mentor id load = record {
  mentor_id = pos id;
  gender = pos 1;
  allowed_groups = codes "A1" ∷ [];
  allowed_centers = pos 1 ∷ pos 2 ∷ [];
  capacity = pos 10;
  current_load = pos load;
  is_active = true;
  mentor_type = MentorType.school;
  special_schools = pos 501 ∷ [];
  manager_id = some (pos 7);
}

-- Mentor 3 is full, and mentor 2 has the least load.
abbrev mentors : List MentorLike
mentors = mentor_with 1 4 ∷ mentor_with 2 3 ∷ mentor_with 3 10 ∷ []

student-normal : normalize_student policy student ≡ ok normal_student
unfolding normalize_student normalize_enum normalize_optional_int normalize_optional_enum
    normalize_text int str strip fold_digit fold_letter is_space derive_student_type decimal
student-normal = refl

mentor-normal : normalize_mentor policy (mentor_with 2 3) ≡ ok (normal_mentor 2 3)
unfolding normalize_mentor normalize_enum normalize_optional_int normalize_int normalize_bool
    normalize_text int str strip fold_digit fold_letter is_space decimal text_eq
mentor-normal = refl

best : (evaluate millionths policy student mentors).0 ≡ some (mentor_with 2 3)
unfolding evaluate normalize_mentor normalize_student normalize_enum normalize_optional_int
    normalize_optional_enum normalize_int normalize_bool normalize_text int str strip fold_digit
    fold_letter is_space decimal text_eq derive_student_type run_rules run_loop check_gender
    check_group check_center check_reg_status check_capacity check_school_type check_graduate
    check_manager_gate compute_occupancy_ratio sort_by key_le
best = refl

-- A mentor of the other gender: the first rule fails, and under fast fail it is the last.
abbrev other_gender : NormalizedMentor
other_gender = record (normal_mentor 2 3) { gender = pos 0 }

run_rules-iff-IsEligible_example :
    ((run_rules policy normal_student (normal_mentor 2 3)).0 ≡ true)
    ↔ IsEligible centers normal_student (normal_mentor 2 3)
run_rules-iff-IsEligible_example =
    run_rules-iff-IsEligible policy normal_student (normal_mentor 2 3)

normalize_student-IsInDomain_example : IsInDomain normal_student
normalize_student-IsInDomain_example =
    normalize_student-IsInDomain policy student normal_student student-normal

evaluate-IsBest_example : IsBest millionths policy normal_student mentors (mentor_with 2 3)
evaluate-IsBest_example =
    evaluate-IsBest millionths policy normal_student student student-normal mentors
      (mentor_with 2 3) best

evaluate-none_example : ((evaluate millionths policy student mentors).0 ≡ none) ↔ (
    (m : MentorLike) (n : NormalizedMentor)
    → In m mentors
    → ¬ IsEligibleAs policy normal_student m n)
evaluate-none_example =
    evaluate-none millionths policy normal_student student student-normal mentors
