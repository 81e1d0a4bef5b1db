-- ===== src/Phase3/Policy/Domains.antt =====
-- What a student that passed `normalize_student` looks like, and how the roster decides its type.
use student_mentor_allocatio.Base.{
  ◌≡◌, ◌≢◌, refl, ◌↔◌, ◌∙◌, ap, inl, inr, true, none, some, List, [], arith, In, Bool-cases,
  Option-cases, if◌then◌else◌, Option, String,
}
use student_mentor_allocatio.Base.Int.{ℤ, pos}
use student_mentor_allocatio.Phase3.Contracts.{
  RuleCode, StudentLike, NormalizedStudent, NormalizedMentor, Normalized-cases, ok,
}
use student_mentor_allocatio.Phase3.Rules.{has_number, check_reg_status}
use student_mentor_allocatio.Phase3.Rules.Eligible.{has_number_iff, status_iff}
use student_mentor_allocatio.Phase3.Normalize.{
  normalize_text, normalize_enum, normalize_optional_enum,
}
use student_mentor_allocatio.Phase3.Normalize.Values.{normalize_enum-In, normalize_optional_enum-In}
use student_mentor_allocatio.Phase3.Policy.{
  EligibilityPolicy, gender_values, center_values, status_values, derive_student_type, resolve_type,
  require_group, normalize_student,
}

-- The types that contracts.py promises of a `NormalizedStudent`.
pub record IsInDomain (s : NormalizedStudent) : Type 0 where
  pub gender : In s.gender gender_values
  pub group : s.group_code ≢ []
  pub center : In s.reg_center center_values
  pub status : In s.reg_status status_values
  pub student_type : In s.student_type gender_values

derived_domain :
    (policy : EligibilityPolicy) (year code : Option ℤ) (provided : ℤ)
    → In provided gender_values
    → In
        (resolve_type provided (derive_student_type policy.special_schools year code)).0
        gender_values
unfolding derive_student_type
derived_domain policy none code provided h = h
derived_domain policy (some year) none provided h = h
derived_domain policy (some year) (some code) provided h =
    elim (Option-cases (policy.special_schools year)) [
      | inl missing ↦ rw missing h
      | inr (schools, found) ↦ rw found (elim (Bool-cases (has_number code schools)) [
        | inl e ↦ rw e (inr (inl refl))
        | inr e ↦ rw e (inl refl)
      ])
    ]

module _ (policy : EligibilityPolicy) (student : StudentLike) where
  normalize_student_parts :
      {s : NormalizedStudent}
      → normalize_student policy student ≡ ok s
      → (provided : ℤ) × (normalize_enum policy.unicode RuleCode.gender_match "gender" gender_values
            student.gender
          ≡ ok s.gender)
        × (require_group (normalize_text student.group_code) ≡ ok s.group_code)
        × (normalize_enum policy.unicode RuleCode.center_allowed "reg_center" center_values
              student.reg_center
            ≡ ok s.reg_center)
        × (normalize_enum policy.unicode RuleCode.reg_status_allowed "reg_status" status_values
              student.reg_status
            ≡ ok s.reg_status)
        × (normalize_optional_enum policy.unicode RuleCode.school_type_compatible "student_type"
              gender_values
              (pos 0)
              student.student_type
            ≡ ok provided)
        × ((s.student_type, s.warnings)
            ≡ resolve_type provided
                (derive_student_type policy.special_schools s.roster_year s.school_code))
  unfolding normalize_student
  normalize_student_parts h =
      elim (Normalized-cases (
        normalize_optional_enum policy.unicode RuleCode.school_type_compatible "student_type"
          gender_values (pos 0) student.student_type)) [
            | inl (provided, e) ↦
                (provided, ground arith, ground arith, ground arith, ground arith, e, ground arith)
            | inr (error, e) ↦ absurd (ground arith)
          ]

  require_group-nonempty :
      (s : NormalizedStudent)
      → require_group (normalize_text student.group_code) ≡ ok s.group_code
      → s.group_code ≢ []
  require_group-nonempty s h empty = ground arith

  -- A student that `normalize_student` returns has a gender and a type of 0 or 1, a center of 0, 1
  -- or 2, a registration status of 0, 1 or 3, and a group code that is not empty.
  pub normalize_student-IsInDomain :
      (s : NormalizedStudent) → normalize_student policy student ≡ ok s → IsInDomain s
  normalize_student-IsInDomain s h =
      let (provided, eg, egr, ec, est, et, resolved) = normalize_student_parts {s = s} h in
      let u = policy.unicode in
      let provided_in =
        normalize_optional_enum-In u RuleCode.school_type_compatible "student_type" gender_values
          (pos 0) student.student_type provided (inl refl) et in
      record {
        gender =
            normalize_enum-In u RuleCode.gender_match "gender" gender_values student.gender s.gender
              eg;
        group = require_group-nonempty s egr;
        center =
            normalize_enum-In u RuleCode.center_allowed "reg_center" center_values
              student.reg_center s.reg_center ec;
        status =
            normalize_enum-In u RuleCode.reg_status_allowed "reg_status" status_values
              student.reg_status s.reg_status est;
        student_type =
            rw (ap (λ (p : ℤ × List String). p.0) resolved)
              (derived_domain policy s.roster_year s.school_code provided provided_in);
      }

  -- The registration status rule never rejects a student that `normalize_student` returned,
  -- whatever the mentor.
  pub normalize_student-reg_status :
      (s : NormalizedStudent) (m : NormalizedMentor)
      → normalize_student policy student ≡ ok s
      → (check_reg_status s m).passed ≡ true
  normalize_student-reg_status s m h = (status_iff s m).1 (normalize_student-IsInDomain s h).status

  -- When the roster of the student's year is known, it decides the student's type: 1 exactly if the
  -- school code is among the year's special schools, whatever type was provided.
  pub normalize_student-roster :
      (s : NormalizedStudent) (year code : ℤ) (schools : List ℤ)
      → normalize_student policy student ≡ ok s
      → s.roster_year ≡ some year
      → s.school_code ≡ some code
      → policy.special_schools year ≡ some schools
      → ((s.student_type ≡ pos 1) ↔ In code schools)
  unfolding derive_student_type
  normalize_student-roster s year code schools h ey ec es =
      let (provided, eg, egr, ecn, est, et, resolved) = normalize_student_parts {s = s} h in
      let derived : s.student_type ≡ (if has_number code schools then pos 1 else pos 0) =
        ap (λ (p : ℤ × List String). p.0) resolved ∙ ground (arith, ey, ec, es) in
      (
        λ e. (has_number_iff code schools).0 (ground (arith, derived, e)),
        λ i. ground (arith, derived, (has_number_iff code schools).1 i),
      )
