-- ===== src/Phase3/Rules/Eligible.antt =====
-- What the eight rules of rules.py ask for, stated without the code, and that each rule decides
-- its part.
use student_mentor_allocatio.Base.{
  ◌≡◌, ◌≢◌, ◌↔◌, inl, inr, Bool, true, some, List, [], ◌∷◌, arith, any, In, Bool-cases,
  Option-cases,
}
use student_mentor_allocatio.Base.Int.{ℤ, pos, eq_ℤ, eq_ℤ_iff, ◌≤ℤ◌, ◌<ℤ◌}
use student_mentor_allocatio.Base.Text.{Text, text_eq, text_eq_iff}
use student_mentor_allocatio.Phase3.Contracts.{MentorType, NormalizedStudent, NormalizedMentor}
use student_mentor_allocatio.Phase3.Rules.{
  ManagerCenters, has_number, has_text, check_gender, check_group, check_center, check_reg_status,
  check_capacity, check_school_type, check_graduate, check_manager_gate,
}

-- A student of a special school needs a school mentor of that school, and no other student may
-- have a school mentor.
pub record SchoolsMatch (s : NormalizedStudent) (m : NormalizedMentor) : Type 0 where
  pub special :
      s.student_type ≡ pos 1
      → (m.mentor_type ≡ MentorType.school)
        × ((code : ℤ) × (s.school_code ≡ some code) × In code m.special_schools)
  pub ordinary : s.student_type ≢ pos 1 → m.mentor_type ≡ MentorType.normal

pub record HasRoom (m : NormalizedMentor) : Type 0 where
  pub active : m.is_active ≡ true
  pub load_nonneg : pos 0 ≤ℤ m.current_load
  pub load_below : m.current_load <ℤ m.capacity

-- The manager of the mentor, if there is one, is known and serves the student's center.
abbrev pub ManagerAllows : ManagerCenters → NormalizedStudent → NormalizedMentor → Type 0
ManagerAllows get_allowed_centers s m =
    (manager : ℤ)
    → m.manager_id ≡ some manager
    → (centers : List ℤ) × (get_allowed_centers manager ≡ some centers) × In s.reg_center centers

pub record IsEligible (get_allowed_centers : ManagerCenters) (s : NormalizedStudent)
    (m : NormalizedMentor) : Type 0 where
  pub genders : s.gender ≡ m.gender
  pub group : In s.group_code m.allowed_groups
  pub center : In s.reg_center m.allowed_centers
  pub status : In s.reg_status (pos 0 ∷ pos 1 ∷ pos 3 ∷ [])
  pub room : HasRoom m
  pub schools : SchoolsMatch s m
  pub graduate : s.edu_status ≡ pos 0 → m.mentor_type ≡ MentorType.normal
  pub manager : ManagerAllows get_allowed_centers s m

module _ {A : Type 0} (eq : A → A → Bool) (eq_lem : (a b : A) → (eq a b ≡ true) ↔ (a ≡ b)) where
  pub any→In : (a : A) (xs : List A) → any (eq a) xs ≡ true → In a xs
  any→In a [] h = cc
  any→In a (x ∷ xs) h = elim (Bool-cases (eq a x)) [
    | inl e ↦ inl ((eq_lem a x).0 e)
    | inr e ↦ inr (any→In a xs (ground (arith, e)))
  ]

  pub In→any : (a : A) (xs : List A) → In a xs → any (eq a) xs ≡ true
  In→any a [] m = absurd m
  In→any a (x ∷ xs) (inl e) = ground (arith, (eq_lem a x).1 e)
  In→any a (x ∷ xs) (inr m) = ground (arith, In→any a xs m)

pub has_number_iff : (z : ℤ) (zs : List ℤ) → (has_number z zs ≡ true) ↔ In z zs
has_number_iff z zs = (any→In eq_ℤ eq_ℤ_iff z zs, In→any eq_ℤ eq_ℤ_iff z zs)

pub has_text_iff : (t : Text) (ts : List Text) → (has_text t ts ≡ true) ↔ In t ts
has_text_iff t ts = (any→In text_eq text_eq_iff t ts, In→any text_eq text_eq_iff t ts)

module _ (s : NormalizedStudent) (m : NormalizedMentor) where
  pub gender_iff : ((check_gender s m).passed ≡ true) ↔ (s.gender ≡ m.gender)
  unfolding check_gender
  gender_iff = ground (arith, eq_ℤ_iff s.gender m.gender)

  passed-group : (check_group s m).passed ≡ has_text s.group_code m.allowed_groups
  unfolding check_group
  passed-group = ground arith

  pub group_iff : ((check_group s m).passed ≡ true) ↔ In s.group_code m.allowed_groups
  group_iff = rw passed-group (has_text_iff s.group_code m.allowed_groups)

  passed-center : (check_center s m).passed ≡ has_number s.reg_center m.allowed_centers
  unfolding check_center
  passed-center = ground arith

  pub center_iff : ((check_center s m).passed ≡ true) ↔ In s.reg_center m.allowed_centers
  center_iff = rw passed-center (has_number_iff s.reg_center m.allowed_centers)

  passed-status :
      (check_reg_status s m).passed ≡ has_number s.reg_status (pos 0 ∷ pos 1 ∷ pos 3 ∷ [])
  unfolding check_reg_status
  passed-status = ground arith

  pub status_iff :
      ((check_reg_status s m).passed ≡ true) ↔ In s.reg_status (pos 0 ∷ pos 1 ∷ pos 3 ∷ [])
  status_iff = rw passed-status (has_number_iff s.reg_status (pos 0 ∷ pos 1 ∷ pos 3 ∷ []))

  pub capacity_iff : ((check_capacity s m).passed ≡ true) ↔ HasRoom m
  unfolding check_capacity
  capacity_iff = ground arith

  pub graduate_iff :
      ((check_graduate s m).passed ≡ true)
      ↔ (s.edu_status ≡ pos 0 → m.mentor_type ≡ MentorType.normal)
  unfolding check_graduate
  graduate_iff = ground (arith, eq_ℤ_iff s.edu_status (pos 0))

  school_passed :
      (code : ℤ)
      → s.school_code ≡ some code
      → has_number code m.special_schools ≡ true
      → m.mentor_type ≡ MentorType.school
      → s.student_type ≡ pos 1
      → (check_school_type s m).passed ≡ true
  unfolding check_school_type
  school_passed code e h t st = ground (arith, eq_ℤ_iff s.student_type (pos 1))

  ordinary_passed :
      s.student_type ≢ pos 1
      → m.mentor_type ≡ MentorType.normal
      → (check_school_type s m).passed ≡ true
  unfolding check_school_type
  ordinary_passed h t = ground (arith, eq_ℤ_iff s.student_type (pos 1))

  school_ordinary :
      (check_school_type s m).passed ≡ true
      → s.student_type ≢ pos 1
      → m.mentor_type ≡ MentorType.normal
  unfolding check_school_type
  school_ordinary h st = ground (arith, eq_ℤ_iff s.student_type (pos 1))

  school_special :
      (check_school_type s m).passed ≡ true
      → s.student_type ≡ pos 1
      → (m.mentor_type ≡ MentorType.school)
        × ((code : ℤ) × (s.school_code ≡ some code) × (has_number code m.special_schools ≡ true))
  unfolding check_school_type
  school_special h st = elim (Option-cases s.school_code) [
    | inl e ↦ absurd (ground (arith, eq_ℤ_iff s.student_type (pos 1)))
    | inr (code, e) ↦ (
      ground (arith, eq_ℤ_iff s.student_type (pos 1)),
      (code, e, ground (arith, eq_ℤ_iff s.student_type (pos 1))),
    )
  ]

  SchoolsMatch→passed : SchoolsMatch s m → (check_school_type s m).passed ≡ true
  SchoolsMatch→passed h = elim (Bool-cases (eq_ℤ s.student_type (pos 1))) [
    | inl e ↦
        let st = (eq_ℤ_iff s.student_type (pos 1)).0 e in
        let (t, (code, ec, inside)) = h.special st in
        school_passed code ec ((has_number_iff code m.special_schools).1 inside) t st
    | inr e ↦
        let st : s.student_type ≢ pos 1 = λ p. cc ((eq_ℤ_iff s.student_type (pos 1)).1 p) in
        ordinary_passed st (h.ordinary st)
  ]

  passed→SchoolsMatch : (check_school_type s m).passed ≡ true → SchoolsMatch s m
  passed→SchoolsMatch h = record {
    special = λ st.
        let (t, (code, ec, inside)) = school_special h st in
        (t, (code, ec, (has_number_iff code m.special_schools).0 inside));
    ordinary = school_ordinary h;
  }

  pub schools_iff : ((check_school_type s m).passed ≡ true) ↔ SchoolsMatch s m
  schools_iff = (passed→SchoolsMatch, SchoolsMatch→passed)

module _ (centers_of : ManagerCenters) (s : NormalizedStudent) (m : NormalizedMentor) where
  manager_passed : (check_manager_gate centers_of s m).passed ≡ true → ManagerAllows centers_of s m
  unfolding check_manager_gate
  manager_passed h manager e = elim (Option-cases (centers_of manager)) [
    | inl unknown ↦ absurd (ground arith)
    | inr (centers, known) ↦
        (centers, known, (has_number_iff s.reg_center centers).0 (ground arith))
  ]

  ManagerAllows→passed :
      ManagerAllows centers_of s m → (check_manager_gate centers_of s m).passed ≡ true
  unfolding check_manager_gate
  ManagerAllows→passed h = elim (Option-cases m.manager_id) [
    | inl none_set ↦ ground arith
    | inr (manager, e) ↦
        let (centers, known, inside) = h manager e in
        ground (arith, known, (has_number_iff s.reg_center centers).1 inside)
  ]

  pub manager_iff :
      ((check_manager_gate centers_of s m).passed ≡ true) ↔ ManagerAllows centers_of s m
  manager_iff = (manager_passed, ManagerAllows→passed)
