-- ===== src/Phase3/Contracts.antt =====
-- src/sma/phase3_allocation/contracts.py, and the `NormalizationError` of policy.py.
-- A frozenset is the list of its members; `details` is the list of a dict's items in order.
use student_mentor_allocatio.Base.{String, Bool, Option, List, ◌≡◌, refl, ◌⊎◌, inl, inr}
use student_mentor_allocatio.Base.Int.{ℤ}
use student_mentor_allocatio.Base.Text.{Text}
use student_mentor_allocatio.Python.{PyValue}

pub data RuleCode : Type 0 where
  gender_match group_allowed center_allowed reg_status_allowed capacity_available : RuleCode
  school_type_compatible graduate_not_to_school manager_center_gate : RuleCode

pub data MentorType : Type 0 where
  normal school : MentorType

-- One constructor for each Persian message of rules.py and policy.py; the f-strings carry the name
-- of the field.
pub data Message : Type 0 where
  genders_differ group_not_allowed center_not_allowed reg_status_invalid : Message
  capacity_negative mentor_inactive capacity_full : Message
  school_mentor_needed school_code_missing school_not_allowed school_mentor_forbidden : Message
  graduate_forbidden manager_centers_missing manager_center_forbidden : Message
  group_code_empty mentor_type_invalid : Message
  value_invalid value_empty not_a_number out_of_range not_a_bool : String → Message

-- A value of a `details` dict.
pub data Detail : Type 0 where
  message : Message → Detail
  word : String → Detail
  number : ℤ → Detail
  numbers : List ℤ → Detail
  text : Text → Detail
  names : List String → Detail
  mentor_type : MentorType → Detail
  raw : PyValue → Detail

abbrev pub Details : Type 0
Details = List (String × Detail)

pub record TraceEntry : Type 0 where
  pub code : RuleCode
  pub passed : Bool
  pub details : Details

-- What a caller hands in; an attribute that is missing is `None`.
pub record StudentLike : Type 0 where
  pub gender : PyValue
  pub group_code : PyValue
  pub reg_center : PyValue
  pub reg_status : PyValue
  pub edu_status : PyValue
  pub school_code : PyValue
  pub student_type : PyValue
  pub roster_year : PyValue

pub record MentorLike : Type 0 where
  pub mentor_id : PyValue
  pub gender : PyValue
  pub allowed_groups : List PyValue
  pub allowed_centers : List PyValue
  pub capacity : PyValue
  pub current_load : PyValue
  pub is_active : PyValue
  pub mentor_type : PyValue
  pub special_schools : List PyValue
  pub manager_id : PyValue

pub record AllocationConfig : Type 0 where
  pub fast_fail : Bool
  pub trace_limit_rejected : Option ℤ

pub record NormalizedStudent : Type 0 where
  pub gender : ℤ
  pub group_code : Text
  pub reg_center : ℤ
  pub reg_status : ℤ
  pub edu_status : ℤ
  pub school_code : Option ℤ
  pub student_type : ℤ
  pub roster_year : Option ℤ
  -- in ascending order, as `sorted(student.warnings)` lists them
  pub warnings : List String

pub record NormalizedMentor : Type 0 where
  pub mentor_id : ℤ
  pub gender : ℤ
  pub allowed_groups : List Text
  pub allowed_centers : List ℤ
  pub capacity : ℤ
  pub current_load : ℤ
  pub is_active : Bool
  pub mentor_type : MentorType
  pub special_schools : List ℤ
  pub manager_id : Option ℤ

pub record NormalizationError : Type 0 where
  pub rule_code : RuleCode
  pub message : Message
  pub details : Details

-- A normaliser returns its value or raises.
pub data Normalized (A : Type 0) : Type 0 where
  ok : A → Normalized A
  err : NormalizationError → Normalized A

infixl 5 ◌>>=◌ ◌>>◌
abbrev pub ◌>>=◌ : {A B : Type 0} → Normalized A → (A → Normalized B) → Normalized B
ok a >>= f = f a
err e >>= f = err e

abbrev pub ◌>>◌ : {A B : Type 0} → Normalized A → Normalized B → Normalized B
m >> k = m >>= λ _. k

pub Normalized-cases :
    {A : Type 0} (r : Normalized A)
    → ((a : A) × (r ≡ ok a)) ⊎ ((e : NormalizationError) × (r ≡ err e))
Normalized-cases (ok a) = inl (a, refl)
Normalized-cases (err e) = inr (e, refl)
