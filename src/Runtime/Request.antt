-- ===== src/Runtime/Request.antt =====
-- `CounterRuntime.allocate` of src/sma/phase2_counter_service/counter_runtime.py from the fields of its
-- payload, with src/sma/phase2_counter_service/academic_year.py. `str.isdigit` is a function. The form
-- of the year that is only logged is left out.
pub mod Valid
pub mod Unique
use student_mentor_allocatio.Base.{
  ℕ, ◌-◌, Bool, true, false, not, ◌||◌, ◌&&◌, ◌==◌, Option, none, some, List, [], ◌∷◌, map, length,
  drop, ltb, leb, if◌then◌else◌,
}
use student_mentor_allocatio.Base.Int.{ℤ, pos, negsuc}
use student_mentor_allocatio.Base.Text.{Text, text_eq, strip, remove_chars, fold_digit}
use student_mentor_allocatio.Python.{Unicode, PyValue, str, int}
use student_mentor_allocatio.Counter.{Gender, male, female}
use student_mentor_allocatio.Runtime.Script.{Normalized, Redis}
use student_mentor_allocatio.Runtime.Executor.{RedisRetryConfig, Link, World}
use student_mentor_allocatio.Runtime.Allocate.{
  CounterResult, validation_error, CounterRuntime, allocate_with_retry,
}

-- The fields that `allocate` reads of its payload; one that is missing is `None`.
pub record Payload : Type 0 where
  pub year : PyValue
  pub gender : PyValue
  pub center : PyValue
  pub student_id : PyValue

infix 10 ◌>>=◌
abbrev pub ◌>>=◌ : {A : Type 0} → {B : Type 0} → Option A → (A → Option B) → Option B
none >>= f = none
some a >>= f = f a

-- `not text`
abbrev pub is_empty : Text → Bool
is_empty [] = true
is_empty (c ∷ s) = false

-- `"" if value is None else str(value)`
abbrev text_of : PyValue → Text
text_of PyValue.nothing = []
text_of (PyValue.boolean b) = str (PyValue.boolean b)
text_of (PyValue.integer z) = str (PyValue.integer z)
text_of (PyValue.text s) = s

abbrev pub non_empty : Text → Option Text
non_empty [] = none
non_empty (c ∷ s) = some (c ∷ s)

-- `_strip_controls`
unfoldable pub strip_controls : Text → Text
strip_controls value = remove_chars (0x200c ∷ 0x200d ∷ 0x200e ∷ 0x200f ∷ 0xfeff ∷ []) value

-- `_strip_zw`
unfoldable pub strip_zw : Text → Text
strip_zw text = remove_chars (0x200c ∷ 0x200d ∷ 0x200e ∷ 0x200f ∷ []) text

abbrev pub allowed_gender : ℤ → Option Gender
allowed_gender (pos n) = if n == 0 then some male else if n == 1 then some female else none
allowed_gender (negsuc n) = none

abbrev pub allowed_center : ℤ → Option ℕ
allowed_center (pos n) = if leb n 2 then some n else none
allowed_center (negsuc n) = none

-- The entry of a year in the map of codes.
abbrev pub code_map_get : List (Text × Text) → Text → Option Text
code_map_get [] year = none
code_map_get ((key, code) ∷ rest) year =
    if text_eq key year then some code else code_map_get rest year

module _ (u : Unicode) (isdigit : Text → Bool) where
  unfoldable pub normalize_digits : Text → Text
  normalize_digits value = map fold_digit (u.nfkc value)

  -- `_normalize_identifier`; `none` is the `ValueError`.
  unfoldable pub normalize_student_id : PyValue → Option Text
  unfolding strip_controls
  normalize_student_id value = non_empty (strip (strip_controls (u.nfkc (text_of value))))

  -- `_normalize_int_field` from the digits on.
  abbrev pub parsed_field : {A : Type 0} → (ℤ → Option A) → Text → Option A
  parsed_field allowed normalized =
      if isdigit normalized then int u normalized >>= allowed else none

  -- `_normalize_int_field`
  unfoldable pub normalize_int_field : {A : Type 0} → (ℤ → Option A) → PyValue → Option A
  unfolding normalize_digits strip_controls
  normalize_int_field allowed value =
      parsed_field allowed (strip (strip_controls (normalize_digits (u.nfkc (text_of value)))))

  -- The check at the end of `code_for`.
  abbrev pub checked_code : Text → Option Text
  checked_code raw =
      let code = strip (strip_zw (normalize_digits (u.nfkc raw))) in
      if not (isdigit code) || not (length code == 2) then none else some code

  -- The last two characters of a year that the map does not have.
  abbrev pub derived_code : Text → Option Text
  derived_code normalized =
      if ltb (length normalized) 4
      then none
      else checked_code (drop (length normalized - 2) normalized)

  -- `code_for` from the digits of the year on.
  abbrev pub code_of : List (Text × Text) → Text → Option Text
  code_of code_map normalized =
      if is_empty normalized || not (isdigit normalized)
      then none
      else elim (code_map_get code_map normalized) [
        | some code ↦ checked_code code
        | none ↦ derived_code normalized
      ]

  -- `AcademicYearProvider.code_for`
  unfoldable pub code_for : List (Text × Text) → PyValue → Option Text
  unfolding normalize_digits strip_zw
  code_for code_map year =
      code_of code_map (strip (strip_zw (normalize_digits (u.nfkc (text_of year)))))

  -- `_normalize_payload`
  unfoldable pub normalize_payload : List (Text × Text) → Payload → Option Normalized
  unfolding normalize_int_field normalize_student_id code_for
  normalize_payload code_map payload = do
    gender ← normalize_int_field allowed_gender payload.gender
    center ← normalize_int_field allowed_center payload.center
    student_id ← normalize_student_id payload.student_id
    year_code ← code_for code_map payload.year
    some (record {
      year_code = year_code;
      gender = gender;
      center = center;
      student_id = student_id;
    })

  module _ (code_map : List (Text × Text)) (base : Text) (runtime : CounterRuntime)
      (config : RedisRetryConfig) (jitter : ℕ → ℕ) (links : ℕ → Link)
      (others : ℕ → Redis → Redis) where
    abbrev pub with_normalized : Option Normalized → World Redis → CounterResult × World Redis
    with_normalized none w = (validation_error, w)
    with_normalized (some n) w = allocate_with_retry u base runtime config jitter links others n w

    -- `CounterRuntime.allocate`
    unfoldable pub allocate_counter : Payload → World Redis → CounterResult × World Redis
    unfolding normalize_payload
    allocate_counter payload w = with_normalized (normalize_payload code_map payload) w
