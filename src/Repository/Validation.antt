-- ===== src/Repository/Validation.antt =====
-- src/sma/phase2_counter_service/validation.py with the codes of errors.py.
use student_mentor_allocatio.Base.{
  ℕ, ◌+◌, ◌-◌, Bool, not, ◌&&◌, ◌==◌, Option, none, some, [], ◌∷◌, map, all, length, leb,
  if◌then◌else◌,
}
use student_mentor_allocatio.Base.Text.{Text, strip, remove_chars}
use student_mentor_allocatio.Python.{Unicode}
use student_mentor_allocatio.Counter.{Gender, is_decimal, validate_counter}

-- The codes of `CounterServiceError`.
pub data ErrorCode : Type 0 where
  invalid_nid invalid_gender year_code_invalid db_conflict counter_exhausted : ErrorCode

-- `raise` or a value.
pub data Checked (A : Type 0) : Type 0 where
  fine : A → Checked A
  raised : ErrorCode → Checked A

-- The digits of `PERSIAN_DIGITS`.
unfoldable pub fold_persian : ℕ → ℕ
fold_persian c = if leb 0x6f0 c && leb c 0x6f9 then 48 + (c - 0x6f0) else c

unfoldable pub normalize : Unicode → Text → Text
normalize u text = strip (remove_chars (0x200b ∷ 0xfeff ∷ []) (map fold_persian (u.nfkc text)))

-- `NATIONAL_ID_PATTERN` and `YEAR_CODE_PATTERN`, matched in full.
abbrev pub decimals : Unicode → ℕ → Text → Bool
decimals u n text = length text == n && all (is_decimal u) text

-- `ensure_valid_inputs`; `none` is a gender that has no prefix.
unfoldable pub ensure_valid_inputs :
    Unicode → Text → Option Gender → Text → Checked (Text × Gender × Text)
unfolding normalize
ensure_valid_inputs u national_id gender year_code =
    let normalized_nid = normalize u national_id in
    let normalized_year = normalize u year_code in
    if not (decimals u 10 normalized_nid) then raised invalid_nid else elim gender [
      | none ↦ raised invalid_gender
      | some g ↦
          if not (decimals u 2 normalized_year)
          then raised year_code_invalid
          else fine (normalized_nid, g, normalized_year)
    ]

abbrev pub format_of : Option Text → Checked Text
format_of none = raised counter_exhausted
format_of (some counter) = fine counter

unfoldable pub ensure_counter_format : Unicode → Text → Checked Text
unfolding normalize
ensure_counter_format u counter = format_of (validate_counter u (some (normalize u counter)))

unfoldable pub ensure_sequence_bounds : ℕ → Checked ℕ
ensure_sequence_bounds seq =
    if leb 1 seq && leb seq 9999 then fine seq else raised counter_exhausted
