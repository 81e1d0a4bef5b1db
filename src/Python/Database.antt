-- ===== src/Python/Database.antt =====
-- The Unicode character database of the Python interpreter, which is no part of the repository: an
-- argument of the model, with what the program relies on for ASCII text.
use student_mentor_allocatio.Base.{
  ℕ, ◌+◌, ◌-◌, ◌≡◌, true, Option, none, some, map, leb, ◌&&◌, if◌then◌else◌,
}
use student_mentor_allocatio.Base.Text.{Text}
use student_mentor_allocatio.Base.Text.Decimal.{is_digit}

pub record Unicode : Type 0 where
  -- `unicodedata.decimal(char)`, where it has a value
  pub decimal_value : ℕ → Option ℕ
  -- `unicodedata.normalize("NFKC", text)`
  pub nfkc : Text → Text
  -- `text.upper()` and `text.lower()`
  pub upper : Text → Text
  pub lower : Text → Text
  pub decimal_value_digit : (c : ℕ) → is_digit c ≡ true → decimal_value c ≡ some (c - 48)

abbrev pub ascii_upper : ℕ → ℕ
ascii_upper c = if leb 97 c && leb c 122 then c - 32 else c

abbrev pub ascii_lower : ℕ → ℕ
ascii_lower c = if leb 65 c && leb c 90 then c + 32 else c

abbrev pub ascii_decimal : ℕ → Option ℕ
ascii_decimal c = if is_digit c then some (c - 48) else none

pub ascii_decimal_digit : (c : ℕ) → is_digit c ≡ true → ascii_decimal c ≡ some (c - 48)
ascii_decimal_digit c h = rw h

-- A database that knows ASCII alone.
abbrev pub ascii : Unicode
ascii = record {
  decimal_value = ascii_decimal;
  nfkc = λ s. s;
  upper = map ascii_upper;
  lower = map ascii_lower;
  decimal_value_digit = ascii_decimal_digit;
}
