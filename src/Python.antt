-- ===== src/Python.antt =====
-- The Python values that reach the normalisers, and the parts of the standard library that they
-- are passed through: `str(value)`, `int(text)`, and the Unicode tables behind them.
-- `int` accepts surrounding space, a sign, decimal digits of any script and single underscores
-- between digits; its limit of 4300 digits is not modelled.
pub mod Database
pub mod Float
pub mod RoundTrip
pub use Database.{Unicode}
use student_mentor_allocatio.Base.{
  ℕ, zero, suc, ◌+◌, ◌*◌, Bool, true, false, Option, none, some, List, [], ◌∷◌, ◌==◌, if◌then◌else◌,
}
use student_mentor_allocatio.Base.Int.{ℤ, pos, negsuc}
use student_mentor_allocatio.Base.Text.{Text, codes, strip}
use student_mentor_allocatio.Base.Text.Decimal.{decimal}

-- A field of a student or a mentor as it comes in: `int | str | bool | None`.
pub data PyValue : Type 0 where
  nothing : PyValue
  boolean : Bool → PyValue
  integer : ℤ → PyValue
  text : Text → PyValue

-- `str(z)` of an `int`.
unfoldable pub str_int : ℤ → Text
str_int (pos n) = decimal n
str_int (negsuc n) = 45 ∷ decimal (suc n)

-- `str(value)`
unfoldable pub str : PyValue → Text
unfolding str_int
str nothing = codes "None"
str (boolean true) = codes "True"
str (boolean false) = codes "False"
str (integer z) = str_int z
str (text s) = s

-- `-n`
abbrev pub neg_ℕ : ℕ → ℤ
neg_ℕ zero = pos 0
neg_ℕ (suc n) = negsuc n

module _ (u : Unicode) where
  -- The digits of `int(text)`: `after_digit` holds where an underscore or the end may follow.
  unfoldable pub int_digits : ℕ → Bool → Text → Option ℕ
  int_digits acc after_digit [] = if after_digit then some acc else none
  int_digits acc after_digit (c ∷ s) = elim (c == 95) [
    | true ↦ elim after_digit [ true ↦ int_digits acc false s | false ↦ none ]
    | false ↦ elim (u.decimal_value c) [ none ↦ none | some d ↦ int_digits (acc * 10 + d) true s ]
  ]

  abbrev int_unsigned : (ℕ → ℤ) → Text → Option ℤ
  int_unsigned sign s = elim (int_digits 0 false s) [ none ↦ none | some n ↦ some (sign n) ]

  abbrev int_signed : Text → Option ℤ
  int_signed [] = none
  int_signed (c ∷ s) =
      if c == 45
      then int_unsigned neg_ℕ s
      else if c == 43
      then int_unsigned pos s
      else int_unsigned pos (c ∷ s)

  -- `int(text)`; `none` is the `ValueError`.
  unfoldable pub int : Text → Option ℤ
  unfolding int_digits
  int s = int_signed (strip s)
