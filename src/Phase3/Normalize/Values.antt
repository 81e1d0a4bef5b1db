-- ===== src/Phase3/Normalize/Values.antt =====
-- What the normalisers of policy.py return: integers are kept, Persian digits are read, and the
-- result of an enum is one of the allowed values.
use student_mentor_allocatio.Base.{
  ℕ, ◌+◌, ◌-◌, ◌<◌, ◌≢◌, ◌≡◌, refl, true, false, not, some, List, [], ◌∷◌, map, arith, String, any,
  ◌==◌, All, All-map, keep-All, map_fixed, length, In,
}
use student_mentor_allocatio.Base.Int.{ℤ, pos}
use student_mentor_allocatio.Base.Text.{Text, is_space, fold_digit, fold_letter}
use student_mentor_allocatio.Base.Text.Decimal.{
  is_digit, decimal, AllDigits-decimal, AllDigits, length-decimal_pos,
}
use student_mentor_allocatio.Python.{Unicode, PyValue, str, str_int, int}
use student_mentor_allocatio.Python.RoundTrip.{
  IsNumeral, IsNumeral-str_int, IsNumeral-decimal, length-str_int_pos, int-decimal, strip_numeral,
  strip_fixed, int-str_int,
}
use student_mentor_allocatio.Phase3.Contracts.{RuleCode, ok}
use student_mentor_allocatio.Phase3.Rules.Eligible.{has_number_iff}
use student_mentor_allocatio.Phase3.Normalize.{
  is_empty, zero_width_chars, normalize_text, normalize_int, normalize_enum,
  normalize_optional_enum,
}

kept_numeral : (c : ℕ) → IsNumeral c → not (any (λ d. c == d) zero_width_chars) ≡ true
kept_numeral c h = ground arith

fold_letter-numeral : (c : ℕ) → IsNumeral c → fold_letter c ≡ c
unfolding fold_letter
fold_letter-numeral c h = ground arith

fold_digit-numeral : (c : ℕ) → IsNumeral c → fold_digit c ≡ c
unfolding fold_digit
fold_digit-numeral c h = ground arith

-- Rendered numbers pass the text normaliser unchanged.
normalize_text-numeral : (s : Text) → All IsNumeral s → normalize_text (PyValue.text s) ≡ s
unfolding normalize_text
normalize_text-numeral s h =
    rw
      (
        strip_numeral s h,
        keep-All (λ c. not (any (λ d. c == d) zero_width_chars)) s
            (All-map IsNumeral (λ c. not (any (λ d. c == d) zero_width_chars) ≡ true) s kept_numeral
              h),
        map_fixed fold_letter s
            (All-map IsNumeral (λ c. fold_letter c ≡ c) s fold_letter-numeral h),
      )
      (map_fixed fold_digit s (All-map IsNumeral (λ c. fold_digit c ≡ c) s fold_digit-numeral h))

normalize_text-integer : (z : ℤ) → normalize_text (PyValue.integer z) ≡ str_int z
unfolding str normalize_text
normalize_text-integer z =
    unfold normalize_text in normalize_text-numeral (str_int z) (IsNumeral-str_int z)

-- The Persian digits for the decimal digits of a number.
abbrev pub persian_digit : ℕ → ℕ
persian_digit c = c - 48 + 0x6f0

persian_space : (c : ℕ) → is_digit c ≡ true → is_space (persian_digit c) ≡ false
unfolding is_space
persian_space c h = ground arith

persian_kept :
    (c : ℕ) → is_digit c ≡ true → not (any (λ d. persian_digit c == d) zero_width_chars) ≡ true
persian_kept c h = ground arith

persian_letter : (c : ℕ) → is_digit c ≡ true → fold_letter (persian_digit c) ≡ persian_digit c
unfolding fold_letter
persian_letter c h = ground arith

persian_fold : (c : ℕ) → is_digit c ≡ true → fold_digit (persian_digit c) ≡ c
unfolding fold_digit
persian_fold c h = ground arith

All-persian :
    (P : ℕ → Type 0) (s : Text)
    → ((c : ℕ) → is_digit c ≡ true → P (persian_digit c))
    → AllDigits s
    → All P (map persian_digit s)
All-persian P [] f h = tt
All-persian P (c ∷ s) f h = (f c h.0, All-persian P s f h.1)

map-fold_digit-persian : (s : Text) → AllDigits s → map fold_digit (map persian_digit s) ≡ s
map-fold_digit-persian [] h = refl
map-fold_digit-persian (c ∷ s) h = rw (persian_fold c h.0, map-fold_digit-persian s h.1)

normalize_text-persian :
    (s : Text) → AllDigits s → normalize_text (PyValue.text (map persian_digit s)) ≡ s
unfolding normalize_text
normalize_text-persian s h =
    rw
      (
        strip_fixed (map persian_digit s) (All-persian (λ c. is_space c ≡ false) s persian_space h),
        keep-All (λ c. not (any (λ d. c == d) zero_width_chars)) (map persian_digit s)
            (All-persian (λ c. not (any (λ d. c == d) zero_width_chars) ≡ true) s persian_kept h),
        map_fixed fold_letter (map persian_digit s)
            (All-persian (λ c. fold_letter c ≡ c) s persian_letter h),
      )
      (map-fold_digit-persian s h)

filled : (s : Text) → 0 < length s → is_empty s ≡ false
filled [] p = elim p [ ]
filled (c ∷ s) p = refl

module _ (u : Unicode) (rule_code : RuleCode) (field_name : String) where
  int_of_normal_text :
      (value : PyValue) (z : ℤ) (s : Text)
      → normalize_text value ≡ s
      → 0 < length s
      → int u s ≡ some z
      → value ≢ PyValue.nothing
      → normalize_int u rule_code field_name value ≡ ok z
  unfolding normalize_int
  int_of_normal_text PyValue.nothing z s e p h n = absurd (n refl)
  int_of_normal_text (PyValue.boolean b) z s e p h n = rw e (ground (arith, h, filled s p))
  int_of_normal_text (PyValue.integer i) z s e p h n = rw e (ground (arith, h, filled s p))
  int_of_normal_text (PyValue.text t) z s e p h n = rw e (ground (arith, h, filled s p))

  -- An `int` comes back as it is.
  pub normalize_int-integer :
      (z : ℤ) → normalize_int u rule_code field_name (PyValue.integer z) ≡ ok z
  normalize_int-integer z =
      int_of_normal_text (PyValue.integer z) z (str_int z) (normalize_text-integer z)
        (length-str_int_pos z) (int-str_int u z) (λ e. cc)

  -- A number written in ASCII or in Persian digits is read as the number.
  pub normalize_int-digits :
      (n : ℕ)
      → (normalize_int u rule_code field_name (PyValue.text (decimal n)) ≡ ok (pos n))
        × (normalize_int u rule_code field_name (PyValue.text (map persian_digit (decimal n)))
            ≡ ok (pos n))
  normalize_int-digits n = (
    int_of_normal_text (PyValue.text (decimal n)) (pos n) (decimal n)
        (normalize_text-numeral (decimal n) (IsNumeral-decimal n)) (length-decimal_pos n)
        (int-decimal u n) (λ e. cc),
    int_of_normal_text (PyValue.text (map persian_digit (decimal n))) (pos n) (decimal n)
        (normalize_text-persian (decimal n) (AllDigits-decimal n)) (length-decimal_pos n)
        (int-decimal u n) (λ e. cc),
  )

  -- The value of an enum field is one of the allowed ones.
  pub normalize_enum-In :
      (allowed : List ℤ) (value : PyValue) (z : ℤ)
      → normalize_enum u rule_code field_name allowed value ≡ ok z
      → In z allowed
  unfolding normalize_enum
  normalize_enum-In allowed value z h = (has_number_iff z allowed).0 (ground arith)

  pub normalize_optional_enum-In :
      (allowed : List ℤ) (default : ℤ) (value : PyValue) (z : ℤ)
      → In default allowed
      → normalize_optional_enum u rule_code field_name allowed default value ≡ ok z
      → In z allowed
  unfolding normalize_optional_enum
  normalize_optional_enum-In allowed default PyValue.nothing z d h =
      (has_number_iff z allowed).0 (ground (arith, (has_number_iff default allowed).1 d))
  normalize_optional_enum-In allowed default value z d h =
      (has_number_iff z allowed).0 (ground (arith, (has_number_iff default allowed).1 d))
