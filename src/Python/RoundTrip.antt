-- ===== src/Python/RoundTrip.antt =====
-- `int(str(z))` gives `z` back, and a rendered number is left alone by the character filters.
use student_mentor_allocatio.Base.{
  ℕ, suc, ◌+◌, ◌-◌, ◌*◌, ◌<◌, ◌≡◌, refl, ◌∙◌, ◌⊎◌, inl, inr, Bool, true, false, some, [], ◌∷◌,
  reverse, arith, All, All-map, All-reverse, length,
}
use student_mentor_allocatio.Base.Int.{ℤ, pos, negsuc}
use student_mentor_allocatio.Base.Text.{Text, is_space, lstrip, strip}
use student_mentor_allocatio.Base.Text.Decimal.{
  is_digit, AllDigits, decimal, digits_value, digits_value-decimal, AllDigits-decimal,
  length-decimal_pos,
}
use student_mentor_allocatio.Python.{str_int, int_digits, int}
use student_mentor_allocatio.Python.Database.{Unicode}
use mathlib.Core.List.{reverse-reverse}

-- The characters of a rendered number.
abbrev pub IsNumeral : ℕ → Type 0
IsNumeral c = (is_digit c ≡ true) ⊎ (c ≡ 45)

pub IsNumeral-str_int : (z : ℤ) → All IsNumeral (str_int z)
unfolding str_int
IsNumeral-str_int (pos n) =
    All-map (λ c. is_digit c ≡ true) IsNumeral (decimal n) (λ c h. inl h) (AllDigits-decimal n)
IsNumeral-str_int (negsuc n) = (
  inr refl,
  All-map (λ c. is_digit c ≡ true) IsNumeral (decimal (suc n)) (λ c h. inl h)
      (AllDigits-decimal (suc n)),
)

is_space-numeral : (c : ℕ) → IsNumeral c → is_space c ≡ false
unfolding is_space
is_space-numeral c h = ground arith

lstrip_fixed : (s : Text) → All (λ c. is_space c ≡ false) s → lstrip s ≡ s
unfolding lstrip
lstrip_fixed [] h = refl
lstrip_fixed (c ∷ s) h = rw h.0

pub strip_fixed : (s : Text) → All (λ c. is_space c ≡ false) s → strip s ≡ s
unfolding strip
strip_fixed s h =
    rw (lstrip_fixed s h, lstrip_fixed (reverse s) (All-reverse (λ c. is_space c ≡ false) s h))
      (reverse-reverse s)

pub strip_numeral : (s : Text) → All IsNumeral s → strip s ≡ s
strip_numeral s h = strip_fixed s (All-map IsNumeral (λ c. is_space c ≡ false) s is_space-numeral h)

pub IsNumeral-decimal : (n : ℕ) → All IsNumeral (decimal n)
IsNumeral-decimal n = unfold str_int in IsNumeral-str_int (pos n)

pub length-str_int_pos : (z : ℤ) → 0 < length (str_int z)
unfolding str_int
length-str_int_pos (pos n) = length-decimal_pos n
length-str_int_pos (negsuc n) = omega arith

module _ (u : Unicode) where
  int_digits_step :
      (acc : ℕ) (after_digit : Bool) (c : ℕ) (s : Text)
      → is_digit c ≡ true
      → int_digits u acc after_digit (c ∷ s) ≡ int_digits u (acc * 10 + (c - 48)) true s
  unfolding int_digits
  int_digits_step acc after_digit c s h = ground (arith, u.decimal_value_digit c h)

  int_digits_lem :
      (acc : ℕ) (s : Text) → AllDigits s → int_digits u acc true s ≡ some (digits_value acc s)
  unfolding int_digits
  int_digits_lem acc [] h = refl
  int_digits_lem acc (c ∷ s) h =
      int_digits_step acc true c s h.0 ∙ int_digits_lem (acc * 10 + (c - 48)) s h.1

  int_digits_nonempty :
      (s : Text) → 0 < length s → AllDigits s → int_digits u 0 false s ≡ some (digits_value 0 s)
  int_digits_nonempty [] p h = elim p [ ]
  int_digits_nonempty (c ∷ s) p h =
      int_digits_step 0 false c s h.0 ∙ int_digits_lem (0 * 10 + (c - 48)) s h.1

  int_digits-decimal : (n : ℕ) → int_digits u 0 false (decimal n) ≡ some n
  int_digits-decimal n =
      rw (int_digits_nonempty (decimal n) (length-decimal_pos n) (AllDigits-decimal n))
        (rw digits_value-decimal)

  int_unsigned-digits :
      (s : Text) (n : ℕ)
      → AllDigits s
      → int_digits u 0 false s ≡ some n
      → strip s ≡ s
      → int u s ≡ some (pos n)
  unfolding int
  int_unsigned-digits [] n d e st = unfold int_digits in cc
  int_unsigned-digits (c ∷ s) n d e st = rw st (ground (arith, e))

  -- `int(str(z)) == z`
  pub int-str_int : (z : ℤ) → int u (str_int z) ≡ some z
  unfolding str_int int
  int-str_int (pos n) =
      int_unsigned-digits (decimal n) n (AllDigits-decimal n) (int_digits-decimal n)
        (strip_numeral (decimal n) (IsNumeral-str_int (pos n)))
  int-str_int (negsuc n) =
      rw (strip_numeral (45 ∷ decimal (suc n)) (IsNumeral-str_int (negsuc n)))
        (ground (arith, int_digits-decimal (suc n)))

  pub int-decimal : (n : ℕ) → int u (decimal n) ≡ some (pos n)
  int-decimal n = unfold str_int in int-str_int (pos n)
