-- ===== src/Base/Text/Decimal.antt =====
-- Decimal numbers: `str(n)`, `f"{n:0wd}"` and the value of a run of ASCII digits.
use student_mentor_allocatio.Base.Tests.{ltb, leb, lt→ltb, Bool-cases, if◌then◌else◌}
use student_mentor_allocatio.Base.Lists.{
  All, All-append, length, replicate, length-append, length-replicate,
}
use Prim.Native.Nat.{ℕ, zero, suc, ◌+◌, ◌-◌, ◌*◌, ◌/◌, ◌%◌, ◌^◌, ◌≤◌, ◌<◌}
use mathlib.Core.Path.{◌≡◌, refl, ◌∙◌}
use mathlib.Core.Logic.{inl, inr}
use mathlib.Core.Bool.{Bool, true, ◌&&◌}
use mathlib.Core.List.{List, [], ◌∷◌, ◌++◌}
use native.Mathlib.Nat.{pow-suc}
use native.Mathlib.Omega.{arith}

-- `'0' <= c <= '9'`
abbrev pub is_digit : ℕ → Bool
is_digit c = leb 48 c && leb c 57

abbrev pub AllDigits : List ℕ → Type 0
AllDigits = All (λ c. is_digit c ≡ true)

-- The digits of `n`, most significant first; `n` rounds are enough.
unfoldable pub decimal_fuel : ℕ → ℕ → List ℕ
decimal_fuel zero n = []
decimal_fuel (suc f) n =
    let rest = decimal_fuel f (n / 10) ++ (48 + n % 10) ∷ [] in
    if ltb n 10 then (48 + n) ∷ [] else rest

-- `str(n)`
unfoldable pub decimal : ℕ → List ℕ
unfolding decimal_fuel
decimal n = decimal_fuel (suc n) n

-- `f"{n:0wd}"`
unfoldable pub decimal_pad : ℕ → ℕ → List ℕ
unfolding decimal
decimal_pad w n = replicate (w - length (decimal n)) 48 ++ decimal n

-- The number that a run of digits stands for, after those read already.
abbrev pub digits_value : ℕ → List ℕ → ℕ
digits_value acc [] = acc
digits_value acc (c ∷ s) = digits_value (acc * 10 + (c - 48)) s

digits_value-append :
    (acc : ℕ) (s t : List ℕ) → digits_value acc (s ++ t) ≡ digits_value (digits_value acc s) t
digits_value-append acc [] t = refl
digits_value-append acc (c ∷ s) t = digits_value-append (acc * 10 + (c - 48)) s t

digits_value-decimal_fuel : (f n : ℕ) → n < f → digits_value 0 (decimal_fuel f n) ≡ n
unfolding decimal_fuel
digits_value-decimal_fuel zero n h = elim h [ ]
digits_value-decimal_fuel (suc f) n h = ground (
  arith,
  digits_value-append 0 (decimal_fuel f (n / 10)) ((48 + n % 10) ∷ []),
  digits_value-decimal_fuel f (n / 10),
)

-- Printing and reading a number back gives the number.
pub digits_value-decimal : (n : ℕ) → digits_value 0 (decimal n) ≡ n
unfolding decimal
digits_value-decimal n = digits_value-decimal_fuel (suc n) n (omega arith)

digits_value-zeros : (k : ℕ) (s : List ℕ) → digits_value 0 (replicate k 48 ++ s) ≡ digits_value 0 s
digits_value-zeros zero s = refl
digits_value-zeros (suc k) s = digits_value-zeros k s

pub digits_value-decimal_pad : (w n : ℕ) → digits_value 0 (decimal_pad w n) ≡ n
unfolding decimal_pad
digits_value-decimal_pad w n =
    digits_value-zeros (w - length (decimal n)) (decimal n) ∙ digits_value-decimal n

is_digit-decimal_fuel : (f n : ℕ) → AllDigits (decimal_fuel f n)
unfolding decimal_fuel
is_digit-decimal_fuel zero n = tt
is_digit-decimal_fuel (suc f) n = elim (Bool-cases (ltb n 10)) [
  | inl e ↦ rw e (ground arith, tt)
  | inr e ↦ rw e (
      All-append (λ c. is_digit c ≡ true) (decimal_fuel f (n / 10)) ((48 + n % 10) ∷ [])
        (is_digit-decimal_fuel f (n / 10)) (ground arith, tt))
]

pub AllDigits-decimal : (n : ℕ) → AllDigits (decimal n)
unfolding decimal
AllDigits-decimal n = is_digit-decimal_fuel (suc n) n

AllDigits-zeros : (k : ℕ) → AllDigits (replicate k 48)
AllDigits-zeros zero = tt
AllDigits-zeros (suc k) = (refl, AllDigits-zeros k)

pub AllDigits-decimal_pad : (w n : ℕ) → AllDigits (decimal_pad w n)
unfolding decimal_pad
AllDigits-decimal_pad w n =
    All-append (λ c. is_digit c ≡ true) (replicate (w - length (decimal n)) 48) (decimal n)
      (AllDigits-zeros (w - length (decimal n))) (AllDigits-decimal n)

-- A number below 10 ^ (k + 1) has at most k + 1 digits.
length-decimal_fuel-le : (k f n : ℕ) → n < 10 ^ (suc k) → length (decimal_fuel f n) ≤ suc k
unfolding decimal_fuel
length-decimal_fuel-le k zero n h = omega arith
length-decimal_fuel-le zero (suc f) n h = rw (lt→ltb n 10 h) (omega arith)
length-decimal_fuel-le (suc k) (suc f) n h = elim (Bool-cases (ltb n 10)) [
  | inl e ↦ rw e (omega arith)
  | inr e ↦
      rw (e, length-append)
        (omega (arith, length-decimal_fuel-le k f (n / 10) (omega (arith, pow-suc 10 (suc k)))))
]

length-decimal-le : (k n : ℕ) → n < 10 ^ (suc k) → length (decimal n) ≤ suc k
unfolding decimal
length-decimal-le k n h = length-decimal_fuel-le k (suc n) n h

-- `f"{n:0wd}"` has exactly `w` characters as long as `n` fits.
pub length-decimal_pad : (k n : ℕ) → n < 10 ^ (suc k) → length (decimal_pad (suc k) n) ≡ suc k
unfolding decimal_pad
length-decimal_pad k n h = rw length-append (
    omega
      (arith, length-replicate {A = ℕ} (suc k - length (decimal n)) 48, length-decimal-le k n h))

-- A rendered number is not empty.
pub length-decimal_pos : (n : ℕ) → 0 < length (decimal n)
unfolding decimal
length-decimal_pos n = elim (Bool-cases (ltb n 10)) [
  | inl e ↦ rw e (omega arith)
  | inr e ↦ rw (e, length-append) (omega arith)
]
