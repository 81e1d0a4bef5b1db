-- ===== src/Base/Text.antt =====
-- Python's `str` as a list of code points, with the parts of its interface that the program calls:
-- equality, `strip`, `replace` of single characters by nothing, `translate`, decimal digits.
pub mod Decimal
use Prim.Native.Char.{code}
use Prim.Native.String.{String}
use Prim.Native.Nat.{ℕ, ◌+◌, ◌-◌}
use student_mentor_allocatio.Base.Tests.{leb, ◌==◌, if◌then◌else◌}
use student_mentor_allocatio.Base.Lists.{any, keep}
use mathlib.Core.Path.{◌≡◌, refl}
use mathlib.Core.Logic.{◌↔◌}
use mathlib.Core.Bool.{Bool, true, false, not, ◌&&◌, ◌||◌}
use mathlib.Core.List.{List, [], ◌∷◌, reverse}
use native.Mathlib.Omega.{arith}

abbrev pub Text : Type 0
Text = List ℕ

-- The code points of a literal.
abbrev pub codes : String → Text
codes String.[] = []
codes (String.◌∷◌ c s) = code c ∷ codes s

unfoldable pub text_eq : Text → Text → Bool
text_eq [] [] = true
text_eq [] (b ∷ t) = false
text_eq (a ∷ s) [] = false
text_eq (a ∷ s) (b ∷ t) = a == b && text_eq s t

pub text_eq→eq : (s t : Text) → text_eq s t ≡ true → s ≡ t
unfolding text_eq
text_eq→eq [] [] h = refl
text_eq→eq [] (b ∷ t) h = ground arith
text_eq→eq (a ∷ s) [] h = ground arith
text_eq→eq (a ∷ s) (b ∷ t) h = ground (arith, text_eq→eq s t)

pub text_eq_refl : (s : Text) → text_eq s s ≡ true
unfolding text_eq
text_eq_refl [] = refl
text_eq_refl (a ∷ s) = ground (arith, text_eq_refl s)

pub text_eq_iff : (s t : Text) → (text_eq s t ≡ true) ↔ (s ≡ t)
text_eq_iff s t = (text_eq→eq s t, λ e. rw e (text_eq_refl t))

-- `str.isspace` of one character, which is also what `str.strip` removes.
unfoldable pub is_space : ℕ → Bool
is_space c =
    (leb 9 c && leb c 13)
    || (leb 28 c && leb c 32)
    || c == 0x85
    || c == 0xa0
    || c == 0x1680
    || (leb 0x2000 c && leb c 0x200a)
    || c == 0x2028
    || c == 0x2029
    || c == 0x202f
    || c == 0x205f
    || c == 0x3000

unfoldable pub lstrip : Text → Text
unfolding is_space
lstrip [] = []
lstrip (c ∷ s) = let rest = lstrip s in if is_space c then rest else c ∷ s

-- `s.strip()`
unfoldable pub strip : Text → Text
unfolding lstrip
strip s = reverse (lstrip (reverse (lstrip s)))

-- `s` without the characters of `set`: one `replace(char, "")` for each of them.
abbrev pub remove_chars : List ℕ → Text → Text
remove_chars set s = keep (λ c. not (any (λ d. c == d) set)) s

-- The value of a Persian or Arabic-Indic digit is written with an ASCII digit.
unfoldable pub fold_digit : ℕ → ℕ
fold_digit c =
    if leb 0x6f0 c && leb c 0x6f9
    then 48 + (c - 0x6f0)
    else if leb 0x660 c && leb c 0x669
    then 48 + (c - 0x660)
    else c

-- Arabic Yeh and Kaf are written with the Persian letters.
unfoldable pub fold_letter : ℕ → ℕ
fold_letter c = if c == 0x643 then 0x6a9 else if c == 0x64a then 0x6cc else c
