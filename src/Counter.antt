-- ===== src/Counter.antt =====
-- src/sma/shared/counter_rules.py and src/sma/domain/counter: the nine characters of a student's
-- counter. The decimal digits of the regular expression are those of the Unicode tables.
pub mod Format
mod Tests
use student_mentor_allocatio.Base.{
  ℕ, Bool, true, false, not, ◌&&◌, ◌||◌, ◌==◌, Option, none, some, List, [], ◌∷◌, ◌++◌, map, keep,
  all, leb, length, if◌then◌else◌,
}
use student_mentor_allocatio.Base.Text.{Text, text_eq, codes, is_space, fold_digit, remove_chars}
use student_mentor_allocatio.Base.Text.Decimal.{decimal_pad}
use student_mentor_allocatio.Base.Int.{ℤ, pos, negsuc}
use student_mentor_allocatio.Python.Database.{Unicode}

pub data Gender : Type 0 where
  male female : Gender

-- `gender_prefix(int(gender))`
abbrev pub counter_code : Gender → Text
counter_code male = codes "373"
counter_code female = codes "357"

-- `\d`
abbrev pub is_decimal : Unicode → ℕ → Bool
is_decimal u c = elim (u.decimal_value c) [ none ↦ false | some n ↦ true ]

abbrev pub is_prefix : ℕ → ℕ → ℕ → Bool
is_prefix x y z = text_eq (x ∷ y ∷ z ∷ []) (codes "357") || text_eq (x ∷ y ∷ z ∷ []) (codes "373")

-- `COUNTER_REGEX.fullmatch`
unfoldable pub counter_regex : Unicode → Text → Bool
counter_regex u (a ∷ b ∷ x ∷ y ∷ z ∷ c ∷ d ∷ e ∷ f ∷ []) =
    is_decimal u a
    && is_decimal u b
    && is_prefix x y z
    && is_decimal u c
    && is_decimal u d
    && is_decimal u e
    && is_decimal u f
counter_regex u _ = false

-- The digits folded, zero-width characters and white space removed.
unfoldable pub normalize_counter : Text → Text
normalize_counter value =
    keep (λ c. not (is_space c))
      (remove_chars (0x200c ∷ 0x200d ∷ 0xfeff ∷ []) (map fold_digit value))

abbrev pub or_empty : Option Text → Text
or_empty none = []
or_empty (some value) = value

-- `none` is the `ValueError`.
unfoldable pub validate_counter : Unicode → Option Text → Option Text
unfolding counter_regex normalize_counter
validate_counter u value =
    let normalized = normalize_counter (or_empty value) in
    if counter_regex u normalized then some normalized else none

pub data BuildError : Type 0 where
  year_invalid sequence_out_of_range length_exceeded : BuildError

pub data Built : Type 0 where
  built : Text → Built
  refused : BuildError → Built

abbrev in_range : ℤ → Option ℕ
in_range (pos n) = if leb n 9999 then some n else none
in_range (negsuc n) = none

abbrev checked : Text → Built
checked value = if length value == 9 then built value else refused length_exceeded

-- `Counter.build`; `isdigit` is `str.isdigit`.
unfoldable pub build : (Text → Bool) → Text → Gender → ℤ → Built
build isdigit year_two_digits gender seq =
    if not (length year_two_digits == 2) || not (isdigit year_two_digits)
    then refused year_invalid
    else elim (in_range seq) [
      | none ↦ refused sequence_out_of_range
      | some n ↦ checked (year_two_digits ++ counter_code gender ++ decimal_pad 4 n)
    ]

-- `CounterService.generate`: an existing counter is used again, else the repository reserves the
-- next number for the year and the prefix; the state of the repository is passed on.
unfoldable pub generate :
    {Repo : Type 0}
    → (Text → Bool)
    → (Text → Text → Repo → ℤ × Repo)
    → Option Text
    → Gender
    → Text
    → Repo
    → Built × Repo
unfolding build
generate isdigit reserve_next (some (c ∷ counter)) gender year repo = (built (c ∷ counter), repo)
generate isdigit reserve_next (some []) gender year repo =
    let (seq, after) = reserve_next year (counter_code gender) repo in
    (build isdigit year gender seq, after)
generate isdigit reserve_next none gender year repo =
    let (seq, after) = reserve_next year (counter_code gender) repo in
    (build isdigit year gender seq, after)
