-- ===== src/Counter/Format.antt =====
-- Counters that are built pass validation, and a counter determines its parts.
use student_mentor_allocatio.Base.{
  ℕ, ◌≤◌, ◌≡◌, refl, sym, ◌∙◌, ap, Bool, true, not, ◌==◌, some, [], ◌∷◌, ◌++◌, arith, All-append,
  All-map, any, keep-All, map_fixed, take, drop, take-append, drop-append, leb, length,
  length-append,
}
use student_mentor_allocatio.Base.Text.{Text, text_eq, is_space, fold_digit}
use student_mentor_allocatio.Base.Text.Decimal.{
  is_digit, AllDigits, decimal_pad, digits_value, digits_value-decimal_pad, AllDigits-decimal_pad,
  length-decimal_pad,
}
use student_mentor_allocatio.Base.Int.{pos}
use student_mentor_allocatio.Python.Database.{Unicode}
use student_mentor_allocatio.Counter.{
  Gender, male, female, counter_code, is_decimal, counter_regex, normalize_counter,
  validate_counter, built, build,
}

digit-is_space : (c : ℕ) → is_digit c ≡ true → not (is_space c) ≡ true
unfolding is_space
digit-is_space c h = ground arith

digit-fold_digit : (c : ℕ) → is_digit c ≡ true → fold_digit c ≡ c
unfolding fold_digit
digit-fold_digit c h = ground arith

digit-zero_width :
    (c : ℕ) → is_digit c ≡ true → not (any (λ d. c == d) (0x200c ∷ 0x200d ∷ 0xfeff ∷ [])) ≡ true
digit-zero_width c h = ground arith

digit-is_decimal : (u : Unicode) (c : ℕ) → is_digit c ≡ true → is_decimal u c ≡ true
digit-is_decimal u c h = ground (arith, u.decimal_value_digit c h)

-- ASCII digits are in normal form.
normalize_counter-AllDigits : (s : Text) → AllDigits s → normalize_counter s ≡ s
unfolding normalize_counter
normalize_counter-AllDigits s h =
    let Digit = λ (c : ℕ). is_digit c ≡ true in
    rw
      (
        map_fixed fold_digit s (All-map Digit (λ c. fold_digit c ≡ c) s digit-fold_digit h),
        keep-All (λ c. not (any (λ d. c == d) (0x200c ∷ 0x200d ∷ 0xfeff ∷ []))) s
            (All-map Digit (λ c. not (any (λ d. c == d) (0x200c ∷ 0x200d ∷ 0xfeff ∷ [])) ≡ true) s
              digit-zero_width h),
      )
      (keep-All (λ c. not (is_space c)) s
        (All-map Digit (λ c. not (is_space c) ≡ true) s digit-is_space h))

pub counter_code-AllDigits : (g : Gender) → AllDigits (counter_code g)
counter_code-AllDigits male = (refl, (refl, (refl, tt)))
counter_code-AllDigits female = (refl, (refl, (refl, tt)))

regex_shape :
    (u : Unicode) (a b c d e f : ℕ) (g : Gender)
    → AllDigits (a ∷ b ∷ c ∷ d ∷ e ∷ f ∷ [])
    → counter_regex u ((a ∷ b ∷ []) ++ counter_code g ++ (c ∷ d ∷ e ∷ f ∷ [])) ≡ true
unfolding counter_regex text_eq
regex_shape u a b c d e f male (ha, (hb, (hc, (hd, (he, (hf, h)))))) =
    rw
      (
        digit-is_decimal u a ha,
        digit-is_decimal u b hb,
        digit-is_decimal u c hc,
        digit-is_decimal u d hd,
        digit-is_decimal u e he,
        digit-is_decimal u f hf,
      )
      refl
regex_shape u a b c d e f female (ha, (hb, (hc, (hd, (he, (hf, h)))))) =
    rw
      (
        digit-is_decimal u a ha,
        digit-is_decimal u b hb,
        digit-is_decimal u c hc,
        digit-is_decimal u d hd,
        digit-is_decimal u e he,
        digit-is_decimal u f hf,
      )
      refl

-- The regular expression on a year of two digits and a tail of four.
regex_year :
    (u : Unicode) (a b : ℕ) (tail : Text) (g : Gender)
    → is_digit a ≡ true
    → is_digit b ≡ true
    → AllDigits tail
    → length tail ≡ 4
    → counter_regex u ((a ∷ b ∷ []) ++ counter_code g ++ tail) ≡ true
regex_year u a b [] g ha hb h l = absurd (omega arith)
regex_year u a b (c ∷ []) g ha hb h l = absurd (omega arith)
regex_year u a b (c ∷ d ∷ []) g ha hb h l = absurd (omega arith)
regex_year u a b (c ∷ d ∷ e ∷ []) g ha hb h l = absurd (omega arith)
regex_year u a b (c ∷ d ∷ e ∷ f ∷ []) g ha hb h l = regex_shape u a b c d e f g (ha, (hb, h))
regex_year u a b (c ∷ d ∷ e ∷ f ∷ x ∷ tail) g ha hb h l = absurd (omega arith)

pub regex_parts :
    (u : Unicode) (year tail : Text) (g : Gender)
    → AllDigits year
    → length year ≡ 2
    → AllDigits tail
    → length tail ≡ 4
    → counter_regex u (year ++ counter_code g ++ tail) ≡ true
regex_parts u [] tail g hy ly ht lt = absurd (omega arith)
regex_parts u (a ∷ []) tail g hy ly ht lt = absurd (omega arith)
regex_parts u (a ∷ b ∷ []) tail g hy ly ht lt = regex_year u a b tail g hy.0 hy.1.0 ht lt
regex_parts u (a ∷ b ∷ c ∷ year) tail g hy ly ht lt = absurd (omega arith)

pub length-counter_code : (g : Gender) → length (counter_code g) ≡ 3
length-counter_code male = refl
length-counter_code female = refl

-- For a year of two ASCII digits, a gender and a number below 10000, `build` gives a counter of nine
-- characters, which `validate_counter` accepts and returns as it is.
pub build-validate_counter :
    (u : Unicode) (isdigit : Text → Bool) (year : Text) (g : Gender) (n : ℕ)
    → AllDigits year
    → length year ≡ 2
    → isdigit year ≡ true
    → n ≤ 9999
    → let value = year ++ counter_code g ++ decimal_pad 4 n in
      (build isdigit year g (pos n) ≡ built value)
      × (length value ≡ 9)
      × (validate_counter u (some value) ≡ some value)
unfolding build validate_counter
build-validate_counter u isdigit year g n hy ly d h =
    let tail = decimal_pad 4 n in
    let value = year ++ counter_code g ++ tail in
    let four : length tail ≡ 4 = length-decimal_pad 3 n (omega arith) in
    let nine : length value ≡ 9 =
      length-append (year ++ counter_code g) tail
      ∙ omega (arith, length-append year (counter_code g), length-counter_code g, four) in
    let Digit = λ (c : ℕ). is_digit c ≡ true in
    let digits : AllDigits value =
      All-append Digit (year ++ counter_code g) tail
        (All-append Digit year (counter_code g) hy (counter_code-AllDigits g))
        (AllDigits-decimal_pad 4 n) in
    let matches = regex_parts u year tail g hy ly (AllDigits-decimal_pad 4 n) four in
    let small : leb n 9999 ≡ true = ground arith in
    (
      ground (arith, ly, d, small, nine),
      nine,
      rw (normalize_counter-AllDigits value digits, matches) refl,
    )

-- What a successful `build` has put together.
built_parts :
    (isdigit : Text → Bool) (year value : Text) (g : Gender) (n : ℕ)
    → build isdigit year g (pos n) ≡ built value
    → (length year ≡ 2) × (value ≡ year ++ counter_code g ++ decimal_pad 4 n)
unfolding build
built_parts isdigit year value g n e = (ground (arith, e), ground (arith, e))

pub counter_code-injective : (g g' : Gender) → counter_code g ≡ counter_code g' → g ≡ g'
counter_code-injective male male e = refl
counter_code-injective male female e = absurd (ground (arith, e))
counter_code-injective female male e = absurd (ground (arith, e))
counter_code-injective female female e = refl

-- Two calls of `build` give one counter only for the same year, gender and number.
pub build-injective :
    (isdigit : Text → Bool) (year year' value : Text) (g g' : Gender) (n n' : ℕ)
    → build isdigit year g (pos n) ≡ built value
    → build isdigit year' g' (pos n') ≡ built value
    → (year ≡ year') × (g ≡ g') × (n ≡ n')
build-injective isdigit year year' value g g' n n' e e' =
    let (two, made) = built_parts isdigit year value g n e in
    let (two', made') = built_parts isdigit year' value g' n' e' in
    let tail = decimal_pad 4 n in
    let tail' = decimal_pad 4 n' in
    let head = year ++ counter_code g in
    let head' = year' ++ counter_code g' in
    let five : length head ≡ 5 =
      length-append year (counter_code g) ∙ omega (arith, length-counter_code g) in
    let five' : length head' ≡ 5 =
      length-append year' (counter_code g') ∙ omega (arith, length-counter_code g') in
    let same : head ++ tail ≡ head' ++ tail' = sym made ∙ made' in
    let heads : head ≡ head' =
      sym (take-append head tail 5 five) ∙ ap (take 5) same ∙ take-append head' tail' 5 five' in
    let tails : tail ≡ tail' =
      sym (drop-append head tail 5 five) ∙ ap (drop 5) same ∙ drop-append head' tail' 5 five' in
    (
      sym (take-append year (counter_code g) 2 two)
          ∙ ap (take 2) heads
          ∙ take-append year' (counter_code g') 2 two',
      counter_code-injective g g' (
          sym (drop-append year (counter_code g) 2 two)
          ∙ ap (drop 2) heads
          ∙ drop-append year' (counter_code g') 2 two'),
      sym (digits_value-decimal_pad 4 n)
          ∙ ap (digits_value 0) tails
          ∙ digits_value-decimal_pad 4 n',
    )
