-- ===== src/Runtime/Script/Keys.antt =====
-- The keys of students and sequences are apart, and a counter determines its parts.
use student_mentor_allocatio.Base.{
  ℕ, ◌≡◌, ◌≢◌, refl, sym, ◌∙◌, ap, [], ◌∷◌, ◌++◌, arith, length, take, drop, take-append,
  drop-append,
}
use student_mentor_allocatio.Base.Text.{Text, codes}
use student_mentor_allocatio.Base.Text.Decimal.{digits_value, digits_value-decimal_pad}
use student_mentor_allocatio.Counter.{Gender, male, female, counter_code}
use student_mentor_allocatio.Counter.Format.{counter_code-injective, length-counter_code}
use student_mentor_allocatio.Runtime.Script.{
  gender_digit, counter_sequence, counter_student, counter_of,
}

pub append-cancel : (p : Text) {x y : Text} → p ++ x ≡ p ++ y → x ≡ y
append-cancel [] e = e
append-cancel (c ∷ p) e = append-cancel p cc

-- Two texts that begin with parts of one length agree in both parts.
pub parts :
    (xs xs' ys ys' : Text) (n : ℕ)
    → length xs ≡ n
    → length xs' ≡ n
    → xs ++ ys ≡ xs' ++ ys'
    → (xs ≡ xs') × (ys ≡ ys')
parts xs xs' ys ys' n l l' e = (
  sym (take-append xs ys n l) ∙ ap (take n) e ∙ take-append xs' ys' n l',
  sym (drop-append xs ys n l) ∙ ap (drop n) e ∙ drop-append xs' ys' n l',
)

gender_digit-injective : (g g' : Gender) → gender_digit g ≡ gender_digit g' → g ≡ g'
gender_digit-injective male male e = refl
gender_digit-injective male female e = absurd (ground (arith, e))
gender_digit-injective female male e = absurd (ground (arith, e))
gender_digit-injective female female e = refl

pub sequence≢student :
    (base year year' sid : Text) (g : Gender)
    → counter_sequence base year g ≢ counter_student base year' sid
sequence≢student base year year' sid g e = absurd (ground (arith, append-cancel base e))

pub counter_sequence-injective :
    (base year year' : Text) (g g' : Gender)
    → length year ≡ 2
    → length year' ≡ 2
    → counter_sequence base year g ≡ counter_sequence base year' g'
    → (year ≡ year') × (g ≡ g')
counter_sequence-injective base year year' g g' l l' e =
    let (ey, eg) =
      parts year year' (codes ":" ++ gender_digit g) (codes ":" ++ gender_digit g') 2 l l'
        (append-cancel (codes ":counter:seq:") (append-cancel base e)) in
    (ey, gender_digit-injective g g' (append-cancel (codes ":") eg))

pub counter_student-injective :
    (base year year' sid sid' : Text)
    → length year ≡ 2
    → length year' ≡ 2
    → counter_student base year sid ≡ counter_student base year' sid'
    → (year ≡ year') × (sid ≡ sid')
counter_student-injective base year year' sid sid' l l' e =
    let (ey, es) =
      parts year year' (codes ":" ++ sid) (codes ":" ++ sid') 2 l l'
        (append-cancel (codes ":counter:student:") (append-cancel base e)) in
    (ey, append-cancel (codes ":") es)

pub counter_of-injective :
    (year year' : Text) (g g' : Gender) (n n' : ℕ)
    → length year ≡ 2
    → length year' ≡ 2
    → counter_of year g n ≡ counter_of year' g' n'
    → (year ≡ year') × (g ≡ g') × (n ≡ n')
counter_of-injective year year' g g' n n' l l' e =
    let (ey, rest) = parts year year' _ _ 2 l l' e in
    let (eg, en) =
      parts (counter_code g) (counter_code g') _ _ 3 (length-counter_code g)
        (length-counter_code g') rest in
    (
      ey,
      counter_code-injective g g' eg,
      sym (digits_value-decimal_pad 4 n) ∙ ap (digits_value 0) en ∙ digits_value-decimal_pad 4 n',
    )
