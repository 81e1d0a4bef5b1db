-- ===== src/Counter/Tests.antt =====
-- The theorems on counters at one year, gender and number.
use student_mentor_allocatio.Base.{◌≡◌, refl, true}
use student_mentor_allocatio.Base.Int.{pos}
use student_mentor_allocatio.Base.Text.{codes}
use student_mentor_allocatio.Base.Text.Decimal.{decimal, decimal_pad}
use student_mentor_allocatio.Counter.{female, built, build}

made : build (λ s. true) (codes "02") female (pos 45) ≡ built (codes "023570045")
unfolding build decimal decimal_pad
made = refl
