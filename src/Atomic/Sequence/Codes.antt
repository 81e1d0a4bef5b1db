-- ===== src/Atomic/Sequence/Codes.antt =====
-- The identifiers of the sequence provider are new, and its codes have a fixed layout.
use student_mentor_allocatio.Base.{
  ℕ, suc, ◌+◌, ◌%◌, ◌^◌, ◌≤◌, ◌<◌, ◌≡◌, ◌∙◌, ap, List, [], ◌∷◌, arith, All, length, length-append,
  take-append, drop-append, take, drop,
}
use student_mentor_allocatio.Base.Text.Decimal.{
  decimal_pad, digits_value, digits_value-decimal_pad, length-decimal_pad,
}
use student_mentor_allocatio.Store.{AllocationRecord, Db}
use student_mentor_allocatio.Atomic.Sequence.{max_id, two_digit_year, next}

max_id_le : (rs : List AllocationRecord) (n : ℕ) → max_id rs ≤ n → All (λ r. r.allocation_id ≤ n) rs
max_id_le [] n h = tt
max_id_le (r ∷ rs) n h = (omega arith, max_id_le rs n (omega arith))

below :
    (rs : List AllocationRecord) (n : ℕ)
    → All (λ r. r.allocation_id ≤ n) rs
    → All (λ r. r.allocation_id < n + 1) rs
below [] n h = tt
below (r ∷ rs) n h = (omega (arith, h.0), below rs n h.1)

-- The next id is greater than the id of every allocation in the table.
pub next-fresh :
    (width year : ℕ) (db : Db)
    → All (λ r. r.allocation_id < (next width year db).allocation_id) db.allocations
unfolding next
next-fresh width year db =
    below db.allocations (max_id db.allocations)
      (max_id_le db.allocations (max_id db.allocations) (omega arith))

length-two_digit_year : (year : ℕ) → length (two_digit_year year) ≡ 2
length-two_digit_year year = length-decimal_pad 1 (year % 100) (omega arith)

-- An allocation code starts with the two digits of the year, and the rest of it reads back as the
-- id, whatever the width. While the id has at most `width` digits, the code has `width + 2`
-- characters.
pub next-layout :
    (k year : ℕ) (db : Db)
    → let new = next (suc k) year db in
      (take 2 new.allocation_code ≡ new.year_code)
      × (digits_value 0 new.year_code ≡ year % 100)
      × (digits_value 0 (drop 2 new.allocation_code) ≡ new.allocation_id)
      × (new.allocation_id < 10 ^ (suc k) → length new.allocation_code ≡ suc k + 2)
unfolding next
next-layout k year db =
    let code = two_digit_year year in
    let id = max_id db.allocations + 1 in
    (
      take-append code (decimal_pad (suc k) id) 2 (length-two_digit_year year),
      digits_value-decimal_pad 2 (year % 100),
      ap (digits_value 0) (drop-append code (decimal_pad (suc k) id) 2 (length-two_digit_year year))
          ∙ digits_value-decimal_pad (suc k) id,
      λ h.
          length-append code (decimal_pad (suc k) id)
          ∙ omega (arith, length-two_digit_year year, length-decimal_pad k id h),
    )
