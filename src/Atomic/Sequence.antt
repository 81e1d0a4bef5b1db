-- ===== src/Atomic/Sequence.antt =====
-- `SimpleAllocationSequenceProvider.next` of src/sma/phase3_allocation/allocation_tx.py. The id column
-- is a positive integer, so a maximum of 0 stands for a table without rows.
pub mod Codes
use student_mentor_allocatio.Base.{ℕ, ◌+◌, ◌%◌, max, List, [], ◌∷◌, ◌++◌}
use student_mentor_allocatio.Base.Text.{Text}
use student_mentor_allocatio.Base.Text.Decimal.{decimal_pad}
use student_mentor_allocatio.Store.{AllocationRecord, Db}
use student_mentor_allocatio.Atomic.Types.{AllocationIdentifiers}

-- `select max(allocation_id)`, or 0 if there are no rows
abbrev pub max_id : List AllocationRecord → ℕ
max_id [] = 0
max_id (r ∷ rs) = max r.allocation_id (max_id rs)

abbrev pub two_digit_year : ℕ → Text
two_digit_year year = decimal_pad 2 (year % 100)

-- `year` is `clock.now().year` and `width` is `legacy_width`.
unfoldable pub next : ℕ → ℕ → Db → AllocationIdentifiers
next width year db =
    let next_id = max_id db.allocations + 1 in
    let year_code = two_digit_year year in
    record {
      allocation_id = next_id;
      year_code = year_code;
      allocation_code = year_code ++ decimal_pad width next_id;
    }
