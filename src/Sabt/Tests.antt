-- ===== src/Sabt/Tests.antt =====
-- The sorter on three rows with a buffer of two.
use student_mentor_allocatio.Base.{◌≡◌, refl, some, List, [], ◌∷◌}
use student_mentor_allocatio.Base.Sort.{sort_by}
use student_mentor_allocatio.Base.Text.{
  Text, text_eq, codes, strip, lstrip, is_space, fold_digit, fold_letter,
}
use student_mentor_allocatio.Base.Text.Decimal.{decimal_pad}
use student_mentor_allocatio.Python.{int, int_digits}
use student_mentor_allocatio.Python.Database.{ascii}
use student_mentor_allocatio.Sabt.Sorter.{
  RawRow, Entry, SortPlan, entry_le, rows_of, sanitize_text, normalize_row, to_int, component,
  build_key, entry_of, prepare, iter_sorted,
}
use student_mentor_allocatio.Sabt.Sorter.Sorted.{entries_of, iter_sorted-sort}

abbrev sort_keys : List Text
sort_keys = codes "year_code" ∷ codes "reg_center" ∷ []

abbrev row : Text → Text → RawRow
row year center = (codes "year_code", some year) ∷ (codes "reg_center", some center) ∷ []

abbrev rows : List RawRow
rows =
    row (codes "02") (codes "2")
    ∷ row (codes " 01") (codes "10")
    ∷ row (codes "02") (codes "1")
    ∷ []

abbrev entry : Text → Text → Text → Entry
entry year padded center = record {
  key = year ∷ padded ∷ [];
  row = (codes "year_code", year) ∷ (codes "reg_center", center) ∷ [];
}

abbrev entries : List Entry
entries =
    entry (codes "02") (codes "002") (codes "2")
    ∷ entry (codes "01") (codes "010") (codes "10")
    ∷ entry (codes "02") (codes "001") (codes "1")
    ∷ []

entries_lem : entries_of ascii sort_keys 2 rows ≡ some entries
unfolding entries_of entry_of build_key component to_int normalize_row sanitize_text strip lstrip
    is_space fold_digit fold_letter text_eq int int_digits decimal_pad
entries_lem = refl

iter_sorted-sort_example :
    (plan : SortPlan) × (prepare ascii sort_keys 2 rows ≡ some plan)
    × (iter_sorted ascii sort_keys 2 plan ≡ rows_of ascii sort_keys 2 (sort_by entry_le entries))
unfolding sanitize_text strip lstrip is_space fold_digit fold_letter
iter_sorted-sort_example =
    iter_sorted-sort ascii sort_keys 2 rows entries entries_lem (refl, (refl, (refl, tt)))
