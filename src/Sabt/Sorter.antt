-- ===== src/Sabt/Sorter.antt =====
-- `ExternalSorter` of src/sma/phase6_import_to_sabt/external_sorter.py and `normalize_text` of
-- src/sma/phase6_import_to_sabt/normalization.py, which `sanitize_text` calls. A chunk on the disk is the
-- list of its entries; writing and removing files, and their errors, are left out.
pub mod Order
pub mod Sorted
use student_mentor_allocatio.Base.{
  ℕ, zero, suc, ◌+◌, ◌-◌, Bool, true, false, not, ◌||◌, ◌&&◌, ◌==◌, Option, none, some, List, [],
  ◌∷◌, ◌++◌, map, keep, length, ltb, leb, if◌then◌else◌,
}
use student_mentor_allocatio.Base.Int.{ℤ, pos, negsuc}
use student_mentor_allocatio.Base.Sort.{sort_by}
use student_mentor_allocatio.Base.Text.{
  Text, text_eq, codes, strip, remove_chars, fold_digit, fold_letter,
}
use student_mentor_allocatio.Base.Text.Decimal.{decimal_pad}
use student_mentor_allocatio.Python.{Unicode, int}
use student_mentor_allocatio.Sabt.Merge.{merge}

-- `CONTROL_PATTERN`
abbrev pub is_control : ℕ → Bool
is_control c = leb c 8 || c == 0xb || c == 0xc || (leb 0xe c && leb c 0x1f) || c == 0x7f

abbrev pub line_space : ℕ → ℕ
line_space c = if c == 13 || c == 10 || c == 9 then 32 else c

-- `normalize_text` of a text
unfoldable pub sanitize_text : Unicode → Text → Text
sanitize_text u [] = []
sanitize_text u (c ∷ text) =
    let letters = map fold_letter (u.nfkc (c ∷ text)) in
    let shown = remove_chars (0x200b ∷ 0x200c ∷ 0x200d ∷ 0xfeff ∷ []) letters in
    let printed = keep (λ c. not (is_control c)) shown in
    strip (map line_space (map fold_digit printed))

-- A row of the export, by its columns; a value that is missing is `None`.
abbrev pub RawRow : Type 0
RawRow = List (Text × Option Text)

abbrev pub Row : Type 0
Row = List (Text × Text)

abbrev pub Key : Type 0
Key = List Text

pub record Entry : Type 0 where
  pub key : Key
  pub row : Row

pub record SortPlan : Type 0 where
  pub chunks : List (List Entry)
  pub in_memory : List Entry
  pub total_rows : ℕ

-- The order of texts by their code points, and of tuples by their first difference.
abbrev pub text_le : Text → Text → Bool
text_le [] t = true
text_le (a ∷ s) [] = false
text_le (a ∷ s) (b ∷ t) = if a == b then text_le s t else ltb a b

abbrev pub key_le : Key → Key → Bool
key_le [] l = true
key_le (s ∷ k) [] = false
key_le (s ∷ k) (t ∷ l) = if text_eq s t then key_le k l else text_le s t

abbrev pub entry_le : Entry → Entry → Bool
entry_le e f = key_le e.key f.key

-- `f"{z:0{w}d}"`
abbrev pub pad_int : ℕ → ℤ → Text
pad_int w (pos n) = decimal_pad w n
pad_int w (negsuc n) = 45 ∷ decimal_pad (w - 1) (suc n)

-- `row.get(name)`
abbrev pub get : Row → Text → Option Text
get [] name = none
get ((column, value) ∷ row) name = if text_eq column name then some value else get row name

module _ (u : Unicode) where
  abbrev pub normalized_value : Option Text → Text
  normalized_value none = []
  normalized_value (some value) = sanitize_text u value

  -- `_normalize_row`
  unfoldable pub normalize_row : RawRow → Row
  normalize_row [] = []
  normalize_row ((column, value) ∷ row) = (column, normalized_value value) ∷ normalize_row row

  -- `_to_int`; `none` is the `ExportValidationError`.
  unfoldable pub to_int : ℤ → Option Text → Option ℤ
  to_int default none = some default
  to_int default (some []) = some default
  to_int default (some (c ∷ s)) = int u (c ∷ s)

  abbrev pub padded : ℕ → Option ℤ → Option Text
  padded w none = none
  padded w (some z) = some (pad_int w z)

  -- The part of a key for one column.
  unfoldable pub component : Row → Text → Option Text
  unfolding to_int
  component row name =
      if text_eq name (codes "reg_center")
      then padded 3 (to_int (pos 0) (get row name))
      else if text_eq name (codes "group_code")
      then padded 6 (to_int (pos 0) (get row name))
      else if text_eq name (codes "school_code")
      then padded 6 (to_int (pos 999999) (get row name))
      else get row name

  abbrev pub consed : Option Text → Option Key → Option Key
  consed none key = none
  consed (some part) none = none
  consed (some part) (some key) = some (part ∷ key)

  unfoldable pub build_key : List Text → Row → Option Key
  unfolding component
  build_key [] row = some []
  build_key (name ∷ names) row = consed (component row name) (build_key names row)

  abbrev pub entry_with : Row → Option Key → Option Entry
  entry_with row none = none
  entry_with row (some key) = some (record { key = key; row = row })

  unfoldable pub entry_of : List Text → RawRow → Option Entry
  unfolding build_key normalize_row
  entry_of sort_keys raw = entry_with (normalize_row raw) (build_key sort_keys (normalize_row raw))

  -- A spilled entry as it is read back: the values of its row are cleaned again.
  abbrev pub reread_row : Row → Row
  reread_row [] = []
  reread_row ((column, value) ∷ row) = (column, sanitize_text u value) ∷ reread_row row

  abbrev pub reread : Entry → Entry
  reread e = record { key = e.key; row = reread_row e.row }

  module _ (sort_keys : List Text) (buffer_rows : ℕ) where
    abbrev pub with_entry : (Entry → Option SortPlan) → Option Entry → Option SortPlan
    with_entry next none = none
    with_entry next (some e) = next e

    -- The loop of `prepare` with the chunks, the buffer and the number of rows so far.
    unfoldable pub prepare_loop : List (List Entry) → List Entry → ℕ → List RawRow → Option SortPlan
    unfolding entry_of
    prepare_loop chunks buffer total [] =
        some (record { chunks = chunks; in_memory = sort_by entry_le buffer; total_rows = total })
    prepare_loop chunks buffer total (raw ∷ rows) =
        with_entry
          (λ e.
            let longer = buffer ++ (e ∷ []) in
            let spilled =
              prepare_loop (chunks ++ (sort_by entry_le longer ∷ [])) [] (total + 1) rows in
            let kept = prepare_loop chunks longer (total + 1) rows in
            if leb buffer_rows (length longer) then spilled else kept)
          (entry_of sort_keys raw)

    -- `prepare`; `none` is the `ExportValidationError`.
    unfoldable pub prepare : List RawRow → Option SortPlan
    unfolding prepare_loop
    prepare rows = prepare_loop [] [] 0 rows

    -- The iterators: the chunks as they are read back, then the rows in memory.
    abbrev pub iterators : SortPlan → List (List Entry)
    iterators plan = map (map reread) plan.chunks ++ (plan.in_memory ∷ [])

    abbrev pub rows_of : List Entry → List Row
    rows_of [] = []
    rows_of (e ∷ entries) = e.row ∷ rows_of entries

    -- The rows, by the chunks of the plan.
    abbrev pub rows_with : SortPlan → List (List Entry) → List Row
    rows_with plan [] = rows_of plan.in_memory
    rows_with plan (chunk ∷ chunks) = rows_of (merge entry_le (iterators plan))

    unfoldable pub iter_sorted : SortPlan → List Row
    iter_sorted plan = rows_with plan plan.chunks
