-- ===== src/Repository/Backfill.antt =====
-- src/sma/phase2_counter_service/backfill.py: the rows of a CSV file as they are read, in chunks, with
-- `fetch_existing_counters` and `snapshot_sequences` of repository.py. A row that is refused ends
-- the run when its chunk is read; what was committed before stays.
pub mod Run
pub mod Chunks
pub mod Moves
pub mod Totals
use student_mentor_allocatio.Base.{
  ℕ, zero, suc, ◌+◌, ◌-◌, max, Bool, true, false, not, ◌&&◌, ◌||◌, ◌==◌, Option, none, some, List,
  [], ◌∷◌, ◌++◌, length, take, drop, any, map, leb, if◌then◌else◌,
}
use student_mentor_allocatio.Base.Int.{ℤ, pos, negsuc}
use student_mentor_allocatio.Base.Text.{Text, text_eq}
use student_mentor_allocatio.Python.{Unicode, int}
use student_mentor_allocatio.Counter.{Gender, male, female, counter_code}
use student_mentor_allocatio.Store.{StudentModel}
use student_mentor_allocatio.Repository.Validation.{
  ErrorCode, invalid_gender, Checked, fine, raised, normalize, ensure_valid_inputs,
  ensure_counter_format, ensure_sequence_bounds,
}
use student_mentor_allocatio.Repository.Reserve.{
  CounterDb, Conflict, CounterSequence, existing_counter, select_sequence_row,
}
use student_mentor_allocatio.Repository.Assign.{Others, ConflictKind, Assignment, assign_counter}

pub record BackfillRow : Type 0 where
  pub national_id : Text
  pub gender : Gender
  pub year_code : Text

pub record BackfillStats : Type 0 where
  pub total_rows : ℕ
  pub applied : ℕ
  pub reused : ℕ
  pub skipped : ℕ
  pub dry_run : Bool
  pub prefix_mismatches : ℕ

-- The columns of a line of the file.
pub record RawRow : Type 0 where
  pub raw_national_id : Text
  pub raw_gender : Text
  pub raw_year_code : Text

abbrev pub gender_of_int : ℤ → Option Gender
gender_of_int (pos n) = if n == 0 then some male else if n == 1 then some female else none
gender_of_int (negsuc n) = none

abbrev pub row_of : Checked (Text × Gender × Text) → Checked BackfillRow
row_of (raised code) = raised code
row_of (fine inputs) =
    fine (record { national_id = inputs.0; gender = inputs.1; year_code = inputs.2 })

abbrev pub parsed_row : Unicode → RawRow → Option ℤ → Checked BackfillRow
parsed_row u raw none = raised invalid_gender
parsed_row u raw (some value) =
    row_of (ensure_valid_inputs u raw.raw_national_id (gender_of_int value) raw.raw_year_code)

-- One turn of `_parse_rows`.
unfoldable pub parse_row : Unicode → RawRow → Checked BackfillRow
parse_row u raw = parsed_row u raw (int u (normalize u raw.raw_gender))

-- The chunks that are given before the rows end or one of them is refused.
pub record Chunked : Type 0 where
  pub chunks : List (List BackfillRow)
  pub refused : Option ErrorCode

abbrev pub last_chunk : List BackfillRow → List (List BackfillRow)
last_chunk [] = []
last_chunk (row ∷ chunk) = (row ∷ chunk) ∷ []

abbrev pub first_chunk : List BackfillRow → Chunked → Chunked
first_chunk chunk rest = record { chunks = chunk ∷ rest.chunks; refused = rest.refused }

-- `_chunked` with the rows of the chunk so far.
unfoldable pub chunked : ℕ → List BackfillRow → List (Checked BackfillRow) → Chunked
chunked chunk_size chunk [] = record { chunks = last_chunk chunk; refused = none }
chunked chunk_size chunk (raised code ∷ rows) = record { chunks = []; refused = some code }
chunked chunk_size chunk (fine row ∷ rows) =
    let filled = chunk ++ (row ∷ []) in
    let given = first_chunk filled (chunked chunk_size [] rows) in
    let longer = chunked chunk_size filled rows in
    if leb chunk_size (length filled) then given else longer

-- The counts of a run and of a chunk, the next numbers as far as they are known, and the tables.
pub record Tally : Type 0 where
  pub applied : ℕ
  pub reused : ℕ
  pub skipped : ℕ
  pub applied_chunk : ℕ
  pub reused_chunk : ℕ
  pub skipped_chunk : ℕ
  pub prefix_mismatches : ℕ
  pub seq_snapshot : Text → Text → ℕ
  pub db : CounterDb

abbrev pub set_snapshot : (Text → Text → ℕ) → Text → Text → ℕ → Text → Text → ℕ
set_snapshot snapshot year prefix value =
    λ y p. if text_eq y year && text_eq p prefix then value else snapshot y p

-- `int(counter[-4:])` of a counter that has passed the format check.
abbrev pub int_value : Option ℤ → ℕ
int_value (some (pos n)) = n
int_value (some (negsuc n)) = 0
int_value none = 0

abbrev pub serial_of : Unicode → Text → ℕ
serial_of u counter = int_value (int u (drop (length counter - 4) counter))

abbrev pub starts_with : Text → Text → Bool
starts_with prefix value = text_eq (take (length prefix) value) prefix

abbrev pub entries :
    Text → Checked (List (Text × Text)) → Checked Text → Checked (List (Text × Text))
entries national_id (raised code) found = raised code
entries national_id (fine rest) (raised code) = raised code
entries national_id (fine rest) (fine counter) = fine ((national_id, counter) ∷ rest)

abbrev pub entry_of :
    Unicode → Text → Checked (List (Text × Text)) → Option Text → Checked (List (Text × Text))
entry_of u national_id rest none = rest
entry_of u national_id rest (some counter) =
    entries national_id rest (ensure_counter_format u counter)

-- `fetch_existing_counters`
unfoldable pub fetch_existing_counters :
    Unicode → List Text → List StudentModel → Checked (List (Text × Text))
fetch_existing_counters u national_ids [] = fine []
fetch_existing_counters u national_ids (s ∷ students) =
    let rest = fetch_existing_counters u national_ids students in
    if any (λ n. text_eq n s.national_id) national_ids
    then entry_of u s.national_id rest (existing_counter s.counter)
    else rest

abbrev pub lookup : List (Text × Text) → Text → Option Text
lookup [] national_id = none
lookup ((key, counter) ∷ rest) national_id =
    if text_eq key national_id then some counter else lookup rest national_id

abbrev pub last_of : Option CounterSequence → ℕ
last_of none = 0
last_of (some row) = row.last_seq

-- `snapshot_sequences`
abbrev pub snapshot_sequences : CounterDb → Text → Text → ℕ
snapshot_sequences db year prefix = last_of (select_sequence_row db.sequences year prefix)
