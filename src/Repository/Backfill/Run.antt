-- ===== src/Repository/Backfill/Run.antt =====
-- `run_backfill` of src/sma/phase2_counter_service/backfill.py from the chunks on.
use student_mentor_allocatio.Base.{
  ℕ, suc, ◌+◌, max, Bool, not, Option, none, some, List, [], ◌∷◌, ◌++◌, length, map, if◌then◌else◌,
}
use student_mentor_allocatio.Base.Text.{Text}
use student_mentor_allocatio.Python.{Unicode}
use student_mentor_allocatio.Counter.{counter_code}
use student_mentor_allocatio.Repository.Validation.{
  ErrorCode, Checked, fine, raised, ensure_sequence_bounds,
}
use student_mentor_allocatio.Repository.Reserve.{CounterDb, Conflict}
use student_mentor_allocatio.Repository.Assign.{Others, ConflictKind, Assignment, assign_counter}
use student_mentor_allocatio.Repository.Backfill.{
  BackfillRow, BackfillStats, RawRow, Tally, parse_row, chunked, set_snapshot, serial_of,
  starts_with, fetch_existing_counters, lookup, snapshot_sequences,
}

-- The counts after some rows, with the error that has ended the run.
pub record Passed : Type 0 where
  pub stopped : Option ErrorCode
  pub tally : Tally

-- What `observer.on_chunk` is given.
pub record ChunkReport : Type 0 where
  pub chunk_index : ℕ
  pub applied_count : ℕ
  pub reused_count : ℕ
  pub skipped_count : ℕ

pub record Backfilled : Type 0 where
  pub outcome : Checked BackfillStats
  pub reports : List ChunkReport
  pub db : CounterDb

module _ (u : Unicode) (max_retries : ℕ) (refusal : Text) (classify : Conflict → ConflictKind)
    (others : Others) (apply : Bool) where
  abbrev pub prefix_of : BackfillRow → Text
  prefix_of row = counter_code row.gender

  abbrev pub raise_snapshot : BackfillRow → Text → (Text → Text → ℕ) → Text → Text → ℕ
  raise_snapshot row counter snapshot =
      set_snapshot snapshot row.year_code (prefix_of row)
        (max (snapshot row.year_code (prefix_of row)) (serial_of u counter))

  -- A row whose student has a counter.
  abbrev pub count_reused : Tally → BackfillRow → Text → Tally
  count_reused t row counter =
      let matches = starts_with (row.year_code ++ prefix_of row) counter in
      record {
        applied = t.applied;
        reused = t.reused + 1;
        skipped = t.skipped;
        applied_chunk = t.applied_chunk;
        reused_chunk = t.reused_chunk + 1;
        skipped_chunk = t.skipped_chunk;
        prefix_mismatches = if matches then t.prefix_mismatches else t.prefix_mismatches + 1;
        seq_snapshot =
            if matches then raise_snapshot row counter t.seq_snapshot else t.seq_snapshot;
        db = t.db;
      }

  -- A row of a dry run.
  abbrev pub count_skipped : Tally → BackfillRow → Checked ℕ → Passed
  count_skipped t row (raised code) = record { stopped = some code; tally = t }
  count_skipped t row (fine next_seq) = record {
    stopped = none;
    tally = record {
      applied = t.applied;
      reused = t.reused;
      skipped = t.skipped + 1;
      applied_chunk = t.applied_chunk;
      reused_chunk = t.reused_chunk;
      skipped_chunk = t.skipped_chunk + 1;
      prefix_mismatches = t.prefix_mismatches;
      seq_snapshot = set_snapshot t.seq_snapshot row.year_code (prefix_of row) next_seq;
      db = t.db;
    };
  }

  abbrev pub with_db : Tally → CounterDb → Tally
  with_db t db = record {
    applied = t.applied;
    reused = t.reused;
    skipped = t.skipped;
    applied_chunk = t.applied_chunk;
    reused_chunk = t.reused_chunk;
    skipped_chunk = t.skipped_chunk;
    prefix_mismatches = t.prefix_mismatches;
    seq_snapshot = t.seq_snapshot;
    db = db;
  }

  -- A row that is assigned, with the tables after that.
  abbrev pub count_applied : Tally → BackfillRow → CounterDb → Checked Text → Passed
  count_applied t row db (raised code) = record { stopped = some code; tally = with_db t db }
  count_applied t row db (fine counter) = record {
    stopped = none;
    tally = record {
      applied = t.applied + 1;
      reused = t.reused;
      skipped = t.skipped;
      applied_chunk = t.applied_chunk + 1;
      reused_chunk = t.reused_chunk;
      skipped_chunk = t.skipped_chunk;
      prefix_mismatches = t.prefix_mismatches;
      seq_snapshot = raise_snapshot row counter t.seq_snapshot;
      db = db;
    };
  }

  abbrev pub assign_row : BackfillRow → CounterDb → Assignment
  assign_row row db =
      assign_counter u max_retries refusal classify others row.national_id (some row.gender)
        row.year_code db

  abbrev pub on_row : Tally → BackfillRow → Option Text → Passed
  on_row t row (some counter) = record { stopped = none; tally = count_reused t row counter }
  on_row t row none =
      if not apply
      then count_skipped t row
          (ensure_sequence_bounds (t.seq_snapshot row.year_code (prefix_of row) + 1))
      else count_applied t row (assign_row row t.db).db (assign_row row t.db).result

  abbrev pub and_then : Passed → (Tally → Passed) → Passed
  and_then p next = elim p.stopped [ none ↦ next p.tally | some code ↦ p ]

  -- The rows of a chunk.
  unfoldable pub on_rows : List (Text × Text) → Tally → List BackfillRow → Passed
  on_rows existing t [] = record { stopped = none; tally = t }
  on_rows existing t (row ∷ rows) =
      and_then (on_row t row (lookup existing row.national_id)) (λ next. on_rows existing next rows)

  -- The counts of a new chunk are zero.
  abbrev pub new_chunk : Tally → Tally
  new_chunk t = record {
    applied = t.applied;
    reused = t.reused;
    skipped = t.skipped;
    applied_chunk = 0;
    reused_chunk = 0;
    skipped_chunk = 0;
    prefix_mismatches = t.prefix_mismatches;
    seq_snapshot = t.seq_snapshot;
    db = t.db;
  }

  abbrev pub with_fetched_rows : Tally → List BackfillRow → Checked (List (Text × Text)) → Passed
  with_fetched_rows t chunk (raised code) = record { stopped = some code; tally = t }
  with_fetched_rows t chunk (fine existing) = on_rows existing (new_chunk t) chunk

  unfoldable pub on_chunk : Tally → List BackfillRow → Passed
  unfolding on_rows
  on_chunk t chunk =
      with_fetched_rows t chunk
        (fetch_existing_counters u (map (λ row. row.national_id) chunk) t.db.students)

  abbrev pub report : ℕ → Tally → ChunkReport
  report index t = record {
    chunk_index = index;
    applied_count = t.applied_chunk;
    reused_count = t.reused_chunk;
    skipped_count = t.skipped_chunk;
  }

  abbrev pub stats : ℕ → Tally → BackfillStats
  stats total t = record {
    total_rows = total;
    applied = t.applied;
    reused = t.reused;
    skipped = t.skipped;
    dry_run = not apply;
    prefix_mismatches = t.prefix_mismatches;
  }

  abbrev pub ended : Option ErrorCode → ℕ → List ChunkReport → Tally → Backfilled
  ended (some code) total reports t = record { outcome = raised code; reports = reports; db = t.db }
  ended none total reports t = record {
    outcome = fine (stats total t);
    reports = reports;
    db = t.db;
  }

  abbrev pub after_chunk :
      (List ChunkReport → Tally → Backfilled) → ℕ → List ChunkReport → Passed → Backfilled
  after_chunk next index reports p = elim p.stopped [
    | some code ↦ record { outcome = raised code; reports = reports; db = p.tally.db }
    | none ↦ next (reports ++ (report index p.tally ∷ [])) p.tally
  ]

  -- The chunks from an index on, then the error of the rows, if there is one.
  unfoldable pub on_chunks :
      Option ErrorCode → ℕ → ℕ → List ChunkReport → Tally → List (List BackfillRow) → Backfilled
  unfolding on_chunk
  on_chunks refused index total reports t [] = ended refused total reports t
  on_chunks refused index total reports t (chunk ∷ chunks) =
      after_chunk
        (λ seen next. on_chunks refused (suc index) (total + length chunk) seen next chunks)
        (suc index) reports (on_chunk t chunk)

  abbrev pub first_tally : CounterDb → Tally
  first_tally db = record {
    applied = 0;
    reused = 0;
    skipped = 0;
    applied_chunk = 0;
    reused_chunk = 0;
    skipped_chunk = 0;
    prefix_mismatches = 0;
    seq_snapshot = snapshot_sequences db;
    db = db;
  }

  -- `run_backfill`
  unfoldable pub run_backfill : ℕ → List RawRow → CounterDb → Backfilled
  unfolding on_chunks
  run_backfill chunk_size raw db =
      let rows = chunked chunk_size [] (map (parse_row u) raw) in
      on_chunks rows.refused 0 0 [] (first_tally db) rows.chunks
