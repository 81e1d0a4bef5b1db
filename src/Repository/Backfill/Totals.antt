-- ===== src/Repository/Backfill/Totals.antt =====
-- backfill.py, `run_backfill`: the counts of a run, and what it does to the tables.
use student_mentor_allocatio.Base.{
  ℕ, suc, ◌+◌, ◌≡◌, refl, sym, ◌∙◌, ap, inl, inr, Bool, true, false, Option, none, some, List, [],
  ◌∷◌, length, map, arith, Option-cases,
}
use student_mentor_allocatio.Base.Text.{Text}
use student_mentor_allocatio.Python.{Unicode}
use student_mentor_allocatio.Repository.Validation.{ErrorCode, fine, raised}
use student_mentor_allocatio.Repository.Reserve.{CounterDb, Conflict}
use student_mentor_allocatio.Repository.Reserve.Invariant.{
  IsConsistent, Extends, Extends-refl, Extends-trans,
}
use student_mentor_allocatio.Repository.Assign.{Others, ConflictKind}
use student_mentor_allocatio.Repository.Assign.Loop.{IsAllowed}
use student_mentor_allocatio.Repository.Backfill.{
  BackfillRow, BackfillStats, RawRow, Tally, parse_row,
}
use student_mentor_allocatio.Repository.Backfill.Run.{
  Passed, ChunkReport, Backfilled, stats, ended, after_chunk, on_chunks, first_tally, run_backfill,
}
use student_mentor_allocatio.Repository.Backfill.Moves.{counted, Moves, on_chunk-Moves}
use student_mentor_allocatio.Repository.Backfill.Chunks.{total_length, chunked-length}

length-map : {A B : Type 0} (f : A → B) (xs : List A) → length (map f xs) ≡ length xs
length-map f [] = refl
length-map f (x ∷ xs) = ap suc (length-map f xs)

module _ (u : Unicode) (max_retries : ℕ) (refusal : Text) (classify : Conflict → ConflictKind)
    (others : Others) (apply : Bool) (allowed : IsAllowed others) where
  -- The counts of a run that ends without an error, and what it does to the tables in any case.
  pub record IsRun (rows : ℕ) (db : CounterDb) (b : Backfilled) : Type 0 where
    pub total : (st : BackfillStats) → b.outcome ≡ fine st → st.total_rows ≡ rows
    pub sum :
        (st : BackfillStats) → b.outcome ≡ fine st → st.applied + st.reused + st.skipped ≡ rows
    pub dry : apply ≡ false → b.db ≡ db
    pub dry_applied : (st : BackfillStats) → b.outcome ≡ fine st → apply ≡ false → st.applied ≡ 0
    pub wet_skipped : (st : BackfillStats) → b.outcome ≡ fine st → apply ≡ true → st.skipped ≡ 0
    pub consistent : IsConsistent db → IsConsistent b.db
    pub extends : Extends db b.db

  -- What a run has done to the counts and the tables before a chunk.
  record Before (total : ℕ) (db : CounterDb) (t : Tally) : Type 0 where
    pub sum : counted t ≡ total
    pub dry : apply ≡ false → (t.db ≡ db) × (t.applied ≡ 0)
    pub wet : apply ≡ true → t.skipped ≡ 0
    pub consistent : IsConsistent db → IsConsistent t.db
    pub extends : Extends db t.db

  Before-next :
      (total m : ℕ) (db : CounterDb) (t : Tally) (p : Passed)
      → Before total db t
      → Moves u max_retries refusal classify others apply allowed m t p
      → p.stopped ≡ none
      → Before (total + m) db p.tally
  Before-next total m db t p b h e = record {
    sum = omega (arith, h.sum e, b.sum);
    dry = λ a. ((h.dry a).0 ∙ (b.dry a).0, (h.dry a).1 ∙ (b.dry a).1);
    wet = λ a. h.wet a ∙ b.wet a;
    consistent = λ c. h.consistent (b.consistent c);
    extends = Extends-trans _ _ _ b.extends h.extends;
  }

  -- A run that ends with an error.
  raised-IsRun :
      (rows : ℕ) (db work : CounterDb) (code : ErrorCode) (reports : List ChunkReport)
      → (apply ≡ false → work ≡ db)
      → (IsConsistent db → IsConsistent work)
      → Extends db work
      → IsRun rows db (record { outcome = raised code; reports = reports; db = work })
  raised-IsRun rows db work code reports d c e = record {
    total = λ st x. absurd (ground (arith, x));
    sum = λ st x. absurd (ground (arith, x));
    dry = d;
    dry_applied = λ st x. absurd (ground (arith, x));
    wet_skipped = λ st x. absurd (ground (arith, x));
    consistent = c;
    extends = e;
  }

  same_stats :
      (t : Tally) (total : ℕ) (st : BackfillStats)
      → fine (stats u max_retries refusal classify others apply total t) ≡ fine st
      → (f : BackfillStats → ℕ)
      → f st ≡ f (stats u max_retries refusal classify others apply total t)
  same_stats t total st x f =
      let e : stats u max_retries refusal classify others apply total t ≡ st = ground (arith, x) in
      sym (ap f e)

  ended-IsRun :
      (refused : Option ErrorCode) (total rows : ℕ) (reports : List ChunkReport) (t : Tally)
      (db : CounterDb)
      → Before total db t
      → (refused ≡ none → total ≡ rows)
      → IsRun rows db (ended u max_retries refusal classify others apply refused total reports t)
  ended-IsRun (some code) total rows reports t db b e =
      raised-IsRun rows db t.db code reports (λ a. (b.dry a).0) b.consistent b.extends
  ended-IsRun none total rows reports t db b e = record {
    total = λ st x. same_stats t total st x (λ s. s.total_rows) ∙ e refl;
    sum =
        λ st x. same_stats t total st x (λ s. s.applied + s.reused + s.skipped) ∙ (b.sum ∙ e refl);
    dry = λ a. (b.dry a).0;
    dry_applied = λ st x a. same_stats t total st x (λ s. s.applied) ∙ (b.dry a).1;
    wet_skipped = λ st x a. same_stats t total st x (λ s. s.skipped) ∙ b.wet a;
    consistent = b.consistent;
    extends = b.extends;
  }

  after_chunk-IsRun :
      (next : List ChunkReport → Tally → Backfilled) (index total m rows : ℕ)
      (reports : List ChunkReport) (t : Tally) (db : CounterDb) (p : Passed)
      → Before total db t
      → Moves u max_retries refusal classify others apply allowed m t p
      → ((seen : List ChunkReport) (s : Tally)
          → Before (total + m) db s
          → IsRun rows db (next seen s))
      → IsRun rows db (after_chunk u max_retries refusal classify others apply next index reports p)
  after_chunk-IsRun next index total m rows reports t db p b h g = elim (Option-cases p.stopped) [
    | inl e ↦ rw e (g _ p.tally (Before-next total m db t p b h e))
    | inr (code, e) ↦ rw e (
        raised-IsRun rows db p.tally.db code reports (λ a. (h.dry a).0 ∙ (b.dry a).0)
          (λ c. h.consistent (b.consistent c)) (Extends-trans _ _ _ b.extends h.extends))
  ]

  on_chunks-IsRun :
      (refused : Option ErrorCode) (index total rows : ℕ) (reports : List ChunkReport) (t : Tally)
      (db : CounterDb) (chunks : List (List BackfillRow))
      → Before total db t
      → (refused ≡ none → total + total_length chunks ≡ rows)
      → IsRun rows db (
          on_chunks u max_retries refusal classify others apply refused index total reports t
            chunks)
  unfolding on_chunks
  on_chunks-IsRun refused index total rows reports t db [] b e =
      ended-IsRun refused total rows reports t db b (λ r. omega (arith, e r))
  on_chunks-IsRun refused index total rows reports t db (chunk ∷ chunks) b e =
      after_chunk-IsRun _ (suc index) total (length chunk) rows reports t db _ b
        (on_chunk-Moves u max_retries refusal classify others apply allowed t chunk)
        (λ seen s c.
          on_chunks-IsRun refused (suc index) (total + length chunk) rows seen s db chunks c
            (λ r. omega (arith, e r)))

  -- If the other sessions keep the tables consistent and take nothing back, so does a backfill,
  -- also where it is ended by a row or by an assignment. One that ends without an error has read
  -- every row of the file and counted each of them once, as applied, reused or skipped. A dry run
  -- writes nothing and applies none; a run that applies skips none.
  pub run_backfill-IsRun :
      (chunk_size : ℕ) (raw : List RawRow) (db : CounterDb)
      → IsRun
          (length raw)
          db
          (run_backfill u max_retries refusal classify others apply chunk_size raw db)
  unfolding run_backfill
  run_backfill-IsRun chunk_size raw db =
      on_chunks-IsRun _ 0 0 (length raw) []
        (first_tally u max_retries refusal classify others apply db) db _
        (record {
          sum = refl;
          dry = λ a. (refl, refl);
          wet = λ a. refl;
          consistent = λ c. c;
          extends = Extends-refl db;
        })
        (λ e. omega (
          arith,
          chunked-length chunk_size [] (map (parse_row u) raw) e,
          length-map (parse_row u) raw,
        ))
