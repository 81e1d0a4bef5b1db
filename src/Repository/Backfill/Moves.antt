-- ===== src/Repository/Backfill/Moves.antt =====
-- backfill.py: what the rows of a chunk do to the counts and the tables.
use student_mentor_allocatio.Base.{
  ℕ, suc, ◌+◌, ◌≡◌, refl, sym, ◌∙◌, inl, inr, Bool, true, false, not, Option, none, some, List, [],
  ◌∷◌, length, arith, Option-cases, if◌then◌else◌,
}
use student_mentor_allocatio.Base.Text.{Text}
use student_mentor_allocatio.Python.{Unicode}
use student_mentor_allocatio.Repository.Validation.{ErrorCode, Checked, fine, raised}
use student_mentor_allocatio.Repository.Reserve.{CounterDb, Conflict}
use student_mentor_allocatio.Repository.Reserve.Invariant.{
  IsConsistent, Extends, Extends-refl, Extends-trans,
}
use student_mentor_allocatio.Repository.Assign.{Others, ConflictKind}
use student_mentor_allocatio.Repository.Assign.Effects.{assign_counter-IsServed}
use student_mentor_allocatio.Repository.Assign.Loop.{IsAllowed}
use student_mentor_allocatio.Repository.Backfill.{BackfillRow, Tally, lookup}
use student_mentor_allocatio.Repository.Backfill.Run.{
  Passed, count_skipped, count_applied, on_row, and_then, on_rows, new_chunk, with_fetched_rows,
  on_chunk,
}

abbrev pub counted : Tally → ℕ
counted t = t.applied + t.reused + t.skipped

module _ (u : Unicode) (max_retries : ℕ) (refusal : Text) (classify : Conflict → ConflictKind)
    (others : Others) (apply : Bool) (allowed : IsAllowed others) where
  -- What some rows do to the counts and the tables.
  pub record Moves (k : ℕ) (t : Tally) (p : Passed) : Type 0 where
    pub sum : p.stopped ≡ none → counted p.tally ≡ k + counted t
    pub dry : apply ≡ false → (p.tally.db ≡ t.db) × (p.tally.applied ≡ t.applied)
    pub wet : apply ≡ true → p.tally.skipped ≡ t.skipped
    pub consistent : IsConsistent t.db → IsConsistent p.tally.db
    pub extends : Extends t.db p.tally.db

  stays :
      (k : ℕ) (t : Tally) (code : ErrorCode) → Moves k t (record { stopped = some code; tally = t })
  stays k t code = record {
    sum = λ e. absurd (ground (arith, e));
    dry = λ e. (refl, refl);
    wet = λ e. refl;
    consistent = λ c. c;
    extends = Extends-refl t.db;
  }

  skipped-Moves :
      (t : Tally) (row : BackfillRow) (c : Checked ℕ)
      → apply ≡ false
      → Moves 1 t (count_skipped u max_retries refusal classify others apply t row c)
  skipped-Moves t row (raised code) a = stays 1 t code
  skipped-Moves t row (fine n) a = record {
    sum = λ e. omega arith;
    dry = λ e. (refl, refl);
    wet = λ e. absurd (ground (arith, sym a ∙ e));
    consistent = λ c. c;
    extends = Extends-refl t.db;
  }

  applied-Moves :
      (t : Tally) (row : BackfillRow) (db : CounterDb) (c : Checked Text)
      → apply ≡ true
      → (IsConsistent t.db → IsConsistent db)
      → Extends t.db db
      → Moves 1 t (count_applied u max_retries refusal classify others apply t row db c)
  applied-Moves t row db (raised code) a c e = record {
    sum = λ x. absurd (ground (arith, x));
    dry = λ x. absurd (ground (arith, sym a ∙ x));
    wet = λ x. refl;
    consistent = c;
    extends = e;
  }
  applied-Moves t row db (fine counter) a c e = record {
    sum = λ x. omega arith;
    dry = λ x. absurd (ground (arith, sym a ∙ x));
    wet = λ x. refl;
    consistent = c;
    extends = e;
  }

  branch :
      (t : Tally) (b : Bool) (p q : Passed)
      → (b ≡ true → Moves 1 t p)
      → (b ≡ false → Moves 1 t q)
      → Moves 1 t (if not b then q else p)
  branch t true p q h k = h refl
  branch t false p q h k = k refl

  on_row-Moves :
      (t : Tally) (row : BackfillRow) (o : Option Text)
      → Moves 1 t (on_row u max_retries refusal classify others apply t row o)
  on_row-Moves t row (some counter) = record {
    sum = λ e. omega arith;
    dry = λ e. (refl, refl);
    wet = λ e. refl;
    consistent = λ c. c;
    extends = Extends-refl t.db;
  }
  on_row-Moves t row none =
      let served =
        assign_counter-IsServed u max_retries refusal classify others allowed row.national_id
          (some row.gender) row.year_code t.db in
      branch t apply _ _ (λ a. applied-Moves t row _ _ a served.consistent served.extends)
        (λ a. skipped-Moves t row _ a)

  -- One step and the steps after it.
  then-Moves :
      (m k n : ℕ) (t : Tally) (p : Passed) (next : Tally → Passed)
      → m + k ≡ n
      → Moves m t p
      → ((s : Tally) → Moves k s (next s))
      → Moves n t (and_then u max_retries refusal classify others apply p next)
  then-Moves m k n t p next q h g = elim (Option-cases p.stopped) [
    | inl e ↦ rw e (record {
      sum = λ x. omega (arith, q, h.sum e, (g p.tally).sum x);
      dry = λ a. (((g p.tally).dry a).0 ∙ (h.dry a).0, ((g p.tally).dry a).1 ∙ (h.dry a).1);
      wet = λ a. (g p.tally).wet a ∙ h.wet a;
      consistent = λ c. (g p.tally).consistent (h.consistent c);
      extends = Extends-trans _ _ _ h.extends (g p.tally).extends;
    })
    | inr (code, e) ↦ rw e (record {
      sum = λ x. absurd (ground (arith, x));
      dry = h.dry;
      wet = h.wet;
      consistent = h.consistent;
      extends = h.extends;
    })
  ]

  on_rows-Moves :
      (existing : List (Text × Text)) (rows : List BackfillRow) (t : Tally)
      → Moves (length rows) t (on_rows u max_retries refusal classify others apply existing t rows)
  unfolding on_rows
  on_rows-Moves existing [] t = record {
    sum = λ e. omega arith;
    dry = λ e. (refl, refl);
    wet = λ e. refl;
    consistent = λ c. c;
    extends = Extends-refl t.db;
  }
  on_rows-Moves existing (row ∷ rows) t =
      then-Moves 1 (length rows) (suc (length rows)) t _ _ (omega arith)
        (on_row-Moves t row (lookup existing row.national_id)) (on_rows-Moves existing rows)

  with_fetched_rows-Moves :
      (t : Tally) (chunk : List BackfillRow) (c : Checked (List (Text × Text)))
      → Moves
          (length chunk)
          t
          (with_fetched_rows u max_retries refusal classify others apply t chunk c)
  with_fetched_rows-Moves t chunk (raised code) = stays (length chunk) t code
  with_fetched_rows-Moves t chunk (fine existing) =
      let m =
        on_rows-Moves existing chunk (new_chunk u max_retries refusal classify others apply t) in
      record {
        sum = m.sum;
        dry = m.dry;
        wet = m.wet;
        consistent = m.consistent;
        extends = m.extends;
      }

  pub on_chunk-Moves :
      (t : Tally) (chunk : List BackfillRow)
      → Moves (length chunk) t (on_chunk u max_retries refusal classify others apply t chunk)
  unfolding on_chunk
  on_chunk-Moves t chunk = with_fetched_rows-Moves t chunk _
