-- ===== src/Repository/Backfill/Chunks.antt =====
-- The chunks hold the rows in their order, and none is too long.
use student_mentor_allocatio.Base.{
  ℕ, ◌+◌, ◌≤◌, ◌<◌, ◌≡◌, refl, sym, ◌∙◌, ap, max, inl, inr, false, none, List, [], ◌∷◌, ◌++◌,
  length, length-append, map, All, leb, arith, Bool-cases,
}
use mathlib.Core.List.{append_assoc, append-nil}
use student_mentor_allocatio.Repository.Validation.{Checked, fine, raised}
use student_mentor_allocatio.Repository.Backfill.{BackfillRow, Chunked, last_chunk, chunked}

abbrev pub flatten : List (List BackfillRow) → List BackfillRow
flatten [] = []
flatten (chunk ∷ chunks) = chunk ++ flatten chunks

abbrev pub total_length : List (List BackfillRow) → ℕ
total_length [] = 0
total_length (chunk ∷ chunks) = length chunk + total_length chunks

pub length-flatten :
    (chunks : List (List BackfillRow)) → length (flatten chunks) ≡ total_length chunks
length-flatten [] = refl
length-flatten (chunk ∷ chunks) =
    omega (arith, length-append chunk (flatten chunks), length-flatten chunks)

pub record IsChunked (chunk_size : ℕ) (rows : List BackfillRow) (c : Chunked) : Type 0 where
  pub order : flatten c.chunks ≡ rows
  pub sizes : All (λ chunk. (1 ≤ length chunk) × (length chunk ≤ max 1 chunk_size)) c.chunks
  pub clean : c.refused ≡ none

last_chunk-order : (chunk : List BackfillRow) → flatten (last_chunk chunk) ≡ chunk
last_chunk-order [] = refl
last_chunk-order (row ∷ chunk) = append-nil (row ∷ chunk)

last_chunk-sizes :
    (chunk : List BackfillRow) (m : ℕ)
    → length chunk ≤ m
    → All (λ c. (1 ≤ length c) × (length c ≤ m)) (last_chunk chunk)
last_chunk-sizes [] m l = tt
last_chunk-sizes (row ∷ chunk) m l = ((omega arith, l), tt)

shorter : (n m : ℕ) → leb n m ≡ false → m < max 1 n
shorter n m f = let l : m < n = ground arith in omega arith

chunked-from :
    (chunk_size : ℕ) (chunk rows : List BackfillRow)
    → length chunk < max 1 chunk_size
    → IsChunked chunk_size (chunk ++ rows) (chunked chunk_size chunk (map fine rows))
unfolding chunked
chunked-from chunk_size chunk [] l = record {
  order = last_chunk-order chunk ∙ sym (append-nil chunk);
  sizes = last_chunk-sizes chunk (max 1 chunk_size) (omega arith);
  clean = refl;
}
chunked-from chunk_size chunk (row ∷ rows) l =
    let grown : length (chunk ++ (row ∷ [])) ≡ length chunk + 1 = length-append chunk (row ∷ []) in
    elim (Bool-cases (leb chunk_size (length (chunk ++ (row ∷ []))))) [
      | inl t ↦
          let rest = chunked-from chunk_size [] rows (omega arith) in
          rw t (record {
            order =
                ap (λ r. (chunk ++ (row ∷ [])) ++ r) rest.order
                ∙ append_assoc chunk (row ∷ []) rows;
            sizes = ((omega (arith, grown), omega (arith, grown, l)), rest.sizes);
            clean = rest.clean;
          })
      | inr f ↦
          let rest =
            chunked-from chunk_size (chunk ++ (row ∷ [])) rows
              (shorter chunk_size (length (chunk ++ (row ∷ []))) f) in
          rw f (record {
            order = rest.order ∙ append_assoc chunk (row ∷ []) rows;
            sizes = rest.sizes;
            clean = rest.clean;
          })
    ]

last_chunk-length : (chunk : List BackfillRow) → total_length (last_chunk chunk) ≡ length chunk
last_chunk-length [] = refl
last_chunk-length (row ∷ chunk) = omega arith

-- The rows that are in the chunks, where none is refused.
pub chunked-length :
    (chunk_size : ℕ) (chunk : List BackfillRow) (rows : List (Checked BackfillRow))
    → (chunked chunk_size chunk rows).refused ≡ none
    → total_length (chunked chunk_size chunk rows).chunks ≡ length chunk + length rows
unfolding chunked
chunked-length chunk_size chunk [] e = omega (arith, last_chunk-length chunk)
chunked-length chunk_size chunk (raised code ∷ rows) e = absurd (ground (arith, e))
chunked-length chunk_size chunk (fine row ∷ rows) e =
    let grown : length (chunk ++ (row ∷ [])) ≡ length chunk + 1 = length-append chunk (row ∷ []) in
    elim (Bool-cases (leb chunk_size (length (chunk ++ (row ∷ []))))) [
      | inl t ↦ rw t (omega (arith, grown, chunked-length chunk_size [] rows (rw t at e)))
      | inr f ↦
          rw f
            (omega (arith, grown, chunked-length chunk_size (chunk ++ (row ∷ [])) rows (rw f at e)))
    ]

-- Where every row is accepted, the chunks put together are the rows in their order; no chunk is
-- empty, and none is longer than the chunk size, or than one row for a size of zero.
pub chunked-IsChunked :
    (chunk_size : ℕ) (rows : List BackfillRow)
    → IsChunked chunk_size rows (chunked chunk_size [] (map fine rows))
chunked-IsChunked chunk_size rows = chunked-from chunk_size [] rows (omega arith)
