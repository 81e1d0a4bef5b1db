-- ===== src/Sabt/Sorter/Sorted.antt =====
-- What `prepare` and `iter_sorted` give together.
use student_mentor_allocatio.Base.{
  ℕ, ◌+◌, ◌≡◌, refl, sym, ◌∙◌, ap, Bool, true, false, Option, none, some, List, [], ◌∷◌, ◌++◌, map,
  map_fixed, length, All, All-append, leb, arith, if◌then◌else◌,
}
use mathlib.Core.List.{append_assoc, append-nil}
use student_mentor_allocatio.Base.Sort.{sort_by, IsSorted, sort_by-IsSorted, All-sort_by}
use student_mentor_allocatio.Base.Text.{Text}
use student_mentor_allocatio.Python.{Unicode}
use student_mentor_allocatio.Sabt.Merge.{concat, merge}
use student_mentor_allocatio.Sabt.Merge.Sorts.{merge-sort, sort_by-part, sort_by-fixed}
use student_mentor_allocatio.Sabt.Sorter.{
  RawRow, Entry, SortPlan, entry_le, entry_of, reread, prepare_loop, prepare, iterators, rows_of,
  rows_with, iter_sorted,
}
use student_mentor_allocatio.Sabt.Sorter.Order.{entry_le-IsOrder}

concat-last :
    (parts : List (List Entry)) (last : List Entry)
    → concat entry_le (parts ++ (last ∷ [])) ≡ concat entry_le parts ++ last
concat-last [] last = append-nil last
concat-last (part ∷ parts) last =
    ap (λ r. part ++ r) (concat-last parts last)
    ∙ sym (append_assoc part (concat entry_le parts) last)

All-split : (P : Entry → Type 0) (xs ys : List Entry) → All P (xs ++ ys) → All P xs × All P ys
All-split P [] ys h = (tt, h)
All-split P (x ∷ xs) ys h = let (a, b) = All-split P xs ys h.1 in ((h.0, a), b)

module _ (u : Unicode) (sort_keys : List Text) (buffer_rows : ℕ) where
  -- The entries of the rows; `none` where one of them has no key.
  abbrev pub entries_with : Option Entry → Option (List Entry) → Option (List Entry)
  entries_with none rest = none
  entries_with (some e) none = none
  entries_with (some e) (some rest) = some (e ∷ rest)

  unfoldable pub entries_of : List RawRow → Option (List Entry)
  entries_of [] = some []
  entries_of (raw ∷ rows) = entries_with (entry_of u sort_keys raw) (entries_of rows)

  -- The values of the row are in the form in which they are read back.
  abbrev pub IsClean : Entry → Type 0
  IsClean e = reread u e ≡ e

  -- A plan holds the entries: sorted parts that together sort as all entries do.
  record IsPlan (entries : List Entry) (plan : SortPlan) : Type 0 where
    pub order :
        sort_by entry_le (concat entry_le plan.chunks ++ plan.in_memory) ≡ sort_by entry_le entries
    pub sorted : All (IsSorted entry_le) plan.chunks
    pub memory_sorted : IsSorted entry_le plan.in_memory
    pub clean : All IsClean entries → All IsClean (concat entry_le plan.chunks)

  abbrev Planned : List Entry → Option SortPlan → Type 0
  Planned entries none = ⊥
  Planned entries (some plan) = IsPlan entries plan

  Planned-same :
      (xs ys : List Entry) (p : Option SortPlan)
      → sort_by entry_le xs ≡ sort_by entry_le ys
      → (All IsClean ys → All IsClean xs)
      → Planned xs p
      → Planned ys p
  Planned-same xs ys none e c h = h
  Planned-same xs ys (some plan) e c h = record {
    order = h.order ∙ e;
    sorted = h.sorted;
    memory_sorted = h.memory_sorted;
    clean = λ a. h.clean (c a);
  }

  All-last :
      (chunks : List (List Entry)) (part : List Entry)
      → All (IsSorted entry_le) chunks
      → IsSorted entry_le part
      → All (IsSorted entry_le) (chunks ++ (part ∷ []))
  All-last chunks part h s = All-append (IsSorted entry_le) chunks (part ∷ []) h (s, tt)

  -- A buffer that is spilled keeps the sort of the whole.
  spilled-sort :
      (chunks : List (List Entry)) (longer rest : List Entry)
      → sort_by entry_le (concat entry_le (chunks ++ (sort_by entry_le longer ∷ [])) ++ rest)
        ≡ sort_by entry_le (concat entry_le chunks ++ (longer ++ rest))
  spilled-sort chunks longer rest =
      ap (λ r. sort_by entry_le (r ++ rest)) (concat-last chunks (sort_by entry_le longer))
      ∙ (ap (sort_by entry_le)
            (append_assoc (concat entry_le chunks) (sort_by entry_le longer) rest)
          ∙ sort_by-part entry_le entry_le-IsOrder (concat entry_le chunks) longer rest)

  spilled-IsClean :
      (chunks : List (List Entry)) (longer rest : List Entry)
      → All IsClean (concat entry_le chunks ++ (longer ++ rest))
      → All IsClean (concat entry_le (chunks ++ (sort_by entry_le longer ∷ [])) ++ rest)
  spilled-IsClean chunks longer rest a =
      let (before, after) = All-split IsClean (concat entry_le chunks) (longer ++ rest) a in
      let (mid, last) = All-split IsClean longer rest after in
      rw (concat-last chunks (sort_by entry_le longer)) (
        All-append IsClean (concat entry_le chunks ++ sort_by entry_le longer) rest
          (All-append IsClean (concat entry_le chunks) (sort_by entry_le longer) before
            (All-sort_by IsClean entry_le longer mid))
          last)

  entries_parts :
      (o : Option Entry) (r : Option (List Entry)) (entries : List Entry)
      → entries_with o r ≡ some entries
      → (first : Entry) × (rest : List Entry) × (o ≡ some first)
        × (r ≡ some rest)
        × (first ∷ rest ≡ entries)
  entries_parts none r entries e = absurd (ground (arith, e))
  entries_parts (some first) none entries e = absurd (ground (arith, e))
  entries_parts (some first) (some rest) entries e = (first, rest, refl, refl, ground (arith, e))

  branch :
      (entries : List Entry) (b : Bool) (p q : Option SortPlan)
      → Planned entries p
      → Planned entries q
      → Planned entries (if b then p else q)
  branch entries true p q h k = h
  branch entries false p q h k = k

  prepare_loop-Planned :
      (chunks : List (List Entry)) (buffer : List Entry) (total : ℕ) (rows : List RawRow)
      (entries : List Entry)
      → entries_of rows ≡ some entries
      → All (IsSorted entry_le) chunks
      → Planned
          (concat entry_le chunks ++ (buffer ++ entries))
          (prepare_loop u sort_keys buffer_rows chunks buffer total rows)
  unfolding prepare_loop entries_of
  prepare_loop-Planned chunks buffer total [] entries e h =
      let empty : entries ≡ [] = ground (arith, e) in
      rw empty (record {
        order =
            ap (λ r. sort_by entry_le (concat entry_le chunks ++ r))
              (sym (append-nil (sort_by entry_le buffer)))
            ∙ sort_by-part entry_le entry_le-IsOrder (concat entry_le chunks) buffer [];
        sorted = h;
        memory_sorted = sort_by-IsSorted entry_le entry_le-IsOrder buffer;
        clean = λ a. (All-split IsClean (concat entry_le chunks) (buffer ++ []) a).0;
      })
  prepare_loop-Planned chunks buffer total (raw ∷ rows) entries e h =
      let (first, rest, f, r, made) =
        entries_parts (entry_of u sort_keys raw) (entries_of rows) entries e in
      let longer : List Entry = buffer ++ (first ∷ []) in
      let same : longer ++ rest ≡ buffer ++ entries =
        append_assoc buffer (first ∷ []) rest ∙ ap (λ x. buffer ++ x) made in
      let spilled =
        prepare_loop-Planned (chunks ++ (sort_by entry_le longer ∷ [])) [] (total + 1) rows rest r (
          All-last chunks (sort_by entry_le longer) h
            (sort_by-IsSorted entry_le entry_le-IsOrder longer)) in
      let kept = prepare_loop-Planned chunks longer (total + 1) rows rest r h in
      let spilled' =
        Planned-same _ (concat entry_le chunks ++ (longer ++ rest)) _
          (spilled-sort chunks longer rest) (spilled-IsClean chunks longer rest) spilled in
      rw f (
        rw (sym same) (
          branch (concat entry_le chunks ++ (longer ++ rest)) (leb buffer_rows (length longer)) _ _
            spilled' kept))

  map-reread :
      (chunks : List (List Entry))
      → All IsClean (concat entry_le chunks)
      → map (map (reread u)) chunks ≡ chunks
  map-reread [] h = refl
  map-reread (chunk ∷ chunks) h =
      let (here, later) = All-split IsClean chunk (concat entry_le chunks) h in
      rw (map_fixed (reread u) chunk here, map-reread chunks later) refl

  rows_with-sort :
      (plan : SortPlan) (chunks : List (List Entry)) (entries : List Entry)
      → plan.chunks ≡ chunks
      → IsPlan entries plan
      → All IsClean entries
      → rows_with u sort_keys buffer_rows plan chunks
        ≡ rows_of u sort_keys buffer_rows (sort_by entry_le entries)
  rows_with-sort plan [] entries e h c =
      let memory : sort_by entry_le plan.in_memory ≡ sort_by entry_le entries =
        sym (ap (λ r. sort_by entry_le (concat entry_le r ++ plan.in_memory)) e) ∙ h.order in
      ap (rows_of u sort_keys buffer_rows)
        (sym (sort_by-fixed entry_le plan.in_memory h.memory_sorted) ∙ memory)
  rows_with-sort plan (chunk ∷ chunks) entries e h c =
      let back : iterators u sort_keys buffer_rows plan ≡ plan.chunks ++ (plan.in_memory ∷ []) =
        ap (λ r. r ++ (plan.in_memory ∷ [])) (map-reread plan.chunks (h.clean c)) in
      ap (rows_of u sort_keys buffer_rows) (
        ap (merge entry_le) back
        ∙ (merge-sort entry_le entry_le-IsOrder (plan.chunks ++ (plan.in_memory ∷ []))
              (All-last plan.chunks plan.in_memory h.sorted h.memory_sorted)
            ∙ (ap (sort_by entry_le) (concat-last plan.chunks plan.in_memory) ∙ h.order)))

  Planned-sort :
      (p : Option SortPlan) (entries : List Entry)
      → Planned entries p
      → All IsClean entries
      → (plan : SortPlan) × (p ≡ some plan)
        × (iter_sorted u sort_keys buffer_rows plan
            ≡ rows_of u sort_keys buffer_rows (sort_by entry_le entries))
  unfolding iter_sorted
  Planned-sort none entries h c = absurd h
  Planned-sort (some plan) entries h c =
      (plan, refl, rows_with-sort plan plan.chunks entries refl h c)

  -- If every row has a key, and a second cleaning leaves the values of the cleaned rows as they are,
  -- then `prepare` gives a plan, and the rows that `iter_sorted` gives for it, merged from the
  -- chunks on the disk and the rows in memory, are those of the stable sort of all entries by their
  -- keys, whatever the size of the buffer.
  pub iter_sorted-sort :
      (rows : List RawRow) (entries : List Entry)
      → entries_of rows ≡ some entries
      → All IsClean entries
      → (plan : SortPlan) × (prepare u sort_keys buffer_rows rows ≡ some plan)
        × (iter_sorted u sort_keys buffer_rows plan
            ≡ rows_of u sort_keys buffer_rows (sort_by entry_le entries))
  unfolding prepare
  iter_sorted-sort rows entries e c =
      Planned-sort _ entries (prepare_loop-Planned [] [] 0 rows entries e tt) c
