-- ===== src/Domain/Fairness.antt =====
-- `FairnessPlanner` of src/sma/domain/allocation/fairness.py. BLAKE2b comes in as a function; the state
-- of the planner, the mentor that went first for each key, is passed on.
pub mod Interleave
pub mod Rounds
pub mod Shuffle
pub mod Turns
use student_mentor_allocatio.Base.{
  ℕ, zero, suc, ◌+◌, ◌*◌, ◌%◌, Bool, true, false, not, ◌&&◌, ◌||◌, Option, none, some, List, [],
  ◌∷◌, ◌++◌, map, keep, any, take, drop, ltb, leb, length, if◌then◌else◌,
}
use student_mentor_allocatio.Base.Int.{ℤ, pos, eq_ℤ, leb_ℤ, ltb_ℤ}
use student_mentor_allocatio.Base.Text.{Text, text_eq, codes}
use student_mentor_allocatio.Base.Sort.{sort_by}
use student_mentor_allocatio.Python.{str_int}
use student_mentor_allocatio.Python.Float.{Floats}
use student_mentor_allocatio.Ranking.{RankingKey, key_le}
use student_mentor_allocatio.Domain.Rules.{Mentor, ReasonCode}

pub data FairnessStrategy : Type 0 where
  none_ deterministic_jitter bucket_round_robin : FairnessStrategy

-- A mentor that passed, with the trace of its rules.
abbrev pub Item : Type 0
Item = Mentor × List (Option ReasonCode)

-- `_round_robin_state`
abbrev pub RoundRobin : Type 0
RoundRobin = List (Text × ℤ)

abbrev pub recall : Text → RoundRobin → Option ℤ
recall key [] = none
recall key ((k, m) ∷ rest) = if text_eq key k then some m else recall key rest

-- The loop that takes one item from each bucket in turn. The first bucket is the one at `idx`, and a
-- bucket holds what its position has left. The source has a `while`; `fuel`, a bound on the turns, is
-- the model's own, and `enough` is one that suits the buckets.
unfoldable pub interleave : {A : Type 0} → ℕ → ℕ → List (List A) → List A → List A
interleave zero total buckets acc = acc
interleave (suc fuel) total [] acc = acc
interleave (suc fuel) total ([] ∷ buckets) acc =
    let next = interleave fuel total (buckets ++ [] ∷ []) acc in
    if ltb (length acc) total then next else acc
interleave (suc fuel) total ((x ∷ bucket) ∷ buckets) acc =
    let next = interleave fuel total (buckets ++ bucket ∷ []) (acc ++ x ∷ []) in
    if ltb (length acc) total then next else acc

-- The number of items in all buckets.
abbrev pub total_of : {A : Type 0} → List (List A) → ℕ
total_of [] = 0
total_of (b ∷ bs) = length b + total_of bs

abbrev pub enough : {A : Type 0} → List (List A) → ℕ
enough buckets = (total_of buckets + 1) * length buckets

-- Sorted keys, each once.
abbrev pub insert_key : ℤ → List ℤ → List ℤ
insert_key k [] = k ∷ []
insert_key k (j ∷ js) =
    if eq_ℤ k j then j ∷ js else if ltb_ℤ k j then k ∷ j ∷ js else j ∷ insert_key k js

abbrev pub sorted_keys : List ℤ → List ℤ
sorted_keys [] = []
sorted_keys (k ∷ ks) = insert_key k (sorted_keys ks)

-- The index after the last mentor's, modulo the length, or 0.
abbrev next_index : Option ℕ → Option ℕ
next_index none = none
next_index (some i) = some (suc i)

abbrev pub index_after : ℤ → List Item → Option ℕ
index_after last [] = none
index_after last (x ∷ xs) =
    let rest = next_index (index_after last xs) in if eq_ℤ x.0.mentor_id last then some 1 else rest

module _ (fl : Floats) (stable_counter_hash : Text → ℕ) where
  open fl use {Float, quotient, one, add, whole, lef}

  unfoldable pub occupancy_ratio : Mentor → Float
  occupancy_ratio m = if leb_ℤ m.capacity (pos 0) then one else quotient m.current_load m.capacity

  abbrev pub jitter_key : Text → Item → RankingKey fl
  jitter_key key item =
      let seed = key ++ codes ":" ++ str_int item.0.mentor_id in
      record {
        occupancy =
            add (occupancy_ratio item.0)
              (quotient (pos (stable_counter_hash seed % 10_000)) (pos 1_000_000));
        load = item.0.current_load;
        id = item.0.mentor_id;
      }

  unfoldable pub with_deterministic_jitter : Text → List Item → List Item
  with_deterministic_jitter key items =
      sort_by (λ x y. key_le fl (jitter_key key x) (jitter_key key y)) items

  -- `max(0.01, min(1.0, bucket_size))`
  abbrev pub clamp : Float → Float
  clamp size =
      let low = quotient (pos 1) (pos 100) in
      let below = if lef one size then one else size in if lef below low then low else below

  abbrev pub bucket_key : Float → Item → ℤ
  bucket_key size item = whole (occupancy_ratio item.0) size

  -- The order inside a bucket: load, id, seed.
  abbrev pub bucket_le : Text → ℤ → Item → Item → Bool
  bucket_le key bucket x y =
      let seed = λ (i : Item).
        stable_counter_hash
          (key ++ codes ":" ++ str_int bucket ++ codes ":" ++ str_int i.0.mentor_id) in
      if ltb_ℤ x.0.current_load y.0.current_load
      then true
      else if ltb_ℤ y.0.current_load x.0.current_load
      then false
      else if ltb_ℤ x.0.mentor_id y.0.mentor_id
      then true
      else if ltb_ℤ y.0.mentor_id x.0.mentor_id
      then false
      else leb (seed x) (seed y)

  abbrev pub bucket_of : Text → Float → List Item → ℤ → List Item
  bucket_of key size items bucket =
      sort_by (bucket_le key bucket) (keep (λ i. eq_ℤ bucket (bucket_key size i)) items)

  abbrev pub buckets_of : Text → Float → List Item → List (List Item)
  buckets_of key size items =
      map (bucket_of key size items) (sorted_keys (map (bucket_key size) items))

  abbrev pub start_of : Option ℤ → List Item → ℕ
  start_of none items = 0
  start_of (some last) items = elim (index_after last items) [
    | none ↦ 0
    | some i ↦ i % length items
  ]

  abbrev pub remember : Text → List Item → RoundRobin → RoundRobin
  remember key [] state = state
  remember key (first ∷ rest) state = (key, first.0.mentor_id) ∷ state

  unfoldable pub with_bucket_round_robin :
      Float → Text → RoundRobin → List Item → List Item × RoundRobin
  unfolding interleave
  with_bucket_round_robin bucket_size key state items =
      let buckets = buckets_of key (clamp bucket_size) items in
      let interleaved = interleave (enough buckets) (total_of buckets) buckets [] in
      let start_index = start_of (recall key state) interleaved in
      let rotated = drop start_index interleaved ++ take start_index interleaved in
      (rotated, remember key rotated state)

  abbrev pub rank_by :
      FairnessStrategy → Float → Text → RoundRobin → List Item → List Item × RoundRobin
  rank_by none_ bucket_size key state items = (items, state)
  rank_by deterministic_jitter bucket_size key state items =
      (with_deterministic_jitter key items, state)
  rank_by bucket_round_robin bucket_size key state items =
      with_bucket_round_robin bucket_size key state items

  -- `rank`; `key` is never empty where the engine calls it.
  unfoldable pub rank :
      FairnessStrategy → Float → Text → RoundRobin → List Item → List Item × RoundRobin
  unfolding with_deterministic_jitter with_bucket_round_robin
  rank strategy bucket_size key state items =
      if leb (length items) 1 then (items, state) else rank_by strategy bucket_size key state items
