-- ===== src/Ranking.antt =====
-- The ranking key of the allocation engines: the tuple of an occupancy, a load and a mentor id,
-- compared as Python compares tuples. It is shared by src/sma/domain/allocation/engine.py and
-- src/sma/phase3_allocation/engine.py.
use student_mentor_allocatio.Base.{Bool, true, false, ◌≡◌, arith, if◌then◌else◌}
use student_mentor_allocatio.Base.Int.{ℤ, ltb_ℤ, leb_ℤ, eq_ℤ}
use student_mentor_allocatio.Base.Sort.{IsOrder}
use student_mentor_allocatio.Python.Float.{Floats}

module _ (fl : Floats) where
  open fl use {Float, lef, lef_total, lef_trans}

  pub record RankingKey : Type 0 where
    pub occupancy : Float
    pub load : ℤ
    pub id : ℤ

  -- The last two parts of the tuples.
  abbrev pub tail_le : RankingKey → RankingKey → Bool
  tail_le x y =
      if ltb_ℤ x.load y.load then true else if eq_ℤ x.load y.load then leb_ℤ x.id y.id else false

  -- `not (y < x)`: the first parts that differ decide.
  unfoldable pub key_le : RankingKey → RankingKey → Bool
  key_le x y =
      if lef x.occupancy y.occupancy
      then (if lef y.occupancy x.occupancy then tail_le x y else true)
      else false

  tail_total : (x y : RankingKey) → tail_le x y ≡ false → tail_le y x ≡ true
  tail_total x y h = ground arith

  tail_trans : (x y z : RankingKey) → tail_le x y ≡ true → tail_le y z ≡ true → tail_le x z ≡ true
  tail_trans x y z h k = ground arith

  key_total : (x y : RankingKey) → key_le x y ≡ false → key_le y x ≡ true
  unfolding key_le
  key_total x y h =
      ground (
        arith,
        lef_total x.occupancy y.occupancy,
        lef_total y.occupancy x.occupancy,
        tail_total x y,
      )

  key_trans : (x y z : RankingKey) → key_le x y ≡ true → key_le y z ≡ true → key_le x z ≡ true
  unfolding key_le
  key_trans x y z h k =
      let a = x.occupancy in
      let b = y.occupancy in
      let c = z.occupancy in
      ground (arith, lef_trans a b c, lef_trans c a b, lef_trans b c a, tail_trans x y z)

  -- The keys are totally ordered.
  pub key_IsOrder : {A : Type 0} (key : A → RankingKey) → IsOrder (λ x y. key_le (key x) (key y))
  key_IsOrder key = record {
    total = λ x y. key_total (key x) (key y);
    trans = λ x y z. key_trans (key x) (key y) (key z);
  }
