-- ===== src/Python/Float.antt =====
-- Python's `float`, as far as the rankings use it. The arithmetic is the interpreter's and not the
-- repository's: an argument of the model, with the order of finite floats.
use student_mentor_allocatio.Base.{ℕ, ◌+◌, ◌*◌, ◌/◌, ◌≡◌, Bool, true, false, arith, leb}
use student_mentor_allocatio.Base.Int.{ℤ, pos, pos_part}

pub record Floats : Type 1 where
  pub Float : Type 0
  -- `a / b` of two ints, and `1.0`
  pub quotient : ℤ → ℤ → Float
  pub one : Float
  -- `x + y`
  pub add : Float → Float → Float
  -- `int(x / y)`
  pub whole : Float → Float → ℤ
  -- `x <= y`
  pub lef : Float → Float → Bool
  pub lef_total : (x y : Float) → lef x y ≡ false → lef y x ≡ true
  pub lef_trans : (x y z : Float) → lef x y ≡ true → lef y z ≡ true → lef x z ≡ true

pub leb_total : (x y : ℕ) → leb x y ≡ false → leb y x ≡ true
leb_total x y h = ground arith

pub leb_trans : (x y z : ℕ) → leb x y ≡ true → leb y z ≡ true → leb x z ≡ true
leb_trans x y z h k = ground arith

-- Non-negative floats as millionths.
abbrev pub millionths : Floats
millionths = record {
  Float = ℕ;
  quotient = λ a b. pos_part a * 1_000_000 / pos_part b;
  one = 1_000_000;
  add = λ x y. x + y;
  whole = λ x y. pos (x / y);
  lef = leb;
  lef_total = leb_total;
  lef_trans = leb_trans;
}
