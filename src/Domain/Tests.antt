-- ===== src/Domain/Tests.antt =====
-- The theorems on fairness and selection at two mentors, of whom one may teach the student.
use student_mentor_allocatio.Base.{ℕ, ◌≡◌, refl, true, none, some, List, [], ◌∷◌, length}
use student_mentor_allocatio.Base.Int.{pos}
use student_mentor_allocatio.Base.Text.{codes, text_eq}
use student_mentor_allocatio.Base.Text.Decimal.{decimal}
use student_mentor_allocatio.Base.Sort.{sort_by}
use student_mentor_allocatio.Python.Float.{millionths}
use student_mentor_allocatio.Python.{str_int}
use student_mentor_allocatio.Ranking.{key_le}
use student_mentor_allocatio.Domain.Rules.{
  MentorKind, Mentor, Student, default_rules, has_capacity, gender_rule, group_rule, center_rule,
  capacity_rule, graduate_rule, school_rule,
}
use student_mentor_allocatio.Domain.Fairness.{
  Item, RoundRobin, bucket_round_robin, interleave, occupancy_ratio, with_bucket_round_robin, rank,
  total_of, clamp, buckets_of,
}
use student_mentor_allocatio.Domain.Fairness.Rounds.{rounds}
use student_mentor_allocatio.Domain.Fairness.Turns.{IsRound, with_bucket_round_robin-IsRound}
use student_mentor_allocatio.Domain.Fairness.Shuffle.{rank-perm}
use student_mentor_allocatio.Domain.Engine.{
  AllocationEngine, check_rules, pass_all, resolve_fairness_key, select_best,
}
use student_mentor_allocatio.Domain.Engine.Choice.{IsChoice, select_best-IsChoice}
use mathlib.Core.List.{Perm}

abbrev mentor : ℕ → ℕ → Mentor
mentor id load = record {
  mentor_id = pos id;
  gender = pos 1;
  kind = MentorKind.normal;
  capacity = pos 10;
  current_load = pos load;
  allowed_groups = pos 3 ∷ [];
  allowed_centers = pos 1 ∷ [];
  school_codes = [];
}

abbrev student : Student
student = record {
  gender = pos 1;
  edu_status = pos 1;
  reg_center = pos 1;
  group_code = pos 3;
  school_code = none;
  student_type = pos 0;
  counter = none;
}

-- Mentor 2 is full.
abbrev mentors : List Mentor
mentors = mentor 2 10 ∷ mentor 1 4 ∷ mentor 3 8 ∷ []

abbrev engine : AllocationEngine millionths
engine = record {
  rules = default_rules;
  strategy = bucket_round_robin;
  bucket_size = 100_000;
  stable_counter_hash = length;
  isdigit = λ s. true;
}

abbrev items : List Item
items = (mentor 1 4, []) ∷ (mentor 3 8, []) ∷ (mentor 4 8, []) ∷ []

first_chosen : (select_best millionths engine student mentors none []).0.mentor_id ≡ some (pos 1)
unfolding select_best pass_all check_rules resolve_fairness_key rank with_bucket_round_robin
    interleave sort_by key_le occupancy_ratio gender_rule group_rule center_rule capacity_rule
    has_capacity graduate_rule school_rule text_eq str_int decimal
first_chosen = refl

nobody_chosen :
    (select_best millionths engine student (mentor 2 10 ∷ []) none []).0.mentor_id ≡ none
unfolding select_best pass_all check_rules resolve_fairness_key gender_rule group_rule center_rule
    capacity_rule has_capacity graduate_rule school_rule
nobody_chosen = refl

abbrev buckets : List (List ℕ)
buckets = (1 ∷ 2 ∷ 4 ∷ []) ∷ [] ∷ (3 ∷ []) ∷ []

taken_in_rounds : rounds {A = ℕ} 4 buckets ≡ 1 ∷ 3 ∷ 2 ∷ 4 ∷ []
taken_in_rounds = refl

-- Two buckets, with mentor 1 and with the mentors 3 and 4; mentor 3 was first the last time.
abbrev last_time : RoundRobin
last_time = (codes "02", pos 3) ∷ []

abbrev grouped : List (List Item)
grouped = buckets_of millionths length (codes "02") (clamp millionths length 100_000) items

begins_after_3 :
    (with_bucket_round_robin millionths length 100_000 (codes "02") last_time items).0
    ≡ (mentor 4 8, []) ∷ (mentor 1 4, []) ∷ (mentor 3 8, []) ∷ []
unfolding with_bucket_round_robin interleave sort_by key_le occupancy_ratio text_eq str_int decimal
begins_after_3 = refl

with_bucket_round_robin-IsRound_example :
    IsRound millionths length
      (codes "02")
      last_time
      (rounds (total_of grouped) grouped)
      (with_bucket_round_robin millionths length 100_000 (codes "02") last_time items)
with_bucket_round_robin-IsRound_example =
    with_bucket_round_robin-IsRound millionths length 100_000 (codes "02") last_time items

rank-perm_example :
    Perm (rank millionths length bucket_round_robin 100_000 (codes "02") [] items).0 items
rank-perm_example = rank-perm millionths length bucket_round_robin 100_000 (codes "02") [] items

select_best-IsChoice_example : IsChoice millionths engine student mentors (pos 1)
select_best-IsChoice_example =
    select_best-IsChoice millionths engine student mentors none [] (pos 1) first_chosen
