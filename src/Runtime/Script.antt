-- ===== src/Runtime/Script.antt =====
-- `_ALLOCATE_SCRIPT` of src/sma/phase2_counter_service/counter_runtime.py on the keys of
-- src/sma/hardened_api/redis_support.py. The server runs a script as one step. JSON values are their
-- fields, and a key holds at most one value.
pub mod Keys
pub mod Writes
pub mod Outcome
pub mod Changes
pub mod Unique
pub mod Refines
pub mod Again
use student_mentor_allocatio.Base.{
  ℕ, suc, Bool, true, false, Option, none, some, List, [], ◌∷◌, ◌++◌, ltb, if◌then◌else◌,
}
use student_mentor_allocatio.Base.Text.{Text, text_eq, codes}
use student_mentor_allocatio.Base.Text.Decimal.{decimal_pad}
use student_mentor_allocatio.Counter.{Gender, male, female, counter_code}

-- The fields of a request after `_normalize_payload` that the script is given.
pub record Normalized : Type 0 where
  pub year_code : Text
  pub gender : Gender
  pub center : ℕ
  pub student_id : Text

-- `str(gender)`
abbrev pub gender_digit : Gender → Text
gender_digit male = codes "0"
gender_digit female = codes "1"

abbrev pub counter_sequence : Text → Text → Gender → Text
counter_sequence base year_code gender =
    base ++ (codes ":counter:seq:" ++ (year_code ++ (codes ":" ++ gender_digit gender)))

abbrev pub counter_student : Text → Text → Text → Text
counter_student base year_code student_id =
    base ++ (codes ":counter:student:" ++ (year_code ++ (codes ":" ++ student_id)))

-- The payload of an assigned student.
pub record Assigned : Type 0 where
  pub counter : Text
  pub center : ℕ
  pub gender : Gender
  pub serial : ℕ
  pub year_code : Text

-- A value: the placeholder, which expires, an assignment, a number, or a text that is neither.
pub data Cell : Type 0 where
  placeholder : Cell
  assigned : Assigned → Cell
  number : ℕ → Cell
  garbled : Cell

abbrev pub Redis : Type 0
Redis = Text → Option Cell

-- `SET` with a value, and `DEL` with none.
abbrev pub put : Text → Option Cell → Redis → Redis
put key value redis = λ k. if text_eq k key then value else redis k

-- `INCR`; `none` is the error on a value that is no number.
abbrev pub incr : Option Cell → Option ℕ
incr none = some 1
incr (some (number n)) = some (suc n)
incr (some placeholder) = none
incr (some (assigned p)) = none
incr (some garbled) = none

-- The status of the reply with its counter.
pub data Reply : Type 0 where
  new : Text → Reply
  reused : Text → Reply
  pending : Reply
  exhausted : Reply
  script_error : Reply

-- The reply for a student key that holds a value.
abbrev pub reply_existing : Cell → Reply
reply_existing placeholder = pending
reply_existing garbled = pending
reply_existing (assigned p) = reused p.counter
reply_existing (number n) = script_error

abbrev pub counter_of : Text → Gender → ℕ → Text
counter_of year_code gender seq = year_code ++ (counter_code gender ++ decimal_pad 4 seq)

abbrev pub assignment : Normalized → ℕ → Assigned
assignment n seq = record {
  counter = counter_of n.year_code n.gender seq;
  center = n.center;
  gender = n.gender;
  serial = seq;
  year_code = n.year_code;
}

module _ (base : Text) (max_serial : ℕ) where
  abbrev pub student_key : Normalized → Text
  student_key n = counter_student base n.year_code n.student_id

  abbrev pub sequence_key : Normalized → Text
  sequence_key n = counter_sequence base n.year_code n.gender

  -- After `INCR`: the reply, and the writes on top of those before.
  abbrev pub after_incr : Normalized → Option ℕ → Redis → Reply × Redis
  after_incr n none redis = (script_error, redis)
  after_incr n (some seq) redis =
      let counted = put (sequence_key n) (some (number seq)) redis in
      if ltb max_serial seq then (exhausted, put (student_key n) none counted) else (
        new (counter_of n.year_code n.gender seq),
        put (student_key n) (some (assigned (assignment n seq))) counted,
      )

  abbrev pub on_existing : Normalized → Option Cell → Redis → Reply × Redis
  on_existing n (some cell) redis = (reply_existing cell, redis)
  on_existing n none redis =
      let reserved = put (student_key n) (some placeholder) redis in
      after_incr n (incr (reserved (sequence_key n))) reserved

  unfoldable pub allocate_script : Normalized → Redis → Reply × Redis
  allocate_script n redis = on_existing n (redis (student_key n)) redis
