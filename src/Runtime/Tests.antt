-- ===== src/Runtime/Tests.antt =====
-- The theorems on counters at one student, with a first answer that is lost.
use student_mentor_allocatio.Base.{
  ℕ, zero, suc, ◌+◌, ◌*◌, max, ◌≡◌, refl, ap, Bool, all, none, some, [], arith,
}
use student_mentor_allocatio.Base.Text.{Text, text_eq, codes, strip, lstrip, is_space, fold_digit}
use student_mentor_allocatio.Base.Text.Decimal.{is_digit, decimal, decimal_pad}
use student_mentor_allocatio.Base.Int.{pos}
use student_mentor_allocatio.Python.{PyValue, str, str_int, int, int_digits}
use student_mentor_allocatio.Python.Database.{ascii}
use student_mentor_allocatio.Counter.{female, counter_regex}
use student_mentor_allocatio.Runtime.Script.{Normalized, Redis, allocate_script, student_key}
use student_mentor_allocatio.Runtime.Script.Unique.{
  Steps, done, then_step, ran, Steps-IsSound, IsSound, nothing_held-IsSound,
}
use student_mentor_allocatio.Runtime.Script.Refines.{Allows, view, allocate_script-Allows}
use student_mentor_allocatio.Runtime.Executor.{
  RedisRetryConfig, Link, answered, lost, World, call, call_loop,
}
use student_mentor_allocatio.Runtime.Executor.Pauses.{IsPaused}
use student_mentor_allocatio.Runtime.Allocate.{
  counter_new, counter_preview, counter_reused, CounterRuntime, run_script, wait_loop,
  allocate_with_retry, preview,
}
use student_mentor_allocatio.Runtime.Allocate.Granted.{
  given, IsGranted, allocate_with_retry-IsGranted,
}
use student_mentor_allocatio.Runtime.Allocate.Waits.{allocate_with_retry-IsPaused}
use student_mentor_allocatio.Runtime.Allocate.Preview.{preview-allocate}
use student_mentor_allocatio.Runtime.Request.{
  Payload, normalize_digits, strip_controls, strip_zw, normalize_student_id, normalize_int_field,
  code_for, normalize_payload, allocate_counter,
}
use student_mentor_allocatio.Runtime.Request.Valid.{IsNormal, normalize_payload-IsNormal}
use student_mentor_allocatio.Runtime.Request.Unique.{
  allocate_counter_unique, allocate_counter-repeat,
}

abbrev base : Text
base = codes "sma"

abbrev runtime : CounterRuntime
runtime = record { max_serial = 9999; wait_attempts = 5; wait_base = 20; wait_max = 200 }

abbrev config : RedisRetryConfig
config = record { attempts = 3; base_delay = 50000; max_delay = 500000 }

-- The first answer is lost.
abbrev links : ℕ → Link
links zero = lost
links (suc i) = answered

abbrev quiet : ℕ → Redis → Redis
quiet i s = s

next_answered : (t : ℕ) → links (t + 1) ≡ answered
next_answered t = let e : t + 1 ≡ suc t = omega arith in ap links e

quiet_steps : (i : ℕ) (s : Redis) → Steps base 9999 s (quiet i s)
quiet_steps i s = done s

abbrev jitter : ℕ → ℕ
jitter i = 25000

abbrev isdigit : Text → Bool
isdigit s = all is_digit s

abbrev typed : Payload
typed = record {
  year = PyValue.text (codes "1402");
  gender = PyValue.integer (pos 1);
  center = PyValue.integer (pos 2);
  student_id = PyValue.text (codes " 7 ");
}

abbrev again : Payload
again = record {
  year = PyValue.integer (pos 1402);
  gender = PyValue.text (codes "1");
  center = PyValue.integer (pos 2);
  student_id = PyValue.text (codes "7");
}

abbrev normal : Normalized
normal = record { year_code = codes "02"; gender = female; center = 2; student_id = codes "7" }

abbrev start : World Redis
start = record { server = λ k. none; tick = 0; slept = [] }

normalize_typed : normalize_payload ascii isdigit [] typed ≡ some normal
unfolding normalize_payload normalize_int_field normalize_student_id code_for normalize_digits
    strip_controls strip_zw strip lstrip is_space fold_digit str str_int decimal int int_digits
    text_eq
normalize_typed = refl

normalize_again : normalize_payload ascii isdigit [] again ≡ some normal
unfolding normalize_payload normalize_int_field normalize_student_id code_for normalize_digits
    strip_controls strip_zw strip lstrip is_space fold_digit str str_int decimal int int_digits
    text_eq
normalize_again = refl

normalize_payload-IsNormal_example : IsNormal isdigit normal
normalize_payload-IsNormal_example =
    normalize_payload-IsNormal ascii isdigit [] typed normal normalize_typed

-- The script runs twice, since the first answer is lost.
abbrev after_first : World Redis
after_first =
    (allocate_counter ascii isdigit [] base runtime config jitter links quiet typed start).1

first_result :
    (allocate_counter ascii isdigit [] base runtime config jitter links quiet typed start).0
    ≡ counter_reused (codes "023570001")
unfolding allocate_counter normalize_payload normalize_int_field normalize_student_id code_for
    normalize_digits strip_controls strip_zw strip lstrip is_space fold_digit str str_int decimal
    int int_digits text_eq counter_regex allocate_with_retry wait_loop run_script allocate_script
    call call_loop decimal_pad
first_result = refl

given_first :
    given (allocate_counter ascii isdigit [] base runtime config jitter links quiet typed start).0
    ≡ some (codes "023570001")
given_first = rw first_result refl

allocate_counter-repeat_example :
    (allocate_counter ascii isdigit [] base runtime config jitter links quiet again after_first).0
    ≡ counter_reused (codes "023570001")
allocate_counter-repeat_example =
    allocate_counter-repeat ascii isdigit [] base runtime config jitter links quiet quiet_steps
      typed again start after_first (codes "023570001") 1 (omega arith) given_first
      (rw (normalize_typed, normalize_again) refl) (done after_first.server) (omega arith)
      (next_answered _)

given-again :
    given
      (allocate_counter ascii isdigit [] base runtime config jitter links quiet again after_first).0
    ≡ some (codes "023570001")
given-again =
    rw
      (allocate_counter-repeat ascii isdigit [] base runtime config jitter links quiet quiet_steps
        typed again start after_first (codes "023570001") 1 (omega arith) given_first
        (rw (normalize_typed, normalize_again) refl) (done after_first.server) (omega arith)
        (next_answered _))
      refl

allocate_counter_unique_example :
    (◌≡◌ {A = Text} (codes "02") (codes "02")) × (◌≡◌ {A = Text} (codes "7") (codes "7"))
allocate_counter_unique_example =
    allocate_counter_unique ascii isdigit [] base runtime config jitter links quiet quiet_steps
      typed again start after_first (codes "023570001") normal normal (done start.server)
      given_first (done after_first.server) given-again normalize_typed normalize_again

-- One run of the script on an empty server.
abbrev ran_once : Redis
ran_once = (allocate_script base 9999 normal start.server).1

once : Steps base 9999 start.server ran_once
once = then_step start.server start.server ran_once (done start.server) (ran normal refl)

Steps-IsSound_example : IsSound base 9999 ran_once
Steps-IsSound_example =
    Steps-IsSound base 9999 start.server ran_once once (nothing_held-IsSound base 9999)

allocate_script-Allows_example :
    Allows
      (student_key base 9999 normal)
      (view start.server)
      (view (allocate_script base 9999 normal start.server).1)
      (allocate_script base 9999 normal start.server).0
allocate_script-Allows_example =
    allocate_script-Allows base 9999 normal start.server (nothing_held-IsSound base 9999) refl

allocate_with_retry-IsPaused_example :
    IsPaused
      (5 * 3)
      (max (500000 + 25000) (200 * 1000))
      start
      (allocate_with_retry ascii base runtime config jitter links quiet normal start).1
allocate_with_retry-IsPaused_example =
    allocate_with_retry-IsPaused ascii base runtime config jitter links quiet normal 25000
      (λ i. omega arith) start (omega arith)

allocate_with_retry-IsGranted_example :
    IsGranted ascii base runtime config jitter links quiet normal start.server
      (allocate_with_retry ascii base runtime config jitter links quiet normal start)
allocate_with_retry-IsGranted_example =
    allocate_with_retry-IsGranted ascii base runtime config jitter links quiet normal quiet_steps
      refl start

abbrev all_answered : ℕ → Link
all_answered i = answered

previewed_first :
    (preview ascii base runtime config jitter all_answered quiet (codes "02") female start).0
    ≡ counter_preview (codes "023570001")
unfolding preview call call_loop decimal_pad
previewed_first = refl

preview-allocate_example :
    (allocate_with_retry ascii base runtime config jitter all_answered quiet normal start).0
    ≡ counter_new (codes "023570001")
preview-allocate_example =
    preview-allocate ascii base runtime config jitter all_answered quiet normal start start
      (codes "023570001") 1 (refl, (refl, tt)) refl (omega arith) (omega arith) (omega arith) refl
      refl previewed_first refl refl refl
