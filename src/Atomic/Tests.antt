-- ===== src/Atomic/Tests.antt =====
-- The allocation theorems at a concrete database with one student and two mentors.
use student_mentor_allocatio.Base.{
  ℕ, zero, suc, ◌<◌, ◌≡◌, refl, ◌⊎◌, true, false, none, some, [], ◌∷◌, ◌++◌, arith, length,
}
use student_mentor_allocatio.Base.Int.{pos}
use student_mentor_allocatio.Base.Text.{
  Text, codes, text_eq, is_space, strip, fold_digit, fold_letter,
}
use student_mentor_allocatio.Base.Text.Decimal.{decimal, decimal_pad}
use student_mentor_allocatio.Python.{str}
use student_mentor_allocatio.Python.Database.{ascii}
use student_mentor_allocatio.Idempotency.{
  Hashes, derive_event_id, derive_idempotency_key, key_material, join_parts, normalize_identifier,
  normalize_string,
}
use student_mentor_allocatio.Store.{
  StudentModel, MentorModel, AllocationStatus, AllocationRecord, OutboxStatus, OutboxMessageModel,
  Db, clashes, flush,
}
use student_mentor_allocatio.Store.Consistent.{IsConsistent}
use student_mentor_allocatio.Atomic.Types.{
  AllocationRequest, AllocationResult, assigned, returned, no_fault, in_query, Allocator,
}
use student_mentor_allocatio.Atomic.Sequence.{next}
use student_mentor_allocatio.Atomic.Attempt.{
  exit_unit, persist, attempt_body, execute_once, request_key, already_assigned_result,
}
use student_mentor_allocatio.Atomic.Attempt.Effects.{Refrains, Assigns, execute_once_effect}
use student_mentor_allocatio.Atomic.Attempt.Repeat.{
  repeated, execute_once-repeat, execute_once-race,
}
use student_mentor_allocatio.Atomic.Allocate.{World, attempt_in, allocate}
use student_mentor_allocatio.Atomic.Allocate.Consistency.{allocate-IsConsistent}
use student_mentor_allocatio.Atomic.Allocate.Retries.{IsPaused, allocate_waits, allocate_recovers}

-- Functions in place of the hashes and encoders: the tests need no more of them.
abbrev hashes : Hashes
hashes = record {
  unicode = ascii;
  Json = Text;
  sha256 = λ s. s;
  uuid5 = λ s. codes "event:" ++ s;
  dumps = λ s. s;
}

abbrev allocator : Allocator
allocator = record {
  hashes = hashes;
  policy = λ s m r. record { approved = true; code = codes "OK" };
  sequence = next 8 1402;
  encode = λ r event_id now. event_id;
  utf8_size = length;
}

abbrev student : StudentModel
student = record {
  national_id = codes "77";
  gender = pos 1;
  edu_status = pos 1;
  reg_center = pos 1;
  reg_status = pos 1;
  group_code = pos 3;
  school_code = none;
  student_type = none;
  counter = none;
}

abbrev mentor : MentorModel
mentor = record {
  mentor_id = pos 5;
  gender = pos 1;
  is_school = false;
  capacity = pos 10;
  current_load = pos 2;
  manager_id = none;
  is_active = true;
}

abbrev start : Db
start = record { students = student ∷ []; mentors = mentor ∷ []; allocations = []; outbox = [] }

abbrev request : AllocationRequest Text
request = record {
  student_id = codes "77";
  mentor_id = pos 5;
  request_id = some (codes "r1");
  payload = codes "{}";
  metadata = none;
  year_code = none;
}

abbrev record_of : AllocationRecord
record_of = record {
  allocation_id = 1;
  allocation_code = codes "0200000001";
  year_code = codes "02";
  student_id = codes "77";
  mentor_id = pos 5;
  idempotency_key = codes "77|5|r1";
  request_id = some (codes "r1");
  status = AllocationStatus.confirmed;
  policy_code = codes "OK";
  metadata_json = none;
}

abbrev event_of : OutboxMessageModel
event_of = record {
  event_id = codes "event:77|5|r1";
  aggregate_id = 1;
  payload_json = codes "event:77|5|r1";
  occurred_at = 1000;
  available_at = 1000;
  retry_count = 0;
  status = OutboxStatus.pending;
  published_at = none;
  last_error = none;
}

abbrev filled : Db
filled = record start { allocations = record_of ∷ []; outbox = event_of ∷ [] }

abbrev assigned_of : AllocationResult
assigned_of = record {
  allocation_id = some 1;
  allocation_code = some (codes "0200000001");
  year_code = some (codes "02");
  mentor_id = some (pos 5);
  status = assigned;
  error_code = none;
  idempotency_key = codes "77|5|r1";
  outbox_event_id = some (codes "event:77|5|r1");
}

-- The first attempt allocates.
first :
    execute_once allocator no_fault (λ d. d) 1000 request false start
    ≡ (returned assigned_of, filled)
unfolding execute_once attempt_body persist exit_unit flush clashes next derive_idempotency_key
    derive_event_id key_material join_parts normalize_identifier normalize_string str strip
    fold_digit fold_letter is_space decimal decimal_pad text_eq
first = refl

start-IsConsistent : IsConsistent (derive_event_id hashes) start
start-IsConsistent = record { allocations_unique = tt; events_unique = tt; events_present = tt }

key-request : request_key allocator request ≡ codes "77|5|r1"
unfolding derive_idempotency_key key_material join_parts normalize_identifier normalize_string str
    strip fold_digit fold_letter is_space decimal
key-request = refl

-- The database fails in the queries of the first two attempts.
abbrev unsteady : ℕ → World
unsteady zero = record { fault = in_query; others = λ d. d; now = 1000 }
unsteady (suc zero) = record { fault = in_query; others = λ d. d; now = 1001 }
unsteady (suc (suc k)) = record { fault = no_fault; others = λ d. d; now = 1000 }

quiet :
    (k : ℕ) (d : Db)
    → IsConsistent (derive_event_id hashes) d
    → IsConsistent (derive_event_id hashes) ((unsteady k).others d)
quiet zero d g = g
quiet (suc zero) d g = g
quiet (suc (suc k)) d g = g

unmoved : (k : ℕ) (d : Db) → (unsteady k).others d ≡ d
unmoved zero d = refl
unmoved (suc zero) d = refl
unmoved (suc (suc k)) d = refl

struck : (j : ℕ) → j < 2 → (unsteady j).fault ≡ in_query
struck zero h = refl
struck (suc zero) h = refl
struck (suc (suc j)) h = absurd (omega arith)

execute_once_effect_example :
    let result = execute_once allocator no_fault (λ d. d) 1000 request false start in
    Refrains allocator start result ⊎ Assigns allocator request 1000 start result
execute_once_effect_example =
    execute_once_effect allocator no_fault (λ d. d) 1000 request false start

execute_once-repeat_example :
    execute_once allocator no_fault (λ d. d) 2000 request false filled
    ≡ (returned (repeated assigned_of), filled)
execute_once-repeat_example =
    execute_once-repeat allocator no_fault (λ d. d) 1000 request false start assigned_of filled
      first refl (λ d. d) 2000 false

execute_once-race_example :
    execute_once allocator no_fault (λ d. filled) 2000 request false start ≡ (
      returned (already_assigned_result allocator (request_key allocator request) record_of),
      filled,
    )
unfolding derive_idempotency_key derive_event_id key_material join_parts normalize_identifier
    normalize_string str strip fold_digit fold_letter is_space decimal text_eq
execute_once-race_example =
    execute_once-race allocator (λ d. filled) 2000 request start student mentor record_of refl refl
      refl refl (omega arith) refl

allocate-IsConsistent_example :
    IsConsistent (derive_event_id hashes) (allocate allocator unsteady 3 request false start).2
allocate-IsConsistent_example =
    allocate-IsConsistent allocator unsteady quiet 3 request false start start-IsConsistent

allocate_waits_example : IsPaused 3 (allocate allocator unsteady 3 request false start)
allocate_waits_example = allocate_waits allocator unsteady request false 3 start

allocate_recovers_example : allocate allocator unsteady 3 request false start ≡ (
  (attempt_in allocator (unsteady 2) request false start).0,
  2 ∷ 4 ∷ [],
  (attempt_in allocator (unsteady 2) request false start).1,
)
allocate_recovers_example =
    allocate_recovers allocator unsteady request false 2 3 start (omega arith) struck refl
