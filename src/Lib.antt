-- ===== src/Lib.antt =====
-- The core of the student-mentor allocation system: how a student's and a mentor's data are brought
-- to a normal form, which mentors a student may have, which of them is selected, how an allocation
-- is written under its idempotency key, and how its event is published afterwards. All paths are below src/sma.
--
-- The parts, and the files that model them:
--
--   Phase3 - phase3_allocation/contracts.py, rules.py, policy.py and engine.py. A student and a mentor
--   come with untyped fields (PyValue), which normalize_student and normalize_mentor check and
--   convert (_normalize_text, _normalize_int, _normalize_enum, ... in Phase3.Normalize). The eight
--   rules are the check_* functions of Phase3.Rules, each with the details that it reports; run_rules
--   is _run_rules with fast_fail and trace_limit_rejected; evaluate of Phase3.Engine judges every
--   mentor and takes the least RankingKey of Ranking. A NormalizationError is a value of the result
--   type Normalized.
--
--   Idempotency - phase3_allocation/idempotency.py: normal forms of identifiers, the material of the key,
--   and the event id.
--
--   Store and Atomic - infrastructure/persistence/models.py, phase3_allocation/allocation_tx.py and
--   uow.py. Db holds the four tables; flush inserts an allocation with its event or refuses both by the
--   unique constraints. execute_once is _execute_once inside its unit of work: it looks for the key, the
--   mentor and the student, asks the policy, takes identifiers (Atomic.Sequence.next), writes, and
--   resolves a conflict after a rollback. The engine of Phase3 could stand for its policy argument;
--   the code leaves that open, and so does the model. What other sessions commit while an attempt
--   runs is a function on Db, applied between what the attempt reads and what it writes; the place
--   where the database raises an OperationalError is a Fault. allocate repeats attempts.
--
--   Outbox - phase3_allocation/outbox: next_delay and compute_next_available_at of Outbox.Backoff, and
--   the dispatcher: list_due_for_update selects, dispatch_message publishes and records one message,
--   dispatch_once is the whole batch with its commit. It reads the rows that Atomic writes.
--
--   Domain - domain/allocation with the entities of domain/student and domain/mentor: the older engine
--   with six rules, the ranking by the same key, and the fairness strategies, whose round-robin state
--   select_best takes and returns.
--
--   Counter - shared/counter_rules.py and domain/counter: the prefix of a gender, the format of a counter,
--   validate_counter, Counter.build and CounterService.generate.
--
--   Retry - core/retry.py: backoff_for and execute_with_retry, whose calls are a function of the attempt.
--
--   Runtime - phase2_counter_service/counter_runtime.py and academic_year.py on hardened_api/redis_support.py.
--   Runtime.Script is _ALLOCATE_SCRIPT: a function from the server's keys to a reply and the keys
--   afterwards, which the server runs in one step; a Cell is what a key may hold. Runtime.Executor is
--   RedisExecutor.call for any operation: each request is answered, does not arrive, or is run with
--   its answer lost (Link), and others may change the server before each of them. Runtime.Allocate is
--   _allocate_with_retry with the preview, and Runtime.Request is allocate from its payload, through
--   _normalize_payload and code_for. Runtime.Script.Unique has the steps of the server: runs of the
--   script for any students, and placeholders that expire.
--
--   Repository - phase2_counter_service/repository.py, service.py, validation.py and backfill.py. One session
--   is a function from the tables to a value, an error code, or the text of an IntegrityError, each
--   with the tables as the session has written them (Session); commit and rollback say which tables
--   stay. reserve_once is _reserve_once, bind_loop the loop of reserve_and_bind,
--   assign_counter the service with what it reports to the meters. Others says what the other
--   sessions leave before each attempt and which flushes they strike. Repository.Backfill reads the
--   lines of a file, puts them into chunks, and counts or assigns them. It shares the rows of
--   students with Store and the counter format with Counter.
--
--   Sabt - phase6_import_to_sabt/external_sorter.py with normalize_text of normalization.py: prepare cleans the
--   rows, builds their keys and spills sorted chunks, and iter_sorted merges the chunks with the rows
--   in memory. Sabt.Merge is the loop on the heap, which pops the least head and the earliest of
--   equal ones, for any elements and order.
--
--   Export - phase6_import_to_sabt/job_runner.py with export_runner.py and models.py. Export.Redis is
--   DeterministicRedis. Export.Attempts is the loop of RetryingExportRunner. Export.Runner takes every
--   change that submit and _run_job make to the store or to self.jobs as a step of its own (act): a call
--   of submit and its thread are one sequence of such steps (Pc), between which the others act in any
--   order (turn, Reach). How the attempts of a job end is chosen by the environment.
--
--   Base and Python hold what these share: lists, sorting, texts as lists of code points, decimal
--   numbers, and Python's int, str and float as far as the code uses them. Persian message texts are
--   constructors or are left out; log lines and metrics are left out.
--
-- Parameters stand for code outside the repository: the Unicode tables (Python.Database.Unicode, with
-- the values of the ASCII digits), floats (Python.Float.Floats, whose order is total and transitive),
-- SHA-256, UUID5, BLAKE2b, JSON, the publisher, the clock, str.isdigit, the jitter of pauses, and the
-- other sessions and clients. The tests
-- instantiate each of them.
--
-- Bounds: times are whole microseconds, the delays of allocate are halves of seconds, and those of an
-- export are parts of base_delay / (10 * 2 ^ 64), in which they are whole. The loops are
-- structural. allocate, execute_with_retry, execute, call, wait_loop, next_sequence and bind_loop count the
-- attempts that are left. The `while` that empties
-- the buckets of a round robin is given fuel in the model, (items + 1) * buckets: a round over all
-- buckets takes at least one item as long as one is left. Integers of the rows are not bounded, since Python's are not.
--
-- Not modelled: the imports and exports apart from the sorter and the export jobs, HTTP, the user interface, operations and tooling; the command
-- line, logs and metrics of the counter service; await_completion and the failures of the store of the export jobs, whose keys do not expire; the time to live of a placeholder, which may expire
-- at any step; row locks, by which two sessions of the counter service do not interleave; the validators and aliases through which pydantic builds a request; the
-- endless loop around dispatch_once; two workers inside one batch, beyond the locks that they leave.
pub mod Base
pub mod Python
pub mod Ranking
pub mod Phase3
pub mod Idempotency
pub mod Store
pub mod Atomic
pub mod Outbox
pub mod Domain
pub mod Counter
pub mod Retry
pub mod Runtime
pub mod Repository
pub mod Sabt
pub mod Export
