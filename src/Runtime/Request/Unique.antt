-- ===== src/Runtime/Request/Unique.antt =====
-- Two requests for counters, from their payloads to their results.
use student_mentor_allocatio.Base.{
  ℕ, ◌+◌, ◌<◌, ◌≤◌, ◌≡◌, refl, sym, ◌∙◌, ap, Bool, Option, none, some, List, length, arith,
}
use student_mentor_allocatio.Base.Text.{Text}
use student_mentor_allocatio.Python.{Unicode}
use student_mentor_allocatio.Runtime.Script.{Normalized, Redis}
use student_mentor_allocatio.Runtime.Script.Writes.{student}
use student_mentor_allocatio.Runtime.Script.Refines.{view, shown-assigned}
use student_mentor_allocatio.Runtime.Script.Again.{Steps-shown}
use student_mentor_allocatio.Runtime.Script.Unique.{Steps, Steps-trans, nothing_held, one_student}
use student_mentor_allocatio.Runtime.Executor.{RedisRetryConfig, Link, answered, World}
use student_mentor_allocatio.Runtime.Allocate.{counter_reused, CounterRuntime}
use student_mentor_allocatio.Runtime.Allocate.Granted.{given, allocate_with_retry-IsGranted}
use student_mentor_allocatio.Runtime.Allocate.Repeat.{allocate_with_retry-repeat}
use student_mentor_allocatio.Runtime.Request.{
  Payload, normalize_payload, with_normalized, allocate_counter,
}
use student_mentor_allocatio.Runtime.Request.Valid.{normalize_payload-IsNormal}

module _ (u : Unicode) (isdigit : Text → Bool) (code_map : List (Text × Text)) (base : Text)
    (runtime : CounterRuntime) (config : RedisRetryConfig) (jitter : ℕ → ℕ) (links : ℕ → Link)
    (others : ℕ → Redis → Redis)
    (steps : (i : ℕ) (s : Redis) → Steps base runtime.max_serial s (others i s)) where
  -- A payload that was given a counter.
  record GotCounter (payload : Payload) (w v : World Redis) (c : Text) : Type 0 where
    n : Normalized
    normal : normalize_payload u isdigit code_map payload ≡ some n
    two : length n.year_code ≡ 2
    reached : Steps base runtime.max_serial w.server v.server
    shows : view v.server (student base runtime.max_serial n) ≡ some c

  normalized_got :
      (payload : Payload) (w : World Redis) (c : Text) (o : Option Normalized)
      → normalize_payload u isdigit code_map payload ≡ o
      → given (with_normalized u isdigit code_map base runtime config jitter links others o w).0
        ≡ some c
      → GotCounter payload w
          (with_normalized u isdigit code_map base runtime config jitter links others o w).1
          c
  normalized_got payload w c none e g = absurd (ground (arith, g))
  normalized_got payload w c (some n) e g =
      let two = (normalize_payload-IsNormal u isdigit code_map payload n e).two in
      let granted =
        allocate_with_retry-IsGranted u base runtime config jitter links others n steps two w in
      record { n = n; normal = e; two = two; reached = granted.reached; shows = granted.shows c g }

  allocate_counter-GotCounter :
      (payload : Payload) (w : World Redis) (c : Text)
      → given
          (allocate_counter u isdigit code_map base runtime config jitter links others payload w).0
        ≡ some c
      → GotCounter payload w
          (allocate_counter u isdigit code_map base runtime config jitter links others payload w).1
          c
  unfolding allocate_counter
  allocate_counter-GotCounter payload w c g =
      normalized_got payload w c (normalize_payload u isdigit code_map payload) refl g

  -- On a server that was empty once and that only the script and expiring placeholders have
  -- changed since, others' requests between these two included: if `allocate` gives two payloads
  -- the same counter, then the payloads have the same year code and the same student id in their
  -- normal forms.
  pub allocate_counter_unique :
      (first second : Payload) (w v : World Redis) (c : Text) (n n' : Normalized)
      → Steps base runtime.max_serial (nothing_held base runtime.max_serial) w.server
      → given
          (allocate_counter u isdigit code_map base runtime config jitter links others first w).0
        ≡ some c
      → Steps base runtime.max_serial
          (allocate_counter u isdigit code_map base runtime config jitter links others first
            w).1.server
          v.server
      → given
          (allocate_counter u isdigit code_map base runtime config jitter links others second v).0
        ≡ some c
      → normalize_payload u isdigit code_map first ≡ some n
      → normalize_payload u isdigit code_map second ≡ some n'
      → (n.year_code ≡ n'.year_code) × (n.student_id ≡ n'.student_id)
  allocate_counter_unique first second w v c n n' start g between g' e e' =
      let a = allocate_counter-GotCounter first w c g in
      let b = allocate_counter-GotCounter second v c g' in
      let sameA : a.n ≡ n = ground (arith, sym a.normal ∙ e) in
      let sameB : b.n ≡ n' = ground (arith, sym b.normal ∙ e') in
      let later = Steps-trans base runtime.max_serial _ _ _ between b.reached in
      let all =
        Steps-trans base runtime.max_serial _ _ _ start
          (Steps-trans base runtime.max_serial _ _ _ a.reached later) in
      let (p, h, m) =
        shown-assigned _ c (Steps-shown base runtime.max_serial _ _ _ c later a.shows) in
      let (p', h', m') = shown-assigned _ c b.shows in
      rw (sym sameA, sym sameB)
        (one_student base runtime.max_serial _ a.n b.n p p' all a.two b.two h h' (m ∙ sym m'))

  -- The runtime waits at least one turn, and others change the server only by runs of the script
  -- and expired placeholders. Once `allocate` has given a payload a counter, it gives the same
  -- counter, as reused, to every later payload with the same normal form, if the answer to one of
  -- the configured attempts arrives, whatever becomes of the ones before it.
  pub allocate_counter-repeat :
      (first second : Payload) (w v : World Redis) (c : Text) (i : ℕ)
      → 1 ≤ runtime.wait_attempts
      → given
          (allocate_counter u isdigit code_map base runtime config jitter links others first w).0
        ≡ some c
      → normalize_payload u isdigit code_map first ≡ normalize_payload u isdigit code_map second
      → Steps base runtime.max_serial
          (allocate_counter u isdigit code_map base runtime config jitter links others first
            w).1.server
          v.server
      → i < config.attempts
      → links (v.tick + i) ≡ answered
      → (allocate_counter u isdigit code_map base runtime config jitter links others second v).0
        ≡ counter_reused c
  unfolding allocate_counter
  allocate_counter-repeat first second w v c i one g same between l e =
      let a = allocate_counter-GotCounter first w c g in
      let as_first = λ (o : Option Normalized) (x : World Redis).
        with_normalized u isdigit code_map base runtime config jitter links others o x in
      let g' : given (as_first (some a.n) w).0 ≡ some c =
        sym (ap (λ o. given (as_first o w).0) a.normal) ∙ g in
      let b' : Steps base runtime.max_serial (as_first (some a.n) w).1.server v.server =
        rw a.normal at between in
      ap (λ o. (as_first o v).0) (sym same ∙ a.normal)
      ∙ allocate_with_retry-repeat u base runtime config jitter links others a.n steps w v c i a.two
          one g' b' l e
