-- ===== src/Export/Tests.antt =====
-- Two submissions under one key, of which the first gets the key, and runs of the attempts.
use student_mentor_allocatio.Base.{
  ℕ, suc, ◌-◌, ◌*◌, ◌%◌, ◌==◌, ltb, if◌then◌else◌, ◌^◌, ◌≤◌, ◌<◌, ◌≡◌, refl, inl, inr, true, false,
  none, some, List, [], ◌∷◌, In, All, arith,
}
use student_mentor_allocatio.Base.Int.{pos}
use student_mentor_allocatio.Base.Text.{Text, codes, text_eq}
use student_mentor_allocatio.Retry.{Call, gave, raised}
use student_mentor_allocatio.Export.Job.{
  ErrorPayload, ExportException, is_transient, Submission, ExportJob, new_job,
}
use student_mentor_allocatio.Export.Attempts.{build_schedule, execute}
use student_mentor_allocatio.Export.Attempts.Ends.{Ends, execute-Ends}
use student_mentor_allocatio.Export.Attempts.Pauses.{base_delay, sum, build_schedule-bounds}
use student_mentor_allocatio.Export.Runner.{
  owns, finished, System, turn, initial, redis_key, Reach, begin,
}
use student_mentor_allocatio.Export.Runner.Sound.{IsSound}
use student_mentor_allocatio.Export.Runner.Reached.{Reach-IsSound}
use student_mentor_allocatio.Export.Runner.Ends.{
  given, Reach-same_job, IsReported, Reach-IsReported,
}
use student_mentor_allocatio.Export.Runner.Runs.{Turn, run, IsFresh, run-Reach, IsOver, run-IsOver}
use student_mentor_allocatio.Export.Runner.Settled.{SameEnd, run-SameEnd}

abbrev dumps : ErrorPayload → Text
dumps payload = payload.detail

abbrev submission : Submission
submission = record {
  filters = record { year = pos 1403; center = none; delta = none };
  options = record {
    chunk_size = pos 50_000;
    include_bom = false;
    newline = codes "\r\n";
    excel_mode = true;
    output_format = codes "xlsx";
  };
  idempotency_key = codes "k1";
  namespace = codes "sabt";
  correlation_id = codes "c1";
}

abbrev submissions : ℕ → Submission
submissions i = if i == 2 then record submission { idempotency_key = codes "k2" } else submission

abbrev end : Call ℕ ExportException
end = raised (ExportException.transient (codes "disk"))

-- The turns of the given submissions, with ids `n`, `n + 1`, ...
abbrev numbered : ℕ → List ℕ → List (Turn ℕ)
numbered n [] = []
numbered n (i ∷ is) = record { i = i; id = n ∷ []; now = n; end = end } ∷ numbered (suc n) is

abbrev IsBelow : ℕ → Text → Type 0
IsBelow n [] = Unit
IsBelow n (c ∷ s) = c < n

new_number : (n : ℕ) (xs : List Text) → All (IsBelow n) xs → In (n ∷ []) xs → ⊥
new_number n [] h m = absurd m
new_number n (x ∷ xs) h (inl e) = below x e h.0
  where
    below : (x : Text) → n ∷ [] ≡ x → IsBelow n x → ⊥
    below [] e h = absurd (ground (arith, e))
    below (c ∷ s) e h = absurd (ground (arith, e, h))
new_number n (x ∷ xs) h (inr m) = new_number n xs h.1 m

weaken : (n : ℕ) (xs : List Text) → All (IsBelow n) xs → All (IsBelow (suc n)) xs
weaken n [] h = tt
weaken n ([] ∷ xs) h = (tt, weaken n xs h.1)
weaken n ((c ∷ s) ∷ xs) h = (omega (arith, h.0), weaken n xs h.1)

numbered-IsFresh :
    (is : List ℕ) (n : ℕ) (s : System ℕ) → All (IsBelow n) s.drawn → IsFresh dumps (numbered n is) s
unfolding turn
numbered-IsFresh [] n s h = tt
numbered-IsFresh (i ∷ is) n s h = (
  new_number n s.drawn h,
  numbered-IsFresh is (suc n) (turn dumps i (n ∷ []) n end s) (omega arith, weaken n s.drawn h),
)

-- The first submission takes all its turns, and the second one is refused.
abbrev first_turns : List ℕ
first_turns = 0 ∷ 0 ∷ 1 ∷ 0 ∷ 0 ∷ 0 ∷ 0 ∷ 0 ∷ 1 ∷ 0 ∷ 0 ∷ []

abbrev first_run : System ℕ
first_run = run dumps (numbered 1 first_turns) (initial submissions)

reached : Reach dumps submissions first_run
reached =
    run-Reach dumps submissions (numbered 1 first_turns) (initial submissions) begin
      (numbered-IsFresh first_turns 1 (initial submissions) tt)

abbrev first_job : ExportJob ℕ
first_job = new_job (1 ∷ []) 1 submission

abbrev ten_turns : List (Turn ℕ)
ten_turns = numbered 20 (1 ∷ 2 ∷ 2 ∷ 2 ∷ 2 ∷ 2 ∷ 2 ∷ 2 ∷ 2 ∷ 2 ∷ 2 ∷ [])

first_at : first_run.pc 0 ≡ owns (finished end) (redis_key submission) first_job
unfolding run turn text_eq
first_at = refl

first_given : given (first_run.pc 0) ≡ some (redis_key submission, 1 ∷ [])
unfolding run turn text_eq
first_given = refl

second_at : given (first_run.pc 1) ≡ some (redis_key submission, 1 ∷ [])
unfolding run turn text_eq
second_at = refl

Reach-IsSound_example : IsSound dumps first_run
Reach-IsSound_example = Reach-IsSound dumps submissions reached

Reach-same_job_example : ◌≡◌ {A = Text} (1 ∷ []) (1 ∷ [])
Reach-same_job_example =
    Reach-same_job dumps submissions 0 1 (redis_key submission) (1 ∷ []) (1 ∷ []) reached
      first_given second_at

Reach-IsReported_example : IsReported dumps first_run (redis_key submission) first_job end
Reach-IsReported_example =
    Reach-IsReported dumps submissions 0 (redis_key submission) first_job end reached first_at

run-IsOver_example : IsOver dumps ((run dumps ten_turns first_run).pc 2)
unfolding run turn
run-IsOver_example =
    run-IsOver dumps submissions ten_turns 2 reached
      (numbered-IsFresh (1 ∷ 2 ∷ 2 ∷ 2 ∷ 2 ∷ 2 ∷ 2 ∷ 2 ∷ 2 ∷ 2 ∷ 2 ∷ []) 20 first_run (omega arith))
      (omega arith)

run-SameEnd_example :
    SameEnd dumps first_run (run dumps ten_turns first_run) 0 (redis_key submission) first_job
unfolding run turn
run-SameEnd_example =
    run-SameEnd dumps submissions ten_turns 0 (redis_key submission) first_job end reached
      (numbered-IsFresh (1 ∷ 2 ∷ 2 ∷ 2 ∷ 2 ∷ 2 ∷ 2 ∷ 2 ∷ 2 ∷ 2 ∷ 2 ∷ []) 20 first_run (omega arith))
      first_at

-- The first two calls raise, the third one returns.
abbrev calls : ℕ → Call ℕ ExportException
calls attempt = if ltb attempt 3 then end else gave 7

abbrev digest : ℕ → ℕ
digest attempt = attempt * 1000

digest_small : (attempt : ℕ) → digest attempt % 2 ^ 64 < 2 ^ 64
digest_small attempt = omega arith

execute-Ends_example : Ends digest is_transient 4 calls 0 [] (execute digest is_transient 4 calls)
execute-Ends_example = execute-Ends digest is_transient 4 calls (omega arith)

build_schedule-bounds_example :
    let total = sum (build_schedule (λ attempt. digest attempt % 2 ^ 64) 3) in
    (base_delay * (2 ^ (3 - 1) - 1) ≤ total) × (10 * total ≤ 11 * (base_delay * (2 ^ (3 - 1) - 1)))
build_schedule-bounds_example =
    build_schedule-bounds (λ attempt. digest attempt % 2 ^ 64) digest_small 3
