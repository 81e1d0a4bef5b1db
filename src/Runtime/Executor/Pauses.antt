-- ===== src/Runtime/Executor/Pauses.antt =====
-- How often and how long a call pauses, and when it is answered.
use student_mentor_allocatio.Base.{
  ℕ, zero, suc, ◌+◌, ◌-◌, ◌*◌, ◌<◌, ◌≤◌, ◌≡◌, refl, sym, ◌∙◌, ap, min, Option, none, some, List, [],
  ◌∷◌, ◌++◌, length, All, arith,
}
use mathlib.Core.List.{append_assoc, append-nil}
use student_mentor_allocatio.Runtime.Executor.{
  RedisRetryConfig, Link, answered, unreached, lost, World, sleep, reached, raised, replied,
  attempt, call_loop, call,
}

abbrev before : ℕ → ℕ
before zero = zero
before (suc n) = n

before_sub : (n : ℕ) → before n ≡ n - 1
before_sub zero = omega arith
before_sub (suc n) = omega arith

-- Between two states, at most `count` pauses, each of at most `bound`.
pub record IsPaused {S : Type 0} (count bound : ℕ) (w v : World S) : Type 0 where
  pub pauses : List ℕ
  pub added : v.slept ≡ w.slept ++ pauses
  pub few : length pauses ≤ count
  pub short : All (λ p. p ≤ bound) pauses

pub unpaused :
    {S : Type 0} (count bound : ℕ) (w v : World S) → v.slept ≡ w.slept → IsPaused count bound w v
unpaused count bound w v e = record {
  pauses = [];
  added = e ∙ sym (append-nil w.slept);
  few = omega arith;
  short = tt;
}

-- A pause before the others.
pub IsPaused-first :
    {S : Type 0} (count bound pause : ℕ) (w u v : World S)
    → pause ≤ bound
    → u.slept ≡ w.slept ++ (pause ∷ [])
    → IsPaused count bound u v
    → IsPaused (suc count) bound w v
IsPaused-first count bound pause w u v le e h = record {
  pauses = pause ∷ h.pauses;
  added = h.added ∙ (ap (λ l. l ++ h.pauses) e ∙ append_assoc w.slept (pause ∷ []) h.pauses);
  few = omega (arith, h.few);
  short = (le, h.short);
}

module _ {S : Type 0} {A : Type 0} (config : RedisRetryConfig) (jitter : ℕ → ℕ) (links : ℕ → Link)
    (others : ℕ → S → S) (operation : S → Option A × S) where
  module _ (most : ℕ) (small : (i : ℕ) → jitter i ≤ most) where
    raised-IsPaused :
        (next : World S → Option A × World S) (left pause : ℕ) (w u : World S)
        → ((v : World S) → IsPaused (before left) (config.max_delay + most) v (next v).1)
        → pause ≤ config.max_delay + most
        → u.slept ≡ w.slept
        → IsPaused left
            (config.max_delay + most)
            w
            (raised config jitter links others operation next left pause u).1
    raised-IsPaused next zero pause w u h le e = unpaused zero _ w u e
    raised-IsPaused next (suc left) pause w u h le e =
        IsPaused-first left _ pause w (sleep pause u) _ le (ap (λ l. l ++ (pause ∷ [])) e)
          (h (sleep pause u))

    replied-IsPaused :
        (next : World S → Option A × World S) (left pause : ℕ) (w u : World S) (o : Option A)
        → ((v : World S) → IsPaused (before left) (config.max_delay + most) v (next v).1)
        → pause ≤ config.max_delay + most
        → u.slept ≡ w.slept
        → IsPaused left
            (config.max_delay + most)
            w
            (replied config jitter links others operation next left pause u o).1
    replied-IsPaused next left pause w u none h le e = raised-IsPaused next left pause w u h le e
    replied-IsPaused next left pause w u (some a) h le e = unpaused left _ w u e

    attempt-IsPaused :
        (next : World S → Option A × World S) (left pause : ℕ) (w : World S) (s : S) (link : Link)
        → ((v : World S) → IsPaused (before left) (config.max_delay + most) v (next v).1)
        → pause ≤ config.max_delay + most
        → IsPaused left
            (config.max_delay + most)
            w
            (attempt config jitter links others operation next left pause w s link).1
    attempt-IsPaused next left pause w s answered h le =
        replied-IsPaused next left pause w (reached (operation s).1 w) _ h le refl
    attempt-IsPaused next left pause w s unreached h le =
        raised-IsPaused next left pause w (reached s w) h le refl
    attempt-IsPaused next left pause w s lost h le =
        raised-IsPaused next left pause w (reached (operation s).1 w) h le refl

    call_loop-IsPaused :
        (left delay : ℕ) (w : World S)
        → IsPaused
            (before left)
            (config.max_delay + most)
            w
            (call_loop config jitter links others operation left delay w).1
    unfolding call_loop
    call_loop-IsPaused zero delay w = unpaused zero _ w w refl
    call_loop-IsPaused (suc left) delay w =
        attempt-IsPaused
          (call_loop config jitter links others operation left (min config.max_delay (delay * 2)))
          left (min config.max_delay delay + jitter w.tick) w _ (links w.tick)
          (call_loop-IsPaused left (min config.max_delay (delay * 2))) (omega (arith, small w.tick))

    -- With jitters of at most `most`, whatever becomes of its requests, a call pauses at most
    -- once less than the configured attempts, and for at most the largest delay and `most`.
    pub call-IsPaused :
        (w : World S)
        → IsPaused
            (config.attempts - 1)
            (config.max_delay + most)
            w
            (call config jitter links others operation w).1
    unfolding call
    call-IsPaused w =
        rw (sym (before_sub config.attempts))
          (call_loop-IsPaused config.attempts config.base_delay w)

  module _ (P : S → Type 0) (waits : (i : ℕ) (s : S) → P s → P (others i s))
      (runs : (s : S) → P s → P (operation s).1)
      (serves : (s : S) → P s → (a : A) × ((operation s).0 ≡ some a)) where
    abbrev Answers : Option A × World S → Type 0
    Answers r = (a : A) × (r.0 ≡ some a)

    replied-Answers :
        (next : World S → Option A × World S) (left pause : ℕ) (w : World S) (o : Option A)
        → (a : A) × (o ≡ some a)
        → Answers (replied config jitter links others operation next left pause w o)
    replied-Answers next left pause w none h = absurd (ground (arith, h.1))
    replied-Answers next left pause w (some b) h = (b, refl)

    raised-Answers :
        (next : World S → Option A × World S) (left pause : ℕ) (w : World S)
        → 0 < left
        → P w.server
        → ((v : World S) → v.tick ≡ w.tick → P v.server → Answers (next v))
        → Answers (raised config jitter links others operation next left pause w)
    raised-Answers next zero pause w l p h = absurd (omega arith)
    raised-Answers next (suc left) pause w l p h = h (sleep pause w) refl p

    attempt-Answers :
        (next : World S → Option A × World S) (left pause : ℕ) (w : World S) (s : S) (link : Link)
        → 0 < left
        → P s
        → ((v : World S) → v.tick ≡ suc w.tick → P v.server → Answers (next v))
        → Answers (attempt config jitter links others operation next left pause w s link)
    attempt-Answers next left pause w s answered l p h =
        replied-Answers next left pause (reached (operation s).1 w) _ (serves s p)
    attempt-Answers next left pause w s unreached l p h =
        raised-Answers next left pause (reached s w) l p h
    attempt-Answers next left pause w s lost l p h =
        raised-Answers next left pause (reached (operation s).1 w) l (runs s p) h

    call_loop-Answers :
        (left delay i : ℕ) (w : World S)
        → P w.server
        → i < left
        → links (w.tick + i) ≡ answered
        → Answers (call_loop config jitter links others operation left delay w)
    unfolding call_loop
    call_loop-Answers zero delay i w p l e = absurd (omega arith)
    call_loop-Answers (suc left) delay zero w p l e =
        let here : links w.tick ≡ answered = ap links (omega arith) ∙ e in
        rw here (
          replied-Answers
            (call_loop config jitter links others operation left (min config.max_delay (delay * 2)))
            left (min config.max_delay delay + jitter w.tick)
            (reached (operation (others w.tick w.server)).1 w) _
            (serves _ (waits w.tick w.server p)))
    call_loop-Answers (suc left) delay (suc i) w p l e =
        attempt-Answers
          (call_loop config jitter links others operation left (min config.max_delay (delay * 2)))
          left (min config.max_delay delay + jitter w.tick) w _ (links w.tick) (omega (arith, l))
          (waits w.tick w.server p)
          (λ v t q.
            call_loop-Answers left (min config.max_delay (delay * 2)) i v q (omega (arith, l))
              (ap links (omega (arith, t)) ∙ e))

    -- If others and the operation keep `P` of the server, and under `P` the operation has a result,
    -- then from a server with `P` a call gives a result if the answer to one of the configured
    -- attempts arrives, whatever becomes of the ones before it.
    pub call-answers :
        (i : ℕ) (w : World S)
        → P w.server
        → i < config.attempts
        → links (w.tick + i) ≡ answered
        → (a : A) × ((call config jitter links others operation w).0 ≡ some a)
    unfolding call
    call-answers i w p l e = call_loop-Answers config.attempts config.base_delay i w p l e
