-- ===== src/Runtime/Executor/Keeps.antt =====
-- What every request keeps is so after a call, with what an answer says of the server.
use student_mentor_allocatio.Base.{ℕ, zero, suc, ◌≡◌, Option, none, some, arith}
use student_mentor_allocatio.Runtime.Executor.{
  RedisRetryConfig, Link, answered, unreached, lost, World, sleep, raised, replied, attempt,
  call_loop, call,
}

-- `P` of the server, and `Q` of the answer and the server, if there is one.
pub record Holding {S : Type 0} {A : Type 0} (P : S → Type 0) (Q : A → S → Type 0)
    (r : Option A × World S) : Type 0 where
  pub state : P r.1.server
  pub answer : (a : A) → r.0 ≡ some a → Q a r.1.server

module _ {S : Type 0} {A : Type 0} (config : RedisRetryConfig) (jitter : ℕ → ℕ) (links : ℕ → Link)
    (others : ℕ → S → S) (operation : S → Option A × S) (P : S → Type 0) (Q : A → S → Type 0)
    (waits : (i : ℕ) (s : S) → P s → P (others i s)) (runs : (s : S) → P s → P (operation s).1)
    (says : (s : S) (a : A) → P s → (operation s).0 ≡ some a → Q a (operation s).1) where
  no_answer : (w : World S) → P w.server → Holding P Q (none, w)
  no_answer w p = record { state = p; answer = λ a e. absurd (ground (arith, e)) }

  raised-Holding :
      (next : World S → Option A × World S) (left pause : ℕ) (w : World S)
      → ((v : World S) → P v.server → Holding P Q (next v))
      → P w.server
      → Holding P Q (raised config jitter links others operation next left pause w)
  raised-Holding next zero pause w h p = no_answer w p
  raised-Holding next (suc left) pause w h p = h (sleep pause w) p

  replied-Holding :
      (next : World S → Option A × World S) (left pause : ℕ) (w : World S) (o : Option A)
      → ((v : World S) → P v.server → Holding P Q (next v))
      → P w.server
      → ((a : A) → o ≡ some a → Q a w.server)
      → Holding P Q (replied config jitter links others operation next left pause w o)
  replied-Holding next left pause w none h p q = raised-Holding next left pause w h p
  replied-Holding next left pause w (some a) h p q = record { state = p; answer = λ b e. q b e }

  attempt-Holding :
      (next : World S → Option A × World S) (left pause : ℕ) (w : World S) (s : S) (link : Link)
      → ((v : World S) → P v.server → Holding P Q (next v))
      → P s
      → Holding P Q (attempt config jitter links others operation next left pause w s link)
  attempt-Holding next left pause w s answered h p =
      replied-Holding next left pause _ _ h (runs s p) (λ a e. says s a p e)
  attempt-Holding next left pause w s unreached h p = raised-Holding next left pause _ h p
  attempt-Holding next left pause w s lost h p = raised-Holding next left pause _ h (runs s p)

  call_loop-Holding :
      (left delay : ℕ) (w : World S)
      → P w.server
      → Holding P Q (call_loop config jitter links others operation left delay w)
  unfolding call_loop
  call_loop-Holding zero delay w p = no_answer w p
  call_loop-Holding (suc left) delay w p =
      attempt-Holding _ left _ w _ (links w.tick) (call_loop-Holding left _)
        (waits w.tick w.server p)

  -- If others keep `P` of the server and the operation does, and an answer of the operation says
  -- `Q` of the server that it leaves, then a call keeps `P` whatever becomes of its requests, and
  -- its answer, if there is one, says `Q` of the server.
  pub call-Holding :
      (w : World S) → P w.server → Holding P Q (call config jitter links others operation w)
  unfolding call
  call-Holding w p = call_loop-Holding config.attempts config.base_delay w p
