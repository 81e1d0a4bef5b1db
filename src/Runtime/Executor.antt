-- ===== src/Runtime/Executor.antt =====
-- `RedisExecutor` of src/sma/hardened_api/redis_support.py, for one kind of operation. Delays are
-- whole microseconds, and the jitter of a pause is a function of the attempt. The metrics and the
-- output are left out.
pub mod Keeps
pub mod Pauses
use student_mentor_allocatio.Base.{
  ℕ, zero, suc, ◌+◌, ◌*◌, min, Option, none, some, List, [], ◌∷◌, ◌++◌,
}

pub record RedisRetryConfig : Type 0 where
  pub attempts : ℕ
  pub base_delay : ℕ
  pub max_delay : ℕ

-- What becomes of one request: it is answered, it does not reach the server, or its answer is lost.
pub data Link : Type 0 where
  answered unreached lost : Link

-- The server, the number of requests made, and the pauses so far.
pub record World (S : Type 0) : Type 0 where
  pub server : S
  pub tick : ℕ
  pub slept : List ℕ

-- `RedisExecutor.sleep`
abbrev pub sleep : {S : Type 0} → ℕ → World S → World S
sleep seconds w = record { server = w.server; tick = w.tick; slept = w.slept ++ (seconds ∷ []) }

-- The state after a request.
abbrev pub reached : {S : Type 0} → S → World S → World S
reached s w = record { server = s; tick = suc w.tick; slept = w.slept }

-- The operation gives `none` where the server answers with an error. Before each request, others
-- may have changed the server.
module _ {S : Type 0} {A : Type 0} (config : RedisRetryConfig) (jitter : ℕ → ℕ) (links : ℕ → Link)
    (others : ℕ → S → S) (operation : S → Option A × S) where
  -- An error with `left` attempts to go: the last one is raised, which is `none`.
  abbrev pub raised : (World S → Option A × World S) → ℕ → ℕ → World S → Option A × World S
  raised next zero pause w = (none, w)
  raised next (suc left) pause w = next (sleep pause w)

  abbrev pub replied :
      (World S → Option A × World S) → ℕ → ℕ → World S → Option A → Option A × World S
  replied next left pause w (some result) = (some result, w)
  replied next left pause w none = raised next left pause w

  abbrev pub attempt :
      (World S → Option A × World S) → ℕ → ℕ → World S → S → Link → Option A × World S
  attempt next left pause w arrived answered =
      replied next left pause (reached (operation arrived).1 w) (operation arrived).0
  attempt next left pause w arrived unreached = raised next left pause (reached arrived w)
  attempt next left pause w arrived lost = raised next left pause (reached (operation arrived).1 w)

  -- The loop with `left` attempts to go.
  unfoldable pub call_loop : ℕ → ℕ → World S → Option A × World S
  call_loop zero delay w = (none, w)
  call_loop (suc left) delay w =
      attempt (call_loop left (min config.max_delay (delay * 2))) left
        (min config.max_delay delay + jitter w.tick) w (others w.tick w.server) (links w.tick)

  -- `RedisExecutor.call`; `none` is the `RedisOperationError`.
  unfoldable pub call : World S → Option A × World S
  unfolding call_loop
  call w = call_loop config.attempts config.base_delay w
