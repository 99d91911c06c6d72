-- ===== src/Retry.antt =====
-- retry/retry.go: `Do` and `backoff`. Durations are int64 nanoseconds, whose doubling wraps.
pub mod Backoff
pub mod Attempts
pub mod Rounds
pub mod Examples
use gobox.Base.{
  ℕ, zero, suc, ◌+◌, ◌-◌, ◌*◌, ◌%◌, ◌^◌, Bool, true, false, Option, none, some, if◌then◌else◌, ltb,
  ◌==◌,
}
use gobox.Base.Int.{wrap64, ℤ, pos, negsuc, ltℤ, pos_part}
use gobox.Base.Errors.{Error}

-- d *= 2
double64 : ℤ → ℤ
unfolding wrap64
double64 (pos n) = wrap64 (pos (2 * n))
double64 (negsuc n) = wrap64 (negsuc (2 * n + 1))

-- The loop of `backoff`, over the rounds left.
backoff_loop : ℕ → ℤ → ℤ → ℤ
unfolding double64
backoff_loop zero d max = d
backoff_loop (suc rounds) d max =
    let next = double64 d in
    let rest = backoff_loop rounds next max in if ltℤ max next then max else rest

-- `attempt` counts from 1.
unfoldable pub backoff : ℕ → ℤ → ℤ → ℤ
unfolding backoff_loop double64
backoff attempt min max = backoff_loop (attempt - 1) min max

-- What `Do` is given. `W` is all that the callbacks read and change. `pause` is the `select`: it
-- waits for the duration, or returns the error of a context that is done first.
pub record Callbacks (W : Type 0) : Type 0 where
  pub fn : W → W × Option Error
  pub should_retry : W → ℕ → Error → W × Bool
  pub pause : W → ℤ → W × Option Error

module _ {W : Type 0} (c : Callbacks W) (max_attempts : ℕ) (wait_min wait_max : ℤ) where
  -- After a failed attempt that is not the last one: the next attempt is `again`.
  after_failure : ℕ → Error → (W → W × Option Error) → W → W × Option Error
  after_failure attempt e again w =
      let (w₁, retry) = c.should_retry w attempt e in
      let (w₂, done) = c.pause w₁ (backoff attempt wait_min wait_max) in
      let next = again w₂ in
      if retry
      then elim done [ some cancelled ↦ (w₂, some cancelled) | none ↦ next ]
      else (w₁, some e)

  -- What follows a call of `fn`.
  after_call : ℕ → (W → W × Option Error) → W × Option Error → W × Option Error
  after_call attempt again (w, none) = (w, none)
  after_call attempt again (w, some e) =
      if attempt == max_attempts then (w, some e) else after_failure attempt e again w

  -- The loop from `attempt` on, with the number of rounds left.
  attempts : ℕ → ℕ → W → W × Option Error
  attempts zero attempt w = (w, none)
  attempts (suc left) attempt w = after_call attempt (attempts left (attempt + 1)) (c.fn w)

-- `Do`; a `maxAttempts` below 1 makes no round.
unfoldable pub do_retry : {W : Type 0} → Callbacks W → ℤ → ℤ → ℤ → W → W × Option Error
unfolding attempts after_call after_failure
do_retry c max_attempts wait_min wait_max w =
    attempts c (pos_part max_attempts) wait_min wait_max (pos_part max_attempts) 1 w
