-- ===== src/Retry/Attempts.antt =====
-- How often `Do` of retry/retry.go calls its function, and where its result comes from.
use gobox.Base.{ℕ, zero, suc, ◌+◌, ◌≤◌, ◌<◌, ◌≡◌, false, Option, none, some, arith}
use gobox.Base.Int.{ℤ, pos}
use gobox.Base.Errors.{Error}
use gobox.Retry.{Callbacks, after_failure, after_call, attempts, do_retry, backoff}

-- A count of the calls of fn that only those calls change.
pub record Counts {W : Type 0} (c : Callbacks W) (calls : W → ℕ) : Type 0 where
  pub fn_adds : (w : W) → calls (c.fn w).0 ≡ suc (calls w)
  pub retry_keeps : (w : W) (n : ℕ) (e : Error) → calls (c.should_retry w n e).0 ≡ calls w
  pub pause_keeps : (w : W) (d : ℤ) → calls (c.pause w d).0 ≡ calls w

-- Where a result of `Do` comes from.
pub data Origin {W : Type 0} (c : Callbacks W) (r : W × Option Error) : Type 0 where
  succeeded : (w : W) → c.fn w ≡ r → r.1 ≡ none → Origin c r
  last_failure : (w : W) (e : Error) → c.fn w ≡ r → r.1 ≡ some e → Origin c r
  refused :
      (w v : W) (n : ℕ) (e : Error)
      → c.fn w ≡ (v, some e)
      → c.should_retry v n e ≡ (r.0, false)
      → r.1 ≡ some e
      → Origin c r
  cancelled : (w : W) (d : ℤ) (e : Error) → c.pause w d ≡ r → r.1 ≡ some e → Origin c r

module _ {W : Type 0} (c : Callbacks W) (wait_min wait_max : ℤ) where
  module _ (calls : W → ℕ) (h : Counts c calls) (m attempt bound : ℕ) (again : W → W × Option Error)
      (ih : (v : W) → (calls v ≤ calls (again v).0) × (calls (again v).0 ≤ calls v + bound)) where
    after_failure-calls :
        (e : Error) (w : W)
        → (calls w ≤ calls (after_failure c m wait_min wait_max attempt e again w).0)
          × (calls (after_failure c m wait_min wait_max attempt e again w).0 ≤ calls w + bound)
    unfolding after_failure
    after_failure-calls e w =
        let v = (c.should_retry w attempt e).0 in
        let d = backoff attempt wait_min wait_max in
        ground (arith, h.retry_keeps w attempt e, h.pause_keeps v d, ih (c.pause v d).0)

    after_call-calls :
        (r : W × Option Error)
        → (calls r.0 ≤ calls (after_call c m wait_min wait_max attempt again r).0)
          × (calls (after_call c m wait_min wait_max attempt again r).0 ≤ calls r.0 + bound)
    unfolding after_call
    after_call-calls (w, none) = ground arith
    after_call-calls (w, some e) = ground (arith, after_failure-calls e w)

  module _ (calls : W → ℕ) (h : Counts c calls) where
    attempts-calls :
        (m left attempt : ℕ) (w : W)
        → (calls w ≤ calls (attempts c m wait_min wait_max left attempt w).0)
          × (calls (attempts c m wait_min wait_max left attempt w).0 ≤ calls w + left)
    unfolding attempts
    attempts-calls m zero attempt w = ground arith
    attempts-calls m (suc left) attempt w = ground (
      arith,
      h.fn_adds w,
      after_call-calls calls h m attempt left (attempts c m wait_min wait_max left (attempt + 1))
          (attempts-calls m left (attempt + 1)) (c.fn w),
    )

    attempts-calls_pos :
        (m left attempt : ℕ) (w : W)
        → calls w < calls (attempts c m wait_min wait_max (suc left) attempt w).0
    unfolding attempts
    attempts-calls_pos m left attempt w = ground (
      arith,
      h.fn_adds w,
      after_call-calls calls h m attempt left (attempts c m wait_min wait_max left (attempt + 1))
          (attempts-calls m left (attempt + 1)) (c.fn w),
    )

    -- `Do` with maxAttempts above 0 calls fn at least once and at most maxAttempts times, whatever
    -- fn, shouldRetry and the context do.
    do_retry-calls :
        (max_attempts : ℕ) (w : W)
        → 0 < max_attempts
        → (calls w < calls (do_retry c (pos max_attempts) wait_min wait_max w).0)
          × (calls (do_retry c (pos max_attempts) wait_min wait_max w).0 ≤ calls w + max_attempts)
    unfolding do_retry
    do_retry-calls zero w p = elim p [ ]
    do_retry-calls (suc n) w p =
        (attempts-calls_pos (suc n) n 1 w, (attempts-calls (suc n) (suc n) 1 w).1)
