-- ===== src/Retry/Rounds.antt =====
-- The rounds that `Do` of retry/retry.go makes, one after the other.
use gobox.Base.{
  ℕ, zero, suc, ◌+◌, ◌<◌, ◌≡◌, refl, inl, inr, true, false, Option, none, some, arith, ◌==◌,
  Bool-cases, Option-cases,
}
use gobox.Base.Int.{ℤ, pos}
use gobox.Base.Errors.{Error}
use gobox.Retry.{Callbacks, after_failure, after_call, attempts, do_retry, backoff}

-- From the n-th round of `m` on, in the state `w`, the result is `r`: the round succeeds, or fails as
-- the last one; or the error is not to be retried, or the wait is cut short, or it is over and the
-- next round follows.
pub data Rounds {W : Type 0} (c : Callbacks W) (m : ℕ) (wait_min wait_max : ℤ)
    (r : W × Option Error) : ℕ → W → Type 0 where
  succeeds : {n : ℕ} {w : W} → c.fn w ≡ r → r.1 ≡ none → Rounds c m wait_min wait_max r n w
  gives_up :
      {n : ℕ} {w : W} (e : Error)
      → n ≡ m
      → c.fn w ≡ r
      → r.1 ≡ some e
      → Rounds c m wait_min wait_max r n w
  refuses :
      {n : ℕ} {w : W} (v : W) (e : Error)
      → n < m
      → c.fn w ≡ (v, some e)
      → c.should_retry v n e ≡ (r.0, false)
      → r.1 ≡ some e
      → Rounds c m wait_min wait_max r n w
  is_cut :
      {n : ℕ} {w : W} (v u : W) (e x : Error)
      → n < m
      → c.fn w ≡ (v, some e)
      → c.should_retry v n e ≡ (u, true)
      → c.pause u (backoff n wait_min wait_max) ≡ r
      → r.1 ≡ some x
      → Rounds c m wait_min wait_max r n w
  goes_on :
      {n : ℕ} {w : W} (v u x : W) (e : Error)
      → n < m
      → c.fn w ≡ (v, some e)
      → c.should_retry v n e ≡ (u, true)
      → c.pause u (backoff n wait_min wait_max) ≡ (x, none)
      → Rounds c m wait_min wait_max r (n + 1) x
      → Rounds c m wait_min wait_max r n w

module _ {W : Type 0} (c : Callbacks W) (wait_min wait_max : ℤ) where
  after_failure-Rounds :
      (m n : ℕ) (e : Error) (again : W → W × Option Error) (v w : W)
      → n < m
      → c.fn v ≡ (w, some e)
      → ((u : W) → Rounds c m wait_min wait_max (again u) (n + 1) u)
      → Rounds c m wait_min wait_max (after_failure c m wait_min wait_max n e again w) n v
  unfolding after_failure
  after_failure-Rounds m n e again v w more called ih =
      let r = c.should_retry w n e in
      let s = c.pause r.0 (backoff n wait_min wait_max) in
      elim (Bool-cases r.1) [
        | inl go ↦ elim (Option-cases s.1) [
          | inl waited ↦
              rw (go, waited, after_failure)
                (goes_on w r.0 s.0 e more called (ground arith) (ground arith) (ih s.0))
          | inr (x, stopped) ↦
              rw (go, stopped, after_failure)
                (is_cut w r.0 e x more called (ground arith) (ground arith) refl)
        ]
        | inr stop ↦ rw (stop, after_failure) (refuses w e more called (ground arith) refl)
      ]

  after_call-Rounds :
      (m n left : ℕ) (again : W → W × Option Error) (v : W) (r : W × Option Error)
      → c.fn v ≡ r
      → left + n ≡ m
      → (0 < left → (u : W) → Rounds c m wait_min wait_max (again u) (n + 1) u)
      → Rounds c m wait_min wait_max (after_call c m wait_min wait_max n again r) n v
  unfolding after_call
  after_call-Rounds m n left again v (w, none) called sum ih = succeeds called refl
  after_call-Rounds m n left again v (w, some e) called sum ih = elim (Bool-cases (n == m)) [
    | inl last ↦ rw (last, after_call) (gives_up e (ground arith) called refl)
    | inr more ↦
        rw (more, after_call)
          (after_failure-Rounds m n e again v w (ground arith) called (ih (ground arith)))
  ]

  attempts-Rounds :
      (m left n : ℕ) (w : W)
      → left + n ≡ suc m
      → 0 < left
      → Rounds c m wait_min wait_max (attempts c m wait_min wait_max left n w) n w
  unfolding attempts
  attempts-Rounds m zero n w sum p = elim p [ ]
  attempts-Rounds m (suc left) n w sum p =
      after_call-Rounds m n left _ w (c.fn w) refl (omega arith)
        (λ q. λ u. attempts-Rounds m left (n + 1) u (omega arith) q)

  -- `Do` with maxAttempts above 0 makes its rounds from the first one on: it returns nil with the
  -- first success, an error that is not to be retried at once, and the error of the last round; in
  -- between it waits for the backoff, or returns the error that cuts the wait short.
  pub do_retry-Rounds :
      (max_attempts : ℕ) (w : W)
      → 0 < max_attempts
      → Rounds c max_attempts wait_min wait_max
          (do_retry c (pos max_attempts) wait_min wait_max w)
          1
          w
  unfolding do_retry
  do_retry-Rounds n w p = attempts-Rounds n n 1 w (omega arith) p
