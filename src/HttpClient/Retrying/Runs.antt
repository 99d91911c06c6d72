-- ===== src/HttpClient/Retrying/Runs.antt =====
-- The attempts that `WithRetry` of httpclient/client.go makes, one after the other.
use gobox.Base.{
  ℕ, zero, suc, ◌+◌, ◌*◌, ◌^◌, ◌≤◌, ◌<◌, ◌≡◌, ◌↔◌, ◌⊎◌, refl, true, false, ◌&&◌, not, Option, none,
  some, [], if◌then◌else◌, arith, Bool-cases, Option-cases, inl, inr, ◌∙◌, ap, sym, subst,
}
use gobox.Base.Errors.{Error, Result, ok, err, errorf, error_is, error_is-wrap, wrap}
use gobox.Base.Int.{ℤ, pos, is_pos}
use gobox.HttpClient.{Bytes, is_transient_http_status, transient_status}
use gobox.Retry.{do_retry, backoff}
use gobox.Retry.Rounds.{Rounds, succeeds, gives_up, refuses, is_cut, goes_on, do_retry-Rounds}
use gobox.HttpClient.Retrying.{
  Attempt, Doing, Captured, min_wait, failed_status, tried, attempt_again, callbacks, answer_of,
  with_retry, Unmarked,
}

-- Status 429, and those of the server.
abbrev pub IsTransient : ℕ → Type 0
IsTransient status = (status ≡ 429) ⊎ ((500 ≤ status) × (status < 600))

IsTransient-iff : (status : ℕ) → (is_transient_http_status status ≡ true) ↔ IsTransient status
unfolding is_transient_http_status
IsTransient-iff status = (λ h. ground (arith, h), λ h. ground (arith, h))

-- The errors of a context that is done.
abbrev pub IsContextEnd : Error → Type 0
IsContextEnd e = (error_is e "Canceled" ≡ true) ⊎ (error_is e "DeadlineExceeded" ≡ true)

not-IsContextEnd :
    (e : Error)
    → (not (error_is e "Canceled") && not (error_is e "DeadlineExceeded")) ≡ true
    → ¬ IsContextEnd e
not-IsContextEnd e h (inl c) = ground (arith, h, c)
not-IsContextEnd e h (inr c) = ground (arith, h, c)

context_end :
    (e : Error)
    → (not (error_is e "Canceled") && not (error_is e "DeadlineExceeded")) ≡ false
    → IsContextEnd e
context_end e h = ground (arith, h)

some_injective : {e f : Error} → some e ≡ some f → e ≡ f
some_injective h = cc

-- The error of a transient status is to be retried.
marked_again :
    (e : Error)
    → some e ≡ some (wrap transient_status errorf)
    → (not (error_is e "Canceled") && not (error_is e "DeadlineExceeded")) ≡ true
unfolding error_is
marked_again e is = let same : e ≡ wrap transient_status errorf = (cc) in rw (same) refl

-- 0.2 seconds after the first attempt, then 0.4 and 0.8.
abbrev pub wait_after : ℕ → ℤ
wait_after n = pos (100000000 * 2 ^ n)

backoff-wait_after :
    (n : ℕ) → 0 < n → n < 4 → backoff n (pos 200000000) (pos 5000000000) ≡ wait_after n
unfolding backoff
backoff-wait_after zero h k = absurd (omega (arith, h))
backoff-wait_after (suc zero) h k = refl
backoff-wait_after (suc (suc zero)) h k = refl
backoff-wait_after (suc (suc (suc zero))) h k = refl
backoff-wait_after (suc (suc (suc (suc n)))) h k = absurd (omega (arith, k))

module _ {W : Type 0} (d : Doing W) where
  -- The world after an attempt, and its answer.
  abbrev world_after : W → W
  world_after w = (d.do_ w).0

  abbrev attempted : W → Attempt
  attempted w = (d.do_ w).1

  -- A transient status that comes with a wait is followed by that wait, at most 30 seconds.
  abbrev slept : W → W
  slept w =
      if is_pos (attempted w).retry_after
      then d.sleep_ctx (world_after w) (min_wait (attempted w).retry_after)
      else world_after w

  -- The attempt in `w` asks for another one, which starts from `v` after a wait.
  pub data Unsettled (w v : W) : Type 0 where
    by_status :
        (attempted w).error ≡ none → IsTransient (attempted w).status → v ≡ slept w → Unsettled w v
    by_error :
        (e : Error)
        → (attempted w).error ≡ some e
        → (¬ IsContextEnd e)
        → v ≡ world_after w
        → Unsettled w v

  -- A run from the n-th attempt on, in the world `w`, with its end `r`: the last world and the answer.
  pub data Run (r : W × Result (Bytes × ℕ)) : ℕ → W → Type 0 where
    settled :
        {n : ℕ} {w : W}
        → (attempted w).error ≡ none
        → (¬ IsTransient (attempted w).status)
        → r ≡ (world_after w, ok ((attempted w).body, (attempted w).status))
        → Run r n w
    still_transient :
        {n : ℕ} {w : W}
        → n ≡ 4
        → (attempted w).error ≡ none
        → IsTransient (attempted w).status
        → r ≡ (slept w, ok ((attempted w).body, (attempted w).status))
        → Run r n w
    attempt_failed :
        {n : ℕ} {w : W} (e : Error)
        → (attempted w).error ≡ some e
        → (n ≡ 4) ⊎ IsContextEnd e
        → r ≡ (world_after w, err e)
        → Run r n w
    cut_short :
        {n : ℕ} {w : W} (v x : W) (e : Error)
        → n < 4
        → Unsettled w v
        → d.pause v (wait_after n) ≡ (x, some e)
        → r ≡ (x, err e)
        → Run r n w
    tried_again :
        {n : ℕ} {w : W} (v x : W)
        → n < 4
        → Unsettled w v
        → d.pause v (wait_after n) ≡ (x, none)
        → Run r (n + 1) x
        → Run r n w

  abbrev captured : W → Captured W
  captured w = record {
    world = world_after w;
    body = (attempted w).body;
    status = (attempted w).status;
  }

  -- What the function that WithRetry gives to retry.Do returns.
  data Outcome (w : W) (r : Captured W × Option Error) : Type 0 where
    fine :
        (attempted w).error ≡ none
        → (¬ IsTransient (attempted w).status)
        → r ≡ (captured w, none)
        → Outcome w r
    transient :
        (attempted w).error ≡ none
        → IsTransient (attempted w).status
        → r ≡ (record (captured w) { world = slept w }, some (wrap transient_status errorf))
        → Outcome w r
    broken : (e : Error) → (attempted w).error ≡ some e → r ≡ (captured w, some e) → Outcome w r

  failed_status-slept :
      (w : W)
      → failed_status d (captured w) (attempted w).retry_after
        ≡ record (captured w) { world = slept w }
  failed_status-slept w = elim (Bool-cases (is_pos (attempted w).retry_after)) [
    | inl yes_ ↦ rw (yes_) refl
    | inr no_ ↦ rw (no_) refl
  ]

  tried-Outcome : (s : Captured W) → Outcome s.world (tried d s)
  tried-Outcome s = elim (Option-cases (attempted s.world).error) [
    | inr (e, bad) ↦ broken e bad (rw (tried, bad) refl)
    | inl good ↦ elim (Bool-cases (is_transient_http_status (attempted s.world).status)) [
      | inl yes_ ↦ transient good ((IsTransient-iff (attempted s.world).status).0 yes_) (
          rw (tried, good, yes_)
            (ap (λ u. (u, some (wrap transient_status errorf))) (failed_status-slept s.world)))
      | inr no_ ↦
          fine good (λ t. let x = (IsTransient-iff (attempted s.world).status).1 t in absurd (cc))
            (rw (tried, good, no_) refl)
    ]
  ]

  marked_answer :
      (s : Captured W)
      → answer_of d (s, some (wrap transient_status errorf)) ≡ (s.world, ok (s.body, s.status))
  marked_answer s = rw (answer_of, error_is-wrap transient_status errorf) refl

  unmarked_answer :
      (s : Captured W) (e : Error)
      → error_is e transient_status ≡ false
      → answer_of d (s, some e) ≡ (s.world, err e)
  unmarked_answer s e is = rw (answer_of, is) refl

  -- An attempt whose error retry.Do has accepted as one to be retried.
  retried-Unsettled :
      (w : W) (v u : Captured W) (n : ℕ) (e : Error)
      → Outcome w (v, some e)
      → attempt_again d v n e ≡ (u, true)
      → Unsettled w u.world
  retried-Unsettled w v u n e (fine good other is) again = let x = ap (λ r. r.1) is in absurd (cc)
  retried-Unsettled w v u n e (transient good yes_ is) again =
      by_status good yes_ (sym (ap (λ r. r.0.world) again) ∙ ap (λ r. r.0.world) is)
  retried-Unsettled w v u n e (broken f bad is) again =
      let same : some e ≡ some f = ap (λ r. r.1) is in
      by_error e (bad ∙ sym same) (not-IsContextEnd e (ap (λ r. r.1) again))
        (sym (ap (λ r. r.0.world) again) ∙ ap (λ r. r.0.world) is)

  -- An attempt whose error is the end of the run.
  stopped-Run :
      Unmarked d
      → (n : ℕ) (w : W) (s : Captured W) (e : Error) → Outcome w (s, some e)
      → (n ≡ 4) ⊎ (attempt_again d s n e).1 ≡ false
      → Run (answer_of d (s, some e)) n w
  stopped-Run h n w s e (fine good other is) end_ = let x = ap (λ r. r.1) is in absurd (cc)
  stopped-Run h n w s e (transient good yes_ is) (inl last) =
      still_transient last good yes_
        (ap (answer_of d) is ∙ marked_answer (record (captured w) { world = slept w }))
  stopped-Run h n w s e (transient good yes_ is) (inr refused_) =
      let x = marked_again e (ap (λ r. r.1) is) in absurd (cc)
  stopped-Run h n w s e (broken f bad is) end_ =
      let same : e ≡ f = some_injective (ap (λ r. r.1) is) in
      let why : (n ≡ 4) ⊎ IsContextEnd f = elim end_ [
        | inl last ↦ inl last
        | inr refused_ ↦ inr (subst IsContextEnd same (context_end e refused_))
      ] in
      attempt_failed f bad why
        (ap (answer_of d) is ∙ unmarked_answer (captured w) f (h.attempts w f bad))

  succeeded-Run :
      (n : ℕ) (w : W) (r : Captured W × Option Error)
      → Outcome w r
      → r.1 ≡ none
      → Run (answer_of d r) n w
  succeeded-Run n w r (fine good other is) done = settled good other (ap (answer_of d) is)
  succeeded-Run n w r (transient good yes_ is) done = let x = ap (λ y. y.1) is in absurd (cc)
  succeeded-Run n w r (broken e bad is) done = let x = ap (λ y. y.1) is in absurd (cc)

  Rounds-Run :
      Unmarked d
      → (s : Captured W) (o : Option Error) (n : ℕ) (t : Captured W) → 0 < n
      → Rounds (callbacks d) 4 (pos 200000000) (pos 5000000000) (s, o) n t
      → Run (answer_of d (s, o)) n t.world
  Rounds-Run h s o n t p (succeeds called is) =
      succeeded-Run n t.world (s, o) (subst (Outcome t.world) called (tried-Outcome t)) is
  Rounds-Run h s o n t p (gives_up e last called is) = rw (is) (
      stopped-Run h n t.world s e
        (subst (Outcome t.world) (called ∙ ap (λ x. (s, x)) is) (tried-Outcome t)) (inl last))
  Rounds-Run h s o n t p (refuses v e more called asked is) =
      let same : v ≡ s = ap (λ r. r.0) asked in
      rw (is) (
        stopped-Run h n t.world s e
          (subst (Outcome t.world) (called ∙ ap (λ x. (x, some e)) same) (tried-Outcome t))
          (inr (ap (λ r. r.1) asked)))
  Rounds-Run h s o n t p (is_cut v u e x more called asked waited is) =
      let wait = backoff-wait_after n p more in
      let next =
        retried-Unsettled t.world v u n e (subst (Outcome t.world) called (tried-Outcome t))
          asked in
      let cut : d.pause u.world (wait_after n) ≡ (s.world, some x) =
        rw (← wait) (ap (λ r. (r.0.world, r.1)) (waited ∙ ap (λ y. (s, y)) is)) in
      rw (is) (
        cut_short u.world s.world x more next cut
          (unmarked_answer s x (h.waits u.world (wait_after n) x (ap (λ r. r.1) cut))))
  Rounds-Run h s o n t p (goes_on v u x e more called asked waited rest) =
      let wait = backoff-wait_after n p more in
      let next =
        retried-Unsettled t.world v u n e (subst (Outcome t.world) called (tried-Outcome t))
          asked in
      let over : d.pause u.world (wait_after n) ≡ (x.world, none) =
        rw (← wait) (ap (λ r. (r.0.world, r.1)) waited) in
      tried_again u.world x.world more next over (Rounds-Run h s o (n + 1) x (omega arith) rest)

  -- If no attempt and no context gives the error that marks a transient status, WithRetry makes its
  -- attempts one after the other, from the first to the fourth at most. An attempt without an error
  -- whose status is not 429 or 5xx is answered at once, and an error that is a context's is returned
  -- at once. After any other attempt, up to the third, it waits (the wait that a transient answer asks
  -- for, at most 30 seconds, and then the backoff) and tries again, or returns the error that cuts the
  -- backoff short. The fourth attempt's answer, transient or not, or its error is returned.
  pub with_retry-Run : Unmarked d → (w : W) → Run (with_retry d w) 1 w
  unfolding with_retry
  with_retry-Run h w =
      let first : Captured W = record { world = w; body = []; status = 0 } in
      let r = do_retry (callbacks d) (pos 4) (pos 200000000) (pos 5000000000) first in
      Rounds-Run h r.0 r.1 1 first (omega arith)
        (do_retry-Rounds (callbacks d) (pos 200000000) (pos 5000000000) 4 first (omega arith))
