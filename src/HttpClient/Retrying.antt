-- ===== src/HttpClient/Retrying.antt =====
-- `WithRetry` of httpclient/client.go.
pub mod Runs
use gobox.Base.{
  ℕ, zero, suc, ◌+◌, ◌*◌, ◌^◌, ◌≤◌, ◌<◌, ◌≡◌, ◌↔◌, ◌⊎◌, refl, Bool, true, false, ◌&&◌, not, Option,
  none, some, [], if◌then◌else◌, arith, Bool-cases, Option-cases, inl, inr, ◌∙◌, ap, sym, subst,
}
use gobox.Base.Errors.{Error, Result, ok, err, errorf, error_is, error_is-wrap, wrap}
use gobox.Base.Int.{ℤ, pos, is_pos, ltℤ}
use gobox.HttpClient.{Bytes, is_transient_http_status, transient_status}
use gobox.Retry.{Callbacks, do_retry, backoff}
use gobox.Retry.Rounds.{Rounds, succeeds, gives_up, refuses, is_cut, goes_on, do_retry-Rounds}

-- What an attempt answers: body, status, the delay asked for, and an error.
pub record Attempt : Type 0 where
  pub body : Bytes
  pub status : ℕ
  pub retry_after : ℤ
  pub error : Option Error

-- The attempt, the wait of `sleepCtx`, and the wait of retry.Do, which a context can cut short.
pub record Doing (W : Type 0) : Type 0 where
  pub do_ : W → W × Attempt
  pub sleep_ctx : W → ℤ → W
  pub pause : W → ℤ → W × Option Error

-- The variables that the function captures.
pub record Captured (W : Type 0) : Type 0 where
  pub world : W
  pub body : Bytes
  pub status : ℕ

abbrev retry_after_cap : ℤ
retry_after_cap = pos 30000000000

abbrev min_wait : ℤ → ℤ
min_wait d = if ltℤ d retry_after_cap then d else retry_after_cap

module _ {W : Type 0} (d : Doing W) where
  -- An attempt whose status is transient, which may ask for a wait.
  abbrev pub failed_status : Captured W → ℤ → Captured W
  failed_status s after =
      if is_pos after then record s { world = d.sleep_ctx s.world (min_wait after) } else s

  abbrev pub judged : Captured W → Attempt → Captured W × Option Error
  judged s a = elim a.error [
    | some e ↦ (s, some e)
    | none ↦
        if is_transient_http_status a.status
        then (failed_status s a.retry_after, some (wrap transient_status errorf))
        else (s, none)
  ]

  abbrev pub tried : Captured W → Captured W × Option Error
  tried s =
      let (w, a) = d.do_ s.world in
      judged (record { world = w; body = a.body; status = a.status }) a

  abbrev pub attempt_again : Captured W → ℕ → Error → Captured W × Bool
  attempt_again s n e = (s, not (error_is e "Canceled") && not (error_is e "DeadlineExceeded"))

  abbrev pub paused : Captured W → W × Option Error → Captured W × Option Error
  paused s (w, e) = (record s { world = w }, e)

  abbrev pub callbacks : Callbacks (Captured W)
  callbacks = record {
    fn = tried;
    should_retry = attempt_again;
    pause = λ s wait. paused s (d.pause s.world wait);
  }

  abbrev pub answer_of : Captured W × Option Error → W × Result (Bytes × ℕ)
  answer_of (s, none) = (s.world, ok (s.body, s.status))
  answer_of (s, some e) =
      if error_is e transient_status then (s.world, ok (s.body, s.status)) else (s.world, err e)

  -- `WithRetry`, with RetryMaxAttempts, RetryWaitMin and RetryWaitMax.
  unfoldable pub with_retry : W → W × Result (Bytes × ℕ)
  unfolding is_transient_http_status do_retry error_is
  with_retry w = answer_of (
      do_retry callbacks (pos 4) (pos 200000000) (pos 5000000000)
        (record { world = w; body = []; status = 0 }))

  -- No attempt and no context gives the error that marks a transient status.
  pub record Unmarked : Type 0 where
    pub attempts :
        (w : W) (e : Error) → (d.do_ w).1.error ≡ some e → error_is e transient_status ≡ false
    pub waits :
        (w : W) (wait : ℤ) (e : Error)
        → (d.pause w wait).1 ≡ some e
        → error_is e transient_status ≡ false
