-- ===== src/Retry/Examples.antt =====
-- Runs of retry/retry.go on concrete callbacks.
use gobox.Base.{ℕ, suc, ◌≡◌, refl, true, none, some, arith, ltb, if◌then◌else◌}
use gobox.Base.Int.{pos}
use gobox.Base.Errors.{errorf}
use gobox.Retry.{Callbacks, do_retry}
use gobox.Retry.Backoff.{}
use gobox.Retry.Attempts.{Counts}
use gobox.Retry.Rounds.{Rounds, do_retry-Rounds}

-- The third call succeeds; the state counts the calls.
abbrev flaky : Callbacks ℕ
flaky = record {
  fn = λ w. (suc w, if ltb w 2 then some errorf else none);
  should_retry = λ w n e. (w, true);
  pause = λ w d. (w, none);
}

flaky-Counts : Counts flaky (λ w. w)
flaky-Counts = record {
  fn_adds = λ w. refl;
  retry_keeps = λ w n e. refl;
  pause_keeps = λ w d. refl;
}

flaky_succeeds : do_retry flaky (pos 5) (pos 10) (pos 100) 0 ≡ (3, none)
unfolding do_retry
flaky_succeeds = refl

flaky_gives_up : do_retry flaky (pos 2) (pos 10) (pos 100) 0 ≡ (2, some errorf)
unfolding do_retry
flaky_gives_up = refl

do_retry-Rounds_example :
    Rounds flaky 2 (pos 10) (pos 100) (do_retry flaky (pos 2) (pos 10) (pos 100) 0) 1 0
do_retry-Rounds_example = do_retry-Rounds flaky (pos 10) (pos 100) 2 0 (omega arith)
