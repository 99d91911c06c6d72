-- ===== src/Session/Cleanup.antt =====
-- oidcauth/cleanup.go: the loop that cleans up. What the loop selects is a list: the ticks, each with
-- the time of its pass and the duration of it, and the end of the context.
use gobox.Base.{ℕ, ◌*◌, Option, none, some, List, [], ◌∷◌, if◌then◌else◌}
use gobox.Base.Errors.{Error, Result, ok, err}
use gobox.Base.Int.{ℤ, pos, is_pos}
use gobox.Session.{Instant, Settings}
use gobox.Session.Manager.{Services, cleanup_expired}

-- `CleanupResult`
pub record CleanupResult : Type 0 where
  pub removed : ℤ
  pub duration : ℕ
  pub err_ : Option Error

pub data Selected : Type 0 where
  tick : (now : Instant) → (took : ℕ) → Selected
  done : Selected

-- A pass, with the timeout of its context.
pub record Pass : Type 0 where
  pub timeout : ℤ
  pub result : CleanupResult

abbrev pub default_cleanup_timeout : ℤ
default_cleanup_timeout = pos (30 * 1000000000)

abbrev pub default_interval : ℤ
default_interval = pos (60 * 60 * 1000000000)

-- The interval of the ticker.
unfoldable pub ticker_interval : ℤ → ℤ
ticker_interval interval = if is_pos interval then interval else default_interval

abbrev pub result_of : ℕ → Result ℤ → CleanupResult
result_of took (ok removed) = record { removed = removed; duration = took; err_ = none }
result_of took (err e) = record { removed = pos 0; duration = took; err_ = some e }

module _ {W : Type 0} (v : Services W) (m : Settings) where
  -- `runCleanupOnce`
  unfoldable pub run_cleanup_once : ℤ → Instant → ℕ → W → W × Pass
  unfolding cleanup_expired
  run_cleanup_once timeout now took w =
      let (after, r) = cleanup_expired v m w now in
      (
        after,
        record {
          timeout = if is_pos timeout then timeout else default_cleanup_timeout;
          result = result_of took r;
        },
      )

  -- `RunSessionCleanup`, with the passes that it reports.
  unfoldable pub run_session_cleanup : ℤ → List Selected → W → W × List Pass
  unfolding run_cleanup_once
  run_session_cleanup timeout [] w = (w, [])
  run_session_cleanup timeout (done ∷ events) w = (w, [])
  run_session_cleanup timeout (tick now took ∷ events) w =
      let (after, pass) = run_cleanup_once timeout now took w in
      let (last, passes) = run_session_cleanup timeout events after in (last, pass ∷ passes)
