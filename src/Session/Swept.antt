-- ===== src/Session/Swept.antt =====
-- What the loop of oidcauth/cleanup.go leaves in the store.
use gobox.Base.{
  ◌≡◌, refl, Bool, true, ◌&&◌, Option, none, some, List, [], ◌∷◌, ltb, length, arith, if◌then◌else◌,
  ap, ◌∙◌, Bool-cases, inl, inr,
}
use gobox.Base.Text.{Text}
use gobox.Base.Int.{ℤ}
use gobox.Session.{Instant, Session, Settings}
use gobox.Session.Manager.{Services, cleanup_expired}
use gobox.Session.Cleanup.{Selected, tick, done, run_cleanup_once, run_session_cleanup}

-- The times of the passes: the ticks up to the end of the context.
abbrev pub pass_times : List Selected → List Instant
pass_times [] = []
pass_times (done ∷ events) = []
pass_times (tick now took ∷ events) = now ∷ pass_times events

-- Whether a session ends after every one of some times.
abbrev pub outlives : List Instant → Session → Bool
outlives [] s = true
outlives (now ∷ times) s = ltb now s.expires_at && outlives times s

abbrev pub kept_of : List Instant → Option Session → Option Session
kept_of times none = none
kept_of times (some s) = if outlives times s then some s else none

-- What is documented of DeleteExpired: it removes every session that ends at the time or before, and no
-- other.
abbrev pub Sweeps : {W : Type 0} → Services W → (W → Text → Option Session) → Type 0
Sweeps {W} v view =
    (w : W) (now : Instant) (id : Text)
    → view (v.delete_expired w now).0 id ≡ kept_of (now ∷ []) (view w id)

kept_of-kept_of :
    (now : Instant) (times : List Instant) (o : Option Session)
    → kept_of times (kept_of (now ∷ []) o) ≡ kept_of (now ∷ times) o
kept_of-kept_of now times none = refl
kept_of-kept_of now times (some s) = elim (Bool-cases (ltb now s.expires_at)) [
  | inl alive ↦ rw (kept_of, alive) refl
  | inr over ↦ rw (kept_of, over) refl
]

kept_of-none : (o : Option Session) → o ≡ kept_of [] o
kept_of-none none = refl
kept_of-none (some s) = refl

-- Over a store whose DeleteExpired does as it is documented, RunSessionCleanup makes a pass for each tick
-- before the end of its context and none after it, and leaves exactly those sessions that end after the
-- time of every pass, as they were.
pub run_session_cleanup-kept :
    {W : Type 0} (v : Services W) (m : Settings) (view : W → Text → Option Session)
    → Sweeps v view
    → (timeout : ℤ) (events : List Selected) (w : W) (id : Text)
    → (view (run_session_cleanup v m timeout events w).0 id
        ≡ kept_of (pass_times events) (view w id))
      × (length (run_session_cleanup v m timeout events w).1 ≡ length (pass_times events))
unfolding run_session_cleanup run_cleanup_once cleanup_expired
run_session_cleanup-kept v m view sweeps timeout [] w id = (kept_of-none (view w id), refl)
run_session_cleanup-kept v m view sweeps timeout (done ∷ events) w id =
    (kept_of-none (view w id), refl)
run_session_cleanup-kept v m view sweeps timeout (tick now took ∷ events) w id =
    let (rest, count) =
      run_session_cleanup-kept v m view sweeps timeout events (v.delete_expired w now).0 id in
    (
      rest
          ∙ ap (kept_of (pass_times events)) (sweeps w now id)
          ∙ kept_of-kept_of now (pass_times events) (view w id),
      omega (arith, count),
    )
