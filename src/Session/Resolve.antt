-- ===== src/Session/Resolve.antt =====
-- The results of `Resolve` in oidcauth/session_manager.go.
use gobox.Base.{◌≡◌, refl, inl, inr, true, Option, none, some, arith, ltb, Bool-cases}
use gobox.Base.Text.{Text}
use gobox.Base.Errors.{Error, Result, ok, err, error_is, error_is-wrap, sentinel}
use gobox.Session.{Instant, Session, Settings, is_expired}
use gobox.Session.Manager.{
  Services, session_not_found, not_found, locked_refresh, after_lock, refresh, revalidate,
  after_revalidate, resolve_loaded, resolve_got, resolve,
}

pub not_found_is : (e : Error) → error_is (not_found e) session_not_found ≡ true
unfolding not_found
not_found_is e = ground (arith, error_is-wrap session_not_found e)

sentinel_is : error_is (sentinel session_not_found) session_not_found ≡ true
unfolding error_is
sentinel_is = refl

-- A value, or an error in which errors.Is finds ErrSessionNotFound.
abbrev pub IsNotFound : {A : Type 0} → Result A → Type 0
IsNotFound (ok a) = Unit
IsNotFound (err e) = error_is e session_not_found ≡ true

module _ {W : Type 0} (v : Services W) (m : Settings) (now : Instant) where
  after_lock-IsNotFound :
      (id : Text) (r : W × Option Session × Result (Unit {0})) → IsNotFound (after_lock v m id r).1
  unfolding after_lock
  after_lock-IsNotFound id (w, resolved, ok done) = tt
  after_lock-IsNotFound id (w, resolved, err e) = not_found_is e

  after_revalidate-IsNotFound :
      (id : Text) (s : Session) (r : W × Option Error)
      → IsNotFound (after_revalidate v m now id s r).1
  unfolding after_revalidate
  after_revalidate-IsNotFound id s (w, none) = tt
  after_revalidate-IsNotFound id s (w, some e) = error_is-wrap session_not_found e

  refresh-IsNotFound : (w : W) (id : Text) → IsNotFound (refresh v m now w id).1
  unfolding refresh
  refresh-IsNotFound w id =
      after_lock-IsNotFound id (v.with_lock w id none (locked_refresh v m now))

  resolve_loaded-IsNotFound :
      (w : W) (id : Text) (s : Session) → IsNotFound (resolve_loaded v m now w id s).1
  unfolding resolve_loaded
  resolve_loaded-IsNotFound w id s = elim (Bool-cases (is_expired m s now)) [
    | inl over ↦ rw (over, resolve_loaded) sentinel_is
    | inr live ↦ elim (Bool-cases (ltb now s.tokens.access_token_expires_at)) [
      | inl fresh ↦
          rw (live, fresh, resolve_loaded)
            (after_revalidate-IsNotFound id s (revalidate v m w s.tokens.access_token))
      | inr stale ↦ rw (live, stale, resolve_loaded) (refresh-IsNotFound w id)
    ]
  ]

  resolve_got-IsNotFound :
      (w : W) (id : Text) (g : Result Session) → IsNotFound (resolve_got v m now w id g).1
  unfolding resolve_got
  resolve_got-IsNotFound w id (ok s) = resolve_loaded-IsNotFound w id s
  resolve_got-IsNotFound w id (err x) = not_found_is x

  -- Every error of `Resolve` wraps ErrSessionNotFound, whatever the store and the issuer do.
  pub resolve-IsNotFound : (w : W) (id : Text) → IsNotFound (resolve v m now w id).1
  unfolding resolve
  resolve-IsNotFound w id = elim (Bool-cases (v.is_uuid id)) [
    | inl well ↦ rw (well, resolve) (resolve_got-IsNotFound w id (v.get w id))
    | inr ill ↦ rw (ill, resolve) sentinel_is
  ]
