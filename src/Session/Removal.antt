-- ===== src/Session/Removal.antt =====
-- The sessions that a failed `Resolve` of oidcauth/session_manager.go deletes.
use gobox.Base.{ℕ, ◌≡◌, false, Option, none}
use gobox.Base.Text.{Text}
use gobox.Base.Errors.{Error, err, error_is}
use gobox.Session.{Instant, Session, Settings}
use gobox.Session.Manager.{Services, session_not_found, locked_refresh}
use gobox.Session.Contract.{Contract}

module _ {W : Type 0} (v : Services W) (view : W → Text → Option Session) (grants : W → ℕ)
    (law : Contract v view grants) (deletes : (w : W) (id : Text) → (v.delete w id).1 ≡ none)
    (m : Settings) (now : Instant) where
  -- The store could not run the locked refresh, for another reason than a missing session.
  pub LockFault : W → Text → Type 0
  LockFault w id =
      (x : Error) × ((v.with_lock w id none (locked_refresh v m now)).2 ≡ err x)
      × (error_is x session_not_found ≡ false)
