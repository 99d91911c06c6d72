-- ===== src/Session/Contract.antt =====
-- What oidcauth/session.go documents of a SessionStore, over a view of the stored sessions, and
-- what the manager relies on besides: the issuer does not write the store.
use gobox.Base.{ℕ, suc, ◌≡◌, true, false, Option, none, some, if◌then◌else◌}
use gobox.Base.Text.{Text, text_eq}
use gobox.Base.Errors.{Error, Result, ok, err, error_is}
use gobox.Session.{Instant, Session}
use gobox.Session.Manager.{Services, Callback, session_not_found}

module _ {W : Type 0} (v : Services W) (view : W → Text → Option Session) (grants : W → ℕ) where
  -- Two worlds with the same stored sessions and as many refresh grants.
  pub record Same (w w' : W) : Type 0 where
    pub stored : (j : Text) → view w' j ≡ view w j
    pub granted : grants w' ≡ grants w

  -- The ways in which WithLock may end. `w'`, `r'` and `res` are its results.
  pub data LockOutcome (w : W) (id : Text) (r : Option Session) (fn : Callback W) (w' : W)
      (r' : Option Session) (res : Result (Unit {0})) : Type 0 where
    -- The session is missing, or it could not be locked: fn is not called.
    not_run : (e : Error) → res ≡ err e → r' ≡ r → Same w w' → LockOutcome w id r fn w' r' res
    -- fn returns (nil, nil): the session is left as it is.
    kept :
        (s : Session) (w₁ : W)
        → view w id ≡ some s
        → fn w r s ≡ (w₁, r', ok none)
        → res ≡ ok tt
        → Same w₁ w'
        → LockOutcome w id r fn w' r' res
    -- fn returns a session, which is persisted under its identifier.
    saved :
        (s s' : Session) (w₁ : W)
        → view w id ≡ some s
        → fn w r s ≡ (w₁, r', ok (some s'))
        → res ≡ ok tt
        → ((j : Text) → view w' j ≡ (if text_eq id j then some s' else view w₁ j))
        → grants w' ≡ grants w₁
        → LockOutcome w id r fn w' r' res
    -- fn returns an error, which is returned as it is; nothing is persisted.
    aborted :
        (s : Session) (w₁ : W) (e : Error)
        → view w id ≡ some s
        → fn w r s ≡ (w₁, r', err e)
        → res ≡ err e
        → Same w₁ w'
        → LockOutcome w id r fn w' r' res
    -- fn succeeds and the transaction fails.
    not_committed :
        (s : Session) (w₁ : W) (o : Option Session) (e : Error)
        → view w id ≡ some s
        → fn w r s ≡ (w₁, r', ok o)
        → res ≡ err e
        → Same w₁ w'
        → LockOutcome w id r fn w' r' res

  pub record Contract : Type 0 where
    pub get_found : (w : W) (id : Text) (s : Session) → v.get w id ≡ ok s → view w id ≡ some s
    pub get_missing :
        (w : W) (id : Text)
        → view w id ≡ none
        → (e : Error) × (v.get w id ≡ err e) × (error_is e session_not_found ≡ true)
    -- A touch that fails may have been carried out or not.
    pub touch_others :
        (w : W) (id j : Text) (t : Instant)
        → text_eq id j ≡ false
        → view (v.touch w id t).0 j ≡ view w j
    pub touch_grants : (w : W) (id : Text) (t : Instant) → grants (v.touch w id t).0 ≡ grants w
    pub delete_removes :
        (w : W) (id : Text) → (v.delete w id).1 ≡ none → view (v.delete w id).0 id ≡ none
    pub delete_others :
        (w : W) (id j : Text) → text_eq id j ≡ false → view (v.delete w id).0 j ≡ view w j
    pub delete_grants : (w : W) (id : Text) → grants (v.delete w id).0 ≡ grants w
    pub lock :
        (w : W) (id : Text) (r : Option Session) (fn : Callback W)
        → LockOutcome w id r fn
            (v.with_lock w id r fn).0
            (v.with_lock w id r fn).1
            (v.with_lock w id r fn).2
    pub refresh_stored : (w : W) (t j : Text) → view (v.refresh_grant w t).0 j ≡ view w j
    pub refresh_granted : (w : W) (t : Text) → grants (v.refresh_grant w t).0 ≡ suc (grants w)
    pub verify_keeps : (w : W) (t : Text) → Same w (v.verify w t).0
