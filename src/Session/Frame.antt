-- ===== src/Session/Frame.antt =====
-- What `Resolve` of oidcauth/session_manager.go leaves alone, and what it deletes.
use gobox.Base.{ℕ, ◌≡◌, refl, ◌∙◌, false, Option, none, some, arith}
use gobox.Base.Text.{Text, text_eq}
use gobox.Base.Errors.{Error, Result, ok, err}
use gobox.Session.{Instant, Session, OauthToken, Settings}
use gobox.Session.Manager.{
  Services, after_grant, locked_refresh, after_lock, refresh, revalidate, after_revalidate,
  resolve_loaded, resolve_got, resolve,
}
use gobox.Session.Contract.{LockOutcome, not_run, kept, saved, aborted, not_committed, Contract}

module _ {W : Type 0} (v : Services W) (view : W → Text → Option Session) (grants : W → ℕ)
    (law : Contract v view grants) (m : Settings) (now : Instant) where
  after_grant-world :
      (r : Option Session) (s : Session) (answer : W × Result OauthToken)
      → (after_grant v m now r s answer).0 ≡ answer.0
  unfolding after_grant
  after_grant-world r s (w, ok token) = refl
  after_grant-world r s (w, err e) = refl

  locked_refresh-view :
      (w : W) (r : Option Session) (s : Session) (j : Text)
      → view (locked_refresh v m now w r s).0 j ≡ view w j
  unfolding locked_refresh
  locked_refresh-view w r s j = ground (
    arith,
    after_grant-world r s (v.refresh_grant w s.tokens.refresh_token),
    law.refresh_stored w s.tokens.refresh_token j,
  )

  module _ (id j : Text) (other : text_eq id j ≡ false) where
    fn_view :
        (w : W) (s : Session) (t : W × Option Session × Result (Option Session))
        → locked_refresh v m now w none s ≡ t
        → view t.0 j ≡ view w j
    fn_view w s t e = rw (← e) (locked_refresh-view w none s j)

    LockOutcome-view :
        (w w' : W) (r : Option Session) (res : Result (Unit {0}))
        → LockOutcome v view grants w id none (locked_refresh v m now) w' r res
        → view w' j ≡ view w j
    LockOutcome-view w w' r res (not_run e _ _ same) = same.stored j
    LockOutcome-view w w' r res (kept s w₁ _ run _ same) = same.stored j ∙ fn_view w s _ run
    LockOutcome-view w w' r res (saved s s' w₁ _ run _ stored _) =
        stored j ∙ (rw (other) (fn_view w s _ run))
    LockOutcome-view w w' r res (aborted s w₁ e _ run _ same) = same.stored j ∙ fn_view w s _ run
    LockOutcome-view w w' r res (not_committed s w₁ o e _ run _ same) =
        same.stored j ∙ fn_view w s _ run

    after_lock-view :
        (w : W) (r : Option Session) (res : Result (Unit {0}))
        → view (after_lock v m id (w, r, res)).0 j ≡ view w j
    unfolding after_lock
    after_lock-view w r (ok done) = refl
    after_lock-view w r (err e) = ground (arith, law.delete_others w id j other)

    refresh-view : (w : W) → view (refresh v m now w id).0 j ≡ view w j
    unfolding refresh
    refresh-view w =
        let fn = locked_refresh v m now in
        let t = v.with_lock w id none fn in
        after_lock-view t.0 t.1 t.2 ∙ LockOutcome-view w t.0 t.1 t.2 (law.lock w id none fn)

    after_revalidate-view :
        (s : Session) (w : W) (rejected : Option Error)
        → view (after_revalidate v m now id s (w, rejected)).0 j ≡ view w j
    unfolding after_revalidate
    after_revalidate-view s w none = law.touch_others w id j now other
    after_revalidate-view s w (some e) = law.delete_others w id j other

    revalidate-view : (w : W) (t : Text) → view (revalidate v m w t).0 j ≡ view w j
    unfolding revalidate
    revalidate-view w t = ground (arith, (law.verify_keeps w t).stored j)

    resolve_loaded-view :
        (w : W) (s : Session) → view (resolve_loaded v m now w id s).0 j ≡ view w j
    unfolding resolve_loaded
    resolve_loaded-view w s =
        let t = s.tokens.access_token in
        let q = revalidate v m w t in
        ground (
          arith,
          law.delete_others w id j other,
          after_revalidate-view s q.0 q.1 ∙ revalidate-view w t,
          refresh-view w,
        )

    resolve_got-view :
        (w : W) (g : Result Session) → view (resolve_got v m now w id g).0 j ≡ view w j
    unfolding resolve_got
    resolve_got-view w (ok s) = resolve_loaded-view w s
    resolve_got-view w (err e) = refl

    -- `Resolve` of one identifier leaves every other stored session as it is, on all its paths.
    resolve-view_others : (w : W) → view (resolve v m now w id).0 j ≡ view w j
    unfolding resolve
    resolve-view_others w = ground (arith, resolve_got-view w (v.get w id))
