-- ===== src/Session/Manager.antt =====
-- The operations of `SessionManager` in oidcauth/session_manager.go, over the session store, the
-- issuer and the clock, which it does not implement. `W` is all that these read and change.
use Prim.Native.String.{String}
use gobox.Base.{Bool, Option, none, some, ltb, if◌then◌else◌}
use gobox.Base.Text.{Text, is_empty}
use gobox.Base.Int.{ℤ}
use gobox.Base.Errors.{Error, Result, ok, err, error_is, sentinel, wrap}
use gobox.Claims.{Claims}
use gobox.Session.{Instant, Session, OauthToken, Settings, is_expired, new_session, renewed}

abbrev pub session_not_found : String
session_not_found = "ErrSessionNotFound"

-- What `refresh` hands to the store's WithLock: from the captured variable `resolved` and the
-- locked session, the new value of that variable and the session to persist, if any.
abbrev pub Callback : Type 0 → Type 0
Callback W = W → Option Session → Session → W × Option Session × Result (Option Session)

-- SessionStore, Flow.Refresh, ClaimsVerifier.Verify, the uuid library and time.Now.
pub record Services (W : Type 0) : Type 0 where
  pub create : W → Session → W × Option Error
  pub get : W → Text → Result Session
  pub touch : W → Text → Instant → W × Option Error
  pub with_lock : W → Text → Option Session → Callback W → W × Option Session × Result (Unit {0})
  pub delete : W → Text → W × Option Error
  pub delete_expired : W → Instant → W × Result ℤ
  pub refresh_grant : W → Text → W × Result OauthToken
  pub verify : W → Text → W × Result Claims
  pub new_id : W → W × Text
  pub is_uuid : Text → Bool
  pub wall : W → Instant

-- `notFound`
unfoldable pub not_found : Error → Error
not_found e = if error_is e session_not_found then e else wrap session_not_found e

module _ {W : Type 0} (v : Services W) (m : Settings) where
  -- `Create`, with the time that m.now() gives; so in all below.
  unfoldable pub create_session : Instant → W → OauthToken → Claims → W × Result Session
  create_session now w token claims =
      let (w₁, id) = v.new_id w in
      let s = new_session m now (v.wall w₁) id token claims in
      let (w₂, failed) = v.create w₁ s in elim failed [ none ↦ (w₂, ok s) | some e ↦ (w₂, err e) ]

  -- Under the lock, what follows the answer of the issuer.
  unfoldable pub after_grant :
      Instant
      → Option Session
      → Session
      → W × Result OauthToken
      → W × Option Session × Result (Option Session)
  after_grant now resolved locked (w, err e) = (w, resolved, err (sentinel session_not_found))
  after_grant now resolved locked (w, ok token) =
      let s = renewed m now (v.wall w) token locked in (w, some s, ok (some s))

  -- The function that `refresh` runs under the lock.
  unfoldable pub locked_refresh : Instant → Callback W
  locked_refresh now w resolved locked =
      if ltb now locked.tokens.access_token_expires_at
      then (w, some locked, ok none)
      else if is_expired m locked now
      then (w, resolved, err (sentinel session_not_found))
      else if is_empty locked.tokens.refresh_token
      then (w, resolved, err (sentinel session_not_found))
      else after_grant now resolved locked (v.refresh_grant w locked.tokens.refresh_token)

  -- The end of `refresh`. The session is nil if WithLock never ran the function.
  unfoldable pub after_lock :
      Text → W × Option Session × Result (Unit {0}) → W × Result (Option Session)
  after_lock id (w, resolved, ok done) = (w, ok resolved)
  after_lock id (w, resolved, err e) =
      (if error_is e session_not_found then (v.delete w id).0 else w, err (not_found e))

  unfoldable pub refresh : Instant → W → Text → W × Result (Option Session)
  refresh now w id = after_lock id (v.with_lock w id none (locked_refresh now))

  -- The revalidation on the fast path; an error rejects the session.
  unfoldable pub revalidate : W → Text → W × Option Error
  revalidate w token =
      let (w₁, answer) = v.verify w token in
      if m.has_verifier
      then elim answer [ ok claims ↦ (w₁, none) | err e ↦ (w₁, some e) ]
      else (w, none)

  -- The fast path, after the revalidation.
  unfoldable pub after_revalidate :
      Instant → Text → Session → W × Option Error → W × Result (Option Session)
  after_revalidate now id s (w, some e) = ((v.delete w id).0, err (wrap session_not_found e))
  after_revalidate now id s (w, none) =
      ((v.touch w id now).0, ok (some (record s { last_seen_at = now })))

  -- `Resolve` once the session is loaded.
  unfoldable pub resolve_loaded : Instant → W → Text → Session → W × Result (Option Session)
  resolve_loaded now w id s =
      if is_expired m s now
      then ((v.delete w id).0, err (sentinel session_not_found))
      else if ltb now s.tokens.access_token_expires_at
      then after_revalidate now id s (revalidate w s.tokens.access_token)
      else refresh now w id

  -- `Resolve` after the store's Get.
  unfoldable pub resolve_got : Instant → W → Text → Result Session → W × Result (Option Session)
  resolve_got now w id (err e) = (w, err (not_found e))
  resolve_got now w id (ok s) = resolve_loaded now w id s

  unfoldable pub resolve : Instant → W → Text → W × Result (Option Session)
  resolve now w id =
      if v.is_uuid id
      then resolve_got now w id (v.get w id)
      else (w, err (sentinel session_not_found))

  -- `Peek`, `Delete` and `CleanupExpired`
  unfoldable pub peek : W → Text → Result Session
  peek w id = v.get w id

  unfoldable pub delete_session : W → Text → W × Option Error
  delete_session w id = v.delete w id

  unfoldable pub cleanup_expired : W → Instant → W × Result ℤ
  cleanup_expired w now = v.delete_expired w now

  -- `Verify`: the claims of the resolved session; `none` is the fault of reading a nil session.
  abbrev claims_of : Result (Option Session) → Option (Result Claims)
  claims_of (err e) = some (err e)
  claims_of (ok none) = none
  claims_of (ok (some s)) = some (ok s.claims)

  unfoldable pub verify_session : Instant → W → Text → W × Option (Result Claims)
  verify_session now w id = let (w₁, r) = resolve now w id in (w₁, claims_of r)
