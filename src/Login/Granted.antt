-- ===== src/Login/Granted.antt =====
-- When the handlers of httpserver/middlewares/oidcauth.go write a session cookie, and when they clear it.
use gobox.Base.{ℕ, ◌≤◌, ◌≡◌, ◌⊎◌, true, Option, some, []}
use gobox.Base.Errors.{Error, ok, err}
use gobox.Base.Text.{Text, is_empty}
use gobox.Claims.{Claims}
use gobox.Login.{LoginState, decode_state}
use gobox.Login.Handlers.{
  Auth, CallbackQuery, Reply, redirected, apply_session, clear_session_cookie, no_content,
}
use gobox.Session.{Instant, Session, OauthToken, Settings}
use gobox.Session.Contract.{Contract}
use gobox.Session.Manager.{Services, create_session, resolve}
use gobox.Session.Resolved.{Resolved}

module _ {W Url : Type 0} (h : Auth W Url) (v : Services W) (m : Settings) (now : Instant) where
  -- A login that went through: decodeState accepted the state, the code was exchanged with
  -- its verifier, the claims of the token were verified and a session was created; the cookies are of that session.
  pub data Granted (w : W) (q : CallbackQuery) (answer : W × Reply) : Type 0 where
    granted :
        (ls : LoginState) (token : OauthToken) (claims : Claims) (s : Session) (a b c : W)
        → decode_state h.codec q.state (h.unix w) ≡ ok ls
        → h.exchange w q.code ls.verifier ≡ (a, ok token)
        → h.verify a token.access_token ≡ (b, ok claims)
        → create_session v m now b token claims ≡ (c, ok s)
        → answer ≡ redirected h v m now ls (apply_session h v m now c s)
        → Granted w q answer

  -- A login that did not.
  abbrev pub IsRefused : W × Reply → Type 0
  IsRefused answer = (answer.1.cookies ≡ []) × (400 ≤ answer.1.status)

  abbrev Decided : W → CallbackQuery → W × Reply → Type 0
  Decided w q answer = IsRefused answer ⊎ Granted w q answer

module _ {W Url : Type 0} (h : Auth W Url) (v : Services W) (view : W → Text → Option Session)
    (grants : W → ℕ) (law : Contract v view grants) (m : Settings) (now : Instant) where
  -- What Refresh answers to a session cookie.
  pub data Refreshing (w : W) (id : Text) (answer : W × Reply) : Type 0 where
    missing :
        is_empty id ≡ true → answer.1.cookies ≡ [] → answer.1.status ≡ 401 → Refreshing w id answer
    invalid :
        (e : Error)
        → (resolve v m now w id).1 ≡ err e
        → answer.1.cookies ≡ clear_session_cookie h
        → answer.1.status ≡ 401
        → Refreshing w id answer
    renewed_cookies :
        (after : W) (s : Session)
        → resolve v m now w id ≡ (after, ok (some s))
        → Resolved v view grants law m now w id after s
        → answer ≡ no_content h v m now (apply_session h v m now after s)
        → Refreshing w id answer
