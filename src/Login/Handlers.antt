-- ===== src/Login/Handlers.antt =====
-- Callback, Refresh and Logout of httpserver/middlewares/oidcauth.go, over the session manager.
use gobox.Base.{
  ℕ, ◌-◌, ◌/◌, Bool, true, false, ◌||◌, Option, none, some, List, [], ◌∷◌, if◌then◌else◌,
}
use gobox.Base.Errors.{Result, ok, err}
use gobox.Base.Int.{ℤ, pos, negsuc}
use gobox.Base.Text.{Text, codes, is_empty}
use gobox.Claims.{Claims}
use gobox.Login.{LoginState, Codec, decode_state}
use gobox.Session.{Instant, Session, OauthToken, Settings}
use gobox.Session.Manager.{Services, create_session, resolve, peek, delete_session}

pub record Cookie : Type 0 where
  pub name : Text
  pub value : Text
  pub path : Text
  pub domain : Text
  pub max_age : ℤ
  pub secure : Bool
  pub http_only : Bool
  pub same_site : ℕ

-- A response: its status, the code of its error or the address it names, its cookies, and whether it
-- forbids to be stored.
pub record Reply : Type 0 where
  pub status : ℕ
  pub code : Text
  pub location : Text
  pub cookies : List Cookie
  pub no_store : Bool

pub record AuthCookieOptions : Type 0 where
  pub domain : Text
  pub path : Text
  pub secure : Bool
  pub same_site : ℕ
  pub name : Text
  pub csrf_name : Text

abbrev pub session_name : AuthCookieOptions → Text
session_name o = if is_empty o.name then codes "session_id" else o.name

abbrev pub csrf_name_of : AuthCookieOptions → Text
csrf_name_of o = if is_empty o.csrf_name then codes "csrf_token" else o.csrf_name

-- `Auth`, with what is used of the flow, the verifier, net/url, crypto/rand and the clock in seconds.
pub record Auth (W Url : Type 0) : Type 0 where
  pub cookies : AuthCookieOptions
  pub post_login_redirect_uri : Text
  pub post_logout_redirect_uri : Text
  pub codec : Codec
  pub exchange : W → Text → Text → W × Result OauthToken
  pub verify : W → Text → W × Result Claims
  pub end_session_url : Text → Text → Text
  pub parse : Text → Option Url
  pub scheme : Url → Text
  pub host : Url → Text
  pub resolve_reference : Url → Url → Text
  pub random_token : W → W × Text
  pub unix : W → ℕ

pub record CallbackQuery : Type 0 where
  pub error : Text
  pub state : Text
  pub code : Text

abbrev pub failed : ℕ → Text → List Cookie → Reply
failed status code cookies = record {
  status = status;
  code = code;
  location = [];
  cookies = cookies;
  no_store = true;
}

module _ {W Url : Type 0} (h : Auth W Url) where
  unfoldable pub set_cookie : Text → Text → ℕ → Bool → Cookie
  set_cookie name value max_age http_only = record {
    name = name;
    value = value;
    path = h.cookies.path;
    domain = h.cookies.domain;
    max_age = pos (max_age / 1000000000);
    secure = h.cookies.secure;
    http_only = http_only;
    same_site = h.cookies.same_site;
  }

  unfoldable pub clear_cookie : Text → Cookie
  clear_cookie name = record {
    name = name;
    value = [];
    path = h.cookies.path;
    domain = h.cookies.domain;
    max_age = negsuc 0;
    secure = h.cookies.secure;
    http_only = false;
    same_site = h.cookies.same_site;
  }

  unfoldable pub clear_session_cookie : List Cookie
  unfolding clear_cookie
  clear_session_cookie =
      clear_cookie (session_name h.cookies) ∷ clear_cookie (csrf_name_of h.cookies) ∷ []

  abbrev pub resolved_against : Url → Option Url → Text
  resolved_against base none = h.post_login_redirect_uri
  resolved_against base (some rel) = h.resolve_reference base rel

  unfoldable pub resolve_return_to : Text → Text
  resolve_return_to return_to = elim (h.parse h.post_login_redirect_uri) [
    | none ↦ h.post_login_redirect_uri
    | some base ↦
        if is_empty (h.scheme base) || is_empty (h.host base)
        then h.post_login_redirect_uri
        else resolved_against base (h.parse return_to)
  ]

module _ {W Url : Type 0} (h : Auth W Url) (v : Services W) (m : Settings) (now : Instant) where
  -- `applySession`: the subtraction on natural numbers stops at 0, as the clamp does.
  unfoldable pub apply_session : W → Session → W × List Cookie
  unfolding set_cookie
  apply_session w s =
      let max_age = s.expires_at - v.wall w in
      let (w₁, token) = h.random_token w in
      (
        w₁,
        set_cookie h (session_name h.cookies) s.id max_age true
            ∷ set_cookie h (csrf_name_of h.cookies) token max_age false
            ∷ [],
      )

  abbrev pub redirected : LoginState → W × List Cookie → W × Reply
  redirected ls (w, cookies) = (
    w,
    record {
      status = 302;
      code = [];
      location = resolve_return_to h ls.return_to;
      cookies = cookies;
      no_store = true;
    },
  )

  abbrev pub after_create : LoginState → W × Result Session → W × Reply
  after_create ls (w, err e) = (w, failed 500 (codes "ERR_SESSION_CREATE") [])
  after_create ls (w, ok s) = redirected ls (apply_session w s)

  abbrev pub after_verify : LoginState → OauthToken → W × Result Claims → W × Reply
  after_verify ls token (w, err e) = (w, failed 401 (codes "ERR_OIDC_CLAIMS") [])
  after_verify ls token (w, ok claims) = after_create ls (create_session v m now w token claims)

  abbrev pub after_exchange : LoginState → W × Result OauthToken → W × Reply
  after_exchange ls (w, err e) = (w, failed 401 (codes "ERR_OIDC_EXCHANGE") [])
  after_exchange ls (w, ok token) = after_verify ls token (h.verify w token.access_token)

  abbrev pub with_state : W → CallbackQuery → Result LoginState → W × Reply
  with_state w q (err e) = (w, failed 400 (codes "ERR_OIDC_STATE") [])
  with_state w q (ok ls) =
      if is_empty q.code
      then (w, failed 400 (codes "ERR_OIDC_CALLBACK") [])
      else after_exchange ls (h.exchange w q.code ls.verifier)

  unfoldable pub callback : W → CallbackQuery → W × Reply
  unfolding decode_state
  callback w q =
      if is_empty q.error
      then with_state w q (decode_state h.codec q.state (h.unix w))
      else (w, failed 400 (codes "ERR_OIDC_CALLBACK") [])

  abbrev pub no_content : W × List Cookie → W × Reply
  no_content (w, cookies) = (w, failed 204 [] cookies)

  -- The use of a nil session is a panic, `none`.
  abbrev pub after_resolve : W × Result (Option Session) → Option (W × Reply)
  after_resolve (w, err e) =
      some (w, failed 401 (codes "ERR_SESSION_INVALID") (clear_session_cookie h))
  after_resolve (w, ok none) = none
  after_resolve (w, ok (some s)) = some (no_content (apply_session w s))

  abbrev pub with_cookie : W → Text → Option (W × Reply)
  with_cookie w id =
      if is_empty id
      then some (w, failed 401 (codes "ERR_MISSING_SESSION") [])
      else after_resolve (resolve v m now w id)

  -- `Refresh`, with the session cookie of the request, if it has one.
  unfoldable pub refresh_session : W → Option Text → Option (W × Reply)
  refresh_session w none = some (w, failed 401 (codes "ERR_MISSING_SESSION") [])
  refresh_session w (some id) = with_cookie w id

  abbrev pub id_token_of : Result Session → Text
  id_token_of (err e) = []
  id_token_of (ok s) = s.tokens.id_token

  abbrev pub logout_url : Text → Text
  logout_url id_token =
      let url = h.end_session_url id_token h.post_logout_redirect_uri in
      if is_empty url then h.post_logout_redirect_uri else url

  -- `Logout`, with the session cookie, or the empty text.
  unfoldable pub logout : W → Text → W × Reply
  unfolding clear_session_cookie peek delete_session
  logout w id =
      let none_ = is_empty id in
      (
        if none_ then w else (delete_session v m w id).0,
        record {
          status = 200;
          code = [];
          location = logout_url (if none_ then [] else id_token_of (peek v m w id));
          cookies = clear_session_cookie h;
          no_store = true;
        },
      )
