-- ===== src/Login/Start.antt =====
-- NewAuth, Login and Me of httpserver/middlewares/oidcauth.go.
use gobox.Base.{ℕ, Bool, true, not, ◌||◌, Option, none, some, List, [], ◌∷◌, ◌==◌, if◌then◌else◌}
use gobox.Base.Text.{Text, codes, is_empty}
use gobox.Base.Dict.{lookup}
use gobox.Claims.{Claims, list_at}
use gobox.Login.{Codec, encode_state, sanitize_return_to}
use gobox.Login.Flow.{Flow, Oidc, auth_code_url}
use gobox.Login.Handlers.{AuthCookieOptions, Reply}
use gobox.Respond.Sending.{Sent, ok, unauthorized, new_error}

-- The arguments of `NewAuth`, with whether each pointer is not nil.
pub record AuthArguments : Type 0 where
  pub has_flow : Bool
  pub has_verifier : Bool
  pub has_sessions : Bool
  pub client_id : Text
  pub cookies : AuthCookieOptions
  pub state_signing_key : Text

-- `NewAuth`, in the cookie attributes of what it returns; `none` is a panic.
unfoldable pub new_auth : AuthArguments → Option AuthCookieOptions
new_auth a =
    if not a.has_flow
      || not a.has_verifier
      || not a.has_sessions
      || is_empty a.client_id
      || is_empty a.state_signing_key
    then none
    else some (record a.cookies {
      path = if is_empty a.cookies.path then codes "/" else a.cookies.path;
      same_site = if a.cookies.same_site == 0 then 2 else a.cookies.same_site;
    })

-- `Login`, with the verifier that GenerateVerifier gives.
unfoldable pub login : {W P E : Type 0} → Oidc W P E → Flow E → Codec → Text → Text → ℕ → Reply
unfolding sanitize_return_to encode_state auth_code_url
login v f k redirect_uri verifier now =
    let return_to = sanitize_return_to redirect_uri in
    let state = encode_state k verifier return_to now in
    record {
      status = 302;
      code = [];
      location = auth_code_url v f state verifier;
      cookies = [];
      no_store = true;
    }

pub record MeResponse : Type 0 where
  pub sub : Text
  pub email : Text
  pub name : Text
  pub preferred_username : Text
  pub client_roles : List Text

abbrev roles_of : Option (List (Text × List Text)) → List Text
roles_of none = []
roles_of (some client) = list_at (lookup (codes "roles") client)

-- `Me`, on the claims of the context.
unfoldable pub me : {D : Type 0} → Text → Option Claims → Sent MeResponse D
unfolding lookup
me client_id none = unauthorized (
    new_error (codes "ERR_INVALID_TOKEN") (codes "Authorization token is invalid or expired") []
    ∷ [])
me client_id (some claims) =
    ok
      (some (record {
        sub = claims.sub;
        email = claims.email;
        name = claims.name;
        preferred_username = claims.preferred_username;
        client_roles = roles_of (lookup client_id claims.resource_access);
      }))
      []
