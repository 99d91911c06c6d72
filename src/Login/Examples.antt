-- ===== src/Login/Examples.antt =====
-- Runs of the login state and the return path of httpserver/middlewares/oidcauth.go.
use gobox.Base.{[], ◌∷◌, ◌++◌, ◌≡◌, refl, true, false, none, some, arith, if◌then◌else◌}
use gobox.Base.Text.{Text, codes, text_eq}
use gobox.Base.Errors.{ok, err, errorf, sentinel}
use gobox.Base.Int.{pos}
use gobox.Claims.{no_claims}
use gobox.Session.{Session, Settings}
use gobox.Session.Manager.{create_session}
use gobox.Session.Memory.{World, memory, granted_token}
use gobox.Login.Handlers.{Auth, CallbackQuery, callback, apply_session}
use gobox.Login.Granted.{Granted}
use gobox.Login.{
  LoginState, Codec, encode_state, decode_state, cut_at_dot, sanitize_return_to, has_prefix,
  contains_text, is_relative, invalid_login_state,
}
use gobox.Login.Flow.{Oidc, Flow, auth_code_url}
use gobox.Login.State.{
  IsAuthentic, decode_state-IsAuthentic, decode_state-encode_state, sanitize_return_to-IsLocal,
}

abbrev state : LoginState
state = record { verifier = codes "v1"; return_to = codes "/home"; exp = 1600 }

-- Knows the encoding of one state, and signs by one letter.
abbrev codec : Codec
codec = record {
  encode = λ ls. codes "payload";
  decode = λ s. if text_eq s (codes "payload") then some state else none;
  sign = λ s. codes "s";
}

forged : decode_state codec (codes "payload.x") 1200 ≡ err (sentinel invalid_login_state)
unfolding decode_state cut_at_dot text_eq
forged = refl

expired : decode_state codec (codes "payload.s") 1601 ≡ err (sentinel invalid_login_state)
unfolding decode_state cut_at_dot text_eq
expired = refl

open_redirect : sanitize_return_to (codes "//evil.example.com") ≡ codes "/"
unfolding sanitize_return_to has_prefix contains_text
open_redirect = refl

decode_state-IsAuthentic_example : IsAuthentic codec (codes "payload.s") 1200 state
unfolding decode_state cut_at_dot text_eq
decode_state-IsAuthentic_example =
    decode_state-IsAuthentic codec (codes "payload.s") 1200 state refl

decode_state-encode_state_test :
    decode_state codec (encode_state codec (codes "v1") (codes "/home") 1000) 1200 ≡ ok state
unfolding text_eq
decode_state-encode_state_test =
    decode_state-encode_state codec (codes "v1") (codes "/home") 1000 1200 refl
      (refl, (refl, (refl, (refl, (refl, (refl, (refl, tt))))))) refl refl refl (omega arith)

sanitize_return_to-IsLocal_example :
    let path = sanitize_return_to (codes "/orders?page=2") in
    (is_relative path ≡ true)
    × (has_prefix path (codes "//") ≡ false)
    × (contains_text path (codes "://") ≡ false)
    × (sanitize_return_to path ≡ path)
sanitize_return_to-IsLocal_example = sanitize_return_to-IsLocal (codes "/orders?page=2")

abbrev settings : Settings
settings = record {
  has_verifier = false;
  client_id = codes "app";
  idle_timeout = pos 5000;
  absolute_timeout = pos 0;
}

abbrev live : Session
live = record {
  id = codes "f";
  tokens = record {
    access_token = codes "a1";
    refresh_token = codes "r1";
    id_token = codes "i1";
    token_type = codes "Bearer";
    scopes = [];
    access_token_expires_at = 2000;
    refresh_token_expires_at = 8000;
  };
  claims = no_claims;
  expires_at = 8000;
  created_at = 1000;
  updated_at = 1000;
  last_seen_at = 0;
}

abbrev world : World
world = record { sessions = (codes "f", live) ∷ []; granted = 0 }

-- The issuer grants a token for each code, and the verifier accepts it.
abbrev handler : Auth World Text
handler = record {
  cookies = record {
    domain = [];
    path = codes "/";
    secure = true;
    same_site = 2;
    name = [];
    csrf_name = [];
  };
  post_login_redirect_uri = codes "https://app.example.com";
  post_logout_redirect_uri = codes "https://app.example.com/bye";
  codec = codec;
  exchange = λ w code verifier. (w, ok granted_token);
  verify = λ w token. (w, ok no_claims);
  end_session_url = λ id_token uri. uri;
  parse = λ raw. some raw;
  scheme = λ u. codes "https";
  host = λ u. codes "app.example.com";
  resolve_reference = λ base rel. base ++ rel;
  random_token = λ w. (w, codes "t");
  unix = λ w. 1200;
}

abbrev query : CallbackQuery
query = record { error = []; state = codes "payload.s"; code = codes "c" }

callback_redirects : (callback handler memory settings 1500 world query).1.status ≡ 302
unfolding callback decode_state cut_at_dot text_eq create_session apply_session
callback_redirects = refl

-- An issuer whose address is its state.
abbrev issuer : Oidc Unit Unit Unit
issuer = record {
  new_provider = λ w url. (w, ok tt);
  endpoint = λ p. tt;
  end_session_endpoint = λ p. ok (codes "https://issuer/end");
  auth_code_url = λ c state verifier. codes "https://issuer/auth?state=" ++ state;
  exchange = λ w c code verifier. (w, err errorf);
  refresh_token = λ w c t. (w, err errorf);
  encode = λ params. [];
}

abbrev flow : Flow Unit
flow = record {
  oauth2_config = record {
    client_id = codes "app";
    client_secret = codes "s";
    redirect_url = codes "https://app/callback";
    scopes = [];
    endpoint = tt;
  };
  end_session_url = codes "https://issuer/end";
}
