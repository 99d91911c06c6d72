-- ===== src/Session.antt =====
-- oidcauth/session.go and oidcauth/session_manager.go. An instant is a number of nanoseconds
-- since Go's zero time, so that 0 is the time that `IsZero` tests; a timeout is signed.
pub mod Manager
pub mod Contract
pub mod Expiry
pub mod Resolve
pub mod Success
pub mod Resolved
pub mod Frame
pub mod Removal
pub mod Renewal
pub mod Memory
pub mod Cleanup
pub mod Swept
pub mod Examples
use gobox.Base.{
  ℕ, ◌+◌, ◌-◌, ◌*◌, ◌/◌, Bool, true, false, not, ◌&&◌, ◌||◌, Option, none, some, List, [], ◌∷◌, ltb,
  ◌==◌, if◌then◌else◌,
}
use gobox.Base.Text.{Text, is_empty, fields}
use gobox.Base.Int.{ℤ, pos_part, is_pos}
use gobox.Claims.{Claims}

abbrev pub Instant : Type 0
Instant = ℕ

abbrev pub second : ℕ
second = 1000000000

pub record TokenSet : Type 0 where
  pub access_token : Text
  pub refresh_token : Text
  pub id_token : Text
  pub token_type : Text
  pub scopes : List Text
  pub access_token_expires_at : Instant
  pub refresh_token_expires_at : Instant

pub record Session : Type 0 where
  pub id : Text
  pub tokens : TokenSet
  pub claims : Claims
  pub expires_at : Instant
  pub created_at : Instant
  pub updated_at : Instant
  pub last_seen_at : Instant

-- What the manager reads of a token of the oauth2 library: its fields, and those results of
-- `Extra` that have the asked type. The float64 is a whole number of microseconds.
pub record OauthToken : Type 0 where
  pub access_token : Text
  pub token_type : Text
  pub refresh_token : Text
  pub expiry : Instant
  pub extra_id_token : Option Text
  pub extra_refresh_expires_in : Option ℤ
  pub extra_scope : Option Text

-- The manager's own settings. A nil verifier is `has_verifier` false.
pub record Settings : Type 0 where
  pub has_verifier : Bool
  pub client_id : Text
  pub idle_timeout : ℤ
  pub absolute_timeout : ℤ

abbrev default_access_token_ttl : ℕ
default_access_token_ttl = 5 * 60 * second

abbrev pub default_refresh_token_ttl : ℕ
default_refresh_token_ttl = 30 * 24 * 3600 * second

-- A text that the issuer's answer gives, or else the previous one.
abbrev text_or : Option Text → Text → Text
text_or none previous = previous
text_or (some s) previous = if is_empty s then previous else s

abbrev scopes_or : Option Text → List Text → List Text
scopes_or none previous = previous
scopes_or (some s) previous = if is_empty s then previous else fields s

-- The seconds are truncated to whole ones.
abbrev refresh_expiry_or : Option ℤ → Instant → Instant → Instant
refresh_expiry_or none wall previous = previous
refresh_expiry_or (some micros) wall previous =
    if is_pos micros then wall + pos_part micros / 1000000 * second else previous

-- `tokenSetFrom`, with the time that time.Now() gives.
unfoldable pub token_set_from : Instant → OauthToken → TokenSet → TokenSet
token_set_from wall token previous = record {
  access_token = token.access_token;
  refresh_token =
      if is_empty token.refresh_token then previous.refresh_token else token.refresh_token;
  id_token = text_or token.extra_id_token previous.id_token;
  token_type = token.token_type;
  scopes = scopes_or token.extra_scope previous.scopes;
  access_token_expires_at =
      if token.expiry == 0 then wall + default_access_token_ttl else token.expiry;
  refresh_token_expires_at =
      refresh_expiry_or token.extra_refresh_expires_in wall previous.refresh_token_expires_at;
}

-- `TokenSet{}`
abbrev no_tokens : TokenSet
no_tokens = record {
  access_token = [];
  refresh_token = [];
  id_token = [];
  token_type = [];
  scopes = [];
  access_token_expires_at = 0;
  refresh_token_expires_at = 0;
}

-- The `switch` of `computeExpiresAt`.
abbrev issuer_ceiling : Session → Instant
issuer_ceiling s =
    if is_empty s.tokens.refresh_token
    then s.tokens.access_token_expires_at
    else if not (s.tokens.refresh_token_expires_at == 0)
    then s.tokens.refresh_token_expires_at
    else s.created_at + default_refresh_token_ttl

unfoldable pub compute_expires_at : Settings → Session → Instant
compute_expires_at m s =
    let ceiling = issuer_ceiling s in
    let cap = s.created_at + pos_part m.absolute_timeout in
    if is_pos m.absolute_timeout && ltb cap ceiling then cap else ceiling

-- `now.Sub(last)` is below 0 where `-` gives 0; neither is above a positive timeout.
unfoldable pub is_expired : Settings → Session → Instant → Bool
is_expired m s now =
    not (ltb now s.expires_at)
    || (is_pos m.idle_timeout
        && not (s.last_seen_at == 0)
        && ltb (pos_part m.idle_timeout) (now - s.last_seen_at))

-- The session that `Create` builds.
unfoldable pub new_session : Settings → Instant → Instant → Text → OauthToken → Claims → Session
unfolding token_set_from compute_expires_at
new_session m now wall id token claims = record unbounded {
  expires_at = compute_expires_at m unbounded;
}
  where
    unbounded : Session
    unbounded = record {
      id = id;
      tokens = token_set_from wall token no_tokens;
      claims = claims;
      expires_at = 0;
      created_at = now;
      updated_at = now;
      last_seen_at = 0;
    }

-- The locked session after a successful refresh.
unfoldable pub renewed : Settings → Instant → Instant → OauthToken → Session → Session
unfolding token_set_from compute_expires_at
renewed m now wall token locked = record retokened {
  expires_at = compute_expires_at m retokened;
  updated_at = now;
  last_seen_at = now;
}
  where
    retokened : Session
    retokened = record locked { tokens = token_set_from wall token locked.tokens }
