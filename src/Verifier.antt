-- ===== src/Verifier.antt =====
-- oidcauth/oidc.go and oidcauth/helper.go: the `OIDC` verifier. The discovery, the check of a
-- signed token and the digest are those of libraries; events are the introspector's.
pub mod Accepted
pub mod Rejected
pub mod Configured
pub mod Reuse
pub mod Examples
use Prim.Native.String.{String}
use gobox.Base.{
  ℕ, ◌*◌, ◌⊎◌, Bool, true, false, not, ◌&&◌, ◌||◌, Option, none, some, List, [], if◌then◌else◌,
  ◌==◌,
}
use gobox.Base.Text.{Text, codes, text_eq, is_empty}
use gobox.Base.Int.{ℤ, pos, pos_part, is_pos, is_neg}
use gobox.Base.Errors.{Error, Result, ok, err, sentinel, wrap, error_is, ◌>>=◌}
use gobox.Claims.{Claims}
use gobox.Session.{Instant, second}
use gobox.MemoryCache.{MemoryCache, get, set}
use gobox.Introspection.{
  Introspector, IntrospectorConfig, Event, Answer, introspect, looks_like_jwt,
  access_token_inactive, new_introspector, default_introspection_http_timeout,
  invalid_oidc_configuration, resolve_introspection_endpoint,
}

abbrev pub token_validation_failed : String
token_validation_failed = "ErrTokenValidationFailed"

-- The interface `Cache`; a call of Set changes the cache.
pub record Cache (K : Type 0) : Type 0 where
  pub get : K → Text → Instant → Option Claims
  pub set : K → Text → Claims → Instant → K

-- A nil cache is `none`.
pub record Oidc (K : Type 0) : Type 0 where
  pub disable_introspection : Bool
  pub introspector : Introspector
  pub cache : Option K

-- The claims and the expiry of a token that is verified locally.
abbrev pub Local : Type 0
Local = Option (Claims × Instant)

abbrev known_expiry : Local → Instant
known_expiry none = 0
known_expiry (some (claims, t)) = t

-- The claims that `Verify` goes on with after an introspection.
unfoldable pub classified : Local → Result Claims → Result Claims
classified known (err e) =
    err (if error_is e access_token_inactive then e else wrap token_validation_failed e)
classified none (ok introspected) = ok introspected
classified (some (claims, t)) (ok introspected) = ok claims

-- Without introspection.
unfoldable pub local_only : Local → Result Claims
local_only none = err (sentinel token_validation_failed)
local_only (some (claims, t)) = ok claims

module _ {K : Type 0} (ops : Cache K) (sha : Text → Text)
    (verify_local : Text → Result (Claims × Instant)) where
  -- The lookup in the attached cache.
  unfoldable pub cached : Option K → Text → Instant → Option Claims
  cached none token now = none
  cached (some k) token now = ops.get k (sha token) now

  unfoldable pub remember : Option K → Text → Claims → Instant → Option K
  remember none token claims now = none
  remember (some k) token claims now = some (ops.set k (sha token) claims now)

  abbrev checked : Result (Claims × Instant) → Result Local
  checked (err e) = err (wrap token_validation_failed e)
  checked (ok known) = ok (some known)

  unfoldable pub check_local : Text → Result Local
  check_local token = if looks_like_jwt token then checked (verify_local token) else ok none

  -- `begun` is the time at which the introspector looks its cache up.
  unfoldable pub check_remote :
      Oidc K
      → Text
      → Local
      → Instant
      → Instant
      → Error ⊎ Answer
      → Introspector × List Event × Result Claims
  check_remote o token known begun later answer =
      let (i, events, r) =
        introspect sha o.introspector token (known_expiry known) begun later answer in
      if o.disable_introspection
      then (o.introspector, [], local_only known)
      else (i, events, classified known r)

  unfoldable pub finish :
      Oidc K
      → Text
      → Instant
      → Introspector × List Event × Result Claims
      → Oidc K × List Event × Result Claims
  finish o token now (i, events, err e) = (record o { introspector = i }, events, err e)
  finish o token now (i, events, ok claims) =
      (record o { introspector = i; cache = remember o.cache token claims now }, events, ok claims)

  unfoldable pub after_local :
      Oidc K
      → Text
      → Instant
      → Instant
      → Instant
      → Error ⊎ Answer
      → Result Local
      → Oidc K × List Event × Result Claims
  after_local o token now begun later answer (err e) = (o, [], err e)
  after_local o token now begun later answer (ok known) =
      finish o token now (check_remote o token known begun later answer)

  -- `Verify`, called at `now`.
  unfoldable pub verify :
      Oidc K
      → Text
      → Instant
      → Instant
      → Instant
      → Error ⊎ Answer
      → Oidc K × List Event × Result Claims
  verify o token now begun later answer =
      let rest = after_local o token now begun later answer (check_local token) in
      elim (cached o.cache token now) [ some claims ↦ (o, [], ok claims) | none ↦ rest ]

-- The attached `MemoryCache` of oidcauth/cache.go
abbrev pub memory_cache : Cache MemoryCache
memory_cache = record { get = get; set = set }

-- `Config`, less what only the libraries read.
pub record Config : Type 0 where
  pub realm_url : Text
  pub client_id : Text
  pub client_secret : Text
  pub request_timeout : ℤ
  pub disable_introspection : Bool
  pub introspection_endpoint : Text
  pub introspection_cache_ttl : ℤ
  pub introspection_http_timeout : ℤ

-- The scheme and the host that url.ParseRequestURI gives.
abbrev is_web_url : Option (Text × Text) → Bool
is_web_url none = false
is_web_url (some (scheme, host)) =
    (text_eq scheme (codes "http") || text_eq scheme (codes "https")) && not (is_empty host)

abbrev default_request_timeout : ℕ
default_request_timeout = 30 * second

abbrev with_defaults : Config → Config
with_defaults c = record c {
  request_timeout =
      if is_pos c.request_timeout then c.request_timeout else pos default_request_timeout;
  introspection_http_timeout =
      if is_pos c.introspection_http_timeout
      then c.introspection_http_timeout
      else pos default_introspection_http_timeout;
}

unfoldable pub validate_config : (Text → Option (Text × Text)) → Config → Result Config
validate_config parse_url c =
    if is_empty c.realm_url
    then err (sentinel "ErrInvalidRealmURL")
    else if not (is_web_url (parse_url c.realm_url))
    then err (sentinel "ErrInvalidRealmURL")
    else if is_empty c.client_id
    then err (sentinel "ErrEmptyClientID")
    else if not c.disable_introspection && is_empty c.client_secret
    then err (sentinel "ErrMissingClientSecret")
    else if is_neg c.introspection_cache_ttl
    then err (sentinel invalid_oidc_configuration)
    else if is_neg c.introspection_http_timeout
    then err (sentinel invalid_oidc_configuration)
    else ok (with_defaults c)

abbrev introspector_config : Config → Text → IntrospectorConfig
introspector_config c endpoint = record {
  endpoint = endpoint;
  http_timeout = c.introspection_http_timeout;
  cache_ttl = c.introspection_cache_ttl;
}

-- The introspector that `New` builds; `discovery` is the endpoint in the provider's document.
unfoldable pub introspector_of : Config → Result Text → Result (Option Introspector)
introspector_of c discovery =
    let built =
      (resolve_introspection_endpoint discovery c.introspection_endpoint >>= λ endpoint.
      new_introspector (introspector_config c endpoint))
      >>= λ i. ok (some i) in
    if c.disable_introspection then ok none else built

-- `New`, with what the discovery of the provider gives.
unfoldable pub new_oidc :
    (Text → Option (Text × Text))
    → (Text → Result (Result Text))
    → Config
    → Result (Config × Option Introspector)
new_oidc parse_url discover config = validate_config parse_url config >>= λ c.
    elim (discover c.realm_url) [
      | err e ↦ err (wrap "ErrProviderInitFailed" e)
      | ok discovery ↦ introspector_of c discovery >>= λ i. ok (c, i)
    ]
