-- ===== src/Introspection.antt =====
-- oidcauth/introspection.go: `Introspector`, with its cache of positive results and its events.
-- The HTTP round trip, which singleflight may share, is the answer that a call is given.
pub mod Expiry
pub mod History
pub mod Window
pub mod Revocation
pub mod Evicting
pub mod Examples
use Prim.Native.String.{String}
use gobox.Base.{
  ℕ, suc, ◌+◌, ◌-◌, ◌*◌, ◌⊎◌, inl, inr, Bool, true, false, not, ◌&&◌, ◌||◌, Option, none, some,
  List, [], ◌∷◌, ◌++◌, ltb, ◌==◌, if◌then◌else◌, length,
}
use gobox.Base.Text.{Text, is_empty, split_on}
use gobox.Base.Int.{ℤ, pos, pos_part, is_pos, is_neg}
use gobox.Base.Errors.{Error, Result, ok, err, sentinel, wrap, errorf}
use gobox.Base.Dict.{lookup, insert, retain}
use gobox.Claims.{Claims, no_claims}
use gobox.Session.{Instant, second}
use gobox.MemoryCache.{Entry, unix_time}

abbrev pub access_token_inactive : String
access_token_inactive = "ErrAccessTokenInactive"

abbrev pub invalid_introspection_response : String
invalid_introspection_response = "ErrInvalidIntrospectionResponse"

abbrev pub introspection_failed : String
introspection_failed = "ErrIntrospectionFailed"

abbrev pub invalid_oidc_configuration : String
invalid_oidc_configuration = "ErrInvalidOIDCConfiguration"

-- The kinds of events, with the count of the evicted; the latency is left out.
pub data Event : Type 0 where
  cache_hit cache_miss introspection_succeeded token_inactive introspection_failed_event : Event
  cache_evicted : ℕ → Event

pub record IntrospectorConfig : Type 0 where
  pub endpoint : Text
  pub http_timeout : ℤ
  pub cache_ttl : ℤ

pub record Introspector : Type 0 where
  pub endpoint : Text
  pub http_timeout : ℕ
  pub cache_ttl : ℤ
  pub entries : List (Text × Entry)

abbrev pub default_introspection_http_timeout : ℕ
default_introspection_http_timeout = 10 * second

-- What a round trip gives: no response, or a status with the decoded body: `active`, and the claims.
pub data Answer : Type 0 where
  no_response : Error → Answer
  response : ℕ → Result (Bool × Claims) → Answer

unfoldable pub new_introspector : IntrospectorConfig → Result Introspector
new_introspector cfg =
    if is_empty cfg.endpoint
    then err (sentinel invalid_oidc_configuration)
    else if is_neg cfg.cache_ttl
    then err (sentinel invalid_oidc_configuration)
    else if is_neg cfg.http_timeout
    then err (sentinel invalid_oidc_configuration)
    else ok (record {
      endpoint = cfg.endpoint;
      http_timeout =
          if pos_part cfg.http_timeout == 0
          then default_introspection_http_timeout
          else pos_part cfg.http_timeout;
      cache_ttl = cfg.cache_ttl;
      entries = [];
    })

-- The earlier of two instants.
abbrev earlier : Instant → Instant → Instant
earlier t bound = if ltb t bound then t else bound

-- `effectiveExpiry`; the zero time means that the result is not cached.
unfoldable pub effective_expiry : ℤ → Instant → Instant → ℤ → Instant
effective_expiry cache_ttl now known_expiry introspected_exp =
    let a = now + pos_part cache_ttl in
    let b = if known_expiry == 0 then a else earlier known_expiry a in
    let c = if is_pos introspected_exp then earlier (unix_time introspected_exp) b else b in
    if is_pos cache_ttl then (if ltb now c then c else 0) else 0

-- `doIntrospect`: the events, and the claims with the time until which to cache them.
unfoldable pub do_introspect :
    Introspector → Instant → Instant → Answer → List Event × Result (Claims × Instant)
do_introspect i now known_expiry (no_response e) =
    (introspection_failed_event ∷ [], err (wrap introspection_failed e))
do_introspect i now known_expiry (response status body) =
    if not (status == 200)
    then (introspection_failed_event ∷ [], err (sentinel introspection_failed))
    else elim body [
      | err e ↦ (introspection_failed_event ∷ [], err (wrap invalid_introspection_response e))
      | ok (active, claims) ↦
          if active
          then (
            introspection_succeeded ∷ [],
            ok (claims, effective_expiry i.cache_ttl now known_expiry claims.exp),
          )
          else (token_inactive ∷ [], err (sentinel access_token_inactive))
    ]

-- `lookup` and `store` of the cache
unfoldable pub find : Introspector → Text → Instant → Option Claims
find i key now = elim (lookup key i.entries) [
  | none ↦ none
  | some e ↦ if ltb now e.expires_at then some e.claims else none
]

unfoldable pub store : Introspector → Text → Claims → Instant → Introspector
store i key claims expires_at =
    let entry : Entry = record { claims = claims; expires_at = expires_at } in
    record i { entries = insert key entry i.entries }

-- The end of `Introspect` once the shared request is answered.
unfoldable pub received :
    Introspector
    → Text
    → List Event
    → List Event × Result (Claims × Instant)
    → Introspector × List Event × Result Claims
received i key events (more, err e) = (i, events ++ more, err e)
received i key events (more, ok (claims, expires_at)) = (
  if is_pos i.cache_ttl && not (expires_at == 0) then store i key claims expires_at else i,
  events ++ more,
  ok claims,
)

-- After the cache: `none` is a caller whose context is done first; the error is the context's.
unfoldable pub requested :
    Introspector
    → Text
    → Instant
    → Instant
    → List Event
    → Error ⊎ Answer
    → Introspector × List Event × Result Claims
requested i key now known_expiry events (inl cancelled) = (i, events, err cancelled)
requested i key now known_expiry events (inr answer) =
    received i key events (do_introspect i now known_expiry answer)

-- `Introspect`. `sha` is the digest of a token, `now` the time of the lookup and `later` the time
-- after the round trip.
unfoldable pub introspect :
    (Text → Text)
    → Introspector
    → Text
    → Instant
    → Instant
    → Instant
    → Error ⊎ Answer
    → Introspector × List Event × Result Claims
introspect sha i token known_expiry now later answer =
    let key = sha token in
    let hit = find i key now in
    let missed = requested i key later known_expiry (cache_miss ∷ []) answer in
    let uncached = requested i key later known_expiry [] answer in
    if is_empty token
    then (i, [], err (sentinel introspection_failed))
    else if is_pos i.cache_ttl
    then elim hit [ some claims ↦ (i, cache_hit ∷ [], ok claims) | none ↦ missed ]
    else uncached

-- The number of entries, and the event of a removal.
abbrev pub evicted_event : ℕ → List Event
evicted_event n = if ltb 0 n then cache_evicted n ∷ [] else []

unfoldable pub clear_cache : Introspector → Introspector × List Event
clear_cache i = (record i { entries = [] }, evicted_event (length i.entries))

unfoldable pub evict : Introspector → Instant → Introspector × List Event
evict i now =
    let left = retain (λ (e : Entry). ltb now e.expires_at) i.entries in
    (record i { entries = left }, evicted_event (length i.entries - length left))

abbrev pub min_cleanup_interval : ℕ
min_cleanup_interval = second

abbrev pub max_cleanup_interval : ℕ
max_cleanup_interval = 5 * 60 * second

unfoldable pub clamp_cleanup_interval : ℕ → ℕ
clamp_cleanup_interval ttl =
    if ltb ttl min_cleanup_interval
    then min_cleanup_interval
    else if ltb max_cleanup_interval ttl
    then max_cleanup_interval
    else ttl

abbrev pub all_filled : List Text → Bool
all_filled [] = true
all_filled (p ∷ ps) = if is_empty p then false else all_filled ps

-- `looksLikeJWT`
unfoldable pub looks_like_jwt : Text → Bool
looks_like_jwt token = let parts = split_on b'.' token in length parts == 3 && all_filled parts

-- `resolveIntrospectionEndpoint`; a discovery document that cannot be read gives nothing.
unfoldable pub resolve_introspection_endpoint : Result Text → Text → Result Text
resolve_introspection_endpoint discovery configured =
    let fallback =
      if is_empty configured then err (sentinel invalid_oidc_configuration) else ok configured in
    elim discovery [
      | ok endpoint ↦ if is_empty endpoint then fallback else ok endpoint
      | err e ↦ fallback
    ]
