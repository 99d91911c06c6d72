-- ===== src/Middleware/Cors.antt =====
-- httpserver/middlewares/cors.go: the policy, and the headers that a request gets.
use gobox.Base.{
  ◌≡◌, refl, Bool, true, false, not, ◌&&◌, Option, none, some, List, [], ◌∷◌, arith, if◌then◌else◌,
  Bool-cases, inl, inr,
}
use gobox.Base.Text.{Text, codes, text_eq, is_empty, trim_space, join}
use gobox.Base.Dict.{lookup, insert, lookup-insert}
use gobox.Claims.{contains}
use gobox.Middleware.{Decision, go_on, abort}

pub record CorsOptions : Type 0 where
  pub allowed_origins : List Text
  pub allowed_methods : List Text
  pub allowed_headers : List Text
  pub allow_credentials : Bool

-- The map of the origins is its set of keys.
pub record CorsPolicy : Type 0 where
  pub allowed : List Text
  pub methods : Text
  pub headers : Text
  pub credentials : Bool

abbrev default_allowed_headers : List Text
default_allowed_headers =
    codes "Content-Type"
    ∷ codes "Content-Length"
    ∷ codes "Accept-Encoding"
    ∷ codes "X-CSRF-Token"
    ∷ codes "Authorization"
    ∷ codes "Accept"
    ∷ codes "Origin"
    ∷ codes "Cache-Control"
    ∷ codes "X-Requested-With"
    ∷ []

abbrev default_allowed_methods : List Text
default_allowed_methods =
    codes "GET" ∷ codes "POST" ∷ codes "PUT" ∷ codes "PATCH" ∷ codes "DELETE" ∷ codes "OPTIONS" ∷ []

abbrev filled : List Text → List Text
filled [] = []
filled (v ∷ values) =
    if is_empty (trim_space v) then filled values else trim_space v ∷ filled values

abbrev or_fallback : List Text → List Text → List Text
or_fallback [] fallback = fallback
or_fallback (v ∷ values) fallback = v ∷ values

unfoldable pub join_header_values : List Text → List Text → Text
join_header_values values fallback = join (codes ", ") (or_fallback (filled values) fallback)

unfoldable pub new_cors_policy : CorsOptions → CorsPolicy
unfolding join_header_values
new_cors_policy opts = record {
  allowed = opts.allowed_origins;
  methods = join_header_values opts.allowed_methods default_allowed_methods;
  headers = join_header_values opts.allowed_headers default_allowed_headers;
  credentials = opts.allow_credentials;
}

abbrev pub allow_origin : Text
allow_origin = codes "Access-Control-Allow-Origin"

abbrev allow_methods : Text
allow_methods = codes "Access-Control-Allow-Methods"

abbrev allow_headers : Text
allow_headers = codes "Access-Control-Allow-Headers"

abbrev pub allow_credentials_header : Text
allow_credentials_header = codes "Access-Control-Allow-Credentials"

-- The headers of a response, on which each call of Set replaces one.
abbrev pub Headers : Type 0
Headers = List (Text × Text)

abbrev set_if : Bool → Text → Text → Headers → Headers
set_if b name value h = if b then insert name value h else h

unfoldable pub allowed_headers_set : CorsPolicy → Text → Headers → Headers
allowed_headers_set policy origin h =
    set_if policy.credentials allow_credentials_header (codes "true") (
      set_if (not (is_empty policy.headers)) allow_headers policy.headers (
        set_if (not (is_empty policy.methods)) allow_methods policy.methods
          (insert allow_origin origin (insert (codes "Vary") (codes "Origin") h))))

abbrev pub is_allowed : Option CorsPolicy → Text → Bool
is_allowed none origin = false
is_allowed (some policy) origin = not (is_empty origin) && contains policy.allowed origin

abbrev policy_headers : Option CorsPolicy → Text → Headers → Headers
policy_headers none origin h = h
policy_headers (some policy) origin h =
    if is_allowed (some policy) origin then allowed_headers_set policy origin h else h

-- `CORSWithProvider`, with the policy that the provider gives, or nil.
unfoldable pub cors : Option CorsPolicy → Text → Text → Headers → Headers × Decision (Unit {0})
unfolding allowed_headers_set
cors policy origin method h = (
  policy_headers policy origin h,
  if text_eq method (codes "OPTIONS") then abort 204 [] else go_on tt,
)

-- A header of the response after the middleware.
abbrev pub header_after : Option CorsPolicy → Text → Text → Headers → Text → Option Text
header_after policy origin method h name = lookup name (cors policy origin method h).0

lookup-set_if :
    (b : Bool) (name j value : Text) (h : Headers)
    → lookup j (set_if b name value h)
      ≡ (if b then (if text_eq name j then some value else lookup j h) else lookup j h)
lookup-set_if true name j value h = lookup-insert name j value h
lookup-set_if false name j value h = refl

-- The headers for an allowed origin.
allowed_headers_set-lookup :
    (p : CorsPolicy) (origin : Text) (h : Headers)
    → (lookup allow_origin (allowed_headers_set p origin h) ≡ some origin)
      × (lookup allow_credentials_header (allowed_headers_set p origin h)
          ≡ (if p.credentials then some (codes "true") else lookup allow_credentials_header h))
unfolding allowed_headers_set text_eq
allowed_headers_set-lookup p origin h =
    let a =
      set_if (not (is_empty p.methods)) allow_methods p.methods
        (insert allow_origin origin (insert (codes "Vary") (codes "Origin") h)) in
    let b = set_if (not (is_empty p.headers)) allow_headers p.headers a in
    (
      ground (
        arith,
        lookup-set_if p.credentials allow_credentials_header allow_origin (codes "true") b,
        lookup-set_if (not (is_empty p.headers)) allow_headers allow_origin p.headers a,
        lookup-set_if (not (is_empty p.methods)) allow_methods allow_origin p.methods
            (insert allow_origin origin (insert (codes "Vary") (codes "Origin") h)),
        lookup-insert allow_origin allow_origin origin (insert (codes "Vary") (codes "Origin") h),
      ),
      ground (
        arith,
        lookup-set_if p.credentials allow_credentials_header allow_credentials_header (codes "true")
            b,
        lookup-set_if (not (is_empty p.headers)) allow_headers allow_credentials_header p.headers a,
        lookup-set_if (not (is_empty p.methods)) allow_methods allow_credentials_header p.methods
            (insert allow_origin origin (insert (codes "Vary") (codes "Origin") h)),
        lookup-insert allow_origin allow_credentials_header origin
            (insert (codes "Vary") (codes "Origin") h),
        lookup-insert (codes "Vary") allow_credentials_header (codes "Origin") h,
      ),
    )

-- An origin that is not empty and that the options list gets itself as the allowed origin, and
-- leave to send credentials if the options give it; for any other origin these headers stay as they
-- were, and without a policy all do.
pub cors_grants :
    (opts : CorsOptions) (origin method : Text) (h : Headers)
    → let after = header_after (some (new_cors_policy opts)) origin method h in
      let listed = not (is_empty origin) && contains opts.allowed_origins origin in
      (after allow_origin ≡ (if listed then some origin else lookup allow_origin h))
      × (after allow_credentials_header ≡ (
          if listed && opts.allow_credentials
          then some (codes "true")
          else lookup allow_credentials_header h))
      × ((cors none origin method h).0 ≡ h)
unfolding cors new_cors_policy
cors_grants opts origin method h =
    let (a, b) = allowed_headers_set-lookup (new_cors_policy opts) origin h in
    elim (Bool-cases (not (is_empty origin) && contains opts.allowed_origins origin)) [
      | inl listed ↦ (rw (listed) a, rw (listed) b, refl)
      | inr other ↦ (rw (other) refl, rw (other) refl, refl)
    ]
