-- ===== src/HttpServer/Payload.antt =====
-- httpserver/gin.go: the body that a request's handlers read.
use gobox.Base.{
  ℕ, ◌≡◌, refl, ◌≤◌, ◌<◌, Bool, true, false, Option, none, some, List, [], ◌∷◌, ◌++◌, ltb, length,
  take, length-take, arith, if◌then◌else◌, Bool-cases, inl, inr, ◌∙◌, ap,
}
use gobox.Base.Text.{Text}
use gobox.Base.Errors.{ok}
use gobox.Base.Int.{ℤ, pos_part, is_pos}
use mathlib.Core.List.{append_assoc}
use gobox.HttpServer.Ready.{recovering, limiting, router_for, new_engine-Has, new_gin-new_engine}
use gobox.HttpServer.{
  GinConfig, Handler, recovery, payload_limit, no_route, custom, Gin, Engine, or_default,
  use_middleware, new_gin, create_router,
}

-- A request's body: its bytes, behind the readers of http.MaxBytesReader.
pub data Body : Type 0 where
  whole : List ℕ → Body
  limited : ℤ → Body → Body

abbrev cut_at : ℕ → List ℕ × Bool → List ℕ × Bool
cut_at n (bytes, failed) = if ltb n (length bytes) then (take n bytes, true) else (bytes, failed)

-- io.ReadAll of a body: the bytes, and whether there is an error; a negative limit is 0.
unfoldable pub read_all : Body → List ℕ × Bool
read_all (whole bytes) = (bytes, false)
read_all (limited n b) = cut_at (pos_part n) (read_all b)

-- The handler of `createPayloadLimitMiddleware`
unfoldable pub limit_payload : ℤ → Body → Body
limit_payload max_size body = limited max_size body

-- The body as the first of a caller's handlers gets it.
unfoldable pub body_at : List Handler → Body → Body
unfolding limit_payload
body_at [] body = body
body_at (recovery ∷ hs) body = body_at hs body
body_at (payload_limit n ∷ hs) body = body_at hs (limit_payload n body)
body_at (no_route to json ∷ hs) body = body
body_at (custom i ∷ hs) body = body

-- The bytes of a request as they are read under a limit.
abbrev pub IsCut : ℕ → List ℕ → List ℕ × Bool → Type 0
IsCut n bytes (got, failed) =
    (length got ≤ n)
    × (length bytes ≤ n → (got ≡ bytes) × (failed ≡ false))
    × (n < length bytes → (got ≡ take n bytes) × (failed ≡ true))

read_all-IsCut :
    (n : ℤ) (bytes : List ℕ) → IsCut (pos_part n) bytes (read_all (limited n (whole bytes)))
unfolding read_all
read_all-IsCut n bytes = ground (arith, length-take (pos_part n) bytes)

-- What the list of the handlers of a gin router is, of which RouterGroup says that Use appends to it.
pub record HandlersOf {R : Type 0} (g : Gin R) (handlers : R → List Handler) : Type 0 where
  pub of_new : handlers g.new_router ≡ []
  pub of_use : (r : R) (hs : List Handler) → handlers (g.use_ r hs) ≡ handlers r ++ hs
  pub of_trusted : (r : R) (ps : List Text) → handlers (g.set_trusted_proxies r ps) ≡ handlers r
  pub of_no_route : (r : R) (h : Handler) → handlers (g.set_no_route r h) ≡ handlers r

-- The handlers of an engine's router.
abbrev pub handlers_of : {R : Type 0} → (R → List Handler) → Option R → List Handler
handlers_of handlers none = []
handlers_of handlers (some r) = handlers r

module _ {R : Type 0} (g : Gin R) (handlers : R → List Handler) (laws : HandlersOf g handlers) where
  handlers-create_router : (config : GinConfig) → handlers (create_router g config) ≡ []
  unfolding create_router
  handlers-create_router config =
      elim config.trusted_proxies
        as (λ ps.
          handlers
            (elim ps [ [] ↦ g.new_router | q ∷ qs ↦ g.set_trusted_proxies g.new_router (q ∷ qs) ])
          ≡ []) [ [] ↦ laws.of_new | p ∷ ps ↦ laws.of_trusted g.new_router (p ∷ ps) ∙ laws.of_new ]

  body_at-recovering :
      (config : GinConfig) (r : R) (hs : List Handler) (body : Body)
      → handlers r ≡ []
      → body_at (handlers (recovering g config r) ++ hs) body ≡ body_at hs body
  unfolding body_at
  body_at-recovering config r hs body h = elim (Bool-cases config.use_recovery) [
    | inl on ↦ rw (on, laws.of_use r (recovery ∷ []), h) refl
    | inr off ↦ rw (off, h) refl
  ]

  body_at-limiting :
      (config : GinConfig) (r : R) (hs : List Handler) (body : Body)
      → is_pos config.max_payload_size ≡ true
      → ((k : List Handler) (b : Body) → body_at (handlers r ++ k) b ≡ body_at k b)
      → body_at (handlers (limiting g config r) ++ hs) body
        ≡ body_at hs (limited config.max_payload_size body)
  unfolding body_at limit_payload
  body_at-limiting config r hs body on h =
      rw
        (
          on,
          laws.of_use r (payload_limit config.max_payload_size ∷ []),
          append_assoc (handlers r) (payload_limit config.max_payload_size ∷ []) hs,
          h (payload_limit config.max_payload_size ∷ hs) body,
        )
        refl

  body_at-router_for :
      (config : GinConfig) (hs : List Handler) (body : Body)
      → is_pos config.max_payload_size ≡ true
      → body_at (handlers (router_for g config) ++ hs) body
        ≡ body_at hs (limited config.max_payload_size body)
  body_at-router_for config hs body on =
      let first = create_router g config in
      let last = limiting g config (recovering g config first) in
      rw (laws.of_no_route last (no_route config.no_route_to config.no_route_json)) (
        body_at-limiting config (recovering g config first) hs body on
          (λ k b. body_at-recovering config first k b (handlers-create_router config)))

  -- An engine of NewGin whose MaxPayloadSize is positive hands the body of every request to the first
  -- handler that the caller gives to Use cut at that size: a body that fits is read whole and without
  -- an error, and a longer one gives that many bytes and an error; if gin's Use appends to the handlers
  -- and nothing else that the engine calls changes them.
  pub new_gin-IsCut :
      (decimal : ℕ → Text) (resolves : Text → Bool) (given : Option GinConfig) (debug : Bool)
      (e : Engine R) (i : ℕ) (hs : List Handler) (bytes : List ℕ)
      → is_pos (or_default given).max_payload_size ≡ true
      → new_gin decimal resolves g given ≡ ok (debug, e)
      → IsCut (pos_part (or_default given).max_payload_size) bytes (
          read_all (
            body_at
              (handlers_of handlers (use_middleware g (custom i ∷ hs) e).router)
              (whole bytes)))
  unfolding use_middleware body_at
  new_gin-IsCut decimal resolves given debug e i hs bytes on h =
      let config = or_default given in
      let (mode, is) = new_gin-new_engine decimal resolves g given debug e h in
      let (has_config, has_server, has_router) = new_engine-Has decimal g config in
      let router : e.router ≡ some (router_for g config) = ap (λ k. k.router) is ∙ has_router in
      let body = body_at-router_for config (custom i ∷ hs) (whole bytes) on in
      rw (use_middleware, router, laws.of_use (router_for g config) (custom i ∷ hs), body)
        (read_all-IsCut config.max_payload_size bytes)
