-- ===== src/HttpServer.antt =====
-- httpserver/gin.go: the engine over a gin router and an http.Server.
pub mod Ready
pub mod Payload
pub mod Listening
pub mod Download
pub mod FileNames
pub mod Headers
pub mod Unknown
pub mod Examples
use Prim.Native.String.{String}
use gobox.Base.{
  ℕ, ◌*◌, Bool, true, false, not, ◌&&◌, ◌||◌, Option, none, some, List, [], ◌∷◌, ◌++◌, ltb, ◌==◌,
  if◌then◌else◌,
}
use gobox.Base.Text.{Text, codes, is_empty, text_eq}
use gobox.Base.Errors.{Error, Result, ok, err, sentinel, wrap, errorf}
use gobox.Base.Int.{ℤ, pos, is_pos, pos_part}

-- `GinConfig`; durations are nanoseconds, and the slice of the proxies is a list.
pub record GinConfig : Type 0 where
  pub host : Text
  pub port : ℕ
  pub debug_mode : Bool
  pub read_timeout : ℤ
  pub write_timeout : ℤ
  pub idle_timeout : ℤ
  pub use_ssl : Bool
  pub ssl_cert : Text
  pub ssl_key : Text
  pub min_tls_version : ℕ
  pub enable_http2 : Bool
  pub no_route_to : Text
  pub no_route_json : Bool
  pub use_recovery : Bool
  pub trusted_proxies : List Text
  pub max_payload_size : ℤ

-- tls.VersionTLS12 and tls.VersionTLS13
abbrev pub version_tls12 : ℕ
version_tls12 = 0x0303

abbrev pub version_tls13 : ℕ
version_tls13 = 0x0304

abbrev pub seconds : ℕ → ℤ
seconds n = pos (n * 1000000000)

-- `DefaultGinConfig`
unfoldable pub default_gin_config : GinConfig
default_gin_config = record {
  host = [];
  port = 8080;
  debug_mode = false;
  read_timeout = seconds 15;
  write_timeout = seconds 15;
  idle_timeout = seconds 60;
  use_ssl = false;
  ssl_cert = [];
  ssl_key = [];
  min_tls_version = version_tls12;
  enable_http2 = true;
  no_route_to = [];
  no_route_json = true;
  use_recovery = true;
  trusted_proxies = [];
  max_payload_size = pos (10 * 1024 * 1024);
}

-- tls.Config, in what is set of it; curves and suites are the numbers that crypto/tls gives them.
pub record TlsConfig : Type 0 where
  pub min_version : ℕ
  pub curve_preferences : List ℕ
  pub prefer_server_cipher_suites : Bool
  pub cipher_suites : List ℕ

-- `createTLSConfig`
unfoldable pub create_tls_config : GinConfig → TlsConfig
create_tls_config config = record {
  min_version = if config.min_tls_version == 0 then version_tls13 else config.min_tls_version;
  curve_preferences = 23 ∷ 29 ∷ [];
  prefer_server_cipher_suites = true;
  cipher_suites = 0xc02c ∷ 0xc030 ∷ 0xcca9 ∷ 0xcca8 ∷ 0xc02b ∷ 0xc02f ∷ [];
}

-- The handlers that the package gives to gin; `custom` is a caller's, by a number.
pub data Handler : Type 0 where
  recovery : Handler
  payload_limit : ℤ → Handler
  no_route : (to : Text) → (json : Bool) → Handler
  custom : ℕ → Handler

-- What the package uses of gin: `R` is its engine.
pub record Gin (R : Type 0) : Type 0 where
  pub new_router : R
  pub use_ : R → List Handler → R
  pub set_trusted_proxies : R → List Text → R
  pub set_no_route : R → Handler → R

-- http.Server, in what is set of it; its handler is the engine's router, by the pointer.
pub record Server : Type 0 where
  pub addr : Text
  pub read_timeout : ℤ
  pub write_timeout : ℤ
  pub idle_timeout : ℤ
  pub tls_config : Option TlsConfig
  pub http2 : Bool

-- `Engine`; a nil pointer is `none`, but the configuration is never nil.
pub record Engine (R : Type 0) : Type 0 where
  pub config : GinConfig
  pub router : Option R
  pub server : Option Server
  pub tls_config : Option TlsConfig
  pub addr : Text

-- `buildAddress`: `decimal` prints the port.
unfoldable pub build_address : (ℕ → Text) → Text → ℕ → Text
build_address decimal host port =
    if is_empty host then codes ":" ++ decimal port else host ++ codes ":" ++ decimal port

-- The part of `validateConfig` on the certificate and its key.
abbrev pub validate_ssl : GinConfig → Option Error
validate_ssl config =
    if config.use_ssl && (is_empty config.ssl_cert || is_empty config.ssl_key)
    then some (sentinel "ErrInvalidSSLConfig")
    else none

-- `validateConfig`: `resolves` is whether net.ResolveTCPAddr resolves an address.
unfoldable pub validate_config : (ℕ → Text) → (Text → Bool) → GinConfig → Option Error
unfolding build_address
validate_config decimal resolves config =
    if config.port == 0
    then some (sentinel "ErrInvalidListenAddress")
    else if not (is_empty config.host)
        && not (text_eq config.host (codes ":"))
        && not (resolves (build_address decimal config.host config.port))
    then some (sentinel "ErrHostResolutionFailed")
    else validate_ssl config

abbrev pub or_default : Option GinConfig → GinConfig
or_default none = default_gin_config
or_default (some config) = config

module _ {R : Type 0} where
  -- `createRouter`
  unfoldable pub create_router : Gin R → GinConfig → R
  create_router g config = elim config.trusted_proxies [
    | [] ↦ g.new_router
    | p ∷ ps ↦ g.set_trusted_proxies g.new_router (p ∷ ps)
  ]

  -- `createHTTPServer`; http2.ConfigureServer adds HTTP/2 to the server.
  unfoldable pub create_http_server : Engine R → Server
  create_http_server e = record {
    addr = e.addr;
    read_timeout = e.config.read_timeout;
    write_timeout = e.config.write_timeout;
    idle_timeout = e.config.idle_timeout;
    tls_config = e.tls_config;
    http2 = e.config.enable_http2 && e.config.use_ssl;
  }

  abbrev pub on_router : (R → R) → Engine R → Engine R
  on_router f e = elim e.router [ none ↦ e | some r ↦ record e { router = some (f r) } ]

  -- `SetupRoutes` and `SetupMiddleware`; a nil function is `none`.
  unfoldable pub setup_routes : Option (R → R) → Engine R → Engine R
  setup_routes none e = e
  setup_routes (some setup) e = on_router setup e

  unfoldable pub setup_middleware : Option (R → R) → Engine R → Engine R
  setup_middleware none e = e
  setup_middleware (some setup) e = on_router setup e

  -- `Use`
  unfoldable pub use_middleware : Gin R → List Handler → Engine R → Engine R
  use_middleware g handlers e = on_router (λ r. g.use_ r handlers) e

  -- `setupDefaultMiddleware`
  unfoldable pub setup_default_middleware : Gin R → Engine R → Engine R
  unfolding use_middleware
  setup_default_middleware g e =
      let recovering =
        if e.config.use_recovery then on_router (λ r. g.use_ r (recovery ∷ [])) e else e in
      if is_pos e.config.max_payload_size
      then use_middleware g (payload_limit e.config.max_payload_size ∷ []) recovering
      else recovering

  -- `setupNoRouteHandler`
  unfoldable pub setup_no_route_handler : Gin R → Engine R → Engine R
  setup_no_route_handler g e =
      on_router (λ r. g.set_no_route r (no_route e.config.no_route_to e.config.no_route_json)) e

  -- What `NewGin` makes of a configuration that is valid.
  abbrev pub new_engine : (ℕ → Text) → Gin R → GinConfig → Engine R
  new_engine decimal g config =
      let engine : Engine R = record {
        config = config;
        router = some (create_router g config);
        server = none;
        tls_config = if config.use_ssl then some (create_tls_config config) else none;
        addr = build_address decimal config.host config.port;
      } in
      setup_no_route_handler g
        (setup_default_middleware g (record engine { server = some (create_http_server engine) }))

  -- `NewGin`, with the debug mode that gin is set to.
  unfoldable pub new_gin :
      (ℕ → Text) → (Text → Bool) → Gin R → Option GinConfig → Result (Bool × Engine R)
  unfolding validate_config
  new_gin decimal resolves g given =
      let config = or_default given in
      elim (validate_config decimal resolves config) [
        | some e ↦ err e
        | none ↦ ok (config.debug_mode, new_engine decimal g config)
      ]
