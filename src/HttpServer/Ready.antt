-- ===== src/HttpServer/Ready.antt =====
-- What NewGin of httpserver/gin.go gives, and what Listen then serves.
use gobox.Base.{
  ℕ, ◌≡◌, refl, ◌≢◌, ◌↔◌, Bool, true, false, Option, none, some, [], ◌∷◌, ◌&&◌, ◌||◌, arith,
  if◌then◌else◌, Bool-cases, Option-cases, inl, inr, ◌∙◌, ap,
}
use gobox.Base.Text.{Text, codes, is_empty, text_eq}
use gobox.Base.Errors.{ok}
use gobox.Base.Int.{is_pos}
use gobox.HttpServer.{
  GinConfig, recovery, payload_limit, no_route, Gin, Server, Engine, build_address,
  create_tls_config, validate_config, or_default, create_router, on_router,
  setup_default_middleware, setup_no_route_handler, create_http_server, use_middleware, new_gin,
  new_engine, is_pos,
}
use gobox.HttpServer.Listening.{Serving, listen}

-- What the check of a configuration means.
abbrev pub IsServable : (ℕ → Text) → (Text → Bool) → GinConfig → Type 0
IsServable decimal resolves config =
    (config.port ≢ 0)
    × (is_empty config.host
          || text_eq config.host (codes ":")
          || resolves (build_address decimal config.host config.port)
        ≡ true)
    × (config.use_ssl ≡ true
        → (is_empty config.ssl_cert ≡ false) × (is_empty config.ssl_key ≡ false))

validate_config-none :
    (decimal : ℕ → Text) (resolves : Text → Bool) (config : GinConfig)
    → validate_config decimal resolves config ≡ none
    → IsServable decimal resolves config
unfolding validate_config
validate_config-none decimal resolves config h = ground (arith, h)

validate_config-IsServable :
    (decimal : ℕ → Text) (resolves : Text → Bool) (config : GinConfig)
    → IsServable decimal resolves config
    → validate_config decimal resolves config ≡ none
unfolding validate_config
validate_config-IsServable decimal resolves config (port, host, ssl) =
    elim (Bool-cases config.use_ssl) [
      | inl on ↦ let (cert, key) = ssl on in ground (arith, port, host, cert, key, on)
      | inr off ↦ ground (arith, port, host, off)
    ]

-- NewGin succeeds exactly for a configuration with a port other than 0, a host that is empty, a colon
-- or resolved with the port, and, with SSL, a certificate and a key; nil stands for the defaults.
pub new_gin_iff :
    {R : Type 0} (decimal : ℕ → Text) (resolves : Text → Bool) (g : Gin R)
    (given : Option GinConfig)
    → ((x : Bool × Engine R) × (new_gin decimal resolves g given ≡ ok x))
      ↔ IsServable decimal resolves (or_default given)
unfolding new_gin
new_gin_iff decimal resolves g given = (
  λ (x, h). elim (Option-cases (validate_config decimal resolves (or_default given))) [
    | inl is ↦ validate_config-none decimal resolves (or_default given) is
    | inr (e, is) ↦ absurd (cc)
  ],
  λ servable. (
    ((or_default given).debug_mode, new_engine decimal g (or_default given)),
    rw (new_gin, validate_config-IsServable decimal resolves (or_default given) servable) refl,
  ),
)

-- The server for a configuration.
abbrev pub server_for : (ℕ → Text) → GinConfig → Server
server_for decimal config = record {
  addr = build_address decimal config.host config.port;
  read_timeout = config.read_timeout;
  write_timeout = config.write_timeout;
  idle_timeout = config.idle_timeout;
  tls_config = if config.use_ssl then some (create_tls_config config) else none;
  http2 = config.enable_http2 && config.use_ssl;
}

abbrev pub recovering : {R : Type 0} → Gin R → GinConfig → R → R
recovering g config r = if config.use_recovery then g.use_ r (recovery ∷ []) else r

abbrev pub limiting : {R : Type 0} → Gin R → GinConfig → R → R
limiting g config r =
    if is_pos config.max_payload_size
    then g.use_ r (payload_limit config.max_payload_size ∷ [])
    else r

abbrev pub router_for : {R : Type 0} → Gin R → GinConfig → R
router_for g config =
    g.set_no_route (limiting g config (recovering g config (create_router g config)))
      (no_route config.no_route_to config.no_route_json)

-- An engine with a configuration, a server and a router.
abbrev pub Has : {R : Type 0} → GinConfig → Option Server → R → Engine R → Type 0
Has config server r e = (e.config ≡ config) × (e.server ≡ server) × (e.router ≡ some r)

on_router-Has :
    {R : Type 0} (config : GinConfig) (server : Option Server) (r : R) (f : R → R) (e : Engine R)
    → Has config server r e
    → Has config server (f r) (on_router f e)
on_router-Has config server r f e (has_config, has_server, has_router) =
    rw (has_router) (has_config, has_server, refl)

if-Has :
    {R : Type 0} (b : Bool) (config : GinConfig) (server : Option Server) (r : R) (f : R → R)
    (e : Engine R)
    → Has config server r e
    → Has config server (if b then f r else r) (if b then on_router f e else e)
if-Has true config server r f e h = on_router-Has config server r f e h
if-Has false config server r f e h = h

setup_default_middleware-Has :
    {R : Type 0} (g : Gin R) (server : Option Server) (r : R) (e : Engine R)
    → Has e.config server r e
    → Has e.config server
        (limiting g e.config (recovering g e.config r))
        (setup_default_middleware g e)
unfolding setup_default_middleware use_middleware
setup_default_middleware-Has g server r e h =
    let first =
      if-Has e.config.use_recovery e.config server r (λ q. g.use_ q (recovery ∷ [])) e h in
    if-Has (is_pos e.config.max_payload_size) e.config server (recovering g e.config r)
      (λ q. g.use_ q (payload_limit e.config.max_payload_size ∷ []))
      (if e.config.use_recovery then on_router (λ q. g.use_ q (recovery ∷ [])) e else e) first

setup_no_route_handler-Has :
    {R : Type 0} (g : Gin R) (config : GinConfig) (server : Option Server) (r : R) (e : Engine R)
    → Has config server r e
    → Has config server
        (g.set_no_route r (no_route config.no_route_to config.no_route_json))
        (setup_no_route_handler g e)
unfolding setup_no_route_handler
setup_no_route_handler-Has g config server r e h =
    let f : (k : GinConfig) → _ → _ =
      λ k q. g.set_no_route q (no_route k.no_route_to k.no_route_json) in
    let (has_config, has_server, has_router) = on_router-Has config server r (f e.config) e h in
    (has_config, has_server, has_router ∙ ap (λ k. some (f k r)) (h.0))

pub new_engine-Has :
    {R : Type 0} (decimal : ℕ → Text) (g : Gin R) (config : GinConfig)
    → Has config
        (some (server_for decimal config))
        (router_for g config)
        (new_engine decimal g config)
unfolding create_http_server
new_engine-Has {R} decimal g config =
    let r = create_router g config in
    let engine : Engine R = record {
      config = config;
      router = some r;
      server = some (server_for decimal config);
      tls_config = if config.use_ssl then some (create_tls_config config) else none;
      addr = build_address decimal config.host config.port;
    } in
    setup_no_route_handler-Has g config (some (server_for decimal config))
      (limiting g config (recovering g config r)) (setup_default_middleware g engine)
      (setup_default_middleware-Has g (some (server_for decimal config)) r engine
        (refl, refl, refl))

pub new_gin-new_engine :
    {R : Type 0} (decimal : ℕ → Text) (resolves : Text → Bool) (g : Gin R)
    (given : Option GinConfig) (debug : Bool) (e : Engine R)
    → new_gin decimal resolves g given ≡ ok (debug, e)
    → (debug ≡ (or_default given).debug_mode) × (e ≡ new_engine decimal g (or_default given))
unfolding new_gin
new_gin-new_engine decimal resolves g given debug e h =
    elim (Option-cases (validate_config decimal resolves (or_default given))) [
      | inl is ↦ (cc, cc)
      | inr (x, is) ↦ absurd (cc)
    ]

listen-Has :
    {R : Type 0} (s : Serving R) (config : GinConfig) (server : Server) (r : R) (e : Engine R)
    → Has config (some server) r e
    → listen s e ≡ (
        if config.use_ssl
        then s.listen_and_serve_tls server (some r) config.ssl_cert config.ssl_key
        else s.listen_and_serve server (some r))
unfolding listen
listen-Has s config server r e (has_config, has_server, has_router) =
    rw (listen, has_server, has_config, has_router) refl

-- When NewGin succeeds, Listen starts the server that the configuration describes (the address of host
-- and port, the timeouts, TLS with SSL, HTTP/2 with SSL only), by TLS with the certificate and the key
-- of the configuration if it has SSL and without TLS otherwise, and never answers that the server is
-- not initialized by itself.
pub new_gin-listen :
    {R : Type 0} (decimal : ℕ → Text) (resolves : Text → Bool) (g : Gin R)
    (given : Option GinConfig) (debug : Bool) (e : Engine R) (s : Serving R)
    → new_gin decimal resolves g given ≡ ok (debug, e)
    → listen s e ≡ (
        if (or_default given).use_ssl
        then s.listen_and_serve_tls
            (server_for decimal (or_default given))
            (some (router_for g (or_default given)))
            (or_default given).ssl_cert
            (or_default given).ssl_key
        else s.listen_and_serve
            (server_for decimal (or_default given))
            (some (router_for g (or_default given))))
new_gin-listen decimal resolves g given debug e s h =
    let (mode, is) = new_gin-new_engine decimal resolves g given debug e h in
    let config = or_default given in
    rw (is) (
      listen-Has s config (server_for decimal config) (router_for g config)
        (new_engine decimal g config) (new_engine-Has decimal g config))
