-- ===== src/HttpServer/Listening.antt =====
-- How an engine of httpserver/gin.go serves, and how it ends.
use gobox.Base.{Option, none, some, if◌then◌else◌}
use gobox.Base.Text.{Text}
use gobox.Base.Errors.{Error, sentinel}
use gobox.HttpServer.{Server, Engine}

-- What a server with a handler answers when it is told to serve or to end.
pub record Serving (R : Type 0) : Type 0 where
  pub listen_and_serve : Server → Option R → Option Error
  pub listen_and_serve_tls : Server → Option R → Text → Text → Option Error
  pub shutdown : Server → Option R → Option Error

-- `Listen`
unfoldable pub listen : {R : Type 0} → Serving R → Engine R → Option Error
listen s e = elim e.server [
  | none ↦ some (sentinel "ErrServerNotInitialized")
  | some server ↦
      if e.config.use_ssl
      then s.listen_and_serve_tls server e.router e.config.ssl_cert e.config.ssl_key
      else s.listen_and_serve server e.router
]

-- `ListenAndServeTLS`
unfoldable pub listen_and_serve_tls :
    {R : Type 0} → Serving R → Engine R → Text → Text → Option Error
listen_and_serve_tls s e cert key = elim e.server [
  | none ↦ some (sentinel "ErrServerNotInitialized")
  | some server ↦ s.listen_and_serve_tls server e.router cert key
]

-- `Shutdown`
unfoldable pub shutdown : {R : Type 0} → Serving R → Engine R → Option Error
shutdown s e = elim e.server [
  | none ↦ some (sentinel "ErrServerNotInitialized")
  | some server ↦ s.shutdown server e.router
]
