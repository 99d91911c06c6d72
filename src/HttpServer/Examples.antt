-- ===== src/HttpServer/Examples.antt =====
-- Runs of httpserver/gin.go and httpserver/download_file.go.
use gobox.Base.{ℕ, ◌≡◌, refl, Bool, true, false, none, some, List, [], ◌∷◌, ◌++◌}
use gobox.Base.Text.{Text, codes, text_eq}
use gobox.Base.Int.{pos}
use gobox.Base.Errors.{ok, err, sentinel}
use gobox.HttpServer.{GinConfig, Handler, custom, Gin, Engine, new_gin, new_engine, use_middleware}
use gobox.HttpServer.Listening.{Serving, listen}
use gobox.HttpServer.Ready.{IsServable, server_for, router_for, new_gin_iff, new_gin-listen}
use gobox.HttpServer.Payload.{
  HandlersOf, IsCut, handlers_of, body_at, read_all, whole, new_gin-IsCut,
}
use gobox.HttpServer.Download.{Media, download_file, sanitize_filename}
use gobox.HttpServer.FileNames.{IsFileName, sanitize_filename_iff}
use gobox.HttpServer.Headers.{download_file-Sets}
use mathlib.Core.Logic.{◌↔◌}

-- A router that is the list of its handlers.
abbrev listing : Gin (List Handler)
listing = record {
  new_router = [];
  use_ = λ r hs. r ++ hs;
  set_trusted_proxies = λ r ps. r;
  set_no_route = λ r h. r;
}

listing-HandlersOf : HandlersOf listing (λ r. r)
listing-HandlersOf = record {
  of_new = refl;
  of_use = λ r hs. refl;
  of_trusted = λ r ps. refl;
  of_no_route = λ r h. refl;
}

abbrev decimal : ℕ → Text
decimal n = codes "443"

abbrev resolves : Text → Bool
resolves s = true

abbrev with_ssl : GinConfig
with_ssl = record {
  host = codes "example.org";
  port = 443;
  debug_mode = false;
  read_timeout = pos 1;
  write_timeout = pos 1;
  idle_timeout = pos 1;
  use_ssl = true;
  ssl_cert = codes "cert.pem";
  ssl_key = codes "key.pem";
  min_tls_version = 0;
  enable_http2 = true;
  no_route_to = [];
  no_route_json = true;
  use_recovery = true;
  trusted_proxies = [];
  max_payload_size = pos 2;
}

abbrev serving : Serving (List Handler)
serving = record {
  listen_and_serve = λ s r. none;
  listen_and_serve_tls = λ s r cert key. some (sentinel "http: Server closed");
  shutdown = λ s r. none;
}

no_port :
    new_gin decimal resolves listing (some (record with_ssl { port = 0 }))
    ≡ err (sentinel "ErrInvalidListenAddress")
unfolding new_gin
no_port = refl

no_key :
    new_gin decimal resolves listing (some (record with_ssl { ssl_key = [] }))
    ≡ err (sentinel "ErrInvalidSSLConfig")
unfolding new_gin text_eq
no_key = refl

new_gin-listen_test :
    listen serving (new_engine decimal listing with_ssl)
    ≡ serving.listen_and_serve_tls
        (server_for decimal with_ssl)
        (some (router_for listing with_ssl))
        (codes "cert.pem")
        (codes "key.pem")
unfolding new_gin text_eq
new_gin-listen_test =
    new_gin-listen decimal resolves listing (some with_ssl) false
      (new_engine decimal listing with_ssl) serving refl

new_gin_iff_test :
    ((x : Bool × Engine (List Handler)) × (new_gin decimal resolves listing (some with_ssl) ≡ ok x))
    ↔ IsServable decimal resolves with_ssl
new_gin_iff_test = new_gin_iff decimal resolves listing (some with_ssl)

new_gin-IsCut_example : IsCut 2 (1 ∷ 2 ∷ 3 ∷ []) (
    read_all (
      body_at
        (handlers_of
          (λ r. r)
          (use_middleware listing (custom 0 ∷ []) (new_engine decimal listing with_ssl)).router)
        (whole (1 ∷ 2 ∷ 3 ∷ []))))
unfolding new_gin text_eq
new_gin-IsCut_example =
    new_gin-IsCut listing (λ r. r) listing-HandlersOf decimal resolves (some with_ssl) false
      (new_engine decimal listing with_ssl) 0 [] (1 ∷ 2 ∷ 3 ∷ []) refl refl

abbrev media : Media
media = record {
  type_by_extension = λ e. [];
  detect = λ content. codes "text/plain";
  format_attachment = λ name. codes "attachment; filename=" ++ name;
  decimal = decimal;
}

climbing : sanitize_filename (codes "../../etc/passwd") ≡ codes "passwd"
unfolding sanitize_filename
climbing = refl

dots_stay : sanitize_filename (codes "..") ≡ codes ".."
unfolding sanitize_filename
dots_stay = refl

sanitize_filename_iff_example :
    IsFileName (sanitize_filename (codes "..\\a\n.txt"))
    × ((sanitize_filename (codes "..\\a\n.txt") ≡ codes "..\\a\n.txt")
        ↔ IsFileName (codes "..\\a\n.txt"))
sanitize_filename_iff_example = sanitize_filename_iff (codes "..\\a\n.txt")

download_file-Sets_test :
    (name : Text) × IsFileName name
    × ((download_file media (λ b. none) (codes "a/b.csv") [] (7 ∷ []) []).0.status ≡ 200)
download_file-Sets_test =
    let (name, safe, status, rest, written, sets) =
      download_file-Sets media (λ b. none) (codes "a/b.csv") [] (7 ∷ []) [] in
    (name, safe, status)
