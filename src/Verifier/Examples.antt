-- ===== src/Verifier/Examples.antt =====
-- Runs of the verifier of oidcauth/oidc.go.
use gobox.Base.{◌≡◌, ◌⊎◌, inr, refl, true, false, Option, some, [], if◌then◌else◌}
use gobox.Base.Text.{Text, codes, text_eq, split_on}
use gobox.Base.Int.{pos}
use gobox.Base.Errors.{Error, Result, ok, err, sentinel}
use gobox.Base.Dict.{lookup, insert}
use gobox.Claims.{Claims, no_claims}
use gobox.Session.{Instant}
use gobox.MemoryCache.{MemoryCache, get, set, expiry}
use gobox.Introspection.{
  Introspector, Answer, response, introspect, requested, received, do_introspect, find, store,
  effective_expiry, looks_like_jwt,
}
use gobox.Verifier.{
  Oidc, Config, memory_cache, cached, remember, check_local, check_remote, classified, finish,
  after_local, verify,
}
use gobox.Verifier.Accepted.{Grounds, verify-Grounds}
use gobox.Verifier.Reuse.{}

abbrev issuer : Introspector
issuer = record { endpoint = codes "https://i"; http_timeout = 10; cache_ttl = pos 0; entries = [] }

abbrev attached : MemoryCache
attached = record { duration = 60; entries = [] }

abbrev oidc : Oidc MemoryCache
oidc = record { disable_introspection = false; introspector = issuer; cache = some attached }

-- A library that accepts one token.
abbrev verify_local : Text → Result (Claims × Instant)
verify_local token =
    if text_eq token (codes "h.p.s") then ok (no_claims, 500) else err (sentinel "signature")

abbrev active : Error ⊎ Answer
active = inr (response 200 (ok (true, no_claims)))

abbrev inactive : Error ⊎ Answer
inactive = inr (response 200 (ok (false, no_claims)))

accepted :
    (verify memory_cache (λ t. t) verify_local oidc (codes "h.p.s") 100 101 102 active).2
    ≡ ok no_claims
unfolding verify cached check_local check_remote classified finish after_local remember
    looks_like_jwt split_on introspect requested received do_introspect find store effective_expiry
    insert lookup text_eq get set expiry
accepted = refl

verify-Grounds_example :
    Grounds memory_cache (λ t. t) verify_local oidc (codes "h.p.s") 100 101 102 active no_claims
verify-Grounds_example =
    verify-Grounds memory_cache (λ t. t) verify_local oidc (codes "h.p.s") 100 101 102 active
      no_claims accepted

abbrev config : Config
config = record {
  realm_url = codes "https://kc/realms/main";
  client_id = codes "app";
  client_secret = codes "s3cret";
  request_timeout = pos 0;
  disable_introspection = false;
  introspection_endpoint = [];
  introspection_cache_ttl = pos 60;
  introspection_http_timeout = pos 0;
}

abbrev filled : Config
filled = record config {
  request_timeout = pos 30000000000;
  introspection_http_timeout = pos 10000000000;
}

abbrev built : Introspector
built = record {
  endpoint = codes "https://kc/introspect";
  http_timeout = 10000000000;
  cache_ttl = pos 60;
  entries = [];
}

abbrev parse_url : Text → Option (Text × Text)
parse_url url = some (codes "https", codes "kc")

abbrev discover : Text → Result (Result Text)
discover url = ok (ok (codes "https://kc/introspect"))
