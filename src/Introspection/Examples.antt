-- ===== src/Introspection/Examples.antt =====
-- Runs of oidcauth/introspection.go.
use gobox.Base.{
  ℕ, ◌+◌, ◌<◌, ◌≡◌, ◌⊎◌, inl, inr, refl, ap, Bool, true, false, Option, none, some, List, [], ◌∷◌,
}
use gobox.Base.Text.{codes, text_eq, split_on}
use gobox.Base.Int.{pos}
use gobox.Base.Errors.{Error, ok, err, sentinel}
use gobox.Base.Dict.{lookup, insert}
use gobox.Claims.{no_claims}
use gobox.Introspection.{
  Introspector, Event, Answer, response, introspect, requested, received, do_introspect, find,
  store, effective_expiry, looks_like_jwt, access_token_inactive, token_inactive, cache_miss,
  cache_hit,
}
use gobox.Introspection.History.{Action, call, sweep, run, answer_grants, grants, Any}
use gobox.Introspection.Window.{Recent}
use gobox.Introspection.Revocation.{introspect-Recent}

abbrev empty : Introspector
empty = record { endpoint = codes "https://i"; http_timeout = 10; cache_ttl = pos 60; entries = [] }

abbrev active : Error ⊎ Answer
active = inr (response 200 (ok (true, no_claims)))

abbrev inactive : Error ⊎ Answer
inactive = inr (response 200 (ok (false, no_claims)))

abbrev past : List Action
past = call (codes "t") 0 100 105 active ∷ sweep 120 ∷ []

-- The token is revoked at 110, and still accepted from the cache at 140.
still_accepted :
    introspect (λ t. t) (run (λ t. t) empty past) (codes "t") 0 140 140 inactive
    ≡ (run (λ t. t) empty past, cache_hit ∷ [], ok no_claims)
unfolding run introspect requested received do_introspect find store effective_expiry insert lookup
    text_eq gobox.Introspection.evict gobox.Base.Dict.retain
still_accepted = refl

rejected_later :
    (introspect (λ t. t) (run (λ t. t) empty past) (codes "t") 0 165 166 inactive).2
    ≡ err (sentinel access_token_inactive)
unfolding run introspect requested received do_introspect find store effective_expiry insert lookup
    text_eq gobox.Introspection.evict gobox.Base.Dict.retain
rejected_later = refl

jwt_shape : looks_like_jwt (codes "h.p.s") ≡ true
unfolding looks_like_jwt split_on
jwt_shape = refl

opaque_shape : looks_like_jwt (codes "h..s") ≡ false
unfolding looks_like_jwt split_on
opaque_shape = refl

introspect-Recent_example :
    (answer_grants (codes "t") 140 inactive
      ≡ record { key = codes "t"; claims = no_claims; at = 140 } ∷ [])
    ⊎ Any (Recent 60 (codes "t") no_claims 140) (grants (λ t. t) past)
introspect-Recent_example =
    introspect-Recent (λ t. t) empty past (codes "t") 0 140 140 inactive no_claims refl
      (ap (λ r. r.2) still_accepted)
