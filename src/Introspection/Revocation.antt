-- ===== src/Introspection/Revocation.antt =====
-- What a positive result of oidcauth/introspection.go rests on.
use gobox.Base.{◌≡◌, ◌⊎◌, inl, inr, refl, some, List, [], ◌∷◌, Bool-cases, Option-cases}
use gobox.Base.Text.{Text, is_empty}
use gobox.Base.Int.{pos_part, is_pos}
use gobox.Base.Errors.{Error, Result, ok, err}
use gobox.Claims.{Claims}
use gobox.Session.{Instant}
use gobox.Introspection.{
  Introspector, Event, Answer, do_introspect, find, received, requested, introspect, cache_miss,
}
use gobox.Introspection.History.{Action, run, answer_grants, grants, Any}
use gobox.Introspection.Window.{active_answer, Recent, find-Recent, IsBacked, run-IsBacked}

received-ok :
    (i : Introspector) (key : Text) (later known : Instant) (answer : Answer) (events : List Event)
    (r : List Event × Result (Claims × Instant)) (c : Claims)
    → do_introspect i later known answer ≡ r
    → (received i key events r).2 ≡ ok c
    → answer_grants key later (inr answer) ≡ record { key = key; claims = c; at = later } ∷ []
unfolding received
received-ok i key later known answer events (more, err e) c run is = absurd (cc)
received-ok i key later known answer events (more, ok (claims, t)) c run is =
    let same : claims ≡ c = (cc) in
    rw (← same) (active_answer i key later known answer more claims t run).0

requested-ok :
    (i : Introspector) (key : Text) (later known : Instant) (events : List Event)
    (answer : Error ⊎ Answer) (c : Claims)
    → (requested i key later known events answer).2 ≡ ok c
    → answer_grants key later answer ≡ record { key = key; claims = c; at = later } ∷ []
unfolding requested
requested-ok i key later known events (inl e) c is = absurd (cc)
requested-ok i key later known events (inr answer) c is =
    received-ok i key later known answer events (do_introspect i later known answer) c refl is

introspect-ok :
    (sha : Text → Text) (i : Introspector) (token : Text) (known now later : Instant)
    (answer : Error ⊎ Answer) (c : Claims)
    → (introspect sha i token known now later answer).2 ≡ ok c
    → (answer_grants (sha token) later answer
        ≡ record { key = sha token; claims = c; at = later } ∷ [])
      ⊎ (find i (sha token) now ≡ some c)
unfolding introspect
introspect-ok sha i token known now later answer c is = elim (Bool-cases (is_empty token)) [
  | inl blank ↦ let e = rw (blank, introspect) at is in absurd (cc)
  | inr given ↦ elim (Bool-cases (is_pos i.cache_ttl)) [
    | inl on ↦ elim (Option-cases (find i (sha token) now)) [
      | inl miss ↦ inl (
          requested-ok i (sha token) later known (cache_miss ∷ []) answer c
            (rw (given, on, miss, introspect) at is))
      | inr (d, hit) ↦
          let e = rw (given, on, hit, introspect) at is in
          let same : d ≡ c = (cc) in inr (rw (← same) hit)
    ]
    | inr off ↦
        inl (requested-ok i (sha token) later known [] answer c (rw (given, off, introspect) at is))
  ]
]

-- After any history of an introspector that starts with an empty cache, a positive result of
-- `Introspect` is the answer that the issuer has just given, or the issuer called a token with the
-- same digest active, with the same claims, less than CacheTTL before the lookup.
pub introspect-Recent :
    (sha : Text → Text) (i : Introspector) (actions : List Action) (token : Text)
    (known now later : Instant) (answer : Error ⊎ Answer) (c : Claims)
    → i.entries ≡ []
    → (introspect sha (run sha i actions) token known now later answer).2 ≡ ok c
    → (answer_grants (sha token) later answer
        ≡ record { key = sha token; claims = c; at = later } ∷ [])
      ⊎ Any (Recent (pos_part i.cache_ttl) (sha token) c now) (grants sha actions)
introspect-Recent sha i actions token known now later answer c empty is =
    let after = run sha i actions in
    let ttl = pos_part i.cache_ttl in
    let start : IsBacked ttl [] i = (rw empty tt, refl) in
    elim (introspect-ok sha after token known now later answer c is) [
      | inl fresh ↦ inl fresh
      | inr hit ↦ inr (
          find-Recent after ttl (sha token) (grants sha actions) c now _
            (run-IsBacked sha ttl [] i actions start) refl hit)
    ]
