-- ===== src/Verifier/Reuse.antt =====
-- The cache of claims attached to the verifier of oidcauth/oidc.go.
use gobox.Base.{◌+◌, ◌<◌, ◌≡◌, ◌⊎◌, inl, inr, refl, true, none, some, List, [], arith}
use gobox.Base.Text.{Text, text_eq_refl}
use gobox.Base.Int.{is_pos}
use gobox.Base.Errors.{Error, Result, ok, err, Result-cases}
use gobox.Claims.{Claims}
use gobox.Session.{Instant}
use gobox.MemoryCache.{MemoryCache, get, set, unix_time}
use gobox.MemoryCache.Lookups.{get-set}
use gobox.Introspection.{Introspector, Event, Answer}
use gobox.Verifier.{
  Oidc, memory_cache, cached, remember, check_local, check_remote, finish, after_local, verify,
}
use gobox.Verifier.Accepted.{finish-claims}

-- Neither the duration of the cache nor the token has run out at t.
abbrev pub InLife : MemoryCache → Claims → Instant → Instant → Type 0
InLife k c now t = (t < now + k.duration) × ((is_pos c.exp ≡ true) → t < unix_time c.exp)

found_again :
    (k : MemoryCache) (key : Text) (c : Claims) (now t : Instant)
    → InLife k c now t
    → get (set k key c now) key t ≡ some c
found_again k key c now t h =
    rw (get-set k key key c now t, text_eq_refl key) (ground (arith, h.0, h.1))

module _ (sha : Text → Text) (verify_local : Text → Result (Claims × Instant)) where
  finish-cache :
      (o : Oidc MemoryCache) (k : MemoryCache) (token : Text) (now : Instant) (c : Claims)
      (x : Introspector × List Event × Result Claims)
      → o.cache ≡ some k
      → x.2 ≡ ok c
      → (finish memory_cache sha verify_local o token now x).0.cache
        ≡ some (set k (sha token) c now)
  unfolding finish remember
  finish-cache o k token now c (i, events, ok d) has is =
      let same : d ≡ c = (cc) in rw (has, same, remember) refl
  finish-cache o k token now c (i, events, err e) has is = absurd (cc)

  verify-cache :
      (o : Oidc MemoryCache) (k : MemoryCache) (token : Text) (now begun later : Instant)
      (answer : Error ⊎ Answer) (c : Claims)
      → o.cache ≡ some k
      → get k (sha token) now ≡ none
      → (verify memory_cache sha verify_local o token now begun later answer).2 ≡ ok c
      → (verify memory_cache sha verify_local o token now begun later answer).0.cache
        ≡ some (set k (sha token) c now)
  unfolding verify after_local cached
  verify-cache o k token now begun later answer c has miss is =
      elim (Result-cases (check_local memory_cache sha verify_local token)) [
        | inl (known, local) ↦
            let x = check_remote memory_cache sha verify_local o token known begun later answer in
            let e : x.2 ≡ ok c =
              rw (← finish-claims memory_cache sha verify_local o token now x)
                (rw (has, cached, miss, local, after_local, verify) at is) in
            rw (has, cached, miss, local, after_local, verify)
              (finish-cache o k token now c x has e)
        | inr (e, failed) ↦
            let x = rw (has, cached, miss, failed, after_local, verify) at is in absurd (cc)
      ]

  verify_hit :
      (o : Oidc MemoryCache) (token : Text) (t begun later : Instant) (answer : Error ⊎ Answer)
      (c : Claims)
      → cached memory_cache sha verify_local o.cache token t ≡ some c
      → verify memory_cache sha verify_local o token t begun later answer ≡ (o, [], ok c)
  unfolding verify
  verify_hit o token t begun later answer c hit = rw (hit, verify) refl

  -- A token that was accepted without a hit of the attached cache is accepted again, with the same
  -- claims, with no local check and no introspection, whatever the issuer would answer, until the
  -- duration of the cache or the token's own exp claim runs out.
  verify_again :
      (o : Oidc MemoryCache) (k : MemoryCache) (token : Text) (now begun later : Instant)
      (answer : Error ⊎ Answer) (c : Claims) (t begun₂ later₂ : Instant) (answer₂ : Error ⊎ Answer)
      → o.cache ≡ some k
      → get k (sha token) now ≡ none
      → (verify memory_cache sha verify_local o token now begun later answer).2 ≡ ok c
      → InLife k c now t
      → let o₁ = (verify memory_cache sha verify_local o token now begun later answer).0 in
        verify memory_cache sha verify_local o₁ token t begun₂ later₂ answer₂ ≡ (o₁, [], ok c)
  unfolding cached get
  verify_again o k token now begun later answer c t begun₂ later₂ answer₂ has miss is life =
      verify_hit _ token t begun₂ later₂ answer₂ c (
        rw (verify-cache o k token now begun later answer c has miss is, cached)
          (found_again k (sha token) c now t life))
