-- ===== src/Verifier/Accepted.antt =====
-- What an accepted token of oidcauth/oidc.go rests on.
use gobox.Base.{
  ◌≡◌, ◌⊎◌, inl, inr, refl, Bool, true, false, none, some, List, [], ◌∷◌, Bool-cases, Option-cases,
  ◌&&◌, ◌==◌, ◌↔◌, length, arith,
}
use gobox.Base.Text.{Text, is_empty, split_on}
use gobox.Base.Errors.{Error, Result, ok, err, Result-cases}
use gobox.Claims.{Claims}
use gobox.Session.{Instant}
use gobox.Introspection.{Introspector, Event, Answer, introspect, looks_like_jwt, all_filled}
use gobox.Verifier.{
  Cache, Oidc, Local, known_expiry, classified, local_only, cached, check_local, check_remote,
  finish, after_local, verify,
}

-- The claims come of the token itself, or of the introspection of a token without claims.
abbrev pub Source : Local → Result Claims → Claims → Type 0
Source none r c = r ≡ ok c
Source (some (local, t)) r c = (local ≡ c) × ((d : Claims) × (r ≡ ok d))

-- What the check at the issuer says: without it, the token was verified locally.
abbrev pub Vouched : Bool → Local → Result Claims → Claims → Type 0
Vouched true known r c = (t : Instant) × (known ≡ some (c, t))
Vouched false known r c = Source known r c

-- A token of three filled parts between dots.
abbrev pub HasParts : Text → Type 0
HasParts token =
    (header : Text) × (payload : Text) × (signature : Text) × (split_on b'.' token
      ≡ header ∷ payload ∷ signature ∷ [])
    × (is_empty header ≡ false)
    × (is_empty payload ≡ false)
    × (is_empty signature ≡ false)

three_filled :
    (parts : List Text)
    → (length parts == 3 && all_filled parts) ≡ true
    → (a : Text) × (b : Text) × (c : Text) × (parts ≡ a ∷ b ∷ c ∷ [])
      × (is_empty a ≡ false)
      × (is_empty b ≡ false)
      × (is_empty c ≡ false)
three_filled [] h = absurd (cc)
three_filled (a ∷ []) h = absurd (cc)
three_filled (a ∷ b ∷ []) h = absurd (cc)
three_filled (a ∷ b ∷ c ∷ []) h = (a, b, c, refl, ground arith, ground arith, ground arith)
three_filled (a ∷ b ∷ c ∷ d ∷ rest) h = absurd (ground (arith, h))

looks_like_jwt_iff : (token : Text) → (looks_like_jwt token ≡ true) ↔ HasParts token
unfolding looks_like_jwt
looks_like_jwt_iff token = (
  λ h. three_filled (split_on b'.' token) h,
  λ (a, b, c, is, x, y, z). rw (looks_like_jwt, is, x, y, z) refl,
)

classified-Source :
    (known : Local) (r : Result Claims) (c : Claims) → classified known r ≡ ok c → Source known r c
unfolding classified
classified-Source none (ok d) c is = is
classified-Source none (err e) c is = absurd (cc)
classified-Source (some (local, t)) (ok d) c is = ((cc), (d, refl))
classified-Source (some (local, t)) (err e) c is = absurd (cc)

local_only-some :
    (known : Local) (c : Claims) → local_only known ≡ ok c → (t : Instant) × (known ≡ some (c, t))
unfolding local_only
local_only-some none c is = absurd (cc)
local_only-some (some (d, t)) c is = (t, (cc))

module _ {K : Type 0} (ops : Cache K) (sha : Text → Text)
    (verify_local : Text → Result (Claims × Instant)) where
  pub finish-claims :
      (o : Oidc K) (token : Text) (now : Instant) (x : Introspector × List Event × Result Claims)
      → (finish ops sha verify_local o token now x).2 ≡ x.2
  unfolding finish
  finish-claims o token now (i, events, ok c) = refl
  finish-claims o token now (i, events, err e) = refl

  check_remote-Vouched :
      (o : Oidc K) (token : Text) (known : Local) (begun later : Instant) (answer : Error ⊎ Answer)
      (c : Claims)
      → (check_remote ops sha verify_local o token known begun later answer).2 ≡ ok c
      → Vouched o.disable_introspection known
          (introspect sha o.introspector token (known_expiry known) begun later answer).2
          c
  unfolding check_remote
  check_remote-Vouched o token known begun later answer c is =
      elim (Bool-cases o.disable_introspection) [
        | inl off ↦ rw (off) (local_only-some known c (rw (off, check_remote) at is))
        | inr on ↦ rw (on) (classified-Source known _ c (rw (on, check_remote) at is))
      ]

  -- A signed token: the library verifies it, and the issuer does not deny it, if it is asked.
  abbrev pub Signed : Oidc K → Text → Instant → Instant → Error ⊎ Answer → Claims → Type 0
  Signed o token begun later answer c =
      (t : Instant) × HasParts token
      × (verify_local token ≡ ok (c, t))
      × ((o.disable_introspection ≡ true)
          ⊎ ((d : Claims) × ((introspect sha o.introspector token t begun later answer).2 ≡ ok d)))

  -- An opaque token: the issuer is asked, and gives the claims.
  abbrev pub Opaque : Oidc K → Text → Instant → Instant → Error ⊎ Answer → Claims → Type 0
  Opaque o token begun later answer c =
      (¬ HasParts token)
      × (o.disable_introspection ≡ false)
      × ((introspect sha o.introspector token 0 begun later answer).2 ≡ ok c)

  -- The grounds on which a token is accepted.
  abbrev pub Grounds :
      Oidc K → Text → Instant → Instant → Instant → Error ⊎ Answer → Claims → Type 0
  Grounds o token now begun later answer c =
      (cached ops sha verify_local o.cache token now ≡ some c)
      ⊎ (Signed o token begun later answer c ⊎ Opaque o token begun later answer c)

  Signed-Vouched :
      (o : Oidc K) (token : Text) (begun later : Instant) (answer : Error ⊎ Answer)
      (x : Claims × Instant) (c : Claims)
      → HasParts token
      → verify_local token ≡ ok x
      → Vouched o.disable_introspection
          (some x)
          (introspect sha o.introspector token (known_expiry (some x)) begun later answer).2
          c
      → Signed o token begun later answer c
  Signed-Vouched o token begun later answer (local, t) c parts good vouched =
      elim (Bool-cases o.disable_introspection) [
        | inl off ↦
            let (u, is) = rw (off) at vouched in
            let same : local ≡ c = (cc) in (t, parts, rw (good, same) refl, inl off)
        | inr on ↦
            let (same, there) = rw (on) at vouched in (t, parts, rw (good, same) refl, inr there)
      ]

  Opaque-Vouched :
      (o : Oidc K) (token : Text) (begun later : Instant) (answer : Error ⊎ Answer) (c : Claims)
      → (¬ HasParts token)
      → Vouched o.disable_introspection none
          (introspect sha o.introspector token 0 begun later answer).2
          c
      → Opaque o token begun later answer c
  Opaque-Vouched o token begun later answer c parts vouched =
      elim (Bool-cases o.disable_introspection) [
        | inl off ↦ let (u, is) = rw (off) at vouched in absurd (cc)
        | inr on ↦ let is = rw (on) at vouched in (parts, on, is)
      ]

  -- What follows a local check that does not fail.
  check_local-Grounds :
      (o : Oidc K) (token : Text) (begun later : Instant) (answer : Error ⊎ Answer) (known : Local)
      (c : Claims)
      → check_local ops sha verify_local token ≡ ok known
      → Vouched o.disable_introspection known
          (introspect sha o.introspector token (known_expiry known) begun later answer).2
          c
      → Signed o token begun later answer c ⊎ Opaque o token begun later answer c
  unfolding check_local
  check_local-Grounds o token begun later answer known c is vouched =
      elim (Bool-cases (looks_like_jwt token)) [
        | inl jwt ↦ elim (Result-cases (verify_local token)) [
          | inl (x, good) ↦
              let y = rw (jwt, good, check_local) at is in
              let same : known ≡ some x = (cc) in
              inl (
                Signed-Vouched o token begun later answer x c ((looks_like_jwt_iff token).0 jwt)
                  good (rw (same) at vouched))
          | inr (e, bad) ↦ let y = rw (jwt, bad, check_local) at is in absurd (cc)
        ]
        | inr other ↦
            let y = rw (other, check_local) at is in
            let same : known ≡ none = (cc) in
            inr (
              Opaque-Vouched o token begun later answer c
                (λ parts. let z = (looks_like_jwt_iff token).1 parts in absurd (cc))
                (rw (same) at vouched))
      ]

  -- Verify accepts a token only by a hit of its cache; or a token of three filled parts between dots
  -- that the library verifies and that, unless introspection is disabled, the introspection does not
  -- reject; or another token, with introspection enabled, that the introspection accepts. The claims
  -- are the cached ones, those of the verified token, or the introspected ones of the other token.
  pub verify-Grounds :
      (o : Oidc K) (token : Text) (now begun later : Instant) (answer : Error ⊎ Answer) (c : Claims)
      → (verify ops sha verify_local o token now begun later answer).2 ≡ ok c
      → Grounds o token now begun later answer c
  unfolding verify after_local
  verify-Grounds o token now begun later answer c is =
      elim (Option-cases (cached ops sha verify_local o.cache token now)) [
        | inl miss ↦ elim (Result-cases (check_local ops sha verify_local token)) [
          | inl (known, local) ↦
              let y = rw (miss, local, after_local, verify) at is in
              inr (
                check_local-Grounds o token begun later answer known c local (
                  check_remote-Vouched o token known begun later answer c
                    (rw (← finish-claims o token now _) y)))
          | inr (e, failed) ↦ let x = rw (miss, failed, after_local, verify) at is in absurd (cc)
        ]
        | inr (d, hit) ↦
            let x = rw (hit, verify) at is in let same : d ≡ c = (cc) in inl (rw (← same) hit)
      ]
