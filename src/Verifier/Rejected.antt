-- ===== src/Verifier/Rejected.antt =====
-- What a rejected token of oidcauth/oidc.go is rejected with.
use gobox.Base.{◌≡◌, ◌⊎◌, inl, inr, refl, true, none, some, Bool-cases, Option-cases}
use gobox.Base.Text.{Text}
use gobox.Base.Errors.{Error, Result, ok, err, wrap, error_is, error_is-wrap, Result-cases}
use gobox.Claims.{Claims}
use gobox.Session.{Instant}
use gobox.Introspection.{Answer, access_token_inactive, looks_like_jwt}
use gobox.Verifier.{
  Cache, Oidc, Local, classified, local_only, cached, check_local, check_remote, after_local,
  verify, token_validation_failed,
}
use gobox.Verifier.Accepted.{finish-claims}

abbrev pub IsRejection : Error → Type 0
IsRejection e =
    (error_is e token_validation_failed ≡ true) ⊎ (error_is e access_token_inactive ≡ true)

-- No error, or a rejection.
abbrev pub Rejects : Result Claims → Type 0
Rejects (ok c) = Unit
Rejects (err e) = IsRejection e

wrapped : (e : Error) → IsRejection (wrap token_validation_failed e)
wrapped e = inl (error_is-wrap token_validation_failed e)

classified-Rejects : (known : Local) (r : Result Claims) → Rejects (classified known r)
unfolding classified
classified-Rejects none (ok d) = tt
classified-Rejects (some (local, t)) (ok d) = tt
classified-Rejects known (err e) = elim (Bool-cases (error_is e access_token_inactive)) [
  | inl yes_ ↦ rw (yes_) (inr yes_)
  | inr no_ ↦ rw (no_) (wrapped e)
]

local_only-Rejects : (known : Local) → Rejects (local_only known)
unfolding local_only
local_only-Rejects none = inl (unfold error_is in refl)
local_only-Rejects (some (d, t)) = tt

module _ {K : Type 0} (ops : Cache K) (sha : Text → Text)
    (verify_local : Text → Result (Claims × Instant)) where
  check_remote-Rejects :
      (o : Oidc K) (token : Text) (known : Local) (begun later : Instant) (answer : Error ⊎ Answer)
      → Rejects (check_remote ops sha verify_local o token known begun later answer).2
  unfolding check_remote
  check_remote-Rejects o token known begun later answer =
      elim (Bool-cases o.disable_introspection) [
        | inl off ↦ rw (off) (local_only-Rejects known)
        | inr on ↦ rw (on) (classified-Rejects known _)
      ]

  check_local-Rejects :
      (token : Text) (e : Error) → check_local ops sha verify_local token ≡ err e → IsRejection e
  unfolding check_local
  check_local-Rejects token e is = elim (Bool-cases (looks_like_jwt token)) [
    | inl jwt ↦ elim (Result-cases (verify_local token)) [
      | inl (x, good) ↦ let f = rw (jwt, good, check_local) at is in absurd (cc)
      | inr (f, bad) ↦
          let x = rw (jwt, bad, check_local) at is in
          let same : wrap token_validation_failed f ≡ e = (cc) in rw (← same) (wrapped f)
    ]
    | inr opaque_ ↦ let f = rw (opaque_, check_local) at is in absurd (cc)
  ]

  -- Every error of Verify wraps ErrTokenValidationFailed or ErrAccessTokenInactive.
  verify-Rejects :
      (o : Oidc K) (token : Text) (now begun later : Instant) (answer : Error ⊎ Answer)
      → Rejects (verify ops sha verify_local o token now begun later answer).2
  unfolding verify after_local
  verify-Rejects o token now begun later answer =
      elim (Option-cases (cached ops sha verify_local o.cache token now)) [
        | inl miss ↦ elim (Result-cases (check_local ops sha verify_local token)) [
          | inl (known, local) ↦
              rw (miss, local, after_local, verify, finish-claims ops sha verify_local o token now)
                (check_remote-Rejects o token known begun later answer)
          | inr (e, failed) ↦
              rw (miss, failed, after_local, verify) (check_local-Rejects token e failed)
        ]
        | inr (d, hit) ↦ rw (hit, verify) tt
      ]
