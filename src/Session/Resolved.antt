-- ===== src/Session/Resolved.antt =====
-- The sessions that `Resolve` of oidcauth/session_manager.go hands out.
use gobox.Base.{
  ℕ, ◌≡◌, refl, ◌<◌, ◌⊎◌, inl, inr, false, Option, none, some, arith, ltb, Bool-cases, ltb→lt,
}
use gobox.Base.Text.{Text}
use gobox.Base.Errors.{Error, Result, ok, err}
use gobox.Claims.{Claims}
use gobox.Session.{Instant, Session, Settings, is_expired}
use gobox.Session.Manager.{
  Services, revalidate, after_revalidate, resolve_loaded, resolve_got, resolve,
}
use gobox.Session.Contract.{Contract}
use gobox.Session.Success.{Refreshed, refresh-Refreshed}

module _ {W : Type 0} (v : Services W) (view : W → Text → Option Session) (grants : W → ℕ)
    (law : Contract v view grants) (m : Settings) (now : Instant) where
  -- What a successful `Resolve` has done.
  pub data Resolved (w : W) (id : Text) (w' : W) (x : Session) : Type 0 where
    seen :
        (s : Session)
        → view w id ≡ some s
        → is_expired m s now ≡ false
        → now < s.tokens.access_token_expires_at
        → (m.has_verifier ≡ false) ⊎ ((c : Claims) × ((v.verify w s.tokens.access_token).1 ≡ ok c))
        → x ≡ record s { last_seen_at = now }
        → Resolved w id w' x
    refreshed :
        (s : Session)
        → view w id ≡ some s
        → is_expired m s now ≡ false
        → Refreshed v view grants law m now w id w' x
        → Resolved w id w' x

  abbrev Resolves : W → Text → W → Option Session → Type 0
  Resolves w id w' r = (x : Session) × (r ≡ some x) × Resolved w id w' x

  accepted :
      (w : W) (token : Text) (answer : Result Claims)
      → (v.verify w token).1 ≡ answer
      → (revalidate v m w token).1 ≡ none
      → (m.has_verifier ≡ false) ⊎ ((c : Claims) × ((v.verify w token).1 ≡ ok c))
  unfolding revalidate
  accepted w token (ok c) e passed = inr (c, e)
  accepted w token (err x) e passed = ground arith

  after_revalidate-seen :
      (w w₁ w' : W) (id : Text) (s : Session) (rejected : Option Error) (r : Option Session)
      → after_revalidate v m now id s (w₁, rejected) ≡ (w', ok r)
      → (rejected ≡ none) × (r ≡ some (record s { last_seen_at = now }))
  unfolding after_revalidate
  after_revalidate-seen w w₁ w' id s none r e = (refl, cc)
  after_revalidate-seen w w₁ w' id s (some x) r e = absurd (cc)

  resolve_loaded-Resolves :
      (w w' : W) (id : Text) (s : Session) (r : Option Session)
      → view w id ≡ some s
      → resolve_loaded v m now w id s ≡ (w', ok r)
      → Resolves w id w' r
  unfolding resolve_loaded
  resolve_loaded-Resolves w w' id s r found e = elim (Bool-cases (is_expired m s now)) [
    | inl over ↦ let f = rw (over, resolve_loaded) at e in absurd (cc)
    | inr live ↦ elim (Bool-cases (ltb now s.tokens.access_token_expires_at)) [
      | inl fresh ↦
          let q = revalidate v m w s.tokens.access_token in
          let (passed, is) =
            after_revalidate-seen w q.0 w' id s q.1 r (rw (live, fresh, resolve_loaded) at e) in
          (
            _,
            is,
            seen s found live (ltb→lt _ _ fresh) (accepted w s.tokens.access_token _ refl passed)
                refl,
          )
      | inr stale ↦
          let (x, is, done) =
            refresh-Refreshed v view grants law m now w w' id r
              (rw (live, stale, resolve_loaded) at e) in
          (x, is, refreshed s found live done)
    ]
  ]

  resolve_found-Resolves :
      (w w' : W) (id : Text) (r : Option Session) (g : Result Session)
      → v.get w id ≡ g
      → resolve_got v m now w id g ≡ (w', ok r)
      → Resolves w id w' r
  unfolding resolve_got
  resolve_found-Resolves w w' id r (ok s) got e =
      resolve_loaded-Resolves w w' id s r (law.get_found w id s got) e
  resolve_found-Resolves w w' id r (err x) got e = absurd (cc)

  -- A successful `Resolve` hands out a session, never nil. The stored session of that identifier
  -- was live, and either its access token was not over and the verifier, if there is one, has
  -- accepted it, and what is handed out is that session seen now; or `refresh` has succeeded.
  pub resolve-Resolved :
      (w w' : W) (id : Text) (r : Option Session)
      → resolve v m now w id ≡ (w', ok r)
      → (x : Session) × (r ≡ some x) × Resolved w id w' x
  unfolding resolve
  resolve-Resolved w w' id r e = elim (Bool-cases (v.is_uuid id)) [
    | inl well ↦ resolve_found-Resolves w w' id r _ refl (rw (well, resolve) at e)
    | inr ill ↦ let f = rw (ill, resolve) at e in absurd (cc)
  ]
