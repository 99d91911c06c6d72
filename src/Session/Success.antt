-- ===== src/Session/Success.antt =====
-- The sessions that `refresh` of oidcauth/session_manager.go hands out.
use gobox.Base.{
  ℕ, ◌≡◌, refl, sym, ◌∙◌, ap, ◌<◌, ◌≤◌, ◌⊎◌, inl, inr, false, Option, none, some, ltb, Bool-cases,
  ltb→lt, not_ltb→le,
}
use mathlib.Core.Option.{some-injective}
use gobox.Base.Text.{Text, is_empty, text_eq_refl}
use gobox.Base.Errors.{Result, ok, err}
use gobox.Session.{Instant, Session, OauthToken, Settings, is_expired, renewed}
use gobox.Session.Manager.{Services, after_grant, locked_refresh, after_lock, refresh}
use gobox.Session.Contract.{LockOutcome, not_run, kept, saved, aborted, not_committed, Contract}

module _ {W : Type 0} (v : Services W) (m : Settings) (now : Instant) where
  -- The successful runs of the function under the lock.
  pub data LockedRun (w : W) (s : Session) (w₁ : W) (r : Option Session) (o : Option Session)
      : Type 0 where
    left :
        now < s.tokens.access_token_expires_at
        → w ≡ w₁
        → some s ≡ r
        → none ≡ o
        → LockedRun w s w₁ r o
    rotated :
        (token : OauthToken)
        → s.tokens.access_token_expires_at ≤ now
        → is_expired m s now ≡ false
        → is_empty s.tokens.refresh_token ≡ false
        → v.refresh_grant w s.tokens.refresh_token ≡ (w₁, ok token)
        → some (renewed m now (v.wall w₁) token s) ≡ r
        → r ≡ o
        → LockedRun w s w₁ r o

  after_grant-LockedRun :
      (w : W) (s : Session) (r r' o : Option Session) (w₁ : W) (answer : W × Result OauthToken)
      → v.refresh_grant w s.tokens.refresh_token ≡ answer
      → s.tokens.access_token_expires_at ≤ now
      → is_expired m s now ≡ false
      → is_empty s.tokens.refresh_token ≡ false
      → after_grant v m now r s answer ≡ (w₁, r', ok o)
      → LockedRun w s w₁ r' o
  unfolding after_grant
  after_grant-LockedRun w s r r' o w₁ (w₂, ok token) e stale live has run =
      let moved : w₂ ≡ w₁ = ap (λ t. t.0) run in
      rotated token stale live has (rw (← moved) e) (rw (← moved) (cc)) (cc)
  after_grant-LockedRun w s r r' o w₁ (w₂, err x) e stale live has run = absurd (cc)

  locked_refresh-LockedRun :
      (w : W) (s : Session) (r r' o : Option Session) (w₁ : W)
      → locked_refresh v m now w r s ≡ (w₁, r', ok o)
      → LockedRun w s w₁ r' o
  unfolding locked_refresh
  locked_refresh-LockedRun w s r r' o w₁ run =
      elim (Bool-cases (ltb now s.tokens.access_token_expires_at)) [
        | inl fresh ↦
            let e = rw (fresh, locked_refresh) at run in left (ltb→lt _ _ fresh) (cc) (cc) (cc)
        | inr stale ↦ elim (Bool-cases (is_expired m s now)) [
          | inl over ↦ let e = rw (stale, over, locked_refresh) at run in absurd (cc)
          | inr live ↦ elim (Bool-cases (is_empty s.tokens.refresh_token)) [
            | inl lacks ↦ let e = rw (stale, live, lacks, locked_refresh) at run in absurd (cc)
            | inr has ↦
                after_grant-LockedRun w s r r' o w₁ _ refl (not_ltb→le _ _ stale) live has
                  (rw (stale, live, has, locked_refresh) at run)
          ]
        ]
      ]

module _ {W : Type 0} (v : Services W) (view : W → Text → Option Session) (grants : W → ℕ)
    (law : Contract v view grants) (m : Settings) (now : Instant) where
  -- What a successful `refresh` of `id` in the world `w` has done: it left a session whose access
  -- token is not over, or it replaced a live one, whose access token is over, by its renewal.
  pub data Refreshed (w : W) (id : Text) (w' : W) (x : Session) : Type 0 where
    shared :
        view w id ≡ some x
        → now < x.tokens.access_token_expires_at
        → view w' id ≡ some x
        → grants w' ≡ grants w
        → Refreshed w id w' x
    renews :
        (s : Session) (token : OauthToken)
        → view w id ≡ some s
        → s.tokens.access_token_expires_at ≤ now
        → is_expired m s now ≡ false
        → is_empty s.tokens.refresh_token ≡ false
        → (v.refresh_grant w s.tokens.refresh_token).1 ≡ ok token
        → x ≡ renewed m now (v.wall (v.refresh_grant w s.tokens.refresh_token).0) token s
        → view w' id ≡ some x
        → Refreshed w id w' x

  abbrev Refreshes : W → Text → W → Option Session → Type 0
  Refreshes w id w' r = (x : Session) × (r ≡ some x) × Refreshed w id w' x

  LockedRun-Refreshes :
      (w w₁ w' : W) (id : Text) (s : Session) (r o : Option Session)
      → view w id ≡ some s
      → LockedRun v m now w s w₁ r o
      → ((o ≡ none) × (view w' id ≡ view w₁ id) × (grants w' ≡ grants w₁))
        ⊎ ((s' : Session) × (o ≡ some s') × (view w' id ≡ some s'))
      → Refreshes w id w' r
  LockedRun-Refreshes w w₁ w' id s r o found (left fresh same is none_) (inl (e, f, g)) =
      (s, sym is, shared found fresh (f ∙ (rw (← same) found)) (g ∙ ap grants (sym same)))
  LockedRun-Refreshes w w₁ w' id s r o found (left fresh same is none_) (inr (s', e, f)) =
      absurd (cc)
  LockedRun-Refreshes w w₁ w' id s r o found (rotated token stale live has e is same)
        (inl (n, f, g)) =
      absurd (cc)
  LockedRun-Refreshes w w₁ w' id s r o found (rotated token stale live has e is same)
        (inr (s', n, f)) =
      let x = some-injective _ _ (is ∙ same ∙ n) in
      (
        s',
        same ∙ n,
        renews s token found stale live has (ap (λ t. t.1) e) (rw (ap (λ t. t.0) e) (sym x)) f,
      )

  LockOutcome-Refreshes :
      (w w' : W) (id : Text) (r : Option Session) (res : Result (Unit {0}))
      → LockOutcome v view grants w id none (locked_refresh v m now) w' r res
      → res ≡ ok tt
      → Refreshes w id w' r
  LockOutcome-Refreshes w w' id r res (not_run e failed _ _) done = absurd (cc)
  LockOutcome-Refreshes w w' id r res (kept s w₁ found run _ same) done =
      LockedRun-Refreshes w w₁ w' id s r none found
        (locked_refresh-LockedRun v m now w s none r none w₁ run)
        (inl (refl, same.stored id, same.granted))
  LockOutcome-Refreshes w w' id r res (saved s s' w₁ found run _ stored _) done =
      LockedRun-Refreshes w w₁ w' id s r (some s') found
        (locked_refresh-LockedRun v m now w s none r (some s') w₁ run)
        (inr (s', refl, stored id ∙ (rw (text_eq_refl id))))
  LockOutcome-Refreshes w w' id r res (aborted s w₁ e _ _ failed _) done = absurd (cc)
  LockOutcome-Refreshes w w' id r res (not_committed s w₁ o e _ _ failed _) done = absurd (cc)

  after_lock-ok :
      (id : Text) (w₁ w' : W) (r₁ r : Option Session) (res : Result (Unit {0}))
      → after_lock v m id (w₁, r₁, res) ≡ (w', ok r)
      → (w₁ ≡ w') × (r₁ ≡ r) × (res ≡ ok tt)
  unfolding after_lock
  after_lock-ok id w₁ w' r₁ r (ok done) e = (cc, cc, refl)
  after_lock-ok id w₁ w' r₁ r (err x) e = absurd (cc)

  -- A successful `refresh` hands out a session, never nil, that is stored under the identifier: one
  -- whose access token is not over at `now`, with no call of the issuer, or the renewal of the
  -- stored one, which was live, by the token that the issuer has just granted.
  pub refresh-Refreshed :
      (w w' : W) (id : Text) (r : Option Session)
      → refresh v m now w id ≡ (w', ok r)
      → (x : Session) × (r ≡ some x) × Refreshed w id w' x
  unfolding refresh
  refresh-Refreshed w w' id r e =
      let fn = locked_refresh v m now in
      let t = v.with_lock w id none fn in
      let (moved, same, done) = after_lock-ok id t.0 w' t.1 r t.2 e in
      rw (← moved, ← same) (LockOutcome-Refreshes w t.0 id t.1 t.2 (law.lock w id none fn) done)
