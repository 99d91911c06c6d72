-- ===== src/Session/Renewal.antt =====
-- Two requests that refresh one session, in oidcauth/session_manager.go: the second one takes
-- the lock after the first has released it.
use mathlib.Core.Option.{some-injective}
use gobox.Base.{ℕ, ◌≡◌, sym, ◌∙◌, ap, ◌<◌, Option, some, arith}
use gobox.Base.Text.{Text}
use gobox.Base.Errors.{ok}
use gobox.Session.{Instant, Session, Settings}
use gobox.Session.Manager.{Services, refresh}
use gobox.Session.Contract.{Contract}
use gobox.Session.Success.{Refreshed, shared, renews, refresh-Refreshed}

module _ {W : Type 0} (v : Services W) (view : W → Text → Option Session) (grants : W → ℕ)
    (law : Contract v view grants) (m : Settings) where
  Refreshed-stored :
      (now : Instant) {w w' : W} {id : Text} {x : Session}
      → Refreshed v view grants law m now w id w' x
      → view w' id ≡ some x
  Refreshed-stored now (shared found fresh stored granted) = stored
  Refreshed-stored now (renews s token found stale live has grant is stored) = stored

  Refreshed-again :
      (now : Instant) (w w' : W) (id : Text) (x y : Session)
      → view w id ≡ some x
      → now < x.tokens.access_token_expires_at
      → Refreshed v view grants law m now w id w' y
      → (y ≡ x) × (grants w' ≡ grants w)
  Refreshed-again now w w' id x y found fresh (shared found' _ _ granted) =
      (some-injective _ _ (sym found' ∙ found), granted)
  Refreshed-again now w w' id x y found fresh (renews s token found' stale _ _ _ _ _) =
      let e = some-injective _ _ (sym found' ∙ found) in
      absurd (omega (arith, ap (λ (t : Session). t.tokens.access_token_expires_at) e))

  -- After a successful `refresh`, a second one that succeeds while the access token handed out
  -- by the first is not over hands out the same session and makes no refresh grant.
  pub refresh_twice :
      (now now' : Instant) (w w' w'' : W) (id : Text) (x : Session) (r : Option Session)
      → refresh v m now w id ≡ (w', ok (some x))
      → now' < x.tokens.access_token_expires_at
      → refresh v m now' w' id ≡ (w'', ok r)
      → (r ≡ some x) × (grants w'' ≡ grants w')
  refresh_twice now now' w w' w'' id x r first fresh second =
      let (y, is, done) = refresh-Refreshed v view grants law m now w w' id (some x) first in
      let stored = Refreshed-stored now done ∙ sym is in
      let (z, is', done') = refresh-Refreshed v view grants law m now' w' w'' id r second in
      let (same, granted) = Refreshed-again now' w' w'' id x z stored fresh done' in
      (is' ∙ ap some same, granted)
