-- ===== src/Session/Expiry.antt =====
-- When a session of oidcauth/session_manager.go runs out.
use gobox.Base.{◌+◌, ◌*◌, ◌/◌, ◌≤◌, ◌<◌, ◌≡◌, ◌≢◌, ◌⊎◌, refl, true, false, some, arith}
use gobox.Base.Int.{ℤ, pos_part, is_pos}
use gobox.Base.Text.{is_empty}
use gobox.Session.{
  Instant, second, TokenSet, issuer_ceiling, Session, OauthToken, Settings, compute_expires_at,
  renewed, token_set_from, default_refresh_token_ttl,
}

-- With a positive absolute timeout no session lives past CreatedAt + AbsoluteTimeout; the ceiling
-- is never past a reported expiry of the refresh token, nor, without a report, past the default
-- lifetime from the creation; without a refresh token it is never past the access token's expiry.
pub compute_expires_at_bounds :
    (m : Settings) (s : Session)
    → ((is_pos m.absolute_timeout ≡ false)
        ⊎ (compute_expires_at m s ≤ s.created_at + pos_part m.absolute_timeout))
      × ((is_empty s.tokens.refresh_token ≡ false)
          ⊎ (compute_expires_at m s ≤ s.tokens.access_token_expires_at))
      × ((is_empty s.tokens.refresh_token ≡ true)
          ⊎ (s.tokens.refresh_token_expires_at ≡ 0)
          ⊎ (compute_expires_at m s ≤ s.tokens.refresh_token_expires_at))
      × ((is_empty s.tokens.refresh_token ≡ true)
          ⊎ (s.tokens.refresh_token_expires_at ≢ 0)
          ⊎ (compute_expires_at m s ≤ s.created_at + default_refresh_token_ttl))
unfolding compute_expires_at
compute_expires_at_bounds m s = (ground arith, ground arith, ground arith, ground arith)

-- However often and with whatever tokens a session is renewed, a positive absolute timeout bounds
-- it by its creation, which no renewal changes.
renewed_absolute :
    (m : Settings) (now wall : Instant) (token : OauthToken) (s : Session)
    → is_pos m.absolute_timeout ≡ true
    → (renewed m now wall token s).created_at ≡ s.created_at
      × ((renewed m now wall token s).expires_at ≤ s.created_at + pos_part m.absolute_timeout)
unfolding renewed
renewed_absolute m now wall token s h = (
  refl,
  ground (
    arith,
    (compute_expires_at_bounds m (record s { tokens = token_set_from wall token s.tokens })).0,
  ),
)

has_refresh_token :
    (wall : Instant) (token : OauthToken) (previous : TokenSet)
    → is_empty previous.refresh_token ≡ false
    → is_empty (token_set_from wall token previous).refresh_token ≡ false
unfolding token_set_from
has_refresh_token wall token previous h = ground arith

reported_expiry :
    (wall : Instant) (token : OauthToken) (previous : TokenSet) (micros : ℤ)
    → token.extra_refresh_expires_in ≡ some micros
    → is_pos micros ≡ true
    → (token_set_from wall token previous).refresh_token_expires_at
      ≡ wall + pos_part micros / 1000000 * second
unfolding token_set_from
reported_expiry wall token previous micros e p = rw (e, p)

not_capped :
    (m : Settings) (s : Session)
    → is_pos m.absolute_timeout ≡ false
    → compute_expires_at m s ≡ issuer_ceiling s
unfolding compute_expires_at
not_capped m s h = rw h

-- Without an absolute timeout a renewal moves the ceiling later whenever the issuer reports a
-- refresh token lifetime that ends after the session's present ceiling.
renewed_extends :
    (m : Settings) (now wall : Instant) (token : OauthToken) (s : Session) (micros : ℤ)
    → is_pos m.absolute_timeout ≡ false
    → is_empty s.tokens.refresh_token ≡ false
    → token.extra_refresh_expires_in ≡ some micros
    → is_pos micros ≡ true
    → s.expires_at < wall + pos_part micros / 1000000 * second
    → s.expires_at < (renewed m now wall token s).expires_at
unfolding renewed
renewed_extends m now wall token s micros h k e p l =
    let tokens = token_set_from wall token s.tokens in
    ground (
      arith,
      has_refresh_token wall token s.tokens k,
      reported_expiry wall token s.tokens micros e p,
      not_capped m (record s { tokens = tokens }) h,
    )
