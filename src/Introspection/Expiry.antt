-- ===== src/Introspection/Expiry.antt =====
-- How long oidcauth/introspection.go may reuse a positive result.
use gobox.Base.{◌+◌, ◌≤◌, ◌<◌, ◌≡◌, ◌≢◌, ◌⊎◌, false, arith, if◌then◌else◌}
use gobox.Base.Int.{ℤ, pos_part, is_pos}
use gobox.Session.{Instant}
use gobox.MemoryCache.{unix_time}
use gobox.Introspection.{effective_expiry}

-- The time until which a result may be reused, or the reason why it is not cached.
abbrev pub Lifetime : ℤ → Instant → Instant → Instant → Instant → Type 0
Lifetime cache_ttl now known exp t =
    ((t ≡ 0)
      × ((is_pos cache_ttl ≡ false) ⊎ ((known ≢ 0) × (known ≤ now)) ⊎ ((exp ≢ 0) × (exp ≤ now))))
    ⊎ ((now < t)
        × (t ≤ now + pos_part cache_ttl)
        × ((known ≡ 0) ⊎ (t ≤ known))
        × ((exp ≡ 0) ⊎ (t ≤ exp))
        × ((t ≡ now + pos_part cache_ttl) ⊎ (t ≡ known) ⊎ (t ≡ exp)))

-- The time of a claim, 0 where it is absent.
abbrev pub claimed : ℤ → Instant
claimed exp = if is_pos exp then unix_time exp else 0

-- A result is reused until the earliest of now + CacheTTL, the known expiry and the exp claim,
-- those that there are; it is not cached if caching is off or one of these is not after now.
pub effective_expiry-Lifetime :
    (cache_ttl exp : ℤ) (now known : Instant)
    → Lifetime cache_ttl now known (claimed exp) (effective_expiry cache_ttl now known exp)
unfolding effective_expiry
effective_expiry-Lifetime cache_ttl exp now known = ground arith
