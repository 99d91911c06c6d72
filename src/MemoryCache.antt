-- ===== src/MemoryCache.antt =====
-- oidcauth/cache.go: the token cache in memory. An operation takes the time at which it runs; the
-- mutex makes each one atomic. A positive claim `exp` is in whole seconds since 1970.
pub mod Lookups
pub mod Examples
use gobox.Base.{
  ℕ, ◌+◌, ◌*◌, ◌/◌, Bool, true, false, not, Option, none, some, List, [], ◌∷◌, ltb, if◌then◌else◌,
}
use gobox.Base.Text.{Text}
use gobox.Base.Int.{ℤ, pos_part, is_pos}
use gobox.Base.Dict.{lookup, insert, retain}
use gobox.Claims.{Claims}
use gobox.Session.{Instant, second}

-- The start of 1970 on the scale of instants.
abbrev pub unix_epoch : Instant
unix_epoch = 62135596800 * second

-- time.Unix(int64(exp), 0) of a positive `exp` in microseconds
abbrev pub unix_time : ℤ → Instant
unix_time exp = unix_epoch + pos_part exp / 1000000 * second

pub record Entry : Type 0 where
  pub claims : Claims
  pub expires_at : Instant

pub record MemoryCache : Type 0 where
  pub duration : ℕ
  pub entries : List (Text × Entry)

unfoldable pub new_memory_cache : ℕ → MemoryCache
new_memory_cache duration = record { duration = duration; entries = [] }

-- The reader's test of an entry.
abbrev pub usable : Instant → Option Entry → Option Claims
usable now none = none
usable now (some e) = if ltb now e.expires_at then some e.claims else none

unfoldable pub get : MemoryCache → Text → Instant → Option Claims
get c key now = usable now (lookup key c.entries)

unfoldable pub expiry : MemoryCache → Claims → Instant → Instant
expiry c claims now =
    let configured = now + c.duration in
    if is_pos claims.exp
    then (if ltb (unix_time claims.exp) configured then unix_time claims.exp else configured)
    else configured

unfoldable pub set : MemoryCache → Text → Claims → Instant → MemoryCache
unfolding expiry
set c key claims now =
    let entry : Entry = record { claims = claims; expires_at = expiry c claims now } in
    record c { entries = insert key entry c.entries }

unfoldable pub evict : MemoryCache → Instant → MemoryCache
evict c now = record c { entries = retain (λ e. ltb now e.expires_at) c.entries }
