-- ===== src/MemoryCache/Lookups.antt =====
-- What a lookup finds in the cache of oidcauth/cache.go.
use gobox.Base.{◌+◌, ◌≤◌, ◌≡◌, refl, true, ◌&&◌, Option, none, some, arith, ltb, if◌then◌else◌}
use gobox.Base.Int.{is_pos}
use gobox.Base.Text.{Text, text_eq}
use gobox.Base.Dict.{lookup, lookup-insert}
use gobox.Base.Dict.Distinct.{HasDistinctKeys, keep, lookup-retain, insert-HasDistinctKeys}
use gobox.Claims.{Claims}
use gobox.Session.{Instant}
use gobox.MemoryCache.{Entry, MemoryCache, usable, unix_time, get, set, evict}

-- After a `Set`, its key is found with its claims exactly while the entry's expiry, the earlier of
-- now + duration and a positive exp claim, is not reached; every other key is found as before.
pub get-set :
    (c : MemoryCache) (key j : Text) (claims : Claims) (now t : Instant)
    → get (set c key claims now) j t ≡ (
        if text_eq key j
        then (if ltb t (now + c.duration)
              && (if is_pos claims.exp then ltb t (unix_time claims.exp) else true)
            then some claims
            else none)
        else get c j t)
unfolding get set
get-set c key j claims now t = rw (lookup-insert key j) (ground arith)

usable-keep :
    (now t : Instant) (o : Option Entry)
    → now ≤ t
    → usable t (keep (λ e. ltb now e.expires_at) o) ≡ usable t o
usable-keep now t none h = refl
usable-keep now t (some e) h = ground arith

-- A sweep of a cache in which each key stands once changes no lookup at its time or later.
get-evict :
    (c : MemoryCache) (key : Text) (now t : Instant)
    → HasDistinctKeys c.entries
    → now ≤ t
    → get (evict c now) key t ≡ get c key t
unfolding get evict
get-evict c key now t d h =
    rw (lookup-retain (λ e. ltb now e.expires_at) key c.entries d)
      (usable-keep now t (lookup key c.entries) h)

-- `Set` and the sweep keep each key at one place, which the map type of the source gives.
pub set-HasDistinctKeys :
    (c : MemoryCache) (key : Text) (claims : Claims) (now : Instant)
    → HasDistinctKeys c.entries
    → HasDistinctKeys (set c key claims now).entries
unfolding set
set-HasDistinctKeys c key claims now d = insert-HasDistinctKeys key _ c.entries d
