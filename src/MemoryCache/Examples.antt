-- ===== src/MemoryCache/Examples.antt =====
-- Runs of the cache of oidcauth/cache.go.
use gobox.Base.{[]}
use gobox.MemoryCache.{MemoryCache}
use gobox.MemoryCache.Lookups.{}

abbrev empty : MemoryCache
empty = record { duration = 300; entries = [] }
