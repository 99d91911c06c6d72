-- ===== src/Middleware/Limits.antt =====
-- httpserver/middlewares/rate_limit.go: one bucket for each client. The bucket is the library's;
-- a rate is the number of requests per minute, of which the source keeps the 60th part.
pub mod Buckets
use gobox.Base.{
  ℕ, ◌-◌, ◌*◌, Bool, true, false, not, ◌&&◌, Option, none, some, List, [], ◌∷◌, ltb, leb, ◌==◌,
  if◌then◌else◌,
}
use gobox.Base.Text.{Text, codes}
use gobox.Base.Int.{ℤ, pos, is_pos, pos_part, neg_part}
use gobox.Base.Dict.{lookup, insert, retain}
use gobox.Session.{Instant, second}
use gobox.Middleware.{Decision, go_on, abort}

abbrev pub rate_limit_idle_timeout : ℕ
rate_limit_idle_timeout = 10 * 60 * second

pub record RateLimitOptions : Type 0 where
  pub requests_per_minute : ℤ
  pub burst : ℤ

unfoldable pub with_defaults : RateLimitOptions → ℤ → ℤ → RateLimitOptions
with_defaults o requests_per_minute burst = record {
  requests_per_minute =
      if is_pos o.requests_per_minute then o.requests_per_minute else requests_per_minute;
  burst = if is_pos o.burst then o.burst else burst;
}

-- rate.NewLimiter, SetLimit, SetBurst and Allow at a time.
pub record LimiterOps (L : Type 0) : Type 0 where
  pub new : ℤ → ℤ → L
  pub set_limit : L → ℤ → L
  pub set_burst : L → ℤ → L
  pub allow : L → Instant → L × Bool

pub record IpLimiterEntry (L : Type 0) : Type 0 where
  pub limiter : L
  pub last_seen : Instant

pub record IpRateLimiter (L : Type 0) : Type 0 where
  pub limiters : List (Text × IpLimiterEntry L)
  pub rate : ℤ
  pub burst : ℤ
  pub last_evict : Instant

abbrev pub eqℤ : ℤ → ℤ → Bool
eqℤ a b = pos_part a == pos_part b && neg_part a == neg_part b

-- Every entry of a map, changed.
unfoldable pub map_entries :
    {L : Type 0} → (L → L) → List (Text × IpLimiterEntry L) → List (Text × IpLimiterEntry L)
map_entries f [] = []
map_entries f ((key, entry) ∷ m) =
    (key, record entry { limiter = f entry.limiter }) ∷ map_entries f m

module _ {L : Type 0} (ops : LimiterOps L) where
  unfoldable pub new_ip_rate_limiter : ℤ → ℤ → Instant → IpRateLimiter L
  new_ip_rate_limiter requests_per_minute burst now = record {
    limiters = [];
    rate = requests_per_minute;
    burst = burst;
    last_evict = now;
  }

  unfoldable pub retune : IpRateLimiter L → RateLimitOptions → IpRateLimiter L
  unfolding map_entries
  retune l opts =
      if eqℤ l.rate opts.requests_per_minute && eqℤ l.burst opts.burst then l else record l {
        rate = opts.requests_per_minute;
        burst = opts.burst;
        limiters =
            map_entries (λ x. ops.set_burst (ops.set_limit x opts.requests_per_minute) opts.burst)
              l.limiters;
      }

  -- Idle for no longer than the timeout; `-` gives 0 for a time in the future.
  abbrev pub is_recent : Instant → IpLimiterEntry L → Bool
  is_recent now entry = leb (now - entry.last_seen) rate_limit_idle_timeout

  unfoldable pub evict_if_due : IpRateLimiter L → Instant → IpRateLimiter L
  evict_if_due l now =
      if ltb (now - l.last_evict) rate_limit_idle_timeout
      then l
      else record l { last_evict = now; limiters = retain (is_recent now) l.limiters }

  -- The bucket of a key, or a new one.
  abbrev pub bucket : IpRateLimiter L → Option (IpLimiterEntry L) → L
  bucket l none = ops.new l.rate l.burst
  bucket l (some entry) = entry.limiter

  unfoldable pub allow : IpRateLimiter L → Text → Instant → IpRateLimiter L × Bool
  unfolding evict_if_due
  allow l key now =
      let swept = evict_if_due l now in
      let (x, answer) = ops.allow (bucket swept (lookup key swept.limiters)) now in
      (
        record swept {
          limiters = insert key (record { limiter = x; last_seen = now }) swept.limiters;
        },
        answer,
      )

  abbrev retuned : IpRateLimiter L → Option RateLimitOptions → IpRateLimiter L
  retuned l none = l
  retuned l (some opts) = retune l opts

  -- `middleware`, with what its provider gives, if it has one.
  unfoldable pub rate_limit :
      IpRateLimiter L
      → Option RateLimitOptions
      → Text
      → Instant
      → IpRateLimiter L × Decision (Unit {0})
  unfolding retune allow
  rate_limit l opts client now =
      let (after, answer) = allow (retuned l opts) client now in
      (after, if answer then go_on tt else abort 429 [])
