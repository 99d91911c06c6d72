-- ===== src/Middleware/Limits/Buckets.antt =====
-- What becomes of the clients' buckets in httpserver/middlewares/rate_limit.go.
use gobox.Base.Int.{ℤ}
use gobox.Base.{
  if◌then◌else◌, ◌+◌, ◌-◌, ◌<◌, ◌≤◌, ◌≡◌, ◌≢◌, ◌⊎◌, inl, inr, refl, sym, ◌∙◌, ◌&&◌, true, Option,
  none, some, List, [], ◌∷◌, arith, ltb, Bool-cases,
}
use gobox.Base.Text.{Text, text_eq, text_eq_refl, text_eq-eq_false}
use gobox.Base.Dict.{lookup, lookup-insert}
use gobox.Base.Dict.Distinct.{HasDistinctKeys, keep, lookup-retain}
use gobox.Session.{Instant}
use gobox.Middleware.Limits.{
  LimiterOps, IpLimiterEntry, IpRateLimiter, RateLimitOptions, rate_limit_idle_timeout, is_recent,
  evict_if_due, allow, retune, map_entries, eqℤ,
}

module _ {L : Type 0} (ops : LimiterOps L) where
  -- A sweep keeps an entry or drops one that has been idle for longer than the timeout.
  abbrev pub KeptOrIdle : Instant → Option (IpLimiterEntry L) → Option (IpLimiterEntry L) → Type 0
  KeptOrIdle now before after =
      (after ≡ before)
      ⊎ ((after ≡ none)
          × ((e : IpLimiterEntry L) × (before ≡ some e)
              × (e.last_seen + rate_limit_idle_timeout < now)))

  keep-KeptOrIdle :
      (now : Instant) (before : Option (IpLimiterEntry L))
      → KeptOrIdle now before (keep (is_recent ops now) before)
  keep-KeptOrIdle now none = inl refl
  keep-KeptOrIdle now (some e) = elim (Bool-cases (is_recent ops now e)) [
    | inl recent ↦ inl (rw (recent) refl)
    | inr idle ↦ inr (rw (idle) refl, (e, refl, ground (arith, idle)))
  ]

  evict_if_due-KeptOrIdle :
      (l : IpRateLimiter L) (now : Instant) (key : Text)
      → HasDistinctKeys l.limiters
      → KeptOrIdle now (lookup key l.limiters) (lookup key (evict_if_due ops l now).limiters)
  unfolding evict_if_due
  evict_if_due-KeptOrIdle l now key d =
      elim (Bool-cases (ltb (now - l.last_evict) rate_limit_idle_timeout)) [
        | inl early ↦ inl (rw (early, evict_if_due) refl)
        | inr due ↦
            rw (due, evict_if_due, lookup-retain (is_recent ops now) key l.limiters d)
              (keep-KeptOrIdle now (lookup key l.limiters))
      ]

  -- A request of one client leaves the bucket of every other client as it is, or drops it if that
  -- client has been idle for more than ten minutes.
  allow-KeptOrIdle :
      (l : IpRateLimiter L) (key j : Text) (now : Instant)
      → HasDistinctKeys l.limiters
      → key ≢ j
      → KeptOrIdle now (lookup j l.limiters) (lookup j (allow ops l key now).0.limiters)
  unfolding allow
  allow-KeptOrIdle l key j now d ne =
      rw (lookup-insert key j, text_eq-eq_false key j ne) (evict_if_due-KeptOrIdle l now j d)

  -- A client that has a bucket and has been seen in the last ten minutes is answered by its own bucket, which is
  -- kept with the time of the request.
  allow_same_bucket :
      (l : IpRateLimiter L) (key : Text) (now : Instant) (e : IpLimiterEntry L)
      → HasDistinctKeys l.limiters
      → lookup key l.limiters ≡ some e
      → now ≤ e.last_seen + rate_limit_idle_timeout
      → ((allow ops l key now).1 ≡ (ops.allow e.limiter now).1)
        × (lookup key (allow ops l key now).0.limiters
            ≡ some (record { limiter = (ops.allow e.limiter now).0; last_seen = now }))
  unfolding allow
  allow_same_bucket l key now e d has recent =
      let kept : lookup key (evict_if_due ops l now).limiters ≡ some e =
        elim (evict_if_due-KeptOrIdle l now key d) [
          | inl same ↦ same ∙ has
          | inr (gone, (f, is, idle)) ↦
              let same : f ≡ e = (cc) in
              let late : e.last_seen + rate_limit_idle_timeout < now = rw (← same) idle in
              absurd (omega (arith, late, recent))
        ] in
      (rw (kept) refl, rw (kept, lookup-insert key key, text_eq_refl key) refl)

  -- The bucket of an entry under new options.
  abbrev pub retuned_entry :
      RateLimitOptions → Option (IpLimiterEntry L) → Option (IpLimiterEntry L)
  retuned_entry opts none = none
  retuned_entry opts (some e) = some (record e {
    limiter = ops.set_burst (ops.set_limit e.limiter opts.requests_per_minute) opts.burst;
  })

  lookup-map_entries :
      (f : L → L) (g : Option (IpLimiterEntry L) → Option (IpLimiterEntry L)) (key : Text)
      (m : List (Text × IpLimiterEntry L))
      → g none ≡ none
      → ((e : IpLimiterEntry L) → g (some e) ≡ some (record e { limiter = f e.limiter }))
      → lookup key (map_entries f m) ≡ g (lookup key m)
  unfolding lookup map_entries
  lookup-map_entries f g key [] h k = sym h
  lookup-map_entries f g key ((j, e) ∷ m) h k = elim (Bool-cases (text_eq j key)) [
    | inl yes_ ↦ rw (yes_, lookup) (sym (k e))
    | inr no_ ↦ rw (no_, lookup) (lookup-map_entries f g key m h k)
  ]

  eqℤ-eq : (a b : ℤ) → eqℤ a b ≡ true → a ≡ b
  eqℤ-eq a b h = ground (arith, h)

  -- New options become the policy, and every client keeps its bucket, set to the new rate and
  -- capacity; the options in force change no bucket.
  retune_buckets :
      (l : IpRateLimiter L) (opts : RateLimitOptions) (key : Text)
      → ((retune ops l opts).rate ≡ opts.requests_per_minute)
        × ((retune ops l opts).burst ≡ opts.burst)
        × (lookup key (retune ops l opts).limiters ≡ (
            if eqℤ l.rate opts.requests_per_minute && eqℤ l.burst opts.burst
            then lookup key l.limiters
            else retuned_entry opts (lookup key l.limiters)))
  unfolding retune
  retune_buckets l opts key =
      elim (Bool-cases (eqℤ l.rate opts.requests_per_minute && eqℤ l.burst opts.burst)) [
        | inl same ↦ (
          rw (same, retune) (eqℤ-eq l.rate opts.requests_per_minute (ground (arith, same))),
          rw (same, retune) (eqℤ-eq l.burst opts.burst (ground (arith, same))),
          rw (same, retune) refl,
        )
        | inr differ ↦ (
          rw (differ, retune) refl,
          rw (differ, retune) refl,
          rw (differ, retune)
              (lookup-map_entries _ (retuned_entry opts) key l.limiters refl (λ e. refl)),
        )
      ]
