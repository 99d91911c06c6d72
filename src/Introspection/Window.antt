-- ===== src/Introspection/Window.antt =====
-- The revocation window of oidcauth/introspection.go.
use gobox.Base.{
  ℕ, ◌+◌, ◌≤◌, ◌<◌, ◌≡◌, ◌⊎◌, inl, inr, refl, ◌∙◌, true, false, not, ◌&&◌, Option, none, some, List,
  [], ◌∷◌, ◌++◌, ◌==◌, arith, ltb, All, Bool-cases, Option-cases,
}
use mathlib.Core.List.{append_assoc}
use gobox.Base.Text.{Text, is_empty}
use gobox.Base.Int.{ℤ, pos_part, is_pos}
use gobox.Base.Errors.{Error, Result, ok, err}
use gobox.Base.Dict.{lookup}
use gobox.Claims.{Claims}
use gobox.Session.{Instant}
use gobox.MemoryCache.{Entry}
use gobox.Introspection.{
  Introspector, Event, Answer, no_response, response, effective_expiry, do_introspect, find, store,
  received, requested, introspect, clear_cache, evict, cache_miss,
}
use gobox.Introspection.Expiry.{effective_expiry-Lifetime}
use gobox.Introspection.History.{
  Grant, Action, call, clear, sweep, step, run, answer_grants, action_grants, grants, Any, Any-left,
  Any-right, Backed, lookup-All, insert-All, retain-All,
}

-- A positive answer, and the grant that it is.
pub active_answer :
    (i : Introspector) (key : Text) (later known : Instant) (answer : Answer) (more : List Event)
    (claims : Claims) (t : Instant)
    → do_introspect i later known answer ≡ (more, ok (claims, t))
    → (answer_grants key later (inr answer)
        ≡ record { key = key; claims = claims; at = later } ∷ [])
      × (t ≡ effective_expiry i.cache_ttl later known claims.exp)
unfolding do_introspect
active_answer i key later known (no_response e) more claims t run = absurd (cc)
active_answer i key later known (response status (err e)) more claims t run = ground arith
active_answer i key later known (response status (ok (false, c))) more claims t run = ground arith
active_answer i key later known (response status (ok (true, c))) more claims t run = ground arith

within_ttl :
    (cache_ttl exp : ℤ) (now known t : Instant)
    → t ≡ effective_expiry cache_ttl now known exp
    → t ≤ now + pos_part cache_ttl
within_ttl cache_ttl exp now known t e =
    ground (arith, effective_expiry-Lifetime cache_ttl exp now known)

module _ (ttl : ℕ) (past more : List Grant) where
  widen : (m : List (Text × Entry)) → All (Backed ttl past) m → All (Backed ttl (past ++ more)) m
  widen [] h = tt
  widen (x ∷ m) (b, h) = (Any-left _ past more b, widen m h)

-- The cache after a history holds what the issuer granted, for a lifetime after it.
abbrev pub IsBacked : ℕ → List Grant → Introspector → Type 0
IsBacked ttl log i = All (Backed ttl log) i.entries × (pos_part i.cache_ttl ≡ ttl)

module _ (ttl : ℕ) (past : List Grant) where
  received-IsBacked :
      (i : Introspector) (key : Text) (later known : Instant) (answer : Answer)
      (events : List Event) (r : List Event × Result (Claims × Instant))
      → IsBacked ttl past i
      → do_introspect i later known answer ≡ r
      → IsBacked ttl (past ++ answer_grants key later (inr answer)) (received i key events r).0
  unfolding received store
  received-IsBacked i key later known answer events (more, err e) (h, same) run =
      (widen ttl past _ i.entries h, same)
  received-IsBacked i key later known answer events (more, ok (claims, t)) (h, same) run =
      let (logged, ends) = active_answer i key later known answer more claims t run in
      let log = answer_grants key later (inr answer) in
      let old = widen ttl past log i.entries h in
      let entry : Entry = record { claims = claims; expires_at = t } in
      let fresh : Backed ttl (past ++ log) (key, entry) = Any-right _ past log (
        rw logged
          (inl (refl, refl, rw (← same) (within_ttl i.cache_ttl claims.exp later known t ends)))) in
      elim (Bool-cases (is_pos i.cache_ttl && not (t == 0))) [
        | inl stored ↦ rw (stored, received) (insert-All _ key entry i.entries old fresh, same)
        | inr not_stored ↦ rw (not_stored, received) (old, same)
      ]

  requested-IsBacked :
      (i : Introspector) (key : Text) (later known : Instant) (events : List Event)
      (answer : Error ⊎ Answer)
      → IsBacked ttl past i
      → IsBacked ttl
          (past ++ answer_grants key later answer)
          (requested i key later known events answer).0
  unfolding requested
  requested-IsBacked i key later known events (inl e) (h, same) =
      (widen ttl past [] i.entries h, same)
  requested-IsBacked i key later known events (inr answer) b =
      received-IsBacked i key later known answer events (do_introspect i later known answer) b refl

  introspect-IsBacked :
      (sha : Text → Text) (i : Introspector) (token : Text) (known now later : Instant)
      (answer : Error ⊎ Answer)
      → IsBacked ttl past i
      → IsBacked ttl
          (past ++ answer_grants (sha token) later answer)
          (introspect sha i token known now later answer).0
  unfolding introspect
  introspect-IsBacked sha i token known now later answer (h, same) =
      let key = sha token in
      let log = answer_grants key later answer in
      let kept : IsBacked ttl (past ++ log) i = (widen ttl past log i.entries h, same) in
      elim (Bool-cases (is_empty token)) [
        | inl blank ↦ rw (blank, introspect) kept
        | inr given ↦ elim (Bool-cases (is_pos i.cache_ttl)) [
          | inl on ↦ elim (Option-cases (find i key now)) [
            | inl miss ↦
                rw (given, on, miss, introspect)
                  (requested-IsBacked i key later known (cache_miss ∷ []) answer (h, same))
            | inr (c, hit) ↦ rw (given, on, hit, introspect) kept
          ]
          | inr off ↦
              rw (given, off, introspect) (requested-IsBacked i key later known [] answer (h, same))
        ]
      ]

  step-IsBacked :
      (sha : Text → Text) (i : Introspector) (a : Action)
      → IsBacked ttl past i
      → IsBacked ttl (past ++ action_grants sha a) (step sha i a)
  unfolding step clear_cache evict
  step-IsBacked sha i (call token known now later answer) b =
      introspect-IsBacked sha i token known now later answer b
  step-IsBacked sha i clear (h, same) = (tt, same)
  step-IsBacked sha i (sweep now) (h, same) =
      (retain-All _ (λ e. ltb now e.expires_at) i.entries (widen ttl past [] i.entries h), same)

pub run-IsBacked :
    (sha : Text → Text) (ttl : ℕ) (past : List Grant) (i : Introspector) (actions : List Action)
    → IsBacked ttl past i
    → IsBacked ttl (past ++ grants sha actions) (run sha i actions)
unfolding run
run-IsBacked sha ttl past i [] (h, same) = (widen ttl past [] i.entries h, same)
run-IsBacked sha ttl past i (a ∷ actions) b =
    rw (← append_assoc past (action_grants sha a) (grants sha actions)) (
      run-IsBacked sha ttl (past ++ action_grants sha a) (step sha i a) actions
        (step-IsBacked ttl past sha i a b))

-- A grant of these claims to this digest, less than the lifetime before a time.
abbrev pub Recent : ℕ → Text → Claims → Instant → Grant → Type 0
Recent ttl key c now g = (g.key ≡ key) × (g.claims ≡ c) × (now < g.at + ttl)

Recent-of_hit :
    (ttl : ℕ) (key : Text) (log : List Grant) (c : Claims) (now : Instant) (e : Entry)
    → Backed ttl log (key, e)
    → now < e.expires_at
    → e.claims ≡ c
    → Any (Recent ttl key c now) log
Recent-of_hit ttl key [] c now e b fresh is = elim b [ ]
Recent-of_hit ttl key (g ∷ log) c now e (inl (k, same, ends)) fresh is =
    inl (k, same ∙ is, omega arith)
Recent-of_hit ttl key (g ∷ log) c now e (inr b) fresh is =
    inr (Recent-of_hit ttl key log c now e b fresh is)

pub find-Recent :
    (i : Introspector) (ttl : ℕ) (key : Text) (log : List Grant) (c : Claims) (now : Instant)
    (o : Option Entry)
    → IsBacked ttl log i
    → lookup key i.entries ≡ o
    → find i key now ≡ some c
    → Any (Recent ttl key c now) log
unfolding find
find-Recent i ttl key log c now none b e hit = absurd (cc)
find-Recent i ttl key log c now (some x) (h, _) e hit =
    Recent-of_hit ttl key log c now x (lookup-All _ key i.entries x h e) (ground arith)
      (ground arith)
