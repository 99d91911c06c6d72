-- ===== src/Introspection/History.antt =====
-- Histories of an introspector of oidcauth/introspection.go: its calls, resets and sweeps, in the
-- order in which they take its lock, and the positive answers that the issuer gave.
use gobox.Base.{
  ℕ, ◌+◌, ◌≤◌, ◌≡◌, ◌⊎◌, inl, inr, Bool, some, List, [], ◌∷◌, ◌++◌, ◌==◌, arith, if◌then◌else◌, All,
  Bool-cases,
}
use mathlib.Core.Option.{some-injective}
use gobox.Base.Text.{Text, text_eq, text_eq_iff}
use gobox.Base.Errors.{Error, Result, ok, err}
use gobox.Base.Dict.{lookup, insert, retain}
use gobox.Claims.{Claims}
use gobox.Session.{Instant}
use gobox.MemoryCache.{Entry}
use gobox.Introspection.{
  Introspector, Answer, no_response, response, introspect, clear_cache, evict,
}

-- The issuer called the token with this digest active, with these claims, at this time.
pub record Grant : Type 0 where
  pub key : Text
  pub claims : Claims
  pub at : Instant

pub data Action : Type 0 where
  -- Introspect: token, known expiry, time of the lookup, time of the answer, answer
  call : Text → Instant → Instant → Instant → Error ⊎ Answer → Action
  clear : Action
  sweep : Instant → Action

unfoldable pub step : (Text → Text) → Introspector → Action → Introspector
step sha i (call token known now later answer) = (introspect sha i token known now later answer).0
step sha i clear = (clear_cache i).0
step sha i (sweep now) = (evict i now).0

unfoldable pub run : (Text → Text) → Introspector → List Action → Introspector
unfolding step
run sha i [] = i
run sha i (a ∷ actions) = run sha (step sha i a) actions

-- The grant that an answer is.
abbrev pub body_grants : Text → Instant → Result (Bool × Claims) → List Grant
body_grants key at (err e) = []
body_grants key at (ok (active, claims)) =
    if active then record { key = key; claims = claims; at = at } ∷ [] else []

abbrev pub answer_grants : Text → Instant → Error ⊎ Answer → List Grant
answer_grants key at (inl e) = []
answer_grants key at (inr (no_response e)) = []
answer_grants key at (inr (response status body)) =
    if status == 200 then body_grants key at body else []

abbrev pub action_grants : (Text → Text) → Action → List Grant
action_grants sha (call token known now later answer) = answer_grants (sha token) later answer
action_grants sha clear = []
action_grants sha (sweep now) = []

abbrev pub grants : (Text → Text) → List Action → List Grant
grants sha [] = []
grants sha (a ∷ actions) = action_grants sha a ++ grants sha actions

-- Some element of a list.
abbrev pub Any {ℓ} : {A : Type ℓ} → (A → Type 0) → List A → Type 0
Any P [] = ⊥
Any P (x ∷ xs) = P x ⊎ Any P xs

pub Any-left {ℓ} : {A : Type ℓ} (P : A → Type 0) (xs ys : List A) → Any P xs → Any P (xs ++ ys)
Any-left P [] ys q = elim q [ ]
Any-left P (x ∷ xs) ys (inl p) = inl p
Any-left P (x ∷ xs) ys (inr q) = inr (Any-left P xs ys q)

pub Any-right {ℓ} : {A : Type ℓ} (P : A → Type 0) (xs ys : List A) → Any P ys → Any P (xs ++ ys)
Any-right P [] ys q = q
Any-right P (x ∷ xs) ys q = inr (Any-right P xs ys q)

-- An entry comes from a grant, and ends at most the lifetime after it.
abbrev pub Backed : ℕ → List Grant → Text × Entry → Type 0
Backed ttl log (key, e) =
    Any (λ g. (g.key ≡ key) × (g.claims ≡ e.claims) × (e.expires_at ≤ g.at + ttl)) log

module _ (P : Text × Entry → Type 0) where
  pub lookup-All :
      (k : Text) (m : List (Text × Entry)) (e : Entry) → All P m → lookup k m ≡ some e → P (k, e)
  unfolding lookup
  lookup-All k [] e h found = absurd (cc)
  lookup-All k ((j, w) ∷ m) e (p, h) found = elim (Bool-cases (text_eq j k)) [
    | inl hit ↦
        let same = some-injective _ _ (rw (hit, lookup) at found) in
        rw (← same, ← ((text_eq_iff j k).0 hit)) p
    | inr miss ↦ lookup-All k m e h (rw (miss, lookup) at found)
  ]

  pub insert-All :
      (k : Text) (e : Entry) (m : List (Text × Entry)) → All P m → P (k, e) → All P (insert k e m)
  unfolding insert
  insert-All k e [] h p = (p, tt)
  insert-All k e ((j, w) ∷ m) (q, h) p = ground (arith, insert-All k e m h p)

  pub retain-All :
      (keeps : Entry → Bool) (m : List (Text × Entry)) → All P m → All P (retain keeps m)
  unfolding retain
  retain-All keeps [] h = h
  retain-All keeps ((j, w) ∷ m) (q, h) = ground (arith, retain-All keeps m h)
