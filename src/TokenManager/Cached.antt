-- ===== src/TokenManager/Cached.antt =====
-- The tokens that oauth2/token_manager.go hands out.
use gobox.Base.{
  ℕ, ◌+◌, ◌-◌, ◌*◌, ◌^◌, ◌%◌, ◌==◌, ◌≤◌, ◌<◌, ◌≡◌, refl, true, false, Option, none, some, ltb,
  lt→ltb, arith, ◌⊎◌, Bool-cases, Option-cases, inl, inr, ◌∙◌, ap, sym, subst,
}
use gobox.Base.Dict.{insert, lookup, lookup-insert, lookup-insert_self}
use gobox.Base.Errors.{Error, Result, ok, err, errorf, Result-cases}
use gobox.Base.Int.{pos, pos_part, neg_part, wrap64}
use gobox.Base.Text.{Text, is_empty, text_eq}
use gobox.HttpClient.{Request, Response, times}
use gobox.HttpClient.Encodings.{decompress_response}
use gobox.TokenManager.{
  TokenAccess, TokenManager, Net, is_fresh, authenticate, checked, exchanged, kept, granted,
  decoded, request_of, get_access_token, after_request, five_seconds,
}

-- Every token of the cache has the time of its grant.
abbrev pub AreStamped : TokenManager → Type 0
AreStamped tm =
    (scope : Text) (t : TokenAccess)
    → lookup scope tm.cache ≡ some t
    → (last : ℕ) × (t.last_authentication ≡ some last)

module _ {W Url Reader : Type 0} (v : Net W Url Reader) where
  -- A request for a token: it fails and changes nothing of the manager, or puts the granted token, with
  -- the time that is five seconds before, into the cache for its scope.
  pub data Authenticated (w : W) (tm : TokenManager) (scope : Text)
      : W → TokenManager → Option Error → Type 0 where
    refused : {after : W} (e : Error) → Authenticated w tm scope after tm (some e)
    got :
        {after : W} (request : Request) (answer : Response Reader) (t : TokenAccess)
        → v.exchange w request ≡ (after, ok answer)
        → granted v after (ok answer) ≡ ok t
        → t.last_authentication ≡ some (v.now after - five_seconds)
        → Authenticated w tm scope after (record tm { cache = insert scope t tm.cache }) none

  decoded-stamped :
      (w : W) (status : ℕ) (x : Result _) (t : TokenAccess)
      → decoded v w status x ≡ ok t
      → t.last_authentication ≡ some (v.now w - five_seconds)
  decoded-stamped w status (err e) t h = absurd (cc)
  decoded-stamped w status (ok body) t h = elim (Bool-cases (status == 200)) [
    | inr other ↦ let x = rw (decoded, other) at h in absurd (cc)
    | inl good ↦ elim (Result-cases (v.unmarshal body)) [
      | inr (e, bad) ↦ let x = rw (decoded, good, bad) at h in absurd (cc)
      | inl (token, read) ↦
          let x = rw (decoded, good, read) at h in
          let same : record token { last_authentication = some (v.now w - five_seconds) } ≡ t =
            (cc) in
          sym (ap (λ k. k.last_authentication) same)
    ]
  ]

  granted-stamped :
      (w : W) (answer : Response Reader) (t : TokenAccess)
      → granted v w (ok answer) ≡ ok t
      → t.last_authentication ≡ some (v.now w - five_seconds)
  granted-stamped w answer t h =
      elim (Result-cases (decompress_response v.codecs answer.content_encoding answer.body)) [
        | inr (e, bad) ↦ let x = rw (granted, bad) at h in absurd (cc)
        | inl (reader, good) ↦
            let x = rw (granted, good) at h in
            decoded-stamped w answer.status (v.codecs.read_all reader) t x
      ]

  exchanged-Authenticated :
      (w : W) (tm : TokenManager) (scope : Text) (request : Request)
      (x : W × Result (Response Reader))
      → v.exchange w request ≡ x
      → Authenticated w tm scope
          (exchanged v tm scope x).0
          (exchanged v tm scope x).1
          (exchanged v tm scope x).2
  exchanged-Authenticated w tm scope request (after, err e) is = refused errorf
  exchanged-Authenticated w tm scope request (after, ok answer) is =
      elim (Result-cases (granted v after (ok answer))) [
        | inr (e, bad) ↦ rw (exchanged, bad, kept) (refused e)
        | inl (t, good) ↦
            rw (exchanged, good, kept)
              (got request answer t is good (granted-stamped after answer t good))
      ]

  checked-Authenticated :
      (w : W) (tm : TokenManager) (scope : Text) (request : Request) (x : Option Error)
      → Authenticated w tm scope
          (checked v w tm scope request x).0
          (checked v w tm scope request x).1
          (checked v w tm scope request x).2
  checked-Authenticated w tm scope request (some e) = refused errorf
  checked-Authenticated w tm scope request none =
      exchanged-Authenticated w tm scope request (v.exchange w request) refl

  authenticate-Authenticated :
      (w : W) (tm : TokenManager) (scope : Text)
      → Authenticated w tm scope
          (authenticate v w tm scope).0
          (authenticate v w tm scope).1
          (authenticate v w tm scope).2
  unfolding authenticate
  authenticate-Authenticated w tm scope = elim (Result-cases (v.parse tm.auth_url)) [
    | inr (e, bad) ↦ rw (authenticate, bad) (refused errorf)
    | inl (u, good) ↦
        rw (authenticate, good)
          (checked-Authenticated w tm scope (request_of v tm scope u)
            (v.check (request_of v tm scope u).method (request_of v tm scope u).url))
  ]

  -- No token is cached for the scope, or now is not before the end of its lifetime, which counts
  -- from the time of its grant.
  abbrev pub HasNoFresh : W → TokenManager → Text → Type 0
  HasNoFresh w tm scope =
      (lookup scope tm.cache ≡ none)
      ⊎ ((t : TokenAccess) × (lookup scope tm.cache ≡ some t) × (is_fresh (v.now w) t ≡ some false))

  -- A token that getAccessToken hands out, or its error. Only without a fresh token is the request
  -- of `authenticate` made.
  pub data Handed (w : W) (tm : TokenManager) (scope : Text)
      : W → TokenManager → Result (Option TokenAccess) → Type 0 where
    cached :
        (t : TokenAccess)
        → lookup scope tm.cache ≡ some t
        → is_fresh (v.now w) t ≡ some true
        → Handed w tm scope w tm (ok (some t))
    just_granted :
        {after : W} (request : Request) (answer : Response Reader) (t : TokenAccess)
        → HasNoFresh w tm scope
        → v.exchange w request ≡ (after, ok answer)
        → granted v after (ok answer) ≡ ok t
        → Handed w tm scope after (record tm { cache = insert scope t tm.cache }) (ok (some t))
    failed : {after : W} (e : Error) → HasNoFresh w tm scope → Handed w tm scope after tm (err e)

  after_request-Handed :
      (w : W) (tm : TokenManager) (scope : Text) (after : W) (k : TokenManager) (e : Option Error)
      → HasNoFresh w tm scope
      → AreStamped tm
      → Authenticated w tm scope after k e
      → Handed w tm scope
          (after_request scope (after, k, e)).0
          (after_request scope (after, k, e)).1
          (after_request scope (after, k, e)).2
        × AreStamped (after_request scope (after, k, e)).1
  after_request-Handed w tm scope after k e stale h (refused x) = (failed x stale, h)
  after_request-Handed w tm scope after k e stale h (got request answer t is good stamp) = (
    rw (lookup-insert_self scope t tm.cache) (just_granted request answer t stale is good),
    λ other u has. elim (Bool-cases (text_eq scope other)) [
      | inl yes_ ↦
          let x = rw (lookup-insert scope other t tm.cache, yes_) at has in
          let same : t ≡ u = (cc) in
          (v.now after - five_seconds, sym (ap (λ y. y.last_authentication) same) ∙ stamp)
      | inr no_ ↦ let x = rw (lookup-insert scope other t tm.cache, no_) at has in h other u x
    ],
  )

  -- With a scope, on a manager whose tokens have the times of their grants: getAccessToken does not
  -- fault. While the cached token of the scope is fresh it hands that out, asking no one and changing
  -- nothing. Only without a fresh token does it ask: it hands out the token that it has just been
  -- granted, which it caches for the scope; on an error the cache stays. The tokens of the manager
  -- that is left have their times too.
  pub get_access_token-Handed :
      (w : W) (tm : TokenManager) (scope : Text)
      → is_empty scope ≡ false
      → AreStamped tm
      → (after : W) × (k : TokenManager) × (r : Result (Option TokenAccess)) × (get_access_token v w
            tm scope
          ≡ some (after, k, r))
        × Handed w tm scope after k r
        × AreStamped k
  unfolding get_access_token is_fresh
  get_access_token-Handed w tm scope named h =
      let x = authenticate v w tm scope in
      let y = after_request scope x in
      let asked = authenticate-Authenticated w tm scope in
      elim (Option-cases (lookup scope tm.cache)) [
        | inl none_ ↦
            let (handed, stamped) =
              after_request-Handed w tm scope x.0 x.1 x.2 (inl none_) h asked in
            (y.0, y.1, y.2, rw (get_access_token, named, none_) refl, handed, stamped)
        | inr (t, some_) ↦
            let (last, stamp) = h scope t some_ in
            let d = wrap64 (times t.expires_in 1000000000) in
            elim (Bool-cases (ltb (v.now w + neg_part d) (last + pos_part d))) [
              | inl fresh ↦
                  let is : is_fresh (v.now w) t ≡ some true = rw (is_fresh, stamp, fresh) refl in
                  (
                    w,
                    tm,
                    ok (some t),
                    rw (get_access_token, named, some_, is) refl,
                    cached t some_ is,
                    h,
                  )
              | inr stale ↦
                  let is : is_fresh (v.now w) t ≡ some false = rw (is_fresh, stamp, stale) refl in
                  let (handed, stamped) =
                    after_request-Handed w tm scope x.0 x.1 x.2 (inr (t, some_, is)) h asked in
                  (y.0, y.1, y.2, rw (get_access_token, named, some_, is) refl, handed, stamped)
            ]
      ]

  Authenticated-stamp :
      (w : W) (tm : TokenManager) (scope : Text) (after : W) (k : TokenManager) (e : Option Error)
      (t : TokenAccess)
      → Authenticated w tm scope after k e
      → e ≡ none
      → lookup scope k.cache ≡ some t
      → t.last_authentication ≡ some (v.now after - five_seconds)
  Authenticated-stamp w tm scope after k e t (refused x) is has = absurd (cc)
  Authenticated-stamp w tm scope after k e t (got request answer u i j stamp) is has =
      let same : u ≡ t = let x = lookup-insert_self scope u tm.cache in (cc) in
      sym (ap (λ y. y.last_authentication) same) ∙ stamp

  -- A token granted for a scope is handed out again, and no one is asked, as long as its lifetime in
  -- seconds from five seconds before the grant lasts, if that lifetime is not negative and its
  -- nanoseconds are below 2^63.
  get_access_token_again :
      (w later : W) (tm : TokenManager) (scope : Text) (after : W) (k : TokenManager)
      (t : TokenAccess) (n : ℕ)
      → is_empty scope ≡ false
      → authenticate v w tm scope ≡ (after, k, none)
      → lookup scope k.cache ≡ some t
      → t.expires_in ≡ pos n
      → n * 1000000000 < 2 ^ 63
      → five_seconds ≤ v.now after
      → v.now later + five_seconds < v.now after + n * 1000000000
      → get_access_token v later k scope ≡ some (later, k, ok (some t))
  unfolding get_access_token is_fresh wrap64
  get_access_token_again w later tm scope after k t n named is has life small old soon =
      let done : Authenticated w tm scope after k none =
        subst (λ r. Authenticated w tm scope r.0 r.1 r.2) is
          (authenticate-Authenticated w tm scope) in
      let stamp = Authenticated-stamp w tm scope after k none t done refl has in
      let same : n * 1000000000 % 2 ^ 64 ≡ n * 1000000000 = omega (arith, small) in
      let low : ltb (n * 1000000000) (2 ^ 63) ≡ true = lt→ltb (n * 1000000000) (2 ^ 63) small in
      let wrapped : wrap64 (times (pos n) 1000000000) ≡ pos (n * 1000000000) =
        rw (wrap64, same, low) refl in
      let fresh : is_fresh (v.now later) t ≡ some true =
        rw (is_fresh, stamp, life, wrapped)
          (ap some (
            lt→ltb (v.now later + 0) (v.now after - five_seconds + n * 1000000000)
              (omega (arith, soon, old)))) in
      rw (get_access_token, named, has, fresh) refl
