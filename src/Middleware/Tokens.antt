-- ===== src/Middleware/Tokens.antt =====
-- `Authorization` of httpserver/middlewares/authorization.go: where the caller's token comes from.
use Prim.Native.String.{String}
use gobox.Base.{
  ◌≡◌, ap, ◌∙◌, ◌↔◌, ◌⊎◌, inl, inr, refl, false, ◌&&◌, not, Option, none, some, [], ◌∷◌, ◌++◌, ◌==◌,
  arith, Bool-cases, if◌then◌else◌,
}
use gobox.Base.Text.{Text, codes, text_eq, text_eq_iff, is_empty, trim_space}
use gobox.Base.Errors.{Error, Result, ok, err, sentinel, error_is, Result-cases}
use gobox.Claims.{Claims}
use gobox.Middleware.{Request, Decision, go_on, abort, or_default}

abbrev pub session_cookie : Text
session_cookie = codes "session_id"

abbrev pub token_conflict : String
token_conflict = "ErrForbidden"

-- strings.SplitN(s, " ", 2): what stands before and after the first space.
unfoldable pub split_at_space : Text → Text × Option Text
split_at_space [] = ([], none)
split_at_space (c ∷ s) =
    let (word, rest) = split_at_space s in if c == 32 then ([], some s) else (c ∷ word, rest)

-- The token after the scheme of the header.
abbrev after_scheme : Text × Option Text → Result Text
after_scheme (scheme, none) = err (sentinel "ErrInvalidAuthorizationFormat")
after_scheme (scheme, some rest) =
    if text_eq scheme (codes "Bearer")
    then (if is_empty (trim_space rest)
        then err (sentinel "ErrEmptyToken")
        else ok (trim_space rest))
    else err (sentinel "ErrInvalidAuthorizationFormat")

unfoldable pub extract_bearer_token : Text → Result Text
unfolding split_at_space
extract_bearer_token header =
    if is_empty header
    then err (sentinel "ErrMissingAuthorizationHeader")
    else after_scheme (split_at_space header)

-- The switch of `extractToken`, on the cookie's value and the result for the header.
unfoldable pub choose_token : Text → Result Text → Result Text
choose_token cookie (ok bearer) =
    if not (is_empty cookie) && not (is_empty bearer)
    then err (sentinel token_conflict)
    else if not (is_empty cookie)
    then ok cookie
    else if not (is_empty bearer)
    then ok bearer
    else err (sentinel "ErrMissingToken")
choose_token cookie (err e) =
    if not (is_empty cookie) then ok cookie else err (sentinel "ErrMissingToken")

unfoldable pub extract_token : Request → Text → Result Text
extract_token req cookie_name =
    choose_token (req.cookies cookie_name)
      (extract_bearer_token (req.headers (codes "Authorization")))

abbrev verified : Result Claims → Decision Claims
verified (err e) = abort 401 (codes "ERR_INVALID_TOKEN")
verified (ok claims) = go_on claims

-- `AuthorizationWithOptions`; the claims that go on are those stored in the context.
unfoldable pub authorization : (Text → Result Claims) → Text → Request → Decision Claims
unfolding extract_token
authorization verify session_cookie_name req =
    elim (extract_token req (or_default session_cookie_name session_cookie)) [
      | err e ↦
          if error_is e token_conflict
          then abort 403 (codes "ERR_TOKEN_CONFLICT")
          else abort 401 (codes "ERR_MISSING_TOKEN")
      | ok token ↦ verified (verify token)
    ]

-- A header that carries a token: the scheme, a space, and the token, perhaps with space around.
abbrev pub Carries : Text → Text → Type 0
Carries header token =
    (rest : Text) × (header ≡ codes "Bearer" ++ (32 ∷ rest))
    × (trim_space rest ≡ token)
    × (is_empty token ≡ false)

split_at_space-append :
    (s word rest : Text) → split_at_space s ≡ (word, some rest) → s ≡ word ++ (32 ∷ rest)
unfolding split_at_space
split_at_space-append [] word rest is = absurd (cc)
split_at_space-append (c ∷ s) word rest is = elim (Bool-cases (c == 32)) [
  | inl yes_ ↦
      let x = rw (yes_, split_at_space) at is in
      let blank : c ≡ 32 = ground (arith, yes_) in
      let no_word : [] ≡ word = (cc) in
      let same : s ≡ rest = (cc) in rw (← no_word, ← same, blank) refl
  | inr no_ ↦
      let x = rw (no_, split_at_space) at is in
      let first : c ∷ (split_at_space s).0 ≡ word = (cc) in
      let second_ : (split_at_space s).1 ≡ some rest = (cc) in
      rw (← first) (
        ap (λ t. c ∷ t)
          (split_at_space-append s (split_at_space s).0 rest
            (ap (λ x. ((split_at_space s).0, x)) second_)))
]

after_scheme-Carries :
    (header token : Text) (x : Text × Option Text)
    → split_at_space header ≡ x
    → after_scheme x ≡ ok token
    → Carries header token
after_scheme-Carries header token (scheme, none) e is = absurd (cc)
after_scheme-Carries header token (scheme, some rest) e is =
    elim (Bool-cases (text_eq scheme (codes "Bearer"))) [
      | inl bearer ↦ elim (Bool-cases (is_empty (trim_space rest))) [
        | inl blank ↦ let x = rw (bearer, blank) at is in absurd (cc)
        | inr filled ↦
            let x = rw (bearer, filled) at is in
            let same : trim_space rest ≡ token = (cc) in
            let word : scheme ≡ codes "Bearer" = (text_eq_iff scheme (codes "Bearer")).0 bearer in
            (
              rest,
              split_at_space-append header scheme rest e ∙ ap (λ x. x ++ (32 ∷ rest)) word,
              same,
              rw (← same) filled,
            )
      ]
      | inr other ↦ let x = rw (other) at is in absurd (cc)
    ]

-- The header gives a token exactly if it carries it.
extract_bearer_token_iff :
    (header token : Text) → (extract_bearer_token header ≡ ok token) ↔ Carries header token
unfolding extract_bearer_token split_at_space text_eq
extract_bearer_token_iff header token = (
  λ is. elim (Bool-cases (is_empty header)) [
    | inl blank ↦ let x = rw (blank, extract_bearer_token) at is in absurd (cc)
    | inr filled ↦
        after_scheme-Carries header token (split_at_space header) refl
          (rw (filled, extract_bearer_token) at is)
  ],
  λ h. let (rest, e, f, g) = h in rw (e, extract_bearer_token, f, g) refl,
)

-- The cookie and the header that the middleware reads.
abbrev cookie_of : Text → Request → Text
cookie_of name req = req.cookies (or_default name session_cookie)

abbrev header_of : Request → Text
header_of req = req.headers (codes "Authorization")

abbrev pub HasCookie : Text → Request → Type 0
HasCookie name req = is_empty (cookie_of name req) ≡ false

abbrev pub HasBearer : Request → Type 0
HasBearer req = (token : Text) × Carries (header_of req) token

-- The claims verified of the one token that is given.
abbrev pub Admits : (Text → Result Claims) → Text → Request → Claims → Type 0
Admits verify name req c =
    (HasCookie name req × ¬ HasBearer req × (verify (cookie_of name req) ≡ ok c))
    ⊎ (¬ HasCookie name req
        × ((token : Text) × Carries (header_of req) token × (verify token ≡ ok c)))

-- What the middleware makes of the cookie's value, the header's token and the verifier's answer.
pub data Verdict (verify : Text → Result Claims) (name : Text) (req : Request) (d : Decision Claims)
    : Type 0 where
  admitted : (c : Claims) → Admits verify name req c → d ≡ go_on c → Verdict verify name req d
  conflicting :
      HasCookie name req
      → HasBearer req
      → d ≡ abort 403 (codes "ERR_TOKEN_CONFLICT")
      → Verdict verify name req d
  missing :
      ¬ HasCookie name req
      → ¬ HasBearer req
      → d ≡ abort 401 (codes "ERR_MISSING_TOKEN")
      → Verdict verify name req d
  rejected :
      (token : Text) (e : Error)
      → (token ≡ cookie_of name req) ⊎ Carries (header_of req) token
      → verify token ≡ err e
      → d ≡ abort 401 (codes "ERR_INVALID_TOKEN")
      → Verdict verify name req d

-- Authorization lets a request on exactly with the claims that the verifier gives for its one
-- token, of the session cookie or of the header; a token in both is answered by 403, and one in
-- neither or one that the verifier rejects by 401.
pub authorization-Verdict :
    (verify : Text → Result Claims) (name : Text) (req : Request)
    → Verdict verify name req (authorization verify name req)
unfolding authorization extract_token choose_token error_is
authorization-Verdict verify name req = elim (Result-cases (extract_bearer_token (header_of req))) [
  | inl (token, found) ↦
      let carried = (extract_bearer_token_iff (header_of req) token).0 found in
      elim (Bool-cases (is_empty (cookie_of name req))) [
        | inl no_cookie ↦ elim (Result-cases (verify token)) [
          | inl (c, good) ↦ admitted c (inr (λ h. absurd (cc), (token, carried, good))) (
              rw (found, no_cookie, carried.3, good, authorization, extract_token, choose_token)
                refl)
          | inr (e, bad) ↦ rejected token e (inr carried) bad (
              rw (found, no_cookie, carried.3, bad, authorization, extract_token, choose_token)
                refl)
        ]
        | inr has_cookie ↦
            conflicting has_cookie (token, carried)
              (rw (found, has_cookie, carried.3, authorization, extract_token, choose_token) refl)
      ]
  | inr (e, failed) ↦
      let no_bearer : ¬ HasBearer req =
        λ h. let x = (extract_bearer_token_iff (header_of req) h.0).1 h.1 in absurd (cc) in
      elim (Bool-cases (is_empty (cookie_of name req))) [
        | inl no_cookie ↦
            missing (λ h. absurd (cc)) no_bearer
              (rw (failed, no_cookie, authorization, extract_token, choose_token) refl)
        | inr has_cookie ↦ elim (Result-cases (verify (cookie_of name req))) [
          | inl (c, good) ↦
              admitted c (inl (has_cookie, no_bearer, good))
                (rw (failed, has_cookie, good, authorization, extract_token, choose_token) refl)
          | inr (e₂, bad) ↦
              rejected (cookie_of name req) e₂ (inl refl) bad
                (rw (failed, has_cookie, bad, authorization, extract_token, choose_token) refl)
        ]
      ]
]
