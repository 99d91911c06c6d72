-- ===== src/Middleware/Csrf.antt =====
-- httpserver/middlewares/csrf.go: the double-submit check.
use gobox.Base.{
  ◌≡◌, ◌↔◌, ◌⊎◌, inl, inr, refl, Bool, true, false, not, ◌||◌, arith, Bool-cases, if◌then◌else◌,
}
use gobox.Base.Text.{Text, codes, text_eq, text_eq_iff, is_empty}
use gobox.Middleware.{Request, Decision, go_on, abort, or_default}

abbrev pub is_safe_method : Text → Bool
is_safe_method m =
    text_eq m (codes "GET") || text_eq m (codes "HEAD") || text_eq m (codes "OPTIONS")

-- The check of a cookie's value and a header's.
unfoldable pub compare_tokens : Text → Text → Decision (Unit {0})
compare_tokens cookie header =
    if is_empty cookie
    then abort 403 (codes "ERR_CSRF_TOKEN_MISSING")
    else if is_empty header || not (text_eq cookie header)
    then abort 403 (codes "ERR_CSRF_TOKEN_MISMATCH")
    else go_on tt

-- `CSRFWithOptions`, for the two names of its options.
unfoldable pub csrf : Text → Text → Request → Decision (Unit {0})
unfolding compare_tokens
csrf cookie_name header_name req =
    if is_safe_method req.method
    then go_on tt
    else compare_tokens (req.cookies (or_default cookie_name (codes "csrf_token")))
        (req.headers (or_default header_name (codes "X-CSRF-Token")))

-- The request echoes the cookie, which is not empty, in the header.
abbrev pub Echoes : Text → Text → Request → Type 0
Echoes cookie_name header_name req =
    (is_empty (req.cookies (or_default cookie_name (codes "csrf_token"))) ≡ false)
    × (req.cookies (or_default cookie_name (codes "csrf_token"))
        ≡ req.headers (or_default header_name (codes "X-CSRF-Token")))

compare_tokens_iff :
    (cookie header : Text)
    → (compare_tokens cookie header ≡ go_on tt) ↔ ((is_empty cookie ≡ false) × (cookie ≡ header))
unfolding compare_tokens
compare_tokens_iff cookie header = ground (arith, text_eq_iff cookie header)

-- A request passes exactly if its method is GET, HEAD or OPTIONS or it echoes the cookie.
csrf_iff :
    (cookie_name header_name : Text) (req : Request)
    → (csrf cookie_name header_name req ≡ go_on tt)
      ↔ ((is_safe_method req.method ≡ true) ⊎ Echoes cookie_name header_name req)
unfolding csrf
csrf_iff cookie_name header_name req = elim (Bool-cases (is_safe_method req.method)) [
  | inl safe ↦ (λ is. inl safe, λ h. rw (safe, csrf) refl)
  | inr unsafe ↦
      let (to, from) =
        compare_tokens_iff (req.cookies (or_default cookie_name (codes "csrf_token")))
          (req.headers (or_default header_name (codes "X-CSRF-Token"))) in
      (
        λ is. inr (to (rw (unsafe, csrf) at is)),
        λ h. elim h [ inl safe ↦ absurd (cc) | inr echoes ↦ rw (unsafe, csrf) (from echoes) ],
      )
]
