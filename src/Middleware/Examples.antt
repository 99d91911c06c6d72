-- ===== src/Middleware/Examples.antt =====
-- Requests through the middlewares of httpserver/middlewares.
use gobox.Base.{
  ℕ, ◌-◌, ◌≡◌, ◌≢◌, ◌↔◌, inl, inr, subst, Bool, true, none, some, [], ◌∷◌, ◌==◌, ==_iff, ltb,
  if◌then◌else◌,
}
use gobox.Base.Text.{Text, codes, text_eq, text_eq_iff}
use gobox.Base.Int.{pos}
use gobox.Base.Errors.{Result, ok, err, sentinel}
use gobox.Claims.{Claims, no_claims}
use gobox.Middleware.{Request}
use gobox.Middleware.Tokens.{authorization, Verdict, authorization-Verdict}
use gobox.Middleware.Roles.{RoleContext, apply_role_contexts}
use gobox.Middleware.Roles.Order.{IsOffered, Same, apply_role_contexts-Same}
use gobox.Middleware.Cors.{
  CorsOptions, cors, new_cors_policy, cors_grants, header_after, allow_origin,
  allow_credentials_header,
}
use gobox.Middleware.Limits.{LimiterOps, IpLimiterEntry, IpRateLimiter, RateLimitOptions}

-- A request with the session cookie `c1` and the csrf token `x` in cookie and header.
abbrev request : Request
request = record {
  method = codes "POST";
  cookies = λ name.
      if text_eq name (codes "session_id")
      then codes "c1"
      else if text_eq name (codes "csrf_token")
      then codes "x"
      else [];
  headers = λ name. if text_eq name (codes "X-CSRF-Token") then codes "x" else [];
}

abbrev check_token : Text → Result Claims
check_token token = if text_eq token (codes "c1") then ok no_claims else err (sentinel "unknown")

authorization-Verdict_example :
    Verdict check_token [] request (authorization check_token [] request)
authorization-Verdict_example = authorization-Verdict check_token [] request

abbrev options : CorsOptions
options = record {
  allowed_origins = codes "https://app" ∷ [];
  allowed_methods = [];
  allowed_headers = codes " " ∷ [];
  allow_credentials = true;
}

cors_grants_example :
    let after =
      header_after (some (new_cors_policy options)) (codes "https://app") (codes "GET") [] in
    (after allow_origin ≡ some (codes "https://app"))
    × (after allow_credentials_header ≡ some (codes "true"))
    × ((cors none (codes "https://app") (codes "GET") []).0 ≡ [])
unfolding text_eq
cors_grants_example = cors_grants options (codes "https://app") (codes "GET") []

abbrev tenant : RoleContext ℕ
tenant = record { role_name = codes "tenant"; values = (codes "scope", 1) ∷ [] }

abbrev admin : RoleContext ℕ
admin = record { role_name = codes "admin"; values = (codes "level", 9) ∷ [] }

abbrev has : Text → Bool
has role = true

swapped :
    (k : Text) (v : ℕ)
    → IsOffered has (tenant ∷ admin ∷ []) k v ↔ IsOffered has (admin ∷ tenant ∷ []) k v
swapped k v = (
  λ o. elim o [ inl a ↦ inr (inl a) | inr (inl b) ↦ inl b | inr (inr x) ↦ absurd x ],
  λ o. elim o [ inl a ↦ inr (inl a) | inr (inl b) ↦ inl b | inr (inr x) ↦ absurd x ],
)

apply_role_contexts-Same_example :
    Same
      (λ (a : ℕ) (b : ℕ). a == b)
      ==_iff
      (apply_role_contexts (λ (a : ℕ) (b : ℕ). a == b) has (tenant ∷ admin ∷ []) [])
      (apply_role_contexts (λ (a : ℕ) (b : ℕ). a == b) has (admin ∷ tenant ∷ []) [])
apply_role_contexts-Same_example =
    apply_role_contexts-Same (λ (a : ℕ) (b : ℕ). a == b) ==_iff has (tenant ∷ admin ∷ [])
      (admin ∷ tenant ∷ []) [] swapped

-- A bucket that only counts down.
abbrev counting : LimiterOps ℕ
counting = record {
  new = λ rate burst. 5;
  set_limit = λ x rate. x;
  set_burst = λ x burst. x;
  allow = λ x now. (x - 1, ltb 0 x);
}

abbrev entry : IpLimiterEntry ℕ
entry = record { limiter = 3; last_seen = 100 }

abbrev limiter : IpRateLimiter ℕ
limiter = record {
  limiters = (codes "a", entry) ∷ (codes "b", entry) ∷ [];
  rate = pos 60;
  burst = pos 5;
  last_evict = 0;
}

a_ne_b : codes "a" ≢ codes "b"
unfolding text_eq
a_ne_b e = subst (λ b. if b then ⊥ else Unit) ((text_eq_iff (codes "a") (codes "b")).1 e) tt

abbrev faster : RateLimitOptions
faster = record { requests_per_minute = pos 120; burst = pos 9 }
