-- ===== src/Claims.antt =====
-- oidcauth/types.go and the claim tests of oidcauth/oidc.go and oidcauth/session_manager.go.
-- A float64 claim is a whole number of microseconds.
pub mod Audience
use gobox.Base.{Bool, true, false, ◌&&◌, Option, none, some, List, [], ◌∷◌, any}
use gobox.Base.Text.{Text, codes, text_eq, fields}
use gobox.Base.Int.{ℤ}
use gobox.Base.Dict.{lookup}

pub record Claims : Type 0 where
  pub aud : List Text
  pub allowed_origins : List Text
  pub jti : Text
  pub iss : Text
  pub sub : Text
  pub typ : Text
  pub azp : Text
  pub sid : Text
  pub acr : Text
  pub scope : Text
  pub name : Text
  pub preferred_username : Text
  pub given_name : Text
  pub family_name : Text
  pub email : Text
  pub exp : ℤ
  pub iat : ℤ
  pub auth_time : ℤ
  pub realm_access : List (Text × List Text)
  pub resource_access : List (Text × List (Text × List Text))
  pub email_verified : Bool

-- `Claims{}`
abbrev pub no_claims : Claims
no_claims = record {
  aud = [];
  allowed_origins = [];
  jti = [];
  iss = [];
  sub = [];
  typ = [];
  azp = [];
  sid = [];
  acr = [];
  scope = [];
  name = [];
  preferred_username = [];
  given_name = [];
  family_name = [];
  email = [];
  exp = ℤ.pos 0;
  iat = ℤ.pos 0;
  auth_time = ℤ.pos 0;
  realm_access = [];
  resource_access = [];
  email_verified = false;
}

-- slices.Contains
abbrev pub contains : List Text → Text → Bool
contains xs x = any (λ y. text_eq y x) xs

-- m[key] of a map to lists; a missing key gives the nil slice.
abbrev pub list_at : Option (List Text) → List Text
list_at none = []
list_at (some xs) = xs

-- `HasRole` of the session manager and of the verifier, for the client ID of either.
unfoldable pub has_role : Text → Claims → Text → Bool
has_role client_id claims role = elim (lookup client_id claims.resource_access) [
  | none ↦ false
  | some client_roles ↦ contains (list_at (lookup (codes "roles") client_roles)) role
]

unfoldable pub has_scope : Claims → Text → Bool
has_scope claims scope = contains (fields claims.scope) scope

unfoldable pub has_all_scopes : Claims → List Text → Bool
unfolding has_scope
has_all_scopes claims [] = true
has_all_scopes claims (scope ∷ scopes) = has_scope claims scope && has_all_scopes claims scopes

unfoldable pub is_authorized_party : Claims → Text → Bool
is_authorized_party claims azp = text_eq claims.azp azp
