-- ===== src/Middleware/Roles.antt =====
-- `RequireRole` and `RequireAnyRole` of httpserver/middlewares/authorization.go. A context is a
-- map; the comparison of two values of a key, which Go refuses for slices, maps and functions, is
-- `eq`, and `has` tells the roles of the caller.
pub mod Order
use gobox.Base.{
  ℕ, Bool, true, false, not, ◌||◌, Option, none, some, List, [], ◌∷◌, ◌++◌, any, if◌then◌else◌,
}
use gobox.Base.Text.{Text, codes}
use gobox.Base.Dict.{lookup, insert}
use gobox.Claims.{Claims}
use gobox.Middleware.{Decision, go_on, abort}

pub record RoleContext (V : Type 0) : Type 0 where
  pub role_name : Text
  pub values : List (Text × V)

module _ {V : Type 0} (eq : V → V → Bool) where
  -- One value: a conflict is `none`.
  abbrev put : Option V → Text → V → List (Text × V) → Option (List (Text × V))
  put none k v staged = some (insert k v staged)
  put (some existing) k v staged = if not (eq existing v) then none else some (insert k v staged)

  -- The inner loop of `applyRoleContexts`.
  unfoldable pub stage_values : List (Text × V) → List (Text × V) → Option (List (Text × V))
  stage_values [] staged = some staged
  stage_values ((k, v) ∷ values) staged = elim (put (lookup k staged) k v staged) [
    | none ↦ none
    | some more ↦ stage_values values more
  ]

  -- The outer loop.
  unfoldable pub stage :
      (Text → Bool) → List (RoleContext V) → List (Text × V) → Option (List (Text × V))
  unfolding stage_values
  stage has [] staged = some staged
  stage has (e ∷ extras) staged =
      let skipped = stage has extras staged in
      let taken : Option (List (Text × V)) = elim (stage_values e.values staged) [
        | none ↦ none
        | some more ↦ stage has extras more
      ] in
      if has e.role_name then taken else skipped

-- The staged values as they are set.
unfoldable pub commit : {V : Type 0} → List (Text × V) → List (Text × V) → List (Text × V)
commit [] ctx = ctx
commit ((k, v) ∷ staged) ctx = insert k v (commit staged ctx)

abbrev committed :
    {V : Type 0} → Option (List (Text × V)) → List (Text × V) → Option (List (Text × V))
committed none ctx = none
committed (some staged) ctx = some (commit staged ctx)

unfoldable pub apply_role_contexts :
    {V : Type 0}
    → (V → V → Bool)
    → (Text → Bool)
    → List (RoleContext V)
    → List (Text × V)
    → Option (List (Text × V))
unfolding stage commit
apply_role_contexts eq has extras ctx = committed (stage eq has extras []) ctx

abbrev injected : {V : Type 0} → Option (List (Text × V)) → Decision (List (Text × V))
injected none = abort 500 (codes "ERR_ROLE_CONTEXT_CONFLICT")
injected (some ctx) = go_on ctx

-- The claims of the context, if it has any, and the test of the caller's roles.
unfoldable pub require :
    {V : Type 0}
    → (V → V → Bool)
    → (Claims → Text → Bool)
    → (Claims → Bool)
    → List (RoleContext V)
    → Option Claims
    → List (Text × V)
    → Decision (List (Text × V))
unfolding apply_role_contexts
require eq has granted extras none ctx = abort 401 (codes "ERR_INVALID_TOKEN")
require eq has granted extras (some claims) ctx =
    if not (granted claims)
    then abort 403 (codes "ERR_PERMISSION_DENIED")
    else injected (apply_role_contexts eq (has claims) extras ctx)

unfoldable pub require_role :
    {V : Type 0}
    → (V → V → Bool)
    → (Claims → Text → Bool)
    → Text
    → List (RoleContext V)
    → Option Claims
    → List (Text × V)
    → Decision (List (Text × V))
unfolding require
require_role eq has role extras claims ctx = require eq has (λ c. has c role) extras claims ctx

unfoldable pub require_any_role :
    {V : Type 0}
    → (V → V → Bool)
    → (Claims → Text → Bool)
    → List Text
    → List (RoleContext V)
    → Option Claims
    → List (Text × V)
    → Decision (List (Text × V))
unfolding require
require_any_role eq has roles extras claims ctx =
    require eq has (λ c. any (has c) roles) extras claims ctx
