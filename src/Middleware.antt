-- ===== src/Middleware.antt =====
-- httpserver/middlewares: what a middleware makes of a request. A cookie is looked up by gin's
-- `Cookie`, a header by its `Get`; both give the empty text where there is none.
pub mod Tokens
pub mod Roles
pub mod Csrf
pub mod Cors
pub mod Limits
pub mod Examples
use gobox.Base.{ℕ, Bool, true, false, Option, none, some, List, [], ◌∷◌, ◌==◌, if◌then◌else◌}
use gobox.Base.Text.{Text, codes, text_eq, is_empty, trim_space}

pub record Request : Type 0 where
  pub method : Text
  pub cookies : Text → Text
  pub headers : Text → Text

-- The request goes on to the next handler, or is answered with a status and a code.
pub data Decision {ℓ} (A : Type ℓ) : Type ℓ where
  go_on : A → Decision A
  abort : ℕ → Text → Decision A

-- A configured name, or else its default.
abbrev pub or_default : Text → Text → Text
or_default name default = if is_empty name then default else name
