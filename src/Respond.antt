-- ===== src/Respond.antt =====
-- httpserver/respond/error_resolver.go: the registered errors and their representations. `D` is
-- the type of the details.
pub mod Registry
pub mod Sending
pub mod Matching
pub mod Examples
use Prim.Native.String.{String}
use gobox.Base.{
  ℕ, ◌+◌, Bool, true, false, not, ◌&&◌, ◌||◌, Option, none, some, List, [], ◌∷◌, ◌++◌, ltb, ◌==◌,
  if◌then◌else◌, length,
}
use gobox.Base.Text.{Text, codes, is_empty}
use gobox.Base.Errors.{Error, error_is, sentinel}

-- An error that can be a target of errors.Is: its identity, and what errors.Is finds in it.
pub record Target : Type 0 where
  pub id : String
  pub chain : Error

-- `Err`; a nil error is `none`, nil details are `none`.
pub record Err (D : Type 0) : Type 0 where
  pub error : Option Target
  pub status : ℕ
  pub code : Text
  pub message : Text
  pub details : Option D

pub record ApiError (D : Type 0) : Type 0 where
  pub code : Text
  pub message : Text
  pub details : Option D

pub record ErrorResolver (D : Type 0) : Type 0 where
  pub entries : List (Err D)
  pub fallback : Err D

abbrev has_error : Option Target → Bool
has_error none = false
has_error (some t) = true

-- Whether `validate` gives no error; a negative status is not modelled.
unfoldable pub validate : {D : Type 0} → Err D → Bool
validate e =
    has_error e.error
    && not (is_empty e.code)
    && not (is_empty e.message)
    && not (not (e.status == 0) && (ltb e.status 100 || ltb 599 e.status))

unfoldable pub api_error : {D : Type 0} → Err D → ApiError D
api_error e = record { code = e.code; message = e.message; details = e.details }

-- A zero status becomes 500.
unfoldable pub normalized : {D : Type 0} → Err D → Err D
normalized e = record e { status = if e.status == 0 then 500 else e.status }

abbrev matches : Error → Option Target → Bool
matches e none = false
matches e (some t) = error_is e t.id

-- `IsErr`
unfoldable pub is_err : {D : Type 0} → Err D → Error → Bool
is_err entry e = matches e entry.error

abbrev pub equivalent : Option Target → Option Target → Bool
equivalent none b = false
equivalent (some a) none = false
equivalent (some a) (some b) = error_is a.chain b.id && error_is b.chain a.id

-- Whether `aliasLocked` finds an entry.
unfoldable pub is_aliased : {D : Type 0} → List (Err D) → Err D → Bool
is_aliased [] e = false
is_aliased (entry ∷ entries) e = equivalent e.error entry.error || is_aliased entries e

unfoldable pub new_error_resolver : {D : Type 0} → ErrorResolver D
new_error_resolver = record {
  entries = [];
  fallback = record {
    error = some (record {
      id = "respond: unregistered error";
      chain = sentinel "respond: unregistered error";
    });
    status = 500;
    code = codes "INTERNAL_SERVER_ERROR";
    message = codes "An internal server error occurred";
    details = none;
  };
}

-- `SetFallback`, with its success
unfoldable pub set_fallback : {D : Type 0} → ErrorResolver D → Err D → ErrorResolver D × Bool
unfolding validate normalized
set_fallback r e = if validate e then (record r { fallback = normalized e }, true) else (r, false)

-- The loop of `AddEntries` over the entries, with its success; what was added before an entry that
-- fails stays.
unfoldable pub add_entries : {D : Type 0} → List (Err D) → List (Err D) → List (Err D) × Bool
unfolding validate is_aliased normalized
add_entries entries [] = (entries, true)
add_entries entries (e ∷ more) =
    let rest = add_entries (entries ++ normalized e ∷ []) more in
    if not (validate e)
    then (entries, false)
    else if is_aliased entries e
    then (entries, false)
    else rest

unfoldable pub lookup_entries : {D : Type 0} → List (Err D) → Error → Option (Err D)
unfolding is_err
lookup_entries [] e = none
lookup_entries (entry ∷ entries) e =
    let rest = lookup_entries entries e in if is_err entry e then some entry else rest

-- `Lookup`; a nil error is `none`.
unfoldable pub lookup_err : {D : Type 0} → ErrorResolver D → Option Error → Option (Err D)
unfolding lookup_entries
lookup_err r none = none
lookup_err r (some e) = lookup_entries r.entries e

unfoldable pub resolve_err : {D : Type 0} → ErrorResolver D → Option Error → ApiError D × ℕ × Bool
unfolding lookup_err api_error
resolve_err r e = elim (lookup_err r e) [
  | some entry ↦ (api_error entry, entry.status, true)
  | none ↦ (api_error r.fallback, r.fallback.status, false)
]

abbrev or_static : {D : Type 0} → Option D → Option D → Option D
or_static none static_ = static_
or_static (some d) static_ = some d

unfoldable pub resolve_with_details :
    {D : Type 0} → ErrorResolver D → Option Error → Option D → ApiError D × ℕ × Bool
unfolding resolve_err
resolve_with_details r e details =
    let (api, status, known) = resolve_err r e in
    (record api { details = or_static details api.details }, status, known)
