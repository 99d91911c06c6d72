-- ===== src/Login.antt =====
-- The login state and the return path of httpserver/middlewares/oidcauth.go. JSON, base64 and the
-- HMAC are parameters.
pub mod State
pub mod Handlers
pub mod Granted
pub mod Flow
pub mod Start
pub mod Started
pub mod Examples
use Prim.Native.String.{String}
use gobox.Base.{
  ℕ, ◌+◌, ◌*◌, Bool, true, false, not, ◌&&◌, ◌||◌, Option, none, some, List, [], ◌∷◌, ◌++◌, ltb,
  ◌==◌, if◌then◌else◌,
}
use gobox.Base.Text.{Text, codes, text_eq, is_empty}
use gobox.Base.Errors.{Error, Result, ok, err, sentinel}

abbrev pub login_state_ttl : ℕ
login_state_ttl = 10 * 60

-- `Exp` is a Unix time in seconds, which is not negative here.
pub record LoginState : Type 0 where
  pub verifier : Text
  pub return_to : Text
  pub exp : ℕ

-- json.Marshal and Unmarshal with base64.RawURLEncoding, and the signature of `signState`.
pub record Codec : Type 0 where
  pub encode : LoginState → Text
  pub decode : Text → Option LoginState
  pub sign : Text → Text

-- strings.Cut(s, ".")
unfoldable pub cut_at_dot : Text → Option (Text × Text)
cut_at_dot [] = none
cut_at_dot (c ∷ s) =
    let longer : Option (Text × Text) = elim (cut_at_dot s) [
      | none ↦ none
      | some (before, after) ↦ some (c ∷ before, after)
    ] in
    if c == b'.' then some ([], s) else longer

unfoldable pub encode_state : Codec → Text → Text → ℕ → Text
encode_state k verifier return_to now =
    let encoded =
      k.encode
        (record { verifier = verifier; return_to = return_to; exp = now + login_state_ttl }) in
    encoded ++ (b'.' ∷ k.sign encoded)

abbrev pub invalid_login_state : String
invalid_login_state = "errInvalidLoginState"

abbrev decoded : Option LoginState → ℕ → Result LoginState
decoded none now = err (sentinel invalid_login_state)
decoded (some ls) now =
    if is_empty ls.verifier || ltb ls.exp now then err (sentinel invalid_login_state) else ok ls

abbrev pub opened : Codec → Option (Text × Text) → ℕ → Result LoginState
opened k none now = err (sentinel invalid_login_state)
opened k (some (encoded, sig)) now =
    if is_empty encoded || is_empty sig
    then err (sentinel invalid_login_state)
    else if not (text_eq sig (k.sign encoded))
    then err (sentinel invalid_login_state)
    else decoded (k.decode encoded) now

unfoldable pub decode_state : Codec → Text → ℕ → Result LoginState
unfolding cut_at_dot
decode_state k raw now = opened k (cut_at_dot raw) now

-- strings.HasPrefix and Contains
unfoldable pub has_prefix : Text → Text → Bool
has_prefix s [] = true
has_prefix [] (d ∷ p) = false
has_prefix (c ∷ s) (d ∷ p) = c == d && has_prefix s p

unfoldable pub contains_text : Text → Text → Bool
unfolding has_prefix
contains_text [] p = has_prefix [] p
contains_text (c ∷ s) p = has_prefix (c ∷ s) p || contains_text s p

-- raw == "" || raw[0] != '/'
abbrev pub is_relative : Text → Bool
is_relative [] = false
is_relative (c ∷ s) = c == b'/'

unfoldable pub sanitize_return_to : Text → Text
unfolding has_prefix contains_text
sanitize_return_to raw =
    if not (is_relative raw) || has_prefix raw (codes "//") || contains_text raw (codes "://")
    then codes "/"
    else raw
