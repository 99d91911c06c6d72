-- ===== src/Login/Started.antt =====
-- What Login of httpserver/middlewares/oidcauth.go sends to the issuer, and Callback reads back.
use gobox.Base.{◌≡◌, false, some}
use gobox.Base.Text.{Text, is_empty}
use gobox.Login.{LoginState, Codec}
use gobox.Login.State.{HasNoDot}
use gobox.Login.Flow.{Flow}

-- A codec is faithful to a state: what it encodes has no dot, is not empty and is read back, and its
-- signature is not empty.
abbrev pub IsFaithful : Codec → LoginState → Type 0
IsFaithful k ls =
    (k.decode (k.encode ls) ≡ some ls)
    × HasNoDot (k.encode ls)
    × (is_empty (k.encode ls) ≡ false)
    × (is_empty (k.sign (k.encode ls)) ≡ false)
