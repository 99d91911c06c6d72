-- ===== src/Respond/Examples.antt =====
-- Runs of httpserver/respond/error_resolver.go.
use gobox.Base.{ℕ, ◌≡◌, refl, true, All, List, false, none, some, [], ◌∷◌, arith}
use gobox.Base.Text.{codes}
use gobox.Base.Errors.{error_is, sentinel, wrap}
use gobox.Respond.Sending.{send_error}
use gobox.Respond.Matching.{senders, send_error-senders}
use gobox.Respond.{
  ApiError, Err, ErrorResolver, add_entries, resolve_err, is_aliased, validate, normalized,
}
use gobox.Respond.Registry.{IsRenderable, Resolves, resolve_err-Resolves}

abbrev missing : Err ℕ
missing = record {
  error = some (record { id = "ErrMissing"; chain = sentinel "ErrMissing" });
  status = 404;
  code = codes "MISSING";
  message = codes "Not there";
  details = none;
}

-- A special case of the first, which it wraps.
abbrev expired : Err ℕ
expired = record {
  error = some (record { id = "ErrExpired"; chain = wrap "ErrExpired" (sentinel "ErrMissing") });
  status = 0;
  code = codes "EXPIRED";
  message = codes "Not there any more";
  details = none;
}

-- The third repeats the first: the first two stay.
repeated :
    add_entries [] (expired ∷ missing ∷ missing ∷ [])
    ≡ (record expired { status = 500 } ∷ missing ∷ [], false)
unfolding add_entries validate is_aliased normalized error_is
repeated = refl

abbrev resolver : ErrorResolver ℕ
resolver = record { entries = missing ∷ []; fallback = missing }

missing-IsRenderable : IsRenderable missing
missing-IsRenderable = record { low = omega arith; high = omega arith; code = refl; message = refl }

resolve_err-Resolves_example :
    Resolves resolver
      (wrap "ErrExpired" (sentinel "ErrMissing"))
      (resolve_err resolver (some (wrap "ErrExpired" (sentinel "ErrMissing"))))
resolve_err-Resolves_example =
    resolve_err-Resolves resolver (wrap "ErrExpired" (sentinel "ErrMissing"))
      (missing-IsRenderable, tt) missing-IsRenderable

abbrev denied : List (ApiError ℕ)
denied = record { code = codes "DENIED"; message = codes "No"; details = some 3 } ∷ []

send_error-senders_test :
    All
      (λ send.
        (send_error {A = ℕ} (send denied).status denied ≡ send denied)
        × ((send denied).aborted ≡ true))
      senders
send_error-senders_test = send_error-senders denied
