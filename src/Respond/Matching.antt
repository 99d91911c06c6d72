-- ===== src/Respond/Matching.antt =====
-- `Error` of httpserver/respond/respond.go against the functions for one status each.
use gobox.Base.{◌≡◌, refl, true, All, List, [], ◌∷◌}
use gobox.Respond.{ApiError}
use gobox.Respond.Sending.{
  Sent, bad_request, unauthorized, forbidden, not_found, conflict, unprocessable_entity,
  too_many_requests, internal_server_error, service_unavailable, send_error,
}

-- The functions that send errors.
abbrev pub senders : {A D : Type 0} → List (List (ApiError D) → Sent A D)
senders =
    bad_request ∷ unauthorized ∷ forbidden ∷ not_found ∷ conflict ∷ unprocessable_entity
    ∷ too_many_requests ∷ internal_server_error ∷ service_unavailable ∷ []

-- Each of the nine functions that send errors aborts the handlers and sends exactly what Error sends
-- for the status of that function.
pub send_error-senders :
    {A D : Type 0} (errs : List (ApiError D))
    → All
        (λ send.
          (send_error {A = A} (send errs).status errs ≡ send errs) × ((send errs).aborted ≡ true))
        senders
unfolding send_error bad_request unauthorized forbidden not_found conflict unprocessable_entity
    too_many_requests internal_server_error service_unavailable
send_error-senders errs = (
  (refl, refl),
  (
    (refl, refl),
    (
      (refl, refl),
      (
        (refl, refl),
        ((refl, refl), ((refl, refl), ((refl, refl), ((refl, refl), ((refl, refl), tt))))),
      ),
    ),
  ),
)
