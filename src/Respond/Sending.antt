-- ===== src/Respond/Sending.antt =====
-- httpserver/respond/respond.go: the responses. `A` is the type of the data, `D` that of the details.
use gobox.Base.{ℕ, Bool, true, false, Option, none, some, List, [], ◌∷◌, ◌==◌, if◌then◌else◌}
use gobox.Base.Text.{Text, codes, is_empty}
use gobox.Respond.{ApiError}

-- `Response`; nil data is `none`.
pub record Response (A D : Type 0) : Type 0 where
  pub success : Bool
  pub message : Text
  pub body : Option A
  pub errors : List (ApiError D)

-- What a function sends: a status with or without a response, and whether it aborts the handlers.
pub record Sent (A D : Type 0) : Type 0 where
  pub status : ℕ
  pub response : Option (Response A D)
  pub aborted : Bool

abbrev pub msg_ok : Text
msg_ok = codes "The request was processed successfully"

abbrev pub msg_accepted : Text
msg_accepted = codes "The request was accepted for processing"

abbrev pub msg_created : Text
msg_created = codes "The resource was created successfully"

abbrev pub msg_bad_request : Text
msg_bad_request = codes "Invalid request body"

abbrev pub msg_unauthorized : Text
msg_unauthorized = codes "Unauthorized access"

abbrev pub msg_forbidden : Text
msg_forbidden = codes "Access denied, you do not have permission to access this resource"

abbrev pub msg_not_found : Text
msg_not_found = codes "Resource not found"

abbrev pub msg_conflict : Text
msg_conflict = codes "Conflict with the current state of the resource"

abbrev pub msg_unprocessable : Text
msg_unprocessable = codes "Unprocessable entity"

abbrev pub msg_too_many_request : Text
msg_too_many_request = codes "Too many requests"

abbrev pub msg_internal_error : Text
msg_internal_error = codes "An internal server error occurred"

abbrev pub msg_service_unavailable : Text
msg_service_unavailable = codes "The service is currently unavailable"

-- `statusMessage`
unfoldable pub status_message : ℕ → Text
status_message status =
    if status == 400
    then msg_bad_request
    else if status == 401
    then msg_unauthorized
    else if status == 403
    then msg_forbidden
    else if status == 404
    then msg_not_found
    else if status == 409
    then msg_conflict
    else if status == 422
    then msg_unprocessable
    else if status == 429
    then msg_too_many_request
    else if status == 503
    then msg_service_unavailable
    else msg_internal_error

-- `pickMessage`
unfoldable pub pick_message : Text → List Text → Text
pick_message def [] = def
pick_message def (msg ∷ more) = if is_empty msg then def else msg

-- `NewError`
unfoldable pub new_error : {D : Type 0} → Text → Text → List D → ApiError D
new_error code message [] = record { code = code; message = message; details = none }
new_error code message (d ∷ more) = record { code = code; message = message; details = some d }

module _ {A D : Type 0} where
  -- `successResponse` and `errorResponse`
  unfoldable pub success_response : Option A → Text → Response A D
  success_response body message = record {
    success = true;
    message = message;
    body = body;
    errors = [];
  }

  unfoldable pub error_response : List (ApiError D) → Text → Response A D
  error_response errs message = record {
    success = false;
    message = message;
    body = none;
    errors = errs;
  }

  abbrev sent_as : ℕ → Text → Option A → List Text → Sent A D
  sent_as status def body message = record {
    status = status;
    response = some (success_response body (pick_message def message));
    aborted = false;
  }

  abbrev failed_as : ℕ → List (ApiError D) → Text → Sent A D
  failed_as status errs message = record {
    status = status;
    response = some (error_response errs message);
    aborted = true;
  }

  -- `OK`, `Accepted` and `Created`
  unfoldable pub ok : Option A → List Text → Sent A D
  ok body message = sent_as 200 msg_ok body message

  unfoldable pub accepted : Option A → List Text → Sent A D
  accepted body message = sent_as 202 msg_accepted body message

  unfoldable pub created : Option A → List Text → Sent A D
  created body message = sent_as 201 msg_created body message

  -- `NoContent`
  unfoldable pub no_content : Sent A D
  no_content = record { status = 204; response = none; aborted = false }

  unfoldable pub bad_request : List (ApiError D) → Sent A D
  bad_request errs = failed_as 400 errs msg_bad_request

  unfoldable pub unauthorized : List (ApiError D) → Sent A D
  unauthorized errs = failed_as 401 errs msg_unauthorized

  unfoldable pub forbidden : List (ApiError D) → Sent A D
  forbidden errs = failed_as 403 errs msg_forbidden

  unfoldable pub not_found : List (ApiError D) → Sent A D
  not_found errs = failed_as 404 errs msg_not_found

  unfoldable pub conflict : List (ApiError D) → Sent A D
  conflict errs = failed_as 409 errs msg_conflict

  unfoldable pub unprocessable_entity : List (ApiError D) → Sent A D
  unprocessable_entity errs = failed_as 422 errs msg_unprocessable

  unfoldable pub too_many_requests : List (ApiError D) → Sent A D
  too_many_requests errs = failed_as 429 errs msg_too_many_request

  unfoldable pub internal_server_error : List (ApiError D) → Sent A D
  internal_server_error errs = failed_as 500 errs msg_internal_error

  unfoldable pub service_unavailable : List (ApiError D) → Sent A D
  service_unavailable errs = failed_as 503 errs msg_service_unavailable

  -- `Error`
  unfoldable pub send_error : ℕ → List (ApiError D) → Sent A D
  unfolding status_message
  send_error status errs = failed_as status errs (status_message status)
