-- ===== src/Fcm/Answers.antt =====
-- The answer to a send: fcm/response.go.
use gobox.Base.{
  ℕ, suc, ◌-◌, ◌*◌, Bool, ◌||◌, Option, none, some, List, [], ◌∷◌, leb, ◌==◌, if◌then◌else◌,
}
use gobox.Base.Int.{ℤ, pos, negsuc, pos_part, wrap64}
use gobox.Base.Text.{Text, codes, is_empty, text_eq}
use gobox.Base.Utf8.{Bytes}

-- A duration is its nanoseconds.
pub record SendResponse : Type 0 where
  pub status_code : ℕ
  pub body : Bytes
  pub headers : List (Text × Bytes)
  pub accepted_name : Text
  pub error_code : Text
  pub retry_after : ℤ

abbrev pub status_ok : ℕ
status_ok = 200

unfoldable pub accepted : SendResponse → Bool
accepted r = r.status_code == status_ok

unfoldable pub retryable : SendResponse → Bool
unfolding text_eq
retryable r =
    text_eq r.error_code (codes "QUOTA_EXCEEDED")
    || text_eq r.error_code (codes "UNAVAILABLE")
    || text_eq r.error_code (codes "INTERNAL")
    || r.status_code == 429
    || leb 500 r.status_code

unfoldable pub invalid_token : SendResponse → Bool
unfolding text_eq
invalid_token r =
    text_eq r.error_code (codes "UNREGISTERED") || text_eq r.error_code (codes "SENDER_ID_MISMATCH")

-- The error of an answer: its status, and the error codes of its details.
pub record Rejection : Type 0 where
  pub status : Text
  pub details : List Text

-- What is used of encoding/json, strconv, net/http and the clock: `unmarshal_accepted` gives the
-- name, `remaining` the time until an HTTP date.
pub record Parsers : Type 0 where
  pub unmarshal_accepted : Bytes → Option Text
  pub unmarshal_rejection : Bytes → Option Rejection
  pub atoi : Text → Option ℤ
  pub remaining : Text → Option ℤ

abbrev pub first_code : Text → List Text → Text
first_code status [] = status
first_code status (code ∷ codes_left) =
    let rest = first_code status codes_left in if is_empty code then rest else code

abbrev pub times : ℤ → ℕ → ℤ
times (pos n) k = pos (n * k)
times (negsuc n) k = if k == 0 then pos 0 else negsuc (suc n * k - 1)

module _ (v : Parsers) where
  unfoldable pub parse_error_code : Bytes → Text
  parse_error_code body = elim (v.unmarshal_rejection body) [
    | none ↦ []
    | some rejection ↦ first_code rejection.status rejection.details
  ]

  unfoldable pub parse_retry_after : Text → ℤ
  unfolding wrap64
  parse_retry_after value = if is_empty value then pos 0 else elim (v.atoi value) [
    | some seconds ↦ pos (pos_part (wrap64 (times seconds 1000000000)))
    | none ↦ elim (v.remaining value) [ some left ↦ pos (pos_part left) | none ↦ pos 0 ]
  ]

  abbrev pub name_of : Option Text → Text
  name_of none = []
  name_of (some name) = name

  -- `newSendResponse`, from the status and the Retry-After header of the answer.
  unfoldable pub new_send_response : ℕ → Text → Bytes → List (Text × Bytes) → SendResponse
  unfolding parse_error_code parse_retry_after
  new_send_response status retry_after body headers =
      if status == status_ok
      then record {
        status_code = status;
        body = body;
        headers = headers;
        accepted_name = name_of (v.unmarshal_accepted body);
        error_code = [];
        retry_after = pos 0;
      }
      else record {
        status_code = status;
        body = body;
        headers = headers;
        accepted_name = [];
        error_code = parse_error_code body;
        retry_after = parse_retry_after retry_after;
      }
