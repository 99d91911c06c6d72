-- ===== src/Fcm/Client.antt =====
-- New and Send: fcm/fcm.go and fcm/credentials.go.
use gobox.Base.{
  ℕ, take, Bool, ◌&&◌, ◌||◌, not, Option, none, some, List, [], ◌∷◌, ◌++◌, ◌==◌, if◌then◌else◌,
}
use gobox.Base.Errors.{Error, Result, ok, err, errorf, sentinel, wrap}
use gobox.Base.Text.{Text, codes, is_empty, text_eq, trim_space}
use gobox.Fcm.{NotificationMessage, SendRequest, new_send_request}
use gobox.Base.Utf8.{Bytes}
use gobox.Fcm.Answers.{Parsers, SendResponse, new_send_response}

pub record ServiceAccount : Type 0 where
  pub type_ : Text
  pub project_id : Text
  pub private_key_id : Text
  pub private_key : Text
  pub client_email : Text
  pub token_uri : Text

pub record Config : Type 0 where
  pub project_id : Text
  pub credentials : Bytes
  pub endpoint : Text
  pub token_url : Text

-- What is used of encoding/json, pem and x509: whether a PKCS #8 key is an RSA key.
pub record Keys : Type 0 where
  pub unmarshal_account : Bytes → Result ServiceAccount
  pub pem_decode : Text → Option Text
  pub parse_pkcs8 : Text → Result Bool
  pub parse_pkcs1 : Text → Result (Unit {0})

abbrev pub der_of : Text → Option Text → Text
der_of key none = key
der_of key (some bytes) = bytes

abbrev pub pkcs1_only : Error → Result (Unit {0}) → Option Error
pkcs1_only e (err f) = some e
pkcs1_only e (ok done) = none

unfoldable pub validate_key : Keys → Text → Option Error
validate_key v key =
    let der = der_of key (v.pem_decode key) in
    elim (v.parse_pkcs8 der) [
      | err e ↦ pkcs1_only e (v.parse_pkcs1 der)
      | ok is_rsa ↦ if is_rsa then none else some errorf
    ]

abbrev pub invalid_credentials : Error → Error
invalid_credentials e = wrap "ErrInvalidCredentials" e

abbrev pub with_key : ServiceAccount → Option Error → Result ServiceAccount
with_key account none = ok account
with_key account (some e) = err (invalid_credentials e)

unfoldable pub parse_service_account : Keys → Bytes → Result ServiceAccount
unfolding validate_key text_eq
parse_service_account v raw = elim (v.unmarshal_account raw) [
  | err e ↦ err (invalid_credentials e)
  | ok account ↦
      if not (text_eq account.type_ (codes "service_account"))
        || is_empty account.client_email
        || is_empty account.private_key
      then err (sentinel "ErrInvalidCredentials")
      else with_key account (validate_key v account.private_key)
]

unfoldable pub resolve_project_id : Text → Text → Result Text
unfolding trim_space text_eq
resolve_project_id configured account =
    let trimmed = trim_space configured in
    let project_id = if is_empty trimmed then account else trimmed in
    if is_empty project_id
    then err (sentinel "ErrMissingProject")
    else if not (is_empty account) && not (text_eq project_id account)
    then err (sentinel "ErrProjectMismatch")
    else ok project_id

unfoldable pub first_non_empty : List Text → Text
unfolding trim_space
first_non_empty [] = []
first_non_empty (value ∷ values) =
    let rest = first_non_empty values in
    if is_empty (trim_space value) then rest else trim_space value

-- strings.TrimRight by "/"
unfoldable pub trim_slashes : Text → Text
trim_slashes [] = []
trim_slashes (c ∷ s) =
    let rest = trim_slashes s in if is_empty rest && c == 47 then [] else c ∷ rest

-- `Client`, with the part of the token source's configuration that New works out.
pub record Client : Type 0 where
  pub project_id : Text
  pub send_url : Text
  pub email : Text
  pub private_key : Text
  pub token_url : Text

-- url.PathEscape is a parameter.
abbrev pub client_of : (Text → Text) → Config → ServiceAccount → Result Text → Result Client
client_of path_escape cfg account (err e) = err e
client_of path_escape cfg account (ok project_id) = ok (record {
  project_id = project_id;
  send_url =
      trim_slashes (first_non_empty (cfg.endpoint ∷ codes "https://fcm.googleapis.com" ∷ []))
      ++ (codes "/v1/projects/" ++ (path_escape project_id ++ codes "/messages:send"));
  email = account.client_email;
  private_key = account.private_key;
  token_url =
      first_non_empty
        (cfg.token_url ∷ account.token_uri ∷ codes "https://oauth2.googleapis.com/token" ∷ []);
})

-- `New`
unfoldable pub new_client : Keys → (Text → Text) → Config → Result Client
unfolding parse_service_account resolve_project_id
new_client v path_escape cfg = elim (parse_service_account v cfg.credentials) [
  | err e ↦ err e
  | ok account ↦
      client_of path_escape cfg account (resolve_project_id cfg.project_id account.project_id)
]

pub record HttpAnswer : Type 0 where
  pub status : ℕ
  pub retry_after : Text
  pub body : Bytes

-- encoding/json, the building of a request and the exchange over the network, which changes `W`.
pub record Transport (W Request : Type 0) : Type 0 where
  pub marshal : SendRequest → Result Bytes
  pub new_request : Text → Bytes → Result Request
  pub exchange : W → Request → W × Result HttpAnswer

abbrev pub max_response_body : ℕ
max_response_body = 65536

module _ {W Request : Type 0} (t : Transport W Request) (v : Parsers) where
  abbrev pub answered : SendRequest → W × Result HttpAnswer → W × Result SendResponse
  answered request (w, err e) = (w, err e)
  answered request (w, ok answer) = (
    w,
    ok (
        new_send_response v answer.status answer.retry_after (take max_response_body answer.body)
          request.headers),
  )

  abbrev pub exchanged : W → SendRequest → Result Request → W × Result SendResponse
  exchanged w request (err e) = (w, err e)
  exchanged w request (ok built) = answered request (t.exchange w built)

  abbrev pub posted : Client → W → SendRequest → Result Bytes → W × Result SendResponse
  posted c w request (err e) = (w, err e)
  posted c w request (ok payload) = exchanged w request (t.new_request c.send_url payload)

  abbrev pub requested : Client → W → Result SendRequest → W × Result SendResponse
  requested c w (err e) = (w, err e)
  requested c w (ok request) = posted c w request (t.marshal request)

  abbrev pub sent : Client → W → Option (Result SendRequest) → Option (W × Result SendResponse)
  sent c w none = none
  sent c w (some request) = some (requested c w request)

  -- `Send`
  unfoldable pub send :
      (ℕ → Bytes) → Client → W → NotificationMessage → Option (W × Result SendResponse)
  unfolding new_send_request
  send format_int c w msg = sent c w (new_send_request format_int msg)
