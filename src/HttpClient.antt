-- ===== src/HttpClient.antt =====
-- httpclient/client.go: a request, the reading of its answer, and WithRetry over the package retry.
pub mod Retrying
pub mod Encodings
pub mod Examples
use Prim.Native.String.{String}
use gobox.Base.{
  ℕ, suc, ◌-◌, ◌*◌, ◌≤◌, Bool, true, false, ◌&&◌, ◌||◌, not, Option, none, some, List, [], ◌∷◌, ltb,
  leb, ◌==◌, if◌then◌else◌,
}
use gobox.Base.Dict.{insert}
use gobox.Base.Errors.{Error, Result, ok, err, errorf, error_is, wrap}
use gobox.Base.Int.{ℤ, pos, negsuc, pos_part, is_pos, is_neg, ltℤ, wrap64}
use gobox.Base.Text.{Text, codes, is_empty, text_eq}
use gobox.Retry.{Callbacks, do_retry}

abbrev pub Bytes : Type 0
Bytes = List ℕ

abbrev pub transient_status : String
transient_status = "ErrTransientHTTPStatus"

unfoldable pub is_transient_http_status : ℕ → Bool
is_transient_http_status status = status == 429 || (leb 500 status && ltb status 600)

abbrev pub times : ℤ → ℕ → ℤ
times (pos n) k = pos (n * k)
times (negsuc n) k = if k == 0 then pos 0 else negsuc (suc n * k - 1)

-- strconv.Atoi, and http.ParseTime with time.Until, are parameters.
unfoldable pub parse_retry_after : (Text → Option ℤ) → (Text → Option ℤ) → Text → ℤ
unfolding wrap64
parse_retry_after atoi remaining value = if is_empty value then pos 0 else elim (atoi value) [
  | some seconds ↦ if is_neg seconds then pos 0 else wrap64 (times seconds 1000000000)
  | none ↦ elim (remaining value) [ some left ↦ pos (pos_part left) | none ↦ pos 0 ]
]

-- What is used of net/url, net/http and io: `Url` is a parsed address, `Reader` a body to be read.
pub record Http (W Url Reader : Type 0) : Type 0 where
  pub parse : Text → Result Url
  pub query : Url → List (Text × Text)
  pub with_query : Url → List (Text × Text) → Url
  pub address : Url → Text
  pub check : Text → Text → Option Error
  pub read_all : Reader → Result Bytes

-- A request, and the answer to it.
pub record Request : Type 0 where
  pub method : Text
  pub url : Text
  pub headers : List (Text × Text)
  pub payload : Option Bytes

pub record Response (Reader : Type 0) : Type 0 where
  pub status : ℕ
  pub content_encoding : Text
  pub body : Reader

-- A loop that sets each pair of a map.
abbrev pub set_all : List (Text × Text) → List (Text × Text) → List (Text × Text)
set_all [] m = m
set_all ((k, v) ∷ params) m = set_all params (insert k v m)

abbrev pub is_nil : {A : Type 0} → List A → Bool
is_nil [] = true
is_nil (x ∷ xs) = false

module _ {W Url Reader : Type 0} (h : Http W Url Reader)
    (exchange : W → Request → W × Result (Response Reader)) where
  abbrev pub read : W × Result (Response Reader) → W × (Bytes × ℕ × Option Error)
  read (w, err e) = (w, ([], 0, some e))
  read (w, ok response) = elim (h.read_all response.body) [
    | err e ↦ (w, ([], response.status, some e))
    | ok body ↦ (w, (body, response.status, none))
  ]

  abbrev pub sent : W → Request → Option Error → W × (Bytes × ℕ × Option Error)
  sent w request (some e) = (w, ([], 0, some e))
  sent w request none = read (exchange w request)

  -- `NewRequestWithContext`, over the exchange of the client that is given, or of the default one.
  unfoldable pub new_request_with_context :
      W
      → Text
      → Text
      → List (Text × Text)
      → List (Text × Text)
      → Bytes
      → W × (Bytes × ℕ × Option Error)
  new_request_with_context w method url_str query_params headers payload = elim (h.parse url_str) [
    | err e ↦ (w, ([], 0, some e))
    | ok parsed ↦
        let url =
          if is_nil query_params
          then parsed
          else h.with_query parsed (set_all query_params (h.query parsed)) in
        let request : Request = record {
          method = method;
          url = h.address url;
          headers = set_all headers [];
          payload = if is_nil payload then none else some payload;
        } in
        sent w request (h.check method (h.address url))
  ]
