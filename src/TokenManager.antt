-- ===== src/TokenManager.antt =====
-- oauth2/token_manager.go: tokens by scope, and the request for a new one.
pub mod Cached
pub mod Examples
use gobox.Base.{
  ℕ, ◌+◌, ◌-◌, Bool, true, false, Option, none, some, List, [], ◌∷◌, ◌++◌, ltb, ◌==◌, if◌then◌else◌,
}
use gobox.Base.Dict.{insert, lookup}
use gobox.Base.Errors.{Error, Result, ok, err, errorf}
use gobox.Base.Int.{ℤ, pos_part, neg_part, wrap64}
use gobox.Base.Text.{Text, codes, is_empty}
use gobox.HttpClient.{Bytes, Request, Response, set_all, times}
use gobox.HttpClient.Encodings.{Codecs, decompress_response}

-- A time is its nanoseconds.
pub record TokenAccess : Type 0 where
  pub access_token : Text
  pub token_type : Text
  pub expires_in : ℤ
  pub refresh_token : Text
  pub scope : Text
  pub last_authentication : Option ℕ

pub record TokenManager : Type 0 where
  pub auth_url : Text
  pub client_id : Text
  pub client_secret : Text
  pub grant_type : Text
  pub cache : List (Text × TokenAccess)
  pub auth_params : List (Text × Text)
  pub send_as_post : Bool

abbrev pub new_token_manager : Text → Text → Text → TokenManager
new_token_manager client_id client_secret grant_type = record {
  auth_url = [];
  client_id = client_id;
  client_secret = client_secret;
  grant_type = grant_type;
  cache = [];
  auth_params = [];
  send_as_post = false;
}

abbrev pub send_as_get : TokenManager → TokenManager
send_as_get tm = record tm { send_as_post = false }

abbrev pub send_as_post : TokenManager → TokenManager
send_as_post tm = record tm { send_as_post = true }

abbrev pub with_authentication_url : Text → TokenManager → TokenManager
with_authentication_url url tm = record tm { auth_url = url }

abbrev pub with_optional_params : List (Text × Text) → TokenManager → TokenManager
with_optional_params params tm = record tm { auth_params = params }

-- What is used of net/url, net/http, the codecs, encoding/json and the clock.
pub record Net (W Url Reader : Type 0) : Type 0 where
  pub parse : Text → Result Url
  pub query : Url → List (Text × Text)
  pub encode : List (Text × Text) → Text
  pub with_raw_query : Url → Text → Url
  pub address : Url → Text
  pub check : Text → Text → Option Error
  pub exchange : W → Request → W × Result (Response Reader)
  pub codecs : Codecs Reader
  pub unmarshal : Bytes → Result TokenAccess
  pub now : W → ℕ

abbrev pub five_seconds : ℕ
five_seconds = 5000000000

-- Whether `LastAuthentication` plus `ExpiresIn` is after now: `none` is the fault of a nil time.
unfoldable pub is_fresh : ℕ → TokenAccess → Option Bool
unfolding wrap64
is_fresh now t = elim t.last_authentication [
  | none ↦ none
  | some last ↦
      let d = wrap64 (times t.expires_in 1000000000) in
      some (ltb (now + neg_part d) (last + pos_part d))
]

abbrev pub accept_headers : List (Text × Text)
accept_headers =
    (codes "Accept", codes "application/json; charset=utf-8")
    ∷ (codes "Accept-Encoding", codes "gzip, deflate, br")
    ∷ []

module _ {W : Type 0} where
  abbrev pub kept : W → TokenManager → Text → Result TokenAccess → W × TokenManager × Option Error
  kept w tm scope (err e) = (w, tm, some e)
  kept w tm scope (ok token) = (w, record tm { cache = insert scope token tm.cache }, none)

  -- What getAccessToken returns after a request for a token.
  abbrev pub after_request :
      Text → W × TokenManager × Option Error → W × TokenManager × Result (Option TokenAccess)
  after_request scope (w, tm, some e) = (w, tm, err e)
  after_request scope (w, tm, none) = (w, tm, ok (lookup scope tm.cache))

  -- `SetAuthorizationHeader`: the value of the header.
  abbrev pub header_of :
      Option (W × TokenManager × Result (Option TokenAccess))
      → Option (W × TokenManager × Result Text)
  header_of none = none
  header_of (some (w, tm, err e)) = some (w, tm, err e)
  header_of (some (w, tm, ok none)) = none
  header_of (some (w, tm, ok (some t))) =
      some (w, tm, ok (t.token_type ++ (codes " " ++ t.access_token)))

module _ {W Url Reader : Type 0} (v : Net W Url Reader) where
  abbrev pub queries : TokenManager → Text → Url → List (Text × Text)
  queries tm scope u = set_all tm.auth_params (
      insert (codes "scope") scope (
        insert (codes "grant_type") tm.grant_type (
          insert (codes "client_secret") tm.client_secret
            (insert (codes "client_id") tm.client_id (v.query u)))))

  abbrev pub request_of : TokenManager → Text → Url → Request
  request_of tm scope u =
      if tm.send_as_post
      then record {
        method = codes "POST";
        url = v.address (v.with_raw_query u []);
        headers =
            accept_headers
            ++ (codes "Content-Type", codes "application/x-www-form-urlencoded") ∷ [];
        payload = some (v.encode (queries tm scope u));
      }
      else record {
        method = codes "GET";
        url = v.address (v.with_raw_query u (v.encode (queries tm scope u)));
        headers = accept_headers;
        payload = none;
      }

  -- The token in the answer's body, once that is read.
  abbrev pub decoded : W → ℕ → Result Bytes → Result TokenAccess
  decoded w status (err e) = err errorf
  decoded w status (ok body) =
      if status == 200
      then elim (v.unmarshal body) [
        | err e ↦ err errorf
        | ok token ↦ ok (record token { last_authentication = some (v.now w - five_seconds) })
      ]
      else err errorf

  abbrev pub granted : W → Result (Response Reader) → Result TokenAccess
  granted w (err e) = err errorf
  granted w (ok response) =
      elim (decompress_response v.codecs response.content_encoding response.body) [
        | err e ↦ err errorf
        | ok reader ↦ decoded w response.status (v.codecs.read_all reader)
      ]

  abbrev pub exchanged :
      TokenManager → Text → W × Result (Response Reader) → W × TokenManager × Option Error
  exchanged tm scope (w, answer) = kept w tm scope (granted w answer)

  abbrev pub checked :
      W → TokenManager → Text → Request → Option Error → W × TokenManager × Option Error
  checked w tm scope request (some e) = (w, tm, some errorf)
  checked w tm scope request none = exchanged tm scope (v.exchange w request)

  unfoldable pub authenticate : W → TokenManager → Text → W × TokenManager × Option Error
  unfolding decompress_response
  authenticate w tm scope = elim (v.parse tm.auth_url) [
    | err e ↦ (w, tm, some errorf)
    | ok u ↦
        let request = request_of tm scope u in
        checked w tm scope request (v.check request.method request.url)
  ]

  abbrev pub if_fresh :
      W
      → TokenManager
      → Text
      → TokenAccess
      → Option Bool
      → Option (W × TokenManager × Result (Option TokenAccess))
  if_fresh w tm scope t none = none
  if_fresh w tm scope t (some true) = some (w, tm, ok (some t))
  if_fresh w tm scope t (some false) = some (after_request scope (authenticate w tm scope))

  -- `getAccessToken`: a panic is `none`.
  unfoldable pub get_access_token :
      W → TokenManager → Text → Option (W × TokenManager × Result (Option TokenAccess))
  unfolding authenticate is_fresh
  get_access_token w tm scope =
      if is_empty scope then some (w, tm, err errorf) else elim (lookup scope tm.cache) [
        | none ↦ some (after_request scope (authenticate w tm scope))
        | some t ↦ if_fresh w tm scope t (is_fresh (v.now w) t)
      ]

  unfoldable pub set_authorization_header :
      W → TokenManager → Text → Option (W × TokenManager × Result Text)
  unfolding get_access_token
  set_authorization_header w tm scope = header_of (get_access_token w tm scope)
