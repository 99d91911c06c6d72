-- ===== src/TokenManager/Examples.antt =====
-- Runs of oauth2/token_manager.go.
use gobox.Base.{ℕ, ◌+◌, ◌≡◌, refl, Option, none, some, [], ◌∷◌}
use gobox.Base.Dict.{insert, lookup}
use gobox.Base.Errors.{Result, ok, err, errorf}
use gobox.Base.Int.{pos}
use gobox.Base.Text.{Text, codes, text_eq}
use gobox.HttpClient.{Bytes}
use gobox.HttpClient.Encodings.{Codecs, decompress_response}
use gobox.TokenManager.{
  TokenAccess, TokenManager, Net, new_token_manager, get_access_token, authenticate,
}
use gobox.TokenManager.Cached.{AreStamped, Handed, get_access_token-Handed}

abbrev plain_codecs : Codecs Bytes
plain_codecs = record {
  gzip = λ r. err errorf;
  zlib = λ r. err errorf;
  flate = λ r. r;
  brotli = λ r. r;
  zstd = λ r. err errorf;
  read_all = λ r. ok r;
  new_reader = λ x. x;
}

abbrev hour : TokenAccess
hour = record {
  access_token = codes "abc";
  token_type = codes "Bearer";
  expires_in = pos 3600;
  refresh_token = [];
  scope = codes "read";
  last_authentication = none;
}

-- The world is the time; an exchange takes one second.
abbrev server : Net ℕ Text Bytes
server = record {
  parse = λ url. ok url;
  query = λ u. [];
  encode = λ q. [];
  with_raw_query = λ u q. u;
  address = λ u. u;
  check = λ method url. none;
  exchange =
      λ w request. (w + 1000000000, ok (record { status = 200; content_encoding = []; body = [] }));
  codecs = plain_codecs;
  unmarshal = λ body. ok hour;
  now = λ w. w;
}

abbrev manager : TokenManager
manager = new_token_manager (codes "id") (codes "secret") (codes "client_credentials")

abbrev granted_hour : TokenAccess
granted_hour = record hour { last_authentication = some 16000000000 }

abbrev manager_after : TokenManager
manager_after = record manager { cache = (codes "read", granted_hour) ∷ [] }

manager-AreStamped : AreStamped manager
unfolding lookup
manager-AreStamped scope t h = absurd (cc)

get_access_token-Handed_example :
    (after : ℕ) × (k : TokenManager) × (r : Result (Option TokenAccess)) × (get_access_token server
        20000000000 manager
        (codes "read")
      ≡ some (after, k, r))
    × Handed server 20000000000 manager (codes "read") after k r
    × AreStamped k
get_access_token-Handed_example =
    get_access_token-Handed server 20000000000 manager (codes "read") refl manager-AreStamped

manager_authenticates :
    authenticate server 20000000000 manager (codes "read") ≡ (21000000000, manager_after, none)
unfolding authenticate insert decompress_response text_eq
manager_authenticates = refl

manager_after_lookup : lookup (codes "read") manager_after.cache ≡ some granted_hour
unfolding lookup text_eq
manager_after_lookup = refl
