-- ===== src/Fcm/Examples.antt =====
-- Runs of the fcm package.
use gobox.Base.{ℕ, ◌≡◌, refl, true, none, some, [], ◌∷◌}
use gobox.Base.Errors.{ok, err, errorf}
use gobox.Base.Int.{pos}
use gobox.Base.Text.{codes, text_eq, trim_space, trim_left, trim_right, is_space}
use gobox.Fcm.{NotificationMessage, truncate_bytes}
use gobox.Base.Utf8.{Bytes}
use gobox.Fcm.Answers.{Parsers}
use gobox.Fcm.Client.{
  Keys, ServiceAccount, Config, Client, new_client, validate_key, parse_service_account,
  resolve_project_id, first_non_empty, trim_slashes, Transport,
}
use gobox.Fcm.Truncation.{fitting, truncate_bytes-fitting}
use gobox.Base.Utf8.{utf8, first_byte, tail_bytes}

-- Five bytes hold two of the three-byte characters of a text no more than one.
cut_run : truncate_bytes (utf8 (0x20ac ∷ 0x20ac ∷ [])) 5 ≡ some (utf8 (0x20ac ∷ []))
unfolding truncate_bytes first_byte tail_bytes
cut_run = refl

truncate_bytes-fitting_example :
    truncate_bytes (utf8 (0x61 ∷ 0x20ac ∷ 0x1f600 ∷ [])) 6
    ≡ some (utf8 (fitting (0x61 ∷ 0x20ac ∷ 0x1f600 ∷ []) 6))
truncate_bytes-fitting_example = truncate_bytes-fitting (0x61 ∷ 0x20ac ∷ 0x1f600 ∷ []) 6

abbrev account : ServiceAccount
account = record {
  type_ = codes "service_account";
  project_id = codes "demo";
  private_key_id = codes "1";
  private_key = codes "key";
  client_email = codes "a@b";
  token_uri = [];
}

abbrev keys : Keys
keys = record {
  unmarshal_account = λ raw. ok account;
  pem_decode = λ key. none;
  parse_pkcs8 = λ der. ok true;
  parse_pkcs1 = λ der. err errorf;
}

abbrev config : Config
config = record {
  project_id = codes " demo ";
  credentials = [];
  endpoint = codes "http://localhost/";
  token_url = [];
}

abbrev client : Client
client = record {
  project_id = codes "demo";
  send_url = codes "http://localhost/v1/projects/demo/messages:send";
  email = codes "a@b";
  private_key = codes "key";
  token_url = codes "https://oauth2.googleapis.com/token";
}

new_client_run : new_client keys (λ s. s) config ≡ ok client
unfolding new_client parse_service_account validate_key resolve_project_id first_non_empty
    trim_slashes trim_space trim_left trim_right is_space text_eq
new_client_run = refl

abbrev parsers : Parsers
parsers = record {
  unmarshal_accepted = λ body. some (codes "projects/demo/messages/1");
  unmarshal_rejection = λ body. none;
  atoi = λ value. some (pos 10000000000);
  remaining = λ value. none;
}

-- The world counts the exchanges.
abbrev network : Transport ℕ Bytes
network = record {
  marshal = λ request. ok [];
  new_request = λ url payload. ok payload;
  exchange = λ w request. (w, ok (record { status = 200; retry_after = []; body = codes "{}" }));
}

abbrev greeting : NotificationMessage
greeting = record {
  address = codes " device ";
  title = codes "Hi";
  body = codes "There";
  link = codes "/";
  tag = codes "t";
  data_map = [];
  ttl = pos 3000000000;
}
