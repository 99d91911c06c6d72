-- ===== src/Fcm/Requests.antt =====
-- What `newSendRequest` of fcm/message.go puts into a request.
use gobox.Base.{ℕ, ◌≤◌, ◌≡◌, refl, false, Option, some, length, if◌then◌else◌, ◌∙◌}
use gobox.Base.Dict.{lookup, lookup-insert}
use gobox.Base.Errors.{ok}
use gobox.Base.Text.{Text, codes, trim_space, is_empty, text_eq}
use gobox.Fcm.{
  NotificationMessage, SendRequest, new_send_request, max_title_bytes, max_body_bytes, titled,
  push_headers,
}
use gobox.Base.Utf8.{Bytes}
use gobox.Base.Utf8.{utf8}
use gobox.Fcm.Truncation.{fitting, fitting_bounds, truncate_bytes-fitting}

-- A request for a message with this title and body.
pub record Carries (msg : NotificationMessage) (title body : Text) (request : SendRequest)
    : Type 0 where
  pub token : request.token ≡ trim_space msg.address
  pub title_kept :
      lookup (codes "title") request.data_map ≡ some (utf8 (fitting title max_title_bytes))
  pub title_bound : length (utf8 (fitting title max_title_bytes)) ≤ max_title_bytes
  pub body_kept : lookup (codes "body") request.data_map ≡ some (utf8 (fitting body max_body_bytes))
  pub body_bound : length (utf8 (fitting body max_body_bytes)) ≤ max_body_bytes
  pub link_kept : lookup (codes "link") request.data_map ≡ some msg.link
  pub tag_kept : lookup (codes "tag") request.data_map ≡ some msg.tag
  pub others :
      (key : Text)
      → text_eq (codes "title") key ≡ false
      → text_eq (codes "body") key ≡ false
      → text_eq (codes "link") key ≡ false
      → text_eq (codes "tag") key ≡ false
      → lookup key request.data_map ≡ lookup key msg.data_map

abbrev four : NotificationMessage → Bytes → Bytes → Text → Option Bytes
four msg title body key =
    if text_eq (codes "tag") key
    then some msg.tag
    else if text_eq (codes "link") key
    then some msg.link
    else if text_eq (codes "body") key
    then some body
    else if text_eq (codes "title") key
    then some title
    else lookup key msg.data_map

lookup-titled :
    (msg : NotificationMessage) (title body : Bytes) (key : Text)
    → lookup key (titled msg title body) ≡ four msg title body key
lookup-titled msg title body key = simp lookup-insert

-- If the address is not blank, and title and body are UTF-8, newSendRequest gives a request that
-- carries the fields of the message, the title and the body cut between characters to their limits; a
-- key of the data that names no field is kept.
pub new_send_request-Carries :
    (format_int : ℕ → Bytes) (msg : NotificationMessage) (title body : Text)
    → msg.title ≡ utf8 title
    → msg.body ≡ utf8 body
    → is_empty (trim_space msg.address) ≡ false
    → (request : SendRequest) × (new_send_request format_int msg ≡ some (ok request))
      × Carries msg title body request
unfolding new_send_request text_eq
new_send_request-Carries format_int msg title body a b named =
    let t = truncate_bytes-fitting title max_title_bytes in
    let d = truncate_bytes-fitting body max_body_bytes in
    let cut_title = utf8 (fitting title max_title_bytes) in
    let cut_body = utf8 (fitting body max_body_bytes) in
    let request : SendRequest = record {
      token = trim_space msg.address;
      data_map = titled msg cut_title cut_body;
      headers = push_headers format_int msg.ttl;
    } in
    let has = lookup-titled msg cut_title cut_body in
    (
      request,
      rw (new_send_request, named, a, b, t, d) refl,
      record {
        token = refl;
        title_kept = has (codes "title");
        title_bound = fitting_bounds title max_title_bytes;
        body_kept = has (codes "body");
        body_bound = fitting_bounds body max_body_bytes;
        link_kept = has (codes "link");
        tag_kept = has (codes "tag");
        others = λ key i j k m. has key ∙ rw (i, j, k, m) refl;
      },
    )
