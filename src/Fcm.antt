-- ===== src/Fcm.antt =====
-- The request of a send: fcm/message.go. A title or a body is its bytes.
pub mod Truncation
pub mod Requests
pub mod Answers
pub mod Sending
pub mod Created
pub mod Client
pub mod Examples
use gobox.Base.{
  ℕ, zero, suc, ◌/◌, ◌≤◌, Bool, true, false, ◌&&◌, not, Option, none, some, List, [], ◌∷◌, length,
  take, ltb, leb, if◌then◌else◌,
}
use gobox.Base.Utf8.{Bytes, rune_start}
use gobox.Base.Dict.{insert}
use gobox.Base.Errors.{Error, Result, ok, err, sentinel}
use gobox.Base.Int.{ℤ, pos_part, is_pos}
use gobox.Base.Text.{Text, codes, trim_space, is_empty}

-- s[i], which panics out of range.
abbrev pub byte_at : Bytes → ℕ → Option ℕ
byte_at [] i = none
byte_at (b ∷ s) zero = some b
byte_at (b ∷ s) (suc i) = byte_at s i

-- The loop of `truncateBytes`, on the limit.
abbrev pub back_from : (ℕ → Option ℕ) → ℕ → Option ℕ
back_from at zero = some 0
back_from at (suc limit) =
    let rest = back_from at limit in
    elim (at (suc limit)) [ none ↦ none | some b ↦ if rune_start b then some (suc limit) else rest ]

abbrev pub cut_to : Bytes → Option ℕ → Option Bytes
cut_to s none = none
cut_to s (some n) = some (take n s)

-- `none` stands for a panic.
unfoldable pub truncate_bytes : Bytes → ℕ → Option Bytes
truncate_bytes s limit =
    if leb (length s) limit then some s else cut_to s (back_from (byte_at s) limit)

pub record NotificationMessage : Type 0 where
  pub address : Text
  pub title : Bytes
  pub body : Bytes
  pub link : Bytes
  pub tag : Bytes
  pub data_map : List (Text × Bytes)
  pub ttl : ℤ

-- `sendRequest` with its message and its WebPush configuration.
pub record SendRequest : Type 0 where
  pub token : Text
  pub data_map : List (Text × Bytes)
  pub headers : List (Text × Bytes)

abbrev pub max_title_bytes : ℕ
max_title_bytes = 512

abbrev pub max_body_bytes : ℕ
max_body_bytes = 2048

abbrev pub titled : NotificationMessage → Bytes → Bytes → List (Text × Bytes)
titled msg title body = insert (codes "tag") msg.tag (
    insert (codes "link") msg.link
      (insert (codes "body") body (insert (codes "title") title msg.data_map)))

-- The headers: strconv.FormatInt prints the seconds of a positive TTL.
abbrev pub push_headers : (ℕ → Bytes) → ℤ → List (Text × Bytes)
push_headers format_int ttl =
    if is_pos ttl
    then (codes "Urgency", codes "high")
      ∷ (codes "TTL", format_int (pos_part ttl / 1000000000))
      ∷ []
    else (codes "Urgency", codes "high") ∷ []

abbrev pub addressed :
    (ℕ → Bytes) → NotificationMessage → Option Bytes → Option Bytes → Option (Result SendRequest)
addressed format_int msg (some title) (some body) = some (
    ok (record {
      token = trim_space msg.address;
      data_map = titled msg title body;
      headers = push_headers format_int msg.ttl;
    }))
addressed format_int msg none body = none
addressed format_int msg (some title) none = none

-- `newSendRequest`
unfoldable pub new_send_request : (ℕ → Bytes) → NotificationMessage → Option (Result SendRequest)
unfolding truncate_bytes
new_send_request format_int msg =
    if is_empty (trim_space msg.address)
    then some (err (sentinel "ErrEmptyAddress"))
    else addressed format_int msg (truncate_bytes msg.title max_title_bytes)
        (truncate_bytes msg.body max_body_bytes)
