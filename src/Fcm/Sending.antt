-- ===== src/Fcm/Sending.antt =====
-- What New and Send of fcm/fcm.go give, and the delay that fcm/response.go reads.
use gobox.Base.{
  ℕ, take, ◌*◌, ◌^◌, ◌%◌, ◌≤◌, ◌<◌, ◌≡◌, ◌⊎◌, refl, true, false, some, length, ltb, if◌then◌else◌,
  arith, Bool-cases, inl, inr,
}
use gobox.Base.Errors.{Error, Result, ok, err, sentinel}
use gobox.Base.Int.{pos, pos_part, wrap64}
use gobox.Base.Text.{Text, trim_space, is_empty}
use gobox.Fcm.{NotificationMessage, SendRequest}
use gobox.Base.Utf8.{Bytes}
use gobox.Fcm.Answers.{Parsers, SendResponse, new_send_response, parse_retry_after}
use gobox.Fcm.Client.{Client, HttpAnswer, Transport, max_response_body}
use gobox.Fcm.Requests.{Carries}

module _ {W Request : Type 0} (t : Transport W Request) (v : Parsers) where
  -- The outcome of a send: no address, an error on the way, or the answer to a request that carries
  -- the message.
  pub data Outcome (c : Client) (w : W) (msg : NotificationMessage) (title body : Text) (after : W)
      : Result SendResponse → Type 0 where
    no_address :
        is_empty (trim_space msg.address) ≡ true
        → after ≡ w
        → Outcome c w msg title body after (err (sentinel "ErrEmptyAddress"))
    not_reached :
        (request : SendRequest) (e : Error)
        → Carries msg title body request
        → (t.marshal request ≡ err e)
          ⊎ ((payload : Bytes) × (t.marshal request ≡ ok payload)
              × ((t.new_request c.send_url payload ≡ err e)
                  ⊎ ((built : Request) × (t.new_request c.send_url payload ≡ ok built)
                      × (t.exchange w built ≡ (after, err e)))))
        → Outcome c w msg title body after (err e)
    got_answer :
        (request : SendRequest) (payload : Bytes) (built : Request) (answer : HttpAnswer)
        (r : SendResponse)
        → Carries msg title body request
        → t.marshal request ≡ ok payload
        → t.new_request c.send_url payload ≡ ok built
        → t.exchange w built ≡ (after, ok answer)
        → r
          ≡ new_send_response v answer.status answer.retry_after
              (take max_response_body answer.body)
              request.headers
        → length (take max_response_body answer.body) ≤ max_response_body
        → Outcome c w msg title body after (ok r)

pos_part-wrap64 :
    (m : ℕ) → m < 2 ^ 64 → pos_part (wrap64 (pos m)) ≡ (if ltb m (2 ^ 63) then m else 0)
unfolding wrap64
pos_part-wrap64 m h =
    let same : m % 2 ^ 64 ≡ m = omega (arith, h) in
    elim (Bool-cases (ltb m (2 ^ 63))) [
      | inl low ↦ rw (wrap64, same, low) refl
      | inr high ↦ rw (wrap64, same, high) refl
    ]

-- The delay of Retry-After: for a number of seconds whose nanoseconds are below 2^63 it is these, and
-- from there to 2^64 the product wraps and the delay is 0.
parse_retry_after_seconds :
    (v : Parsers) (value : Text) (n : ℕ)
    → is_empty value ≡ false
    → v.atoi value ≡ some (pos n)
    → n * 1000000000 < 2 ^ 64
    → parse_retry_after v value
      ≡ (if ltb (n * 1000000000) (2 ^ 63) then pos (n * 1000000000) else pos 0)
unfolding parse_retry_after wrap64
parse_retry_after_seconds v value n a b h =
    let wrapped = pos_part-wrap64 (n * 1000000000) h in
    elim (Bool-cases (ltb (n * 1000000000) (2 ^ 63))) [
      | inl low ↦ rw (parse_retry_after, a, b, wrapped, low) refl
      | inr high ↦ rw (parse_retry_after, a, b, wrapped, high) refl
    ]
