-- ===== src/Fcm/Truncation.antt =====
-- `truncateBytes` of fcm/message.go against a description by characters.
use gobox.Base.{
  ℕ, take, zero, suc, ◌+◌, ◌-◌, ◌≤◌, ◌<◌, ◌≡◌, refl, true, false, Option, none, some, [], ◌∷◌, ◌++◌,
  length, length-append, leb, leb→le, if◌then◌else◌, arith, Bool-cases, inl, inr, ◌∙◌, ap, sym,
}
use gobox.Base.Text.{Text}
use gobox.Fcm.{byte_at, back_from, cut_to, truncate_bytes}
use gobox.Base.Utf8.{Bytes, rune_start}
use gobox.Base.Utf8.{
  encode, utf8, first_byte, tail_bytes, rune_start-first_byte, AreTails, tail_bytes-AreTails,
}

-- The characters from the front that fit, whole, into so many bytes.
abbrev pub fitting : Text → ℕ → Text
fitting [] limit = []
fitting (c ∷ s) limit =
    let rest = fitting s (limit - length (encode c)) in
    if leb (length (encode c)) limit then c ∷ rest else []

in_range : (s : Bytes) (i : ℕ) → i < length s → (b : ℕ) × (byte_at s i ≡ some b)
in_range [] i h = absurd (omega (arith, h))
in_range (b ∷ s) zero h = (b, refl)
in_range (b ∷ s) (suc i) h = in_range s i (omega (arith, h))

byte_at-append : (s t : Bytes) (i j : ℕ) → j ≡ length s + i → byte_at (s ++ t) j ≡ byte_at t i
byte_at-append [] t i j h = let same : j ≡ i = omega (arith, h) in ap (byte_at t) same
byte_at-append (b ∷ s) t i zero h = absurd (omega (arith, h))
byte_at-append (b ∷ s) t i (suc j) h = byte_at-append s t i j (omega (arith, h))

-- One turn of the loop.
back_from_stops :
    (at : ℕ → Option ℕ) (n b : ℕ)
    → at (suc n) ≡ some b
    → rune_start b ≡ true
    → back_from at (suc n) ≡ some (suc n)
back_from_stops at n b e start = rw (back_from, e, start) refl

back_from_goes :
    (at : ℕ → Option ℕ) (n b : ℕ)
    → at (suc n) ≡ some b
    → rune_start b ≡ false
    → back_from at (suc n) ≡ back_from at n
back_from_goes at n b e tail = rw (back_from, e, tail) refl

tail_in_range :
    (s t : Bytes) (i : ℕ)
    → AreTails s
    → i < length s
    → (b : ℕ) × (byte_at (s ++ t) i ≡ some b) × (rune_start b ≡ false)
tail_in_range [] t i a h = absurd (omega (arith, h))
tail_in_range (b ∷ s) t zero (a, more) h = (b, refl, a)
tail_in_range (b ∷ s) t (suc i) (a, more) h = tail_in_range s t i more (omega (arith, h))

-- Within a character the loop goes back to its first byte.
back_from_within :
    (b : ℕ) (s t : Bytes) (limit : ℕ)
    → AreTails s
    → limit ≤ length s
    → back_from (byte_at (b ∷ (s ++ t))) limit ≡ some 0
back_from_within b s t zero a h = refl
back_from_within b s t (suc limit) a h =
    let (c, e, tail) = tail_in_range s t limit a (omega (arith, h)) in
    back_from_goes (byte_at (b ∷ (s ++ t))) limit c e tail
    ∙ back_from_within b s t limit a (omega (arith, h))

abbrev shift : ℕ → Option ℕ → Option ℕ
shift k none = none
shift k (some n) = some (k + n)

-- After a prefix the loop does what it does without it, if a character begins there.
back_from-append :
    (b : ℕ) (s t : Bytes) (first limit n : ℕ)
    → byte_at t 0 ≡ some first
    → rune_start first ≡ true
    → limit < length t
    → n ≡ length s + limit
    → back_from (byte_at (b ∷ (s ++ t))) (suc n)
      ≡ shift (suc (length s)) (back_from (byte_at t) limit)
back_from-append b s t first zero n e start h is =
    let same = byte_at-append s t 0 n is ∙ e in
    back_from_stops (byte_at (b ∷ (s ++ t))) n first same start ∙ ap some (omega (arith, is))
back_from-append b s t first (suc limit) zero e start h is = absurd (omega (arith, is))
back_from-append b s t first (suc limit) (suc n) e start h is =
    let (c, at_limit) = in_range t (suc limit) h in
    let same = byte_at-append s t (suc limit) (suc n) is ∙ at_limit in
    elim (Bool-cases (rune_start c)) [
      | inl starts ↦
          back_from_stops (byte_at (b ∷ (s ++ t))) (suc n) c same starts
          ∙ (ap some (omega (arith, is))
              ∙ sym (
                  ap (shift (suc (length s)))
                    (back_from_stops (byte_at t) limit c at_limit starts)))
      | inr tail ↦
          back_from_goes (byte_at (b ∷ (s ++ t))) (suc n) c same tail
          ∙ (back_from-append b s t first limit n e start (omega (arith, h)) (omega (arith, is))
              ∙ sym
                  (ap (shift (suc (length s))) (back_from_goes (byte_at t) limit c at_limit tail)))
    ]

abbrev after : Bytes → Option Bytes → Option Bytes
after s none = none
after s (some t) = some (s ++ t)

take-append : (s t : Bytes) (n k : ℕ) → k ≡ length s + n → take k (s ++ t) ≡ s ++ take n t
take-append [] t n k h = let same : k ≡ n = omega (arith, h) in ap (λ j. take j t) same
take-append (b ∷ s) t n zero h = absurd (omega (arith, h))
take-append (b ∷ s) t n (suc k) h = ap (λ u. b ∷ u) (take-append s t n k (omega (arith, h)))

cut_to-shift :
    (s t : Bytes) (n : Option ℕ) → cut_to (s ++ t) (shift (length s) n) ≡ after s (cut_to t n)
cut_to-shift s t none = refl
cut_to-shift s t (some n) = ap some (take-append s t n (length s + n) refl)

-- A text that is not empty begins with the first byte of a character.
utf8_first :
    (s : Text)
    → 0 < length (utf8 s)
    → (first : ℕ) × (byte_at (utf8 s) 0 ≡ some first) × (rune_start first ≡ true)
utf8_first [] h = absurd (omega (arith, h))
utf8_first (c ∷ s) h = (first_byte c, refl, rune_start-first_byte c)

truncated_within :
    (c : ℕ) (s : Text) (limit : ℕ)
    → limit < length (encode c)
    → truncate_bytes (utf8 (c ∷ s)) limit ≡ some []
unfolding truncate_bytes
truncated_within c s limit h =
    let long : leb (length (utf8 (c ∷ s))) limit ≡ false =
      ground (arith, h, length-append (encode c) (utf8 s)) in
    let back =
      back_from_within (first_byte c) (tail_bytes c) (utf8 s) limit (tail_bytes-AreTails c)
        (omega (arith, h)) in
    rw (truncate_bytes, long) (ap (cut_to (utf8 (c ∷ s))) back)

truncated_after :
    (c : ℕ) (s : Text) (limit : ℕ)
    → length (encode c) ≤ limit
    → truncate_bytes (utf8 (c ∷ s)) limit
      ≡ after (encode c) (truncate_bytes (utf8 s) (limit - length (encode c)))
unfolding truncate_bytes
truncated_after c s limit h =
    elim (Bool-cases (leb (length (utf8 s)) (limit - length (encode c)))) [
      | inl fits ↦
          let short : leb (length (utf8 (c ∷ s))) limit ≡ true =
            ground (arith, h, fits, length-append (encode c) (utf8 s)) in
          rw (truncate_bytes, short, fits) refl
      | inr longer ↦
          let m = limit - length (encode c) in
          let n = length (tail_bytes c) + m in
          let long : leb (length (utf8 (c ∷ s))) limit ≡ false =
            ground (arith, h, longer, length-append (encode c) (utf8 s)) in
          let (first, e, start) = utf8_first s (ground (arith, longer)) in
          let back =
            back_from-append (first_byte c) (tail_bytes c) (utf8 s) first m n e start
              (ground (arith, longer)) refl in
          let same : limit ≡ suc n = omega (arith, h) in
          rw (truncate_bytes, long, longer)
            (ap (λ k. cut_to (utf8 (c ∷ s)) (back_from (byte_at (utf8 (c ∷ s))) k)) same
              ∙ (ap (cut_to (utf8 (c ∷ s))) back
                  ∙ cut_to-shift (encode c) (utf8 s) (back_from (byte_at (utf8 s)) m)))
    ]

-- Cut to a limit, the UTF-8 of a text is that of its characters from the front that fit, whole.
pub truncate_bytes-fitting :
    (s : Text) (limit : ℕ) → truncate_bytes (utf8 s) limit ≡ some (utf8 (fitting s limit))
unfolding truncate_bytes
truncate_bytes-fitting [] limit =
    let fits : leb 0 limit ≡ true = ground arith in rw (truncate_bytes, fits) refl
truncate_bytes-fitting (c ∷ s) limit = elim (Bool-cases (leb (length (encode c)) limit)) [
  | inl fits ↦
      truncated_after c s limit (leb→le (length (encode c)) limit fits)
      ∙ rw (truncate_bytes-fitting s (limit - length (encode c)), fits) refl
  | inr no_ ↦ rw (no_) (truncated_within c s limit (ground (arith, no_)))
]

-- What fits is within the limit.
pub fitting_bounds : (s : Text) (limit : ℕ) → length (utf8 (fitting s limit)) ≤ limit
fitting_bounds [] limit = omega arith
fitting_bounds (c ∷ s) limit = elim (Bool-cases (leb (length (encode c)) limit)) [
  | inl fits ↦ rw (fits) (
      omega (
        arith,
        leb→le (length (encode c)) limit fits,
        fitting_bounds s (limit - length (encode c)),
        length-append (encode c) (utf8 (fitting s (limit - length (encode c)))),
      ))
  | inr no_ ↦ rw (no_) (omega arith)
]
