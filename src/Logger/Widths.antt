-- ===== src/Logger/Widths.antt =====
-- The widths of what logger/formatter.go prints.
use gobox.Base.{
  ℕ, zero, suc, ◌+◌, ◌-◌, ◌≤◌, ◌<◌, ◌≡◌, refl, true, false, [], ◌∷◌, ◌++◌, All, any, length,
  length-append, length-take, length-drop, take, take-append, ltb, ◌==◌, ltb→lt, arith, ap,
  Bool-cases, inl, inr,
}
use gobox.Base.Text.{codes, text_eq, split_on}
use gobox.Base.Paths.{base}
use gobox.Base.Utf8.{Bytes, rune_start}
use gobox.Logger.{
  Printing, text, caller, message, rune_count, repeat, pad_right, pad_left, trim_suffix,
  format_file_name, format_line_number, format_caller, location, caller_parts, format_message,
  sized, left_end, right_end, bar, max_file_size, max_line_size, max_message_size, max_message_size,
}

-- Bytes of ASCII.
abbrev pub IsAscii : Bytes → Type 0
IsAscii s = All (λ b. b < 128) s

rune_count-append : (s t : Bytes) → rune_count (s ++ t) ≡ rune_count s + rune_count t
unfolding rune_count
rune_count-append [] t = omega arith
rune_count-append (b ∷ s) t = elim (Bool-cases (rune_start b)) [
  | inl starts ↦ rw (starts) (omega (arith, rune_count-append s t))
  | inr goes_on ↦ rw (goes_on) (omega (arith, rune_count-append s t))
]

rune_count-spaces : (n : ℕ) → rune_count (repeat 32 n) ≡ n
unfolding rune_count
rune_count-spaces zero = refl
rune_count-spaces (suc n) = omega (arith, rune_count-spaces n)

rune_count_le : (s : Bytes) → rune_count s ≤ length s
unfolding rune_count
rune_count_le [] = omega arith
rune_count_le (b ∷ s) = elim (Bool-cases (rune_start b)) [
  | inl starts ↦ rw (starts) (omega (arith, rune_count_le s))
  | inr goes_on ↦ rw (goes_on) (omega (arith, rune_count_le s))
]

rune_count-length : (s : Bytes) → IsAscii s → rune_count s ≡ length s
unfolding rune_count
rune_count-length [] h = refl
rune_count-length (b ∷ s) (small, h) =
    let starts : rune_start b ≡ true = ground (arith, small) in
    rw (rune_count, starts) (omega (arith, rune_count-length s h))

length-repeat : (b n : ℕ) → length (repeat b n) ≡ n
length-repeat b zero = refl
length-repeat b (suc n) = omega (arith, length-repeat b n)

-- A padded string has the characters of its width, if it has no more.
rune_count-pad_right :
    (width : ℕ) (s : Bytes) → rune_count s ≤ width → rune_count (pad_right width s) ≡ width
unfolding pad_right
rune_count-pad_right width s h = omega (
  arith,
  h,
  rune_count-append s (repeat 32 (width - rune_count s)),
  rune_count-spaces (width - rune_count s),
)

length-pad_right :
    (width : ℕ) (s : Bytes) → IsAscii s → length s ≤ width → length (pad_right width s) ≡ width
unfolding pad_right
length-pad_right width s ascii h = omega (
  arith,
  h,
  rune_count-length s ascii,
  length-append s (repeat 32 (width - rune_count s)),
  length-repeat 32 (width - rune_count s),
)

length-pad_left :
    (fill width : ℕ) (s : Bytes)
    → IsAscii s
    → length s ≤ width
    → length (pad_left fill width s) ≡ width
unfolding pad_left
length-pad_left fill width s ascii h = omega (
  arith,
  h,
  rune_count-length s ascii,
  length-append (repeat fill (width - rune_count s)) s,
  length-repeat fill (width - rune_count s),
)

trim_suffix-IsAscii : (suffix s : Bytes) → IsAscii s → IsAscii (trim_suffix suffix s)
unfolding trim_suffix
trim_suffix-IsAscii suffix [] h = tt
trim_suffix-IsAscii suffix (b ∷ s) (small, h) = elim (Bool-cases (text_eq (b ∷ s) suffix)) [
  | inl cut ↦ rw (trim_suffix, cut) tt
  | inr kept ↦ rw (trim_suffix, kept) (small, trim_suffix-IsAscii suffix s h)
]

length-format_file_name :
    (name : Bytes) → IsAscii name → length (format_file_name name) ≡ max_file_size
unfolding format_file_name
length-format_file_name name ascii =
    let file = trim_suffix (codes ".go") name in
    elim (Bool-cases (ltb max_file_size (length file))) [
      | inl long ↦
          rw (format_file_name, long) (length-take max_file_size file (ground (arith, long)))
      | inr short ↦
          rw (format_file_name, short)
            (length-pad_right max_file_size file (trim_suffix-IsAscii (codes ".go") name ascii)
              (ground (arith, short)))
    ]

length-format_line_number :
    (p : Printing) (line : Bytes)
    → IsAscii line
    → length (format_line_number p line) ≡ max_line_size
unfolding format_line_number
length-format_line_number p line ascii = elim (Bool-cases (ltb max_line_size (length line))) [
  | inl long ↦
      rw (format_line_number, long)
        (omega (
          arith,
          ltb→lt max_line_size (length line) long,
          length-drop (length line - max_line_size) line (omega arith),
        ))
  | inr short ↦
      rw (format_line_number, short)
        (length-pad_left p.pad_zero max_line_size line ascii (ground (arith, short)))
]

length-location :
    (p : Printing) (file line : Bytes)
    → IsAscii file
    → IsAscii line
    → length (location p file line) ≡ 30
length-location p file line ascii_file ascii_line = omega (
  arith,
  length-append (format_file_name file ++ codes ":") (format_line_number p line),
  length-append (format_file_name file) (codes ":"),
  length-format_file_name file ascii_file,
  length-format_line_number p line ascii_line,
)

take-pad_right : (width : ℕ) (s : Bytes) → take (length s) (pad_right width s) ≡ s
unfolding pad_right
take-pad_right width s = take-append s (repeat 32 (width - rune_count s)) (length s) refl

-- formatCaller prints a file and a line of ASCII, as they stand around the one colon of the last element
-- of the path, in a column of exactly 30 bytes between its marks.
pub format_caller_column :
    (p : Printing) (b : ℕ) (name file line : Bytes)
    → IsAscii file
    → IsAscii line
    → split_on 58 (base (b ∷ name)) ≡ file ∷ line ∷ []
    → (column : Bytes) × (length column ≡ 30)
      × (format_caller p (text (b ∷ name)) ≡ p.paint caller (left_end ++ column ++ right_end))
unfolding format_caller
format_caller_column p b name file line ascii_file ascii_line h = (
  location p file line,
  length-location p file line ascii_file ascii_line,
  ap (caller_parts p (base (b ∷ name))) h,
)

-- The column of a message of one line.
abbrev pub IsColumn : Bytes → Bytes → Type 0
IsColumn msg column =
    (length msg ≤ max_message_size
      → (rune_count column ≡ max_message_size) × (take (length msg) column ≡ msg))
    × (max_message_size < length msg → column ≡ take max_message_size msg)

sized-IsColumn : (p : Printing) (msg : Bytes) → IsColumn msg (sized p msg)
unfolding sized
sized-IsColumn p msg = elim (Bool-cases (ltb max_message_size (length msg))) [
  | inl long ↦
      rw (sized, long)
        ((λ h. absurd (omega (arith, h, ltb→lt max_message_size (length msg) long))), λ h. refl)
  | inr short ↦
      rw (sized, short)
        (
          (λ h. (
            rune_count-pad_right max_message_size msg (omega (arith, h, rune_count_le msg)),
            take-pad_right max_message_size msg,
          )),
          λ h. absurd (ground (arith, short, h)),
        )
]

-- formatMessage prints a message of one line in a column of exactly 65 characters that begins with the
-- message, if that has at most 65 bytes, and by its first 65 bytes otherwise.
pub format_message-IsColumn :
    (p : Printing) (b : ℕ) (msg : Bytes)
    → any (λ c. c == 10) (b ∷ msg) ≡ false
    → (column : Bytes) × IsColumn (b ∷ msg) column
      × (format_message p (text (b ∷ msg)) ≡ p.paint message (bar ++ column))
unfolding format_message
format_message-IsColumn p b msg h =
    (sized p (b ∷ msg), sized-IsColumn p (b ∷ msg), rw (format_message, h) refl)
