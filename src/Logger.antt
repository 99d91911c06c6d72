-- ===== src/Logger.antt =====
-- logger/formatter.go: the parts of a line on the console. A string is its bytes, in UTF-8. The package logger/zerolog
-- repeats this code.
pub mod Widths
pub mod Lines
pub mod Tree
pub mod Nodes
pub mod Levels
pub mod Leveled
pub mod Examples
use gobox.Base.{
  ℕ, zero, suc, ◌+◌, ◌-◌, Bool, true, false, not, ◌&&◌, ◌||◌, Option, none, some, List, [], ◌∷◌,
  ◌++◌, map, any, length, take, drop, ltb, ◌==◌, if◌then◌else◌,
}
use gobox.Base.Text.{Text, codes, is_empty, text_eq, split_on, join}
use gobox.Base.Dict.{lookup}
use gobox.Base.Int.{ℤ}
use gobox.Base.Paths.{base}
use gobox.Base.Utf8.{Bytes, rune_start, utf8}

-- `maxMessageSize`, `maxFileSize` and `maxLineSize`
abbrev pub max_message_size : ℕ
max_message_size = 65

abbrev pub max_file_size : ℕ
max_file_size = 25

abbrev pub max_line_size : ℕ
max_line_size = 4

-- The colors of the package: those of the levels, and of the parts of a line.
pub data Style : Type 0 where
  of_level : Bytes → Style
  unknown_level : Style
  timestamp : Style
  caller : Style
  message : Style
  field_key : Style
  field_val : Style
  green : Style
  red : Style
  black : Style

-- A value of type any, in what the formatters tell apart: an integer, and a float by its two decimals.
pub data Value : Type 0 where
  text : Bytes → Value
  integer : ℤ → Value
  float : Bytes → Value
  boolean : Bool → Value
  nil : Value
  fault : Bytes → Value
  other : ℕ → Value

-- What is used of fatih/color, fmt and time: `paint` gives a text a color, `sprint` is %v and `quoted`
-- %q, `pad_zero` is the byte by which %0*s pads a string, and `local_time` reads a time of RFC 3339 and
-- prints it in a layout.
pub record Printing : Type 0 where
  pub paint : Style → Bytes → Bytes
  pub sprint : Value → Bytes
  pub quoted : Bytes → Bytes
  pub pad_zero : ℕ
  pub decimal : ℤ → Bytes
  pub local_time : Bytes → Bytes → Option Bytes

-- `Config`
pub record Config : Type 0 where
  pub level : Bytes
  pub date_time_layout : Bytes
  pub colored : Bool
  pub json_format : Bool
  pub use_emoji : Bool

abbrev pub ascii : Text → Bytes
ascii s = utf8 s

-- `logLevels`: the text of a level, by whose name its color is known.
abbrev pub log_levels : List (Text × Bytes)
log_levels =
    (codes "trace", codes "TRAC")
    ∷ (codes "debug", codes "DEBG")
    ∷ (codes "info", codes "INFO")
    ∷ (codes "warn", codes "WARN")
    ∷ (codes "error", codes "ERRO")
    ∷ (codes "fatal", codes "FATL")
    ∷ (codes "panic", codes "PANC")
    ∷ []

-- The number of the characters of a string that is valid UTF-8.
unfoldable pub rune_count : Bytes → ℕ
rune_count [] = 0
rune_count (b ∷ s) = let rest = rune_count s in if rune_start b then suc rest else rest

abbrev pub repeat : ℕ → ℕ → Bytes
repeat b zero = []
repeat b (suc n) = b ∷ repeat b n

-- %-*s and %0*s of fmt, which count characters.
unfoldable pub pad_right : ℕ → Bytes → Bytes
unfolding rune_count
pad_right width s = s ++ repeat 32 (width - rune_count s)

unfoldable pub pad_left : ℕ → ℕ → Bytes → Bytes
unfolding rune_count
pad_left fill width s = repeat fill (width - rune_count s) ++ s

-- strings.TrimSuffix
unfoldable pub trim_suffix : Bytes → Bytes → Bytes
trim_suffix suffix [] = []
trim_suffix suffix (b ∷ s) =
    let rest = trim_suffix suffix s in if text_eq (b ∷ s) suffix then [] else b ∷ rest

-- `formatFileName`
unfoldable pub format_file_name : Bytes → Bytes
unfolding trim_suffix pad_right text_eq
format_file_name name =
    let file = trim_suffix (codes ".go") name in
    if ltb max_file_size (length file)
    then take max_file_size file
    else pad_right max_file_size file

-- `formatLineNumber`
unfoldable pub format_line_number : Printing → Bytes → Bytes
unfolding pad_left
format_line_number p line =
    if ltb max_line_size (length line)
    then drop (length line - max_line_size) line
    else pad_left p.pad_zero max_line_size line

-- `│ `
abbrev pub bar : Bytes
bar = utf8 (0x2502 ∷ 32 ∷ [])

-- `┤ ` and ` ├`
abbrev pub left_end : Bytes
left_end = utf8 (0x2524 ∷ 32 ∷ [])

abbrev pub right_end : Bytes
right_end = utf8 (32 ∷ 0x251c ∷ [])

module _ (p : Printing) where
  -- `formatUnknownLevel`
  unfoldable pub format_unknown_level : Config → Bytes
  format_unknown_level config =
      let emoji = if config.use_emoji then utf8 (0x2753 ∷ 32 ∷ []) else [] in
      p.paint unknown_level (32 ∷ emoji ++ codes "UNKN ")

  -- `formatLevel`
  unfoldable pub format_level : Config → Value → Bytes
  unfolding format_unknown_level lookup text_eq
  format_level config (text s) = elim (lookup s log_levels) [
    | some label ↦ p.paint (of_level s) (32 ∷ label ++ 32 ∷ [])
    | none ↦ format_unknown_level config
  ]
  format_level config other_value = format_unknown_level config

  abbrev pub message_line : Bytes → Bytes
  message_line line = p.paint message (bar ++ line)

  -- `formatMultilineMessage`
  unfoldable pub format_multiline_message : Bytes → Bytes
  unfolding split_on
  format_multiline_message msg = join (10 ∷ []) (map message_line (split_on 10 msg))

  abbrev pub empty_message : Bytes
  empty_message = p.paint message (bar ++ codes "(empty message)")

  -- A message of one line, cut or padded to its size.
  unfoldable pub sized : Bytes → Bytes
  unfolding pad_right
  sized msg =
      if ltb max_message_size (length msg)
      then take max_message_size msg
      else pad_right max_message_size msg

  -- `formatMessage`
  unfoldable pub format_message : Value → Bytes
  unfolding format_multiline_message sized
  format_message (text []) = empty_message
  format_message (text (b ∷ msg)) =
      if any (λ c. c == 10) (b ∷ msg)
      then format_multiline_message (b ∷ msg)
      else message_line (sized (b ∷ msg))
  format_message other_value = empty_message

  abbrev pub location : Bytes → Bytes → Bytes
  location file line = format_file_name file ++ codes ":" ++ format_line_number p line

  abbrev pub caller_parts : Bytes → List Bytes → Bytes
  caller_parts name (file ∷ line ∷ []) =
      p.paint caller (left_end ++ location file line ++ right_end)
  caller_parts name parts = p.paint caller (left_end ++ name ++ right_end)

  -- `formatCaller`
  unfoldable pub format_caller : Value → Bytes
  unfolding base split_on format_file_name format_line_number
  format_caller (text []) = []
  format_caller (text (b ∷ name)) =
      let base_name = base (b ∷ name) in caller_parts base_name (split_on 58 base_name)
  format_caller other_value = []

  abbrev bracketed : Bytes → Bytes
  bracketed s = p.paint timestamp (codes "[ " ++ s ++ codes " ]")

  -- `formatTimestamp`
  unfoldable pub format_timestamp : Config → Value → Bytes
  format_timestamp config (text s) = elim (p.local_time config.date_time_layout s) [
    | some t ↦ bracketed t
    | none ↦ bracketed s
  ]
  format_timestamp config other_value = bracketed (p.sprint other_value)

  -- `formatFieldName`
  unfoldable pub format_field_name : Value → Bytes
  format_field_name (text s) = p.paint field_key s
  format_field_name other_value = p.sprint other_value

  -- strings.ContainsAny(v, " \t\n\r\"'")
  abbrev pub is_special : ℕ → Bool
  is_special c = c == 32 || c == 9 || c == 10 || c == 13 || c == 34 || c == 39

  -- `formatFieldValue`
  unfoldable pub format_field_value : Value → Bytes
  format_field_value (text s) =
      codes "=" ++ p.paint field_val (if any is_special s then p.quoted s else s)
  format_field_value (integer i) = p.paint field_val (codes "=" ++ p.decimal i)
  format_field_value (float s) = p.paint field_val (codes "=" ++ s)
  format_field_value (boolean b) =
      codes "=" ++ (if b then p.paint green (codes "true") else p.paint red (codes "false"))
  format_field_value nil = codes "=" ++ p.paint black (codes "null")
  format_field_value other_value = p.paint field_val (codes "=" ++ p.sprint other_value)
