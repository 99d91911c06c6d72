-- ===== src/Logger/Tree.antt =====
-- The tree of an error: logger/formatter.go and logger/helper.go. Texts are code points.
use gobox.Base.{
  ℕ, zero, suc, ◌-◌, Bool, true, false, ◌&&◌, ◌||◌, Option, none, some, List, [], ◌∷◌, ◌++◌, map,
  any, length, ◌==◌, if◌then◌else◌,
}
use gobox.Base.Text.{Text, codes, is_empty, split_on, trim_space}

-- What `extractErrorString` tells apart: an error by its text, a string, and any other value.
pub data Cause : Type 0 where
  fault : Text → Cause
  message : Text → Cause
  neither : Cause

-- `extractErrorString`
unfoldable pub extract_error_string : Cause → Text
extract_error_string (fault s) = s
extract_error_string (message s) = s
extract_error_string neither = []

-- What is used of fatih/color, x/text, strings and regexp: the styles `errStyle` and `boldStyle`, the
-- title case, the lower case, and the matches of the expression for a key and its value.
pub record Styles : Type 0 where
  pub err_style : Text → Text
  pub bold_style : Text → Text
  pub title : Text → Text
  pub to_lower : Text → Text
  pub key_values : Text → List (Text × Text)

-- What follows a prefix.
unfoldable pub strip_prefix : Text → Text → Option Text
strip_prefix [] s = some s
strip_prefix (p ∷ ps) [] = none
strip_prefix (p ∷ ps) (c ∷ s) = let rest = strip_prefix ps s in if p == c then rest else none

abbrev pub before : ℕ → Option (Text × Text) → Option (Text × Text)
before c none = none
before c (some (s, t)) = some (c ∷ s, t)

-- strings.SplitN at a separator into two, if that is in the text.
unfoldable pub cut : Text → Text → Option (Text × Text)
unfolding strip_prefix
cut sep [] = none
cut sep (c ∷ s) =
    let later = cut sep s in
    elim (strip_prefix sep (c ∷ s)) [ some rest ↦ some ([], rest) | none ↦ before c later ]

abbrev pub onto_first : ℕ → List Text → List Text
onto_first c [] = (c ∷ []) ∷ []
onto_first c (part ∷ parts) = (c ∷ part) ∷ parts

-- strings.Split at a separator that is not empty; the number is how much of it is still to be passed.
unfoldable pub split_from : Text → ℕ → Text → List Text
unfolding strip_prefix
split_from sep skip [] = [] ∷ []
split_from sep (suc skip) (c ∷ s) = split_from sep skip s
split_from sep zero (c ∷ s) =
    let whole = onto_first c (split_from sep zero s) in
    let parted = split_from sep (length sep - 1) s in
    elim (strip_prefix sep (c ∷ s)) [ some rest ↦ [] ∷ parted | none ↦ whole ]

-- strings.Trim by the quotation mark
unfoldable pub trim_quotes_left : Text → Text
trim_quotes_left [] = []
trim_quotes_left (c ∷ s) = let rest = trim_quotes_left s in if c == 34 then rest else c ∷ s

unfoldable pub trim_quotes_right : Text → Text
trim_quotes_right [] = []
trim_quotes_right (c ∷ s) =
    let rest = trim_quotes_right s in if is_empty rest && c == 34 then [] else c ∷ rest

abbrev pub trim_quotes : Text → Text
trim_quotes s = trim_quotes_left (trim_quotes_right s)

-- All but the last character, and whether that is `]`.
abbrev unclosed : ℕ → Text → Option Text
unclosed c [] = if c == 93 then some [] else none
unclosed c (d ∷ s) = elim (unclosed d s) [ none ↦ none | some inner ↦ some (c ∷ inner) ]

abbrev inside : Text → Option Text
inside [] = none
inside (c ∷ s) = unclosed c s

-- The match of `^([^\[]+)\[(.+)\]$`, by its two groups.
unfoldable pub match_brackets : Text → Option (Text × Text)
unfolding cut
match_brackets part = elim (cut (codes "[") part) [
  | none ↦ none
  | some (s, rest) ↦ elim (inside rest) [
    | none ↦ none
    | some inner ↦
        if is_empty s || is_empty inner || any (λ c. c == 10) inner then none else some (s, inner)
  ]
]

-- `├──`, `└──` and `│   `
abbrev pub branch : Text
branch = 0x251c ∷ 0x2500 ∷ 0x2500 ∷ []

abbrev pub corner : Text
corner = 0x2514 ∷ 0x2500 ∷ 0x2500 ∷ []

abbrev pub trunk : Text
trunk = 0x2502 ∷ codes "   "

abbrev underscore_to_space : ℕ → ℕ
underscore_to_space c = if c == 95 then 32 else c

module _ (r : Styles) where
  abbrev value_line : Text → Text → Text → Text → Text
  value_line prefix symbol key line =
      10 ∷ prefix ++ r.err_style symbol ++ 32 ∷ r.bold_style key ++ codes ": " ++ r.err_style line

  abbrev value_lines : Text → Text → Text → List Text → Text
  value_lines prefix symbol key [] = []
  value_lines prefix symbol key (line ∷ lines) =
      value_line prefix symbol key line ++ value_lines prefix trunk key lines

  -- `writeKeyValueTree`, on the matches
  unfoldable pub key_value_nodes : Text → List (Text × Text) → Text
  unfolding split_on trim_space
  key_value_nodes prefix [] = []
  key_value_nodes prefix ((k, v) ∷ matches) =
      let symbol : Text = elim matches [ [] ↦ corner | m ∷ ms ↦ branch ] in
      let key = r.title (r.to_lower (map underscore_to_space (trim_space k))) in
      value_lines prefix symbol key (split_on 10 (trim_space v)) ++ key_value_nodes prefix matches

  -- `writeKeyValueTree`
  unfoldable pub write_key_value_tree : Text → Text → Text
  unfolding key_value_nodes
  write_key_value_tree kv_str prefix = key_value_nodes prefix (r.key_values kv_str)

  abbrev pub node : Text → Text → Text → Text
  node prefix symbol s = 10 ∷ r.err_style prefix ++ r.err_style symbol ++ 32 ∷ r.err_style s

  abbrev detail_line : Text → Text → Text → Text → Text
  detail_line prefix symbol label s =
      10 ∷ prefix ++ r.err_style symbol ++ 32 ∷ r.bold_style label ++ 32 ∷ r.err_style s

  abbrev details : Text → Text → Text
  details prefix s = elim (cut (codes ": ") s) [
    | some (cause, failure) ↦
        detail_line prefix branch (codes "Cause:") (trim_space cause)
        ++ detail_line prefix corner (codes "Error:") (trim_space failure)
    | none ↦ 10 ∷ prefix ++ r.err_style corner ++ 32 ∷ r.err_style s
  ]

  abbrev part_tree : Text → Text → Text → Text → Text
  part_tree part prefix symbol next_prefix = elim (match_brackets part) [
    | some (s, inner) ↦ node prefix symbol (trim_space s) ++ write_key_value_tree inner next_prefix
    | none ↦ elim (cut (codes ": ") part) [
      | some (s, rest) ↦ node prefix symbol (trim_space s) ++ details next_prefix rest
      | none ↦ node prefix symbol part
    ]
  ]

  -- `writeErrorTree`
  unfoldable pub write_error_tree : Text → Text → Bool → Text
  unfolding match_brackets write_key_value_tree cut trim_quotes_left trim_quotes_right trim_space
  write_error_tree part prefix is_last =
      part_tree (trim_quotes part) prefix (if is_last then corner else branch)
        (prefix ++ (if is_last then codes "    " else trunk))

  -- The loop of `formatError` over the parts.
  unfoldable pub write_parts : List Text → Text
  unfolding write_error_tree trim_space
  write_parts [] = []
  write_parts (part ∷ []) = write_error_tree (trim_space part) [] true
  write_parts (part ∷ next ∷ parts) =
      write_error_tree (trim_space part ++ codes "]") [] false ++ write_parts (next ∷ parts)

  -- `formatError`
  unfoldable pub format_error : Cause → Text
  unfolding extract_error_string split_from write_parts
  format_error i =
      let err_str = extract_error_string i in
      if is_empty err_str then [] else write_parts (split_from (codes "]: ") 0 err_str)
