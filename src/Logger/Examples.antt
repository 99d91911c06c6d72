-- ===== src/Logger/Examples.antt =====
-- Runs of logger/formatter.go, logger/helper.go and logger/zerolog.go.
use gobox.Base.{◌≡◌, refl, true, false, none, List, [], ◌∷◌, ◌++◌, length, arith}
use gobox.Base.Text.{Text, codes, split_on, trim_space, join}
use gobox.Base.Paths.{base}
use gobox.Base.Utf8.{Bytes, utf8, first_byte, tail_bytes}
use gobox.Base.Int.{pos}
use gobox.Base.Errors.{ok}
use gobox.Logger.{
  Printing, text, bar, left_end, right_end, format_caller, format_message, sized, repeat,
  rune_count,
}
use gobox.Logger.Widths.{IsColumn, format_caller_column, format_message-IsColumn}
use gobox.Logger.Tree.{Cause, Styles, fault, format_error, extract_error_string, write_error_tree}
use gobox.Logger.Nodes.{branches, format_error_parts}
use gobox.Logger.Levels.{Zero, Zerolog, debug, api}
use gobox.Logger.Leveled.{IsLevelOf, api-IsLevelOf}

-- Printing without colors.
abbrev plain : Printing
plain = record {
  paint = λ style s. s;
  sprint = λ v. [];
  quoted = λ s. s;
  pad_zero = 48;
  decimal = λ i. [];
  local_time = λ layout s. none;
}

abbrev a_go : Bytes
a_go = codes "a.go"

abbrev line_7 : Bytes
line_7 = codes "7"

at_main :
    format_caller plain (text (codes "/srv/main.go:12"))
    ≡ left_end ++ (codes "main                     :0012" ++ right_end)
unfolding format_caller rune_count tail_bytes first_byte
at_main = refl

format_caller_column_test :
    (column : Bytes) × (length column ≡ 30)
    × (format_caller plain (text (codes "/a.go:7")) ≡ left_end ++ column ++ right_end)
unfolding base split_on
format_caller_column_test =
    format_caller_column plain 47 (codes "a.go:7") a_go line_7
      (omega arith, (omega arith, (omega arith, (omega arith, tt)))) (omega arith, tt) refl

-- A message that is cut inside a character of two bytes: its column ends with the first of them.
cut_inside : sized plain (repeat 97 64 ++ utf8 (0xe9 ∷ [])) ≡ repeat 97 64 ++ 0xc3 ∷ []
unfolding sized first_byte tail_bytes
cut_inside = refl

format_message-IsColumn_example :
    (column : Bytes) × IsColumn (codes "started") column
    × (format_message plain (text (codes "started")) ≡ bar ++ column)
format_message-IsColumn_example = format_message-IsColumn plain 115 (codes "tarted") refl

abbrev undecorated : Styles
undecorated = record {
  err_style = λ s. s;
  bold_style = λ s. s;
  title = λ s. s;
  to_lower = λ s. s;
  key_values = λ s. [];
}

abbrev failed_start : Cause
failed_start = fault (codes "[main]: no port: bad config")

format_error_parts_test :
    (init : List Text) × (last : Text) × (join (codes "]: ") (init ++ last ∷ [])
      ≡ codes "[main]: no port: bad config")
    × (format_error undecorated failed_start
        ≡ branches undecorated init ++ write_error_tree undecorated (trim_space last) [] true)
unfolding extract_error_string
format_error_parts_test = format_error_parts undecorated failed_start refl

abbrev zero : Zero
zero = record {
  parse_level = λ s. ok debug;
  duration = λ d. [];
  rounded = λ d. [];
  decimal = λ i. [];
}

abbrev logger : Zerolog
logger = record {
  writer = record {
    no_color = true;
    time_format = [];
    parts_order = [];
    fields_exclude = [];
    formatted = false;
  };
  context = [];
  skip_frames = pos 3;
  config = record {
    level = codes "debug";
    date_time_layout = [];
    colored = false;
    json_format = true;
    use_emoji = false;
  };
}

api-IsLevelOf_test :
    IsLevelOf 503 (api zero logger (codes "GET") (codes "/") [] (pos 503) (pos 0) []).level
api-IsLevelOf_test = api-IsLevelOf zero logger (codes "GET") (codes "/") [] 503 (pos 0) [] refl
