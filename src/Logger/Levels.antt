-- ===== src/Logger/Levels.antt =====
-- logger/zerolog.go and logger/helper.go: the threshold, the loggers, and the records of requests.
use gobox.Base.{
  Bool, true, false, not, ◌&&◌, ◌||◌, Option, none, some, List, [], ◌∷◌, ◌++◌, leb, ltb,
  if◌then◌else◌,
}
use gobox.Base.Text.{Text, codes, is_empty}
use gobox.Base.Errors.{Error, Result, ok, err, wrap}
use gobox.Base.Int.{ℤ, pos, is_pos}
use gobox.Logger.{Config}

-- zerolog.Level, in what the package names of it.
pub data Level : Type 0 where
  trace : Level
  debug : Level
  info : Level
  warn : Level
  error : Level
  fatal : Level
  panic : Level
  no_level : Level
  disabled : Level

-- zerolog.ConsoleWriter, in what is set of it; `formatted` is whether it has the package's formatters.
pub record ConsoleWriter : Type 0 where
  pub no_color : Bool
  pub time_format : Text
  pub parts_order : List Text
  pub fields_exclude : List Text
  pub formatted : Bool

-- `Zerolog`: its writer, the context of its logger, and the number of the frames that it skips.
pub record Zerolog : Type 0 where
  pub writer : ConsoleWriter
  pub context : List (Text × Text)
  pub skip_frames : ℤ
  pub config : Config

-- A record that is given to the writer.
pub record Event : Type 0 where
  pub level : Level
  pub fields : List (Text × Text)
  pub skip_frames : ℤ
  pub msg : Text

-- What is used of zerolog and of time: ParseLevel, and a duration as String gives it, whole or rounded
-- to milliseconds.
pub record Zero : Type 0 where
  pub parse_level : Text → Result Level
  pub duration : ℤ → Text
  pub rounded : ℤ → Text
  pub decimal : ℤ → Text

abbrev parts : List Text
parts = codes "time" ∷ codes "level" ∷ codes "caller" ∷ codes "message" ∷ []

-- `createJSONLogger`
unfoldable pub create_json_logger : Config → ConsoleWriter
create_json_logger config = record {
  no_color = not config.colored;
  time_format = config.date_time_layout;
  parts_order = parts;
  fields_exclude = codes "caller" ∷ [];
  formatted = false;
}

-- `createConsoleLogger`
unfoldable pub create_console_logger : Config → ConsoleWriter
create_console_logger config = record {
  no_color = not config.colored;
  time_format = config.date_time_layout;
  parts_order = parts;
  fields_exclude = [];
  formatted = config.colored;
}

-- `SetLevel`, on the level that is in force.
unfoldable pub set_level : Zero → Text → Level → Level × Option Error
set_level z level current = elim (z.parse_level level) [
  | ok parsed ↦ (parsed, none)
  | err e ↦ (current, some (wrap "ErrInvalidLogLevel" e))
]

abbrev default_config : Config
default_config = record {
  level = codes "info";
  date_time_layout = codes "2006-01-02T15:04:05Z07:00";
  colored = true;
  json_format = false;
  use_emoji = false;
}

abbrev pub given_or_default : Option Config → Config
given_or_default none = default_config
given_or_default (some config) = config

-- `New`
unfoldable pub new_zerolog : Zero → Option Config → Level → Level × Result Zerolog
unfolding set_level create_json_logger create_console_logger
new_zerolog z given current =
    let config = given_or_default given in
    let (after, failed) = set_level z config.level current in
    elim failed [
      | some e ↦ (after, err e)
      | none ↦ (
        after,
        ok (record {
          writer =
              if config.json_format
              then create_json_logger config
              else create_console_logger config;
          context = [];
          skip_frames = pos 3;
          config = config;
        }),
      )
    ]

-- `WithContext`; the map is a list of its entries.
unfoldable pub with_context : List (Text × Text) → Zerolog → Zerolog
with_context ctx zl = record zl { context = zl.context ++ ctx }

-- `getStatusLevel`
unfoldable pub get_status_level : ℤ → Level
get_status_level (pos status) =
    if leb 200 status && ltb status 300
    then info
    else if leb 300 status && ltb status 400
    then info
    else if leb 400 status && ltb status 500
    then warn
    else if leb 500 status
    then error
    else info
get_status_level negative = info

abbrev emit : Zerolog → ℤ → Level → List (Text × Text) → Text → Event
emit zl skip level fields msg = record {
  level = level;
  fields = zl.context ++ fields;
  skip_frames = skip;
  msg = msg;
}

-- `Success` and `Failure`
unfoldable pub success : Zerolog → Text → Event
success zl msg = emit zl zl.skip_frames info [] msg

unfoldable pub failure : Zerolog → Text → Event
failure zl msg = emit zl zl.skip_frames error [] msg

-- `Benchmark`
unfoldable pub benchmark : Zero → Zerolog → Text → ℤ → Event
benchmark z zl name duration =
    emit zl zl.skip_frames debug ((codes "duration", z.duration duration) ∷ [])
      (codes "Benchmark: " ++ name)

abbrev pub skip_of : ℤ → List ℤ → ℤ
skip_of own [] = own
skip_of own (n ∷ more) = if is_pos n then n else own

-- `API`
unfoldable pub api : Zero → Zerolog → Text → Text → Text → ℤ → ℤ → List ℤ → Event
unfolding get_status_level
api z zl method path remote_addr status_code duration skip_frame_count =
    if is_empty method || is_empty path
    then emit zl zl.skip_frames error ((codes "method", method) ∷ (codes "path", path) ∷ [])
        (codes "invalid parameters for API log")
    else emit zl (skip_of zl.skip_frames skip_frame_count) (get_status_level status_code)
        ((codes "method", method)
          ∷ (codes "path", path)
          ∷ (codes "remote_addr", remote_addr)
          ∷ (codes "status", z.decimal status_code)
          ∷ (codes "duration", z.rounded duration)
          ∷ [])
        (codes "API Request")
