-- ===== src/Config/Loading.antt =====
-- Load, LoadWithValidation and Reload of config/viper.go, over viper and the file system.
use Prim.Native.String.{String}
use gobox.Base.{ℕ, Bool, true, Option, none, some, if◌then◌else◌, ◌∷◌}
use gobox.Base.Text.{Text, is_empty}
use gobox.Base.Errors.{Error, Result, ok, err, sentinel, wrap}
use gobox.Config.{LoaderOptions, Loader, notify_change, notify_error}

abbrev pub reload_failed : String
reload_failed = "ErrConfigReloadFailed"

-- What is used of viper, bound to its file, and of the file system and the environment. A read
-- that fails says whether it is because no file was found; `Source` is a viper that holds a
-- document.
pub record Viper (W Source T : Type 0) : Type 0 where
  pub read_in_config : W → W × Option (Bool × Error)
  pub config_file_used : W → Text
  pub read_file : W → Text → Result Text
  pub expand_env : W → Text → Text
  pub read_config : Text → Text → Result Source
  pub bound : W → Source
  pub unmarshal : Source → Result T

-- ErrValidationReloadFailed, joined with the validator's error.
abbrev pub validation_reload_failed : Error → Error
validation_reload_failed e = record {
  wraps = "ErrValidationReloadFailed" ∷ reload_failed ∷ "ErrConfigValidationFailed" ∷ e.wraps;
}

module _ {T : Type 0} where
  -- The validator's answer, if there is a validator.
  abbrev pub rejected : Option (T → Option Error) → T → Option Error
  rejected none config = none
  rejected (some validator) config = validator config

  abbrev returns : Option Error → Option (Loader T) → Option (Loader T × Option Error)
  returns answer none = none
  returns answer (some l) = some (l, answer)

  -- `Reload` once the configuration is read: a panic of a send is `none`.
  unfoldable pub reload_with :
      LoaderOptions → ℕ → Loader T → Result T → Option (Loader T × Option Error)
  unfolding notify_change notify_error
  reload_with o now l (err e) = returns (some (wrap reload_failed e)) (notify_error o now e l)
  reload_with o now l (ok config) = elim (rejected l.validator config) [
    | some e ↦
        returns (some (validation_reload_failed e))
          (notify_error o now (validation_reload_failed e) l)
    | none ↦
        returns none (notify_change o now l.current config (record l { current = some config }))
  ]

module _ {W Source T : Type 0} (v : Viper W Source T) (o : LoaderOptions) where
  abbrev read_failed : Error → Error
  read_failed e = wrap "ErrConfigFileReadFailed" e

  abbrev parsed : Result Text → Result Source
  parsed (err e) = err (read_failed e)
  parsed (ok text) = elim (v.read_config o.config_type text) [
    | err e ↦ err (read_failed e)
    | ok source ↦ ok source
  ]

  abbrev expanded : W → Result Text → Result Text
  expanded w (err e) = err e
  expanded w (ok text) = ok (v.expand_env w text)

  unfoldable pub source_of : W → Result Source
  source_of w =
      if is_empty (v.config_file_used w)
      then ok (v.bound w)
      else parsed (expanded w (v.read_file w (v.config_file_used w)))

  abbrev unmarshalled : Result Source → Result T
  unmarshalled (err e) = err e
  unmarshalled (ok source) = elim (v.unmarshal source) [
    | err e ↦ err (wrap "ErrConfigUnmarshalFailed" e)
    | ok config ↦ ok config
  ]

  abbrev after_read : W → Option (Bool × Error) → Result T
  after_read w none = unmarshalled (source_of w)
  after_read w (some (missing, e)) =
      if missing then unmarshalled (source_of w) else err (read_failed e)

  -- `loadConfig`
  unfoldable pub load_config : W → W × Result T
  unfolding source_of
  load_config w = let (w₁, read) = v.read_in_config w in (w₁, after_read w₁ read)

  -- `startWatching`
  unfoldable pub start_watching : W → Loader T → Loader T × Option Error
  start_watching w l =
      if is_empty (v.config_file_used w)
      then (l, some (sentinel "ErrConfigWatchUnavailable"))
      else (record l { watching = true }, none)

  abbrev watched : W → T → Loader T × Option Error → W × Loader T × Result T
  watched w config (l, some e) = (w, l, err e)
  watched w config (l, none) = (w, l, ok config)

  abbrev pub loaded : Loader T → W × Result T → W × Loader T × Result T
  loaded l (w, err e) = (w, l, err e)
  loaded l (w, ok config) =
      let k = record l { current = some config } in
      if o.watch_config then watched w config (start_watching w k) else (w, k, ok config)

  unfoldable pub load : W → Loader T → W × Loader T × Result T
  unfolding load_config start_watching
  load w l = loaded l (load_config w)

  abbrev pub validated :
      Option (T → Option Error) → W × Loader T × Result T → W × Loader T × Result T
  validated validator (w, l, err e) = (w, l, err e)
  validated validator (w, l, ok config) = elim (rejected validator config) [
    | none ↦ (w, l, ok config)
    | some e ↦ (w, l, err (wrap "ErrConfigValidationFailed" e))
  ]

  unfoldable pub load_with_validation :
      Option (T → Option Error) → W → Loader T → W × Loader T × Result T
  unfolding load
  load_with_validation validator w l =
      validated validator (load w (record l { validator = validator }))

  unfoldable pub reload : ℕ → W → Loader T → W × Option (Loader T × Option Error)
  unfolding load_config reload_with
  reload now w l = let (w₁, answer) = load_config w in (w₁, reload_with o now l answer)
