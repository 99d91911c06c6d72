-- ===== src/Config/Examples.antt =====
-- Runs of the loader of config/viper.go, for a configuration that is a number.
use gobox.Base.{ℕ, ◌+◌, ◌≡◌, true, false, Option, none, some, [], ◌∷◌, if◌then◌else◌, ltb}
use gobox.Base.Int.{pos}
use gobox.Base.Text.{Text, codes}
use gobox.Base.Errors.{Error, ok, sentinel}
use gobox.Config.{LoaderOptions, Loader, ChangeEvent, new_viper, subscribe}
use gobox.Config.Loading.{Viper, load_config, reload}
use gobox.Config.History.{subscribed, notified, unsubscribed, run, Sound}
use gobox.Config.History.Safety.{run-Sound, new_viper-Sound, subscribe-Sound}
use gobox.Config.Reloading.{Reloaded, reload-Reloaded}

abbrev options : LoaderOptions
options = record {
  config_type = codes "yaml";
  watch_config = true;
  reload_debounce = pos 50;
  on_config_change = true;
  on_config_change_error = false;
}

-- A file that holds a number: its length.
abbrev count_codes : Text → ℕ
count_codes [] = 0
count_codes (c ∷ s) = 1 + count_codes s

abbrev disk : Viper Text Text ℕ
disk = record {
  read_in_config = λ w. (w, none);
  config_file_used = λ w. codes "config.yaml";
  read_file = λ w file. ok w;
  expand_env = λ w text. text;
  read_config = λ type text. ok text;
  bound = λ w. w;
  unmarshal = λ text. ok (count_codes text);
}

abbrev at_least_two : ℕ → Option Error
at_least_two n = if ltb n 2 then some (sentinel "ErrTooSmall") else none

abbrev changed_event : ChangeEvent ℕ
changed_event = record { old_config = none; new_config = some 3; error = none; timestamp = 7 }

run-Sound_example :
    (l : Loader ℕ) × (run options
        (subscribed
          ∷ subscribed
          ∷ notified changed_event
          ∷ unsubscribed 0
          ∷ notified changed_event
          ∷ [])
        new_viper
      ≡ some l)
    × Sound l
run-Sound_example = run-Sound options (
    subscribed ∷ subscribed ∷ notified changed_event ∷ unsubscribed 0 ∷ notified changed_event ∷ [])

-- A loader with one subscriber.
abbrev one_subscriber : Loader ℕ
unfolding new_viper subscribe
one_subscriber = subscribe new_viper

one_subscriber-Sound : Sound one_subscriber
unfolding one_subscriber subscribe
one_subscriber-Sound = subscribe-Sound new_viper new_viper-Sound

reload-Reloaded_example :
    (k : Loader ℕ) × (e : Option Error) × ((reload disk options 9 (codes "abc") one_subscriber).1
      ≡ some (k, e))
    × Reloaded 9 one_subscriber (load_config disk options (codes "abc")).1 k e
reload-Reloaded_example =
    reload-Reloaded disk options 9 (codes "abc") one_subscriber one_subscriber-Sound
