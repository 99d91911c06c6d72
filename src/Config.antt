-- ===== src/Config.antt =====
-- config/viper.go: the configuration loader, its subscribers and its debounced reload.
pub mod Loading
pub mod Channels
pub mod History
pub mod Reloading
pub mod Examples
use gobox.Base.{
  ℕ, suc, ◌+◌, Bool, true, false, ◌||◌, Option, none, some, List, [], ◌∷◌, ◌++◌, length, ltb, ◌==◌,
  if◌then◌else◌,
}
use gobox.Base.Text.{Text}
use gobox.Base.Int.{ℤ, pos_part}
use gobox.Base.Errors.{Error}

-- `LoaderOptions`: a callback is whether it is set.
pub record LoaderOptions : Type 0 where
  pub config_type : Text
  pub watch_config : Bool
  pub reload_debounce : ℤ
  pub on_config_change : Bool
  pub on_config_change_error : Bool

module _ (T : Type 0) where
  -- `ConfigChangeEvent`
  pub record ChangeEvent : Type 0 where
    pub old_config : Option T
    pub new_config : Option T
    pub error : Option Error
    pub timestamp : ℕ

  -- A channel of capacity 10 with what is in it.
  pub record Channel : Type 0 where
    pub buffer : List ChangeEvent
    pub closed : Bool

  -- A callback that was started as a goroutine.
  pub data Call : Type 0 where
    changed : T → Call
    failed : Error → Call

-- A timer of time.AfterFunc: when it fires, and whether it is still to fire.
pub record Timer : Type 0 where
  pub due : ℕ
  pub active : Bool

-- `Loader`, with the channels made so far: a channel is its number, and the store holds them all,
-- since a client keeps one that is no subscriber any more.
pub record Loader (T : Type 0) : Type 0 where
  pub current : Option T
  pub validator : Option (T → Option Error)
  pub watching : Bool
  pub channels : ℕ → Channel T
  pub made : ℕ
  pub subscribers : List ℕ
  pub debouncer : Option Timer
  pub stopped : Bool
  pub started : List (Call T)

abbrev pub member : ℕ → List ℕ → Bool
member i [] = false
member i (j ∷ js) = j == i || member i js

abbrev pub removed : ℕ → List ℕ → List ℕ
removed i [] = []
removed i (j ∷ js) = let rest = removed i js in if j == i then js else j ∷ rest

module _ {T : Type 0} where
  abbrev pub empty_channel : Channel T
  empty_channel = record { buffer = []; closed = false }

  -- `NewViper`
  unfoldable pub new_viper : Loader T
  new_viper = record {
    current = none;
    validator = none;
    watching = false;
    channels = λ i. empty_channel;
    made = 0;
    subscribers = [];
    debouncer = none;
    stopped = false;
    started = [];
  }

  abbrev pub put : ℕ → Channel T → (ℕ → Channel T) → ℕ → Channel T
  put i c channels j = if j == i then c else channels j

  -- The send in the select with a default; on a closed channel it panics (`none`).
  unfoldable pub deliver : ChangeEvent T → Channel T → Option (Channel T)
  deliver event c =
      if c.closed
      then none
      else if ltb (length c.buffer) 10
      then some (record c { buffer = c.buffer ++ event ∷ [] })
      else some c

  -- close, which panics on a closed channel
  unfoldable pub close : Channel T → Option (Channel T)
  close c = if c.closed then none else some (record c { closed = true })

  -- A loop over the subscribers.
  unfoldable pub each :
      (Channel T → Option (Channel T)) → List ℕ → (ℕ → Channel T) → Option (ℕ → Channel T)
  each f [] channels = some channels
  each f (i ∷ is) channels = elim (f (channels i)) [
    | none ↦ none
    | some c ↦ each f is (put i c channels)
  ]

  -- `Subscribe`: the number of the channel that it returns is `l.made`.
  unfoldable pub subscribe : Loader T → Loader T
  subscribe l = record l {
    channels = put l.made empty_channel l.channels;
    made = suc l.made;
    subscribers = l.subscribers ++ l.made ∷ [];
  }

  unfoldable pub unsubscribe : ℕ → Loader T → Option (Loader T)
  unfolding close
  unsubscribe i l =
      if member i l.subscribers
      then elim (close (l.channels i)) [
        | none ↦ none
        | some c ↦
            some (record l { channels = put i c l.channels; subscribers = removed i l.subscribers })
      ]
      else some l

  -- `Stop`: its two critical sections.
  unfoldable pub stop_timer : Loader T → Loader T
  stop_timer l = record l { stopped = true; debouncer = none }

  unfoldable pub close_subscribers : Loader T → Option (Loader T)
  unfolding each close
  close_subscribers l = elim (each close l.subscribers l.channels) [
    | none ↦ none
    | some channels ↦ some (record l { channels = channels; subscribers = [] })
  ]

  -- `debouncedReload`, and the timer when it fires.
  unfoldable pub debounced_reload : LoaderOptions → ℕ → Loader T → Loader T
  debounced_reload o now l = if l.stopped then l else record l {
    debouncer = some (record { due = now + pos_part o.reload_debounce; active = true });
  }

  unfoldable pub notify : ChangeEvent T → Loader T → Option (Loader T)
  unfolding each deliver
  notify event l = elim (each (deliver event) l.subscribers l.channels) [
    | none ↦ none
    | some channels ↦ some (record l { channels = channels })
  ]

  abbrev pub begin_call : Bool → Call T → Loader T → Loader T
  begin_call set call l = if set then record l { started = l.started ++ call ∷ [] } else l

  -- `notifyChange` and `notifyError`
  unfoldable pub notify_change : LoaderOptions → ℕ → Option T → T → Loader T → Option (Loader T)
  unfolding notify
  notify_change o now old new l =
      notify (record { old_config = old; new_config = some new; error = none; timestamp = now })
        (begin_call o.on_config_change (changed new) l)

  unfoldable pub notify_error : LoaderOptions → ℕ → Error → Loader T → Option (Loader T)
  unfolding notify
  notify_error o now e l =
      notify (record { old_config = none; new_config = none; error = some e; timestamp = now })
        (begin_call o.on_config_change_error (failed e) l)
