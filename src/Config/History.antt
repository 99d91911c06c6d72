-- ===== src/Config/History.antt =====
-- The critical sections of the loader of config/viper.go in any order, as its users, its watcher, its
-- timer and its reloads run them.
pub mod Subscribed
pub mod Safety
use gobox.Base.{
  ℕ, suc, ◌≤◌, ◌<◌, ◌≡◌, refl, Bool, true, false, Option, none, some, List, [], ◌∷◌, ◌++◌, length,
  if◌then◌else◌, arith, All, Bool-cases, inl, inr, Option-cases, ◌==◌,
}
use gobox.Base.Errors.{Error}
use gobox.Config.{
  LoaderOptions, Timer, ChangeEvent, Channel, Loader, new_viper, put, subscribe, unsubscribe,
  stop_timer, close_subscribers, debounced_reload, notify, member, removed, each, close, deliver,
  empty_channel,
}
use gobox.Config.Channels.{AreOpen, AreDistinct, AreBounded, told, each-deliver, each-close}

abbrev fired : Option Timer → Option Timer
fired none = none
fired (some t) = some (record t { active = false })

module _ (T : Type 0) where
  pub data Action : Type 0 where
    subscribed timer_stopped subscribers_closed timer_fired : Action
    unsubscribed received : ℕ → Action
    file_changed : ℕ → Action
    notified : ChangeEvent T → Action
    stored : T → Action
    validator_set : Option (T → Option Error) → Action

module _ {T : Type 0} where
  abbrev pub rest_of : List (ChangeEvent T) → List (ChangeEvent T)
  rest_of [] = []
  rest_of (event ∷ events) = events

  -- A client takes an event out of a channel, if there is one.
  abbrev pub receive_from : ℕ → Loader T → Loader T
  receive_from i l = record l {
    channels = put i (record (l.channels i) { buffer = rest_of (l.channels i).buffer }) l.channels;
  }

  -- A panic is `none`.
  unfoldable pub act : LoaderOptions → Action T → Loader T → Option (Loader T)
  unfolding subscribe unsubscribe stop_timer close_subscribers debounced_reload notify
  act o subscribed l = some (subscribe l)
  act o timer_stopped l = some (stop_timer l)
  act o subscribers_closed l = close_subscribers l
  act o timer_fired l = some (record l { debouncer = fired l.debouncer })
  act o (unsubscribed i) l = unsubscribe i l
  act o (received i) l = some (receive_from i l)
  act o (file_changed now) l = some (debounced_reload o now l)
  act o (notified event) l = notify event l
  act o (stored config) l = some (record l { current = some config })
  act o (validator_set validator) l = some (record l { validator = validator })

  unfoldable pub run : LoaderOptions → List (Action T) → Loader T → Option (Loader T)
  unfolding act
  run o [] l = some l
  run o (a ∷ actions) l = elim (act o a l) [ none ↦ none | some k ↦ run o actions k ]

  -- What holds between two critical sections.
  pub record Sound (l : Loader T) : Type 0 where
    pub open_ : AreOpen l.channels l.subscribers
    pub distinct : AreDistinct l.subscribers
    pub known : All (λ i. i < l.made) l.subscribers
    pub bounded : AreBounded l.channels
    pub idle : l.stopped ≡ true → l.debouncer ≡ none
