-- ===== src/Config/Reloading.antt =====
-- What a reload and a first load of config/viper.go leave as the current configuration.
use gobox.Base.{
  ℕ, ◌+◌, ◌≡◌, refl, Bool, true, false, Option, none, some, List, [], ◌∷◌, ◌++◌, if◌then◌else◌,
  Bool-cases, Option-cases, inl, inr, ◌∙◌, ap,
}
use gobox.Base.Int.{pos_part}
use gobox.Base.Text.{is_empty}
use gobox.Base.Errors.{Error, Result, ok, err, error_is, wrap, wraps_any}
use gobox.Config.{
  LoaderOptions, ChangeEvent, Loader, notify_change, notify_error, notify, member, changed, failed,
  begin_call, debounced_reload, Call,
}
use gobox.Config.Channels.{told}
use gobox.Config.Loading.{
  Viper, load, load_config, load_with_validation, start_watching, reload_with, reload, rejected,
  reload_failed, validation_reload_failed, loaded, validated,
}
use gobox.Config.History.{Sound}
use gobox.Config.History.Safety.{notify-told}

module _ {T : Type 0} where
  -- The channels of `k` are those of `l` after each subscriber was sent the event.
  abbrev pub Sent : ChangeEvent T → Loader T → Loader T → Type 0
  Sent event l k =
      (j : ℕ)
      → k.channels j ≡ (if member j l.subscribers then told event (l.channels j) else l.channels j)

  -- A reload that read `answer`: a validated configuration becomes the current one; on an error the
  -- current one stays. Each subscriber is told.
  pub data Reloaded (now : ℕ) (l : Loader T) (answer : Result T)
      : Loader T → Option Error → Type 0 where
    replaced :
        {k : Loader T} (config : T)
        → answer ≡ ok config
        → rejected l.validator config ≡ none
        → k.current ≡ some config
        → Sent
            (record {
              old_config = l.current;
              new_config = some config;
              error = none;
              timestamp = now;
            })
            l
            k
        → Reloaded now l answer k none
    kept :
        {k : Loader T} (e : Error)
        → k.current ≡ l.current
        → error_is e reload_failed ≡ true
        → (told_of : Error)
        → Sent
            (record { old_config = none; new_config = none; error = some told_of; timestamp = now })
            l
            k
        → Reloaded now l answer k (some e)

  -- A callback that starts before the event is sent changes nothing that matters to it.
  notify-Sent :
      (set : Bool) (call : Call T) (event : ChangeEvent T) (l : Loader T)
      → Sound l
      → (k : Loader T) × (notify event (begin_call set call l) ≡ some k)
        × (k.current ≡ l.current)
        × Sent event l k
  notify-Sent true call event l h =
      let m = begin_call true call l in
      let (channels, is, same) = notify-told event m (record {
        open_ = h.open_;
        distinct = h.distinct;
        known = h.known;
        bounded = h.bounded;
        idle = h.idle;
      }) in
      (record m { channels = channels }, is, refl, same)
  notify-Sent false call event l h =
      let (channels, is, same) = notify-told event l h in
      (record l { channels = channels }, is, refl, same)

  reload_with-Reloaded :
      (o : LoaderOptions) (now : ℕ) (l : Loader T) (answer : Result T)
      → Sound l
      → (k : Loader T) × (e : Option Error) × (reload_with o now l answer ≡ some (k, e))
        × Reloaded now l answer k e
  unfolding reload_with notify_change notify_error error_is wraps_any
  reload_with-Reloaded o now l (err e) h =
      let (k, is, same, sent) = notify-Sent o.on_config_change_error (failed e) _ l h in
      (k, some (wrap reload_failed e), rw (is) refl, kept (wrap reload_failed e) same refl e sent)
  reload_with-Reloaded o now l (ok config) h = elim (Option-cases (rejected l.validator config)) [
    | inr (e, no_) ↦
        let told_of = validation_reload_failed e in
        let (k, is, same, sent) = notify-Sent o.on_config_change_error (failed told_of) _ l h in
        (
          k,
          some told_of,
          rw (reload_with, no_, notify_error, is) refl,
          kept told_of same refl told_of sent,
        )
    | inl yes_ ↦
        let m = record l { current = some config } in
        let (k, is, same, sent) =
          notify-Sent o.on_config_change (changed config)
            (record {
              old_config = l.current;
              new_config = some config;
              error = none;
              timestamp = now;
            })
            m
            (record {
              open_ = h.open_;
              distinct = h.distinct;
              known = h.known;
              bounded = h.bounded;
              idle = h.idle;
            }) in
        (
          k,
          none,
          rw (reload_with, yes_, notify_change, is) refl,
          replaced config refl yes_ same sent,
        )
  ]

  -- The file events of a burst.
  unfoldable pub burst : LoaderOptions → List ℕ → Loader T → Loader T
  unfolding debounced_reload
  burst o [] l = l
  burst o (time ∷ times) l = burst o times (debounced_reload o time l)

module _ {W Source T : Type 0} (v : Viper W Source T) (o : LoaderOptions) where
  -- On a sound loader Reload does not panic. Either it makes the configuration that it loaded the
  -- current one, which the validator, if any, accepts, or it returns an error that wraps
  -- ErrConfigReloadFailed and the current one stays; each subscriber is sent the outcome.
  pub reload-Reloaded :
      (now : ℕ) (w : W) (l : Loader T)
      → Sound l
      → (k : Loader T) × (e : Option Error) × ((reload v o now w l).1 ≡ some (k, e))
        × Reloaded now l (load_config v o w).1 k e
  unfolding reload
  reload-Reloaded now w l h = reload_with-Reloaded o now l (load_config v o w).1 h

  loaded-current :
      (l : Loader T) (answer : W × Result T) (config : T)
      → (loaded v o l answer).2 ≡ ok config
      → (loaded v o l answer).1.current ≡ some config
  unfolding start_watching
  loaded-current l (w, err x) config e = absurd (cc)
  loaded-current l (w, ok c) config e = elim (Bool-cases o.watch_config) [
    | inr no_ ↦ let x = rw (no_) at e in let same : c ≡ config = (cc) in rw (no_) (ap some same)
    | inl yes_ ↦ elim (Bool-cases (is_empty (v.config_file_used w))) [
      | inl none_ ↦ let x = rw (yes_, start_watching, none_) at e in absurd (cc)
      | inr file ↦
          let x = rw (yes_, start_watching, file) at e in
          let same : c ≡ config = (cc) in rw (yes_, start_watching, file) (ap some same)
    ]
  ]

  validated-err :
      (validator : T → Option Error) (config : T) (e : Error) (answer : W × Loader T × Result T)
      → answer.2 ≡ ok config
      → validator config ≡ some e
      → ((validated v o (some validator) answer).1 ≡ answer.1)
        × ((validated v o (some validator) answer).2 ≡ err (wrap "ErrConfigValidationFailed" e))
  validated-err validator config e (w, l, err x) is no_ = absurd (cc)
  validated-err validator config e (w, l, ok c) is no_ =
      let same : validator c ≡ some e = let x : c ≡ config = (cc) in ap validator x ∙ no_ in
      (rw (validated, same) refl, rw (validated, same) refl)

  load-current :
      (w : W) (l : Loader T) (config : T)
      → (load v o w l).2 ≡ ok config
      → (load v o w l).1.current ≡ some config
  unfolding load
  load-current w l config e = loaded-current l (load_config v o w) config e

  -- A first load whose configuration the validator rejects returns an error and leaves the rejected
  -- configuration as the current one.
  load_with_validation-current :
      (w : W) (l : Loader T) (validator : T → Option Error) (config : T) (e : Error)
      → (load v o w (record l { validator = some validator })).2 ≡ ok config
      → validator config ≡ some e
      → ((load_with_validation v o (some validator) w l).1.current ≡ some config)
        × ((load_with_validation v o (some validator) w l).2
            ≡ err (wrap "ErrConfigValidationFailed" e))
  unfolding load_with_validation
  load_with_validation-current w l validator config e is no_ =
      let (same, answer) =
        validated-err validator config e (load v o w (record l { validator = some validator })) is
          no_ in
      (
        ap (λ k. k.current) same
            ∙ load-current w (record l { validator = some validator }) config is,
        answer,
      )

module _ {T : Type 0} (o : LoaderOptions) where
  -- A burst of file events leaves one timer, which fires the debounce after the last of them, on a
  -- loader that is not stopped.
  burst-debouncer :
      (times : List ℕ) (last : ℕ) (l : Loader T)
      → l.stopped ≡ false
      → (burst o (times ++ last ∷ []) l).debouncer
        ≡ some (record { due = last + pos_part o.reload_debounce; active = true })
  unfolding burst debounced_reload
  burst-debouncer [] last l h = rw (debounced_reload, h) refl
  burst-debouncer (time ∷ times) last l h =
      burst-debouncer times last (debounced_reload o time l) (rw (debounced_reload, h) refl)
