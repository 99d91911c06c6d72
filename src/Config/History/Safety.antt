-- ===== src/Config/History/Safety.antt =====
-- What every history of the loader of config/viper.go keeps.
use gobox.Base.{
  ℕ, suc, ◌≤◌, ◌<◌, ◌≡◌, refl, true, Option, none, some, List, [], ◌∷◌, ◌++◌, length, length-append,
  ltb, if◌then◌else◌, arith, subst, ap, ◌+◌, All-append, Bool-cases, inl, inr, Option-cases, ◌==◌,
  ◌∙◌,
}
use gobox.Base.Int.{pos_part}
use gobox.Config.{
  LoaderOptions, ChangeEvent, Channel, Loader, new_viper, put, subscribe, unsubscribe, stop_timer,
  close_subscribers, debounced_reload, notify, member, removed, close, empty_channel,
}
use gobox.Config.Channels.{
  Channels, IsOpen, AreOpen, AreBounded, told, told_closed, each-deliver, each-close, put-AreOpen,
}
use gobox.Config.History.{
  Action, subscribed, timer_stopped, subscribers_closed, timer_fired, unsubscribed, received,
  file_changed, notified, stored, validator_set, act, run, Sound, receive_from, rest_of,
}
use gobox.Config.History.Subscribed.{
  member_known, append-AreDistinct, known_later, removed-AreDistinct, removed_known,
  removed-AreOpen, member-IsOpen,
}

module _ {T : Type 0} where
  put-AreBounded :
      (i : ℕ) (c : Channel T) (channels : Channels T)
      → length c.buffer ≤ 10
      → AreBounded channels
      → AreBounded (put i c channels)
  put-AreBounded i c channels h b j = ground (arith, h, b j)

  told_bounded :
      (event : ChangeEvent T) (c : Channel T)
      → length c.buffer ≤ 10
      → length (told event c).buffer ≤ 10
  told_bounded event c h = elim (Bool-cases (ltb (length c.buffer) 10)) [
    | inl room ↦ rw (room) (ground (arith, room, length-append c.buffer (event ∷ [])))
    | inr full ↦ rw (full) h
  ]

  AreOpen-same :
      (channels after : Channels T) (is : List ℕ)
      → ((j : ℕ) → (after j).closed ≡ (channels j).closed)
      → AreOpen channels is
      → AreOpen after is
  AreOpen-same channels after [] same h = tt
  AreOpen-same channels after (i ∷ is) same (a, h) =
      (same i ∙ a, AreOpen-same channels after is same h)

  -- A notification of a sound loader gives each subscriber the event, unless ten events wait in its
  -- channel, and changes no other channel; no send panics.
  pub notify-told :
      (event : ChangeEvent T) (l : Loader T)
      → Sound l
      → (channels : Channels T) × (notify event l ≡ some (record l { channels = channels }))
        × ((j : ℕ)
            → channels j
              ≡ (if member j l.subscribers then told event (l.channels j) else l.channels j))
  unfolding notify
  notify-told event l h =
      let (after, e, same) = each-deliver event l.subscribers l.channels h.open_ h.distinct in
      (after, rw (notify, e) refl, same)

  -- Stop closes the channel of each subscriber of a sound loader, once, and changes no other.
  close_subscribers-closed :
      (l : Loader T)
      → Sound l
      → (channels : Channels T) × (close_subscribers l
          ≡ some (record l { channels = channels; subscribers = [] }))
        × ((j : ℕ)
            → channels j ≡ (
                if member j l.subscribers
                then record (l.channels j) { closed = true }
                else l.channels j))
  unfolding close_subscribers
  close_subscribers-closed l h =
      let (after, e, same) = each-close l.subscribers l.channels h.open_ h.distinct in
      (after, rw (close_subscribers, e) refl, same)

  -- The outcome of an action: it does not panic, and what holds is kept.
  abbrev Goes : Loader T → Option (Loader T) → Type 0
  Goes l answer =
      (k : Loader T) × (answer ≡ some k) × Sound k × (l.stopped ≡ true → k.stopped ≡ true)

  notified-Goes : (event : ChangeEvent T) (l : Loader T) → Sound l → Goes l (notify event l)
  notified-Goes event l h =
      let (after, e, same) = notify-told event l h in
      (
        record l { channels = after },
        e,
        record {
          open_ =
              AreOpen-same l.channels after l.subscribers
                (λ j. elim (Bool-cases (member j l.subscribers)) [
                  | inl yes_ ↦ rw (same j, yes_) (told_closed event (l.channels j))
                  | inr no_ ↦ rw (same j, no_) refl
                ])
                h.open_;
          distinct = h.distinct;
          known = h.known;
          bounded = λ j. elim (Bool-cases (member j l.subscribers)) [
            | inl yes_ ↦ rw (same j, yes_) (told_bounded event (l.channels j) (h.bounded j))
            | inr no_ ↦ rw (same j, no_) (h.bounded j)
          ];
          idle = h.idle;
        },
        λ x. x,
      )

  closed-Goes : (l : Loader T) → Sound l → Goes l (close_subscribers l)
  closed-Goes l h =
      let (after, e, same) = close_subscribers-closed l h in
      (
        record l { channels = after; subscribers = [] },
        e,
        record {
          open_ = tt;
          distinct = tt;
          known = tt;
          bounded = λ j. elim (Bool-cases (member j l.subscribers)) [
            | inl yes_ ↦ rw (same j, yes_) (h.bounded j)
            | inr no_ ↦ rw (same j, no_) (h.bounded j)
          ];
          idle = h.idle;
        },
        λ x. x,
      )

  pub subscribe-Sound : (l : Loader T) → Sound l → Sound (subscribe l)
  unfolding subscribe
  subscribe-Sound l h =
      let new_ = member_known l.made l.subscribers h.known in
      record {
        open_ =
            All-append (IsOpen (put l.made empty_channel l.channels)) l.subscribers (l.made ∷ [])
              (put-AreOpen l.made empty_channel l.channels l.subscribers refl h.open_)
              (ground arith, tt);
        distinct = append-AreDistinct l.made l.subscribers new_ h.distinct;
        known =
            All-append (λ i. i < suc l.made) l.subscribers (l.made ∷ [])
              (known_later l.made l.subscribers h.known) (omega arith, tt);
        bounded = put-AreBounded l.made empty_channel l.channels (omega arith) h.bounded;
        idle = h.idle;
      }

  unsubscribed-Goes : (i : ℕ) (l : Loader T) → Sound l → Goes l (unsubscribe i l)
  unfolding unsubscribe close
  unsubscribed-Goes i l h = elim (Bool-cases (member i l.subscribers)) [
    | inr no_ ↦ (l, rw (unsubscribe, no_) refl, h, λ x. x)
    | inl yes_ ↦
        let open_ = member-IsOpen i l.channels l.subscribers h.open_ yes_ in
        let c = record (l.channels i) { closed = true } in
        let ends : close (l.channels i) ≡ some c = rw (close, open_) refl in
        (
          record l { channels = put i c l.channels; subscribers = removed i l.subscribers },
          rw (unsubscribe, yes_, ends) refl,
          record {
            open_ = removed-AreOpen i c l.channels l.subscribers h.open_ h.distinct;
            distinct = removed-AreDistinct i l.subscribers h.distinct;
            known = removed_known l.made i l.subscribers h.known;
            bounded = put-AreBounded i c l.channels (h.bounded i) h.bounded;
            idle = h.idle;
          },
          λ x. x,
        )
  ]

  rest_bounded : (events : List (ChangeEvent T)) → length events ≤ 10 → length (rest_of events) ≤ 10
  rest_bounded [] h = h
  rest_bounded (event ∷ events) h = omega (arith, h)

  receive_from-AreOpen :
      (i : ℕ) (channels : Channels T) (is : List ℕ)
      → AreOpen channels is
      → AreOpen (put i (record (channels i) { buffer = rest_of (channels i).buffer }) channels) is
  receive_from-AreOpen i channels [] h = tt
  receive_from-AreOpen i channels (j ∷ js) (a, h) = (
    elim (Bool-cases (j == i)) [
      | inl yes_ ↦
          let same : j ≡ i = ground (arith, yes_) in rw (yes_) (subst (IsOpen channels) same a)
      | inr no_ ↦ rw (no_) a
    ],
    receive_from-AreOpen i channels js h,
  )

  receive_from-Sound : (i : ℕ) (l : Loader T) → Sound l → Sound (receive_from i l)
  receive_from-Sound i l h = record {
    open_ = receive_from-AreOpen i l.channels l.subscribers h.open_;
    distinct = h.distinct;
    known = h.known;
    bounded =
        put-AreBounded i (record (l.channels i) { buffer = rest_of (l.channels i).buffer })
          l.channels (rest_bounded (l.channels i).buffer (h.bounded i)) h.bounded;
    idle = h.idle;
  }

  -- What leaves the channels alone has only the timer to answer for.
  kept-Sound :
      (l k : Loader T)
      → k.channels ≡ l.channels
      → k.subscribers ≡ l.subscribers
      → k.made ≡ l.made
      → (k.stopped ≡ true → k.debouncer ≡ none)
      → Sound l
      → Sound k
  kept-Sound l k a b c idle h = record {
    open_ = rw (a, b) h.open_;
    distinct = rw (b) h.distinct;
    known = rw (b, c) h.known;
    bounded = rw (a) h.bounded;
    idle = idle;
  }

  changed-Goes :
      (o : LoaderOptions) (now : ℕ) (l : Loader T)
      → Sound l
      → Goes l (some (debounced_reload o now l))
  unfolding debounced_reload
  changed-Goes o now l h = elim (Bool-cases l.stopped) [
    | inl yes_ ↦
        let same : debounced_reload o now l ≡ l = rw (debounced_reload, yes_) refl in
        (l, ap some same, h, λ x. x)
    | inr no_ ↦ (
      _,
      ap some (rw (debounced_reload, no_) refl),
      kept-Sound l
          (record l {
            debouncer = some (record { due = now + pos_part o.reload_debounce; active = true });
          })
          refl refl refl (λ x. absurd (cc)) h,
      λ x. x,
    )
  ]

  act-Goes : (o : LoaderOptions) (a : Action T) (l : Loader T) → Sound l → Goes l (act o a l)
  unfolding act stop_timer subscribe
  act-Goes o subscribed l h = (_, refl, subscribe-Sound l h, λ x. x)
  act-Goes o timer_stopped l h = (_, refl, kept-Sound l _ refl refl refl (λ x. refl) h, λ x. refl)
  act-Goes o subscribers_closed l h = closed-Goes l h
  act-Goes o timer_fired l h =
      (_, refl, kept-Sound l _ refl refl refl (λ x. rw (h.idle x) refl) h, λ x. x)
  act-Goes o (unsubscribed i) l h = unsubscribed-Goes i l h
  act-Goes o (received i) l h = (_, refl, receive_from-Sound i l h, λ x. x)
  act-Goes o (file_changed now) l h = changed-Goes o now l h
  act-Goes o (notified event) l h = notified-Goes event l h
  act-Goes o (stored config) l h = (_, refl, kept-Sound l _ refl refl refl h.idle h, λ x. x)
  act-Goes o (validator_set validator) l h =
      (_, refl, kept-Sound l _ refl refl refl h.idle h, λ x. x)

  run-Goes :
      (o : LoaderOptions) (actions : List (Action T)) (l : Loader T)
      → Sound l
      → Goes l (run o actions l)
  unfolding run
  run-Goes o [] l h = (l, refl, h, λ x. x)
  run-Goes o (a ∷ actions) l h =
      let (k, e, sound, stays) = act-Goes o a l h in
      let (m, f, last, still) = run-Goes o actions k sound in
      (m, rw (run, e) f, last, λ x. still (stays x))

  run-append :
      (o : LoaderOptions) (actions more : List (Action T)) (l k : Loader T)
      → run o actions l ≡ some k
      → run o (actions ++ more) l ≡ run o more k
  unfolding run
  run-append o [] more l k e = let same : l ≡ k = (cc) in ap (run o more) same
  run-append o (a ∷ actions) more l k e = elim (Option-cases (act o a l)) [
    | inl none_ ↦ let x = rw (run, none_) at e in absurd (cc)
    | inr (m, some_) ↦
        let x = rw (run, some_) at e in rw (run, some_) (run-append o actions more m k x)
  ]

  pub new_viper-Sound : Sound {T = T} new_viper
  unfolding new_viper
  new_viper-Sound = record {
    open_ = tt;
    distinct = tt;
    known = tt;
    bounded = λ i. omega arith;
    idle = λ x. refl;
  }

  -- Whatever the users, the watcher, the timer and the reloads do with a new loader, in any order: no
  -- send or close meets a closed channel, no channel holds more than ten events, each subscriber's is
  -- open, and a stopped loader has no timer.
  pub run-Sound :
      (o : LoaderOptions) (actions : List (Action T))
      → (l : Loader T) × (run o actions new_viper ≡ some l) × Sound l
  run-Sound o actions =
      let (l, e, h, stays) = run-Goes o actions new_viper new_viper-Sound in (l, e, h)

  -- Once Stop has been called there is no timer that could start a reload, whatever file events and
  -- calls come after it.
  run_stopped :
      (o : LoaderOptions) (before after : List (Action T))
      → (l : Loader T) × (run o (before ++ (timer_stopped ∷ after)) new_viper ≡ some l)
        × (l.stopped ≡ true)
        × (l.debouncer ≡ none)
  unfolding act stop_timer run
  run_stopped o before after =
      let (k, e, h, stays) = run-Goes o before new_viper new_viper-Sound in
      let (l, i, sound, still) =
        run-Goes o after (stop_timer k) (kept-Sound k _ refl refl refl (λ x. refl) h) in
      (
        l,
        run-append o before (timer_stopped ∷ after) new_viper k e ∙ i,
        still refl,
        sound.idle (still refl),
      )
