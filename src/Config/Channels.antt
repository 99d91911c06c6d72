-- ===== src/Config/Channels.antt =====
-- What the loops over the subscribers in config/viper.go do to the channels.
use gobox.Base.{
  ℕ, ◌≤◌, ◌≡◌, refl, true, false, some, List, [], ◌∷◌, ◌++◌, length, ltb, ◌==◌, if◌then◌else◌,
  arith, All, Bool-cases, inl, inr, ◌∙◌, subst,
}
use gobox.Config.{ChangeEvent, Channel, put, deliver, close, each, member}

abbrev pub AreDistinct : List ℕ → Type 0
AreDistinct [] = Unit
AreDistinct (i ∷ is) = (member i is ≡ false) × AreDistinct is

abbrev pub Channels : Type 0 → Type 0
Channels T = ℕ → Channel T

module _ {T : Type 0} where
  abbrev pub IsOpen : Channels T → ℕ → Type 0
  IsOpen channels i = (channels i).closed ≡ false

  abbrev pub AreOpen : Channels T → List ℕ → Type 0
  AreOpen channels is = All (IsOpen channels) is

  abbrev pub AreBounded : Channels T → Type 0
  AreBounded channels = (i : ℕ) → length (channels i).buffer ≤ 10

  -- The channel after a send that drops the event if the buffer is full.
  abbrev pub told : ChangeEvent T → Channel T → Channel T
  told event c =
      if ltb (length c.buffer) 10 then record c { buffer = c.buffer ++ event ∷ [] } else c

  pub told_closed : (event : ChangeEvent T) (c : Channel T) → (told event c).closed ≡ c.closed
  told_closed event c = elim (Bool-cases (ltb (length c.buffer) 10)) [
    | inl room ↦ rw (room) refl
    | inr full ↦ rw (full) refl
  ]

  deliver-eq :
      (event : ChangeEvent T) (c : Channel T)
      → c.closed ≡ false
      → deliver event c ≡ some (told event c)
  unfolding deliver
  deliver-eq event c h = elim (Bool-cases (ltb (length c.buffer) 10)) [
    | inl room ↦ rw (deliver, h, room) refl
    | inr full ↦ rw (deliver, h, full) refl
  ]

  pub put-AreOpen :
      (i : ℕ) (c : Channel T) (channels : Channels T) (is : List ℕ)
      → c.closed ≡ false
      → AreOpen channels is
      → AreOpen (put i c channels) is
  put-AreOpen i c channels [] h a = tt
  put-AreOpen i c channels (j ∷ js) h (a, more) =
      (ground (arith, h, a), put-AreOpen i c channels js h more)

  -- A channel that is not touched stays as it is.
  pub put-AreOpen_other :
      (i : ℕ) (c : Channel T) (channels : Channels T) (is : List ℕ)
      → member i is ≡ false
      → AreOpen channels is
      → AreOpen (put i c channels) is
  put-AreOpen_other i c channels [] h a = tt
  put-AreOpen_other i c channels (j ∷ js) h (a, more) =
      (ground (arith, h, a), put-AreOpen_other i c channels js (ground (arith, h)) more)

  -- A change of each listed channel, the first one before the others.
  member-put :
      (f : Channel T → Channel T) (i j : ℕ) (is : List ℕ) (channels : Channels T)
      → member i is ≡ false
      → (if member j is
          then f (put i (f (channels i)) channels j)
          else put i (f (channels i)) channels j)
        ≡ (if member j (i ∷ is) then f (channels j) else channels j)
  member-put f i j is channels d = elim (Bool-cases (i == j)) [
    | inl yes_ ↦
        let same : i ≡ j = ground (arith, yes_) in
        let no_ : member j is ≡ false = subst (λ k. member k is ≡ false) same d in
        let one : j == i ≡ true = ground (arith, same) in rw (no_, yes_, one, same) refl
    | inr other ↦ let one : j == i ≡ false = ground (arith, other) in rw (other, one) refl
  ]

  pub each-deliver :
      (event : ChangeEvent T) (is : List ℕ) (channels : Channels T)
      → AreOpen channels is
      → AreDistinct is
      → (after : Channels T) × (each (deliver event) is channels ≡ some after)
        × ((j : ℕ) → after j ≡ (if member j is then told event (channels j) else channels j))
  unfolding each
  each-deliver event [] channels a d = (channels, refl, λ j. refl)
  each-deliver event (i ∷ is) channels (a, more) (d, ds) =
      let c = told event (channels i) in
      let (after, e, same) =
        each-deliver event is (put i c channels)
          (put-AreOpen i c channels is (told_closed event (channels i) ∙ a) more) ds in
      (
        after,
        rw (each, deliver-eq event (channels i) a) e,
        λ j. same j ∙ member-put (told event) i j is channels d,
      )

  pub each-close :
      (is : List ℕ) (channels : Channels T)
      → AreOpen channels is
      → AreDistinct is
      → (after : Channels T) × (each close is channels ≡ some after)
        × ((j : ℕ)
            → after j ≡ (if member j is then record (channels j) { closed = true } else channels j))
  unfolding each close
  each-close [] channels a d = (channels, refl, λ j. refl)
  each-close (i ∷ is) channels (a, more) (d, ds) =
      let c = record (channels i) { closed = true } in
      let (after, e, same) =
        each-close is (put i c channels) (put-AreOpen_other i c channels is d more) ds in
      let first : close (channels i) ≡ some c = rw (close, a) refl in
      (
        after,
        rw (each, first) e,
        λ j. same j ∙ member-put (λ x. record x { closed = true }) i j is channels d,
      )
