-- ===== src/Progress/Gate.antt =====
-- Acquire as a gate and Release as a step that never waits, in cli/progress.go.
use gobox.Base.{
  ℕ, zero, suc, ◌≤◌, ◌<◌, ◌≡◌, refl, true, some, List, [], ◌∷◌, ◌++◌, arith, ltb, length, ◌⊎◌, inl,
  inr,
}
use gobox.Base.Int.{ℤ}
use gobox.Progress.{
  Slot, Progress, begun, made_idle, at_least_one, change, receive, initialise, mark_idle, send,
  update_slot, done_slot, fail_slot, with_slots, done, failed,
}
use gobox.Base.Text.{Text}
use gobox.Progress.Workers.{Pc, outside, received, holding, leaving, System, Reach}
use gobox.Progress.Exclusive.{
  List-cases, Inv, Reach-Inv, slot_of, has_slot, some_slot, busy, holders-append, busy-append,
}

-- At most as many workers as there are lines hold one; while fewer do, Acquire does not block.
receive_gate :
    (n : ℤ) (s : System)
    → Reach n s
    → (busy s.workers ≤ at_least_one n)
      × ((busy s.workers ≡ at_least_one n)
          ⊎ ((q : Progress) × (i : ℕ) × (receive s.progress ≡ some (q, i))))
unfolding receive
receive_gate n s r =
    let inv = Reach-Inv n s r in
    elim (List-cases s.progress.free) [
      | inl empty ↦
          (omega (arith, inv.kept), inl (let k = rw (empty) at inv.kept in omega (arith, k)))
      | inr (i, rest, is) ↦ (
        omega (arith, inv.kept),
        inr (record s.progress { free = rest }, i, rw (is, receive) refl),
      )
    ]

change_in_range :
    (f : Slot → Slot) (i : ℕ) (slots : List Slot)
    → i < length slots
    → (rest : List Slot) × (change f i slots ≡ some rest)
unfolding change
change_in_range f i [] h = absurd (omega (arith, h))
change_in_range f zero (s ∷ slots) h = (f s ∷ slots, refl)
change_in_range f (suc i) (s ∷ slots) h =
    let (rest, e) = change_in_range f i slots (omega (arith, h)) in (s ∷ rest, rw (e, change) refl)

-- Between Acquire and Release: Release begins, and Update, Done and Fail show any message.
pub record Held (p : Progress) (i : ℕ) : Type 0 where
  pub releases : (q : Progress) × (mark_idle p i ≡ some q)
  pub updates : (msg : Text) → (q : Progress) × (update_slot p i msg ≡ some q)
  pub succeeds : (msg : Text) → (q : Progress) × (done_slot p i msg ≡ some q)
  pub fails : (msg : Text) → (q : Progress) × (fail_slot p i msg ≡ some q)

-- Every operation that a worker has where it stands goes through: after the receive, the rest of
-- Acquire with any description; in the middle of Release, the send.
abbrev pub CanGo : Progress → Pc → Type 0
CanGo p outside = Unit
CanGo p (received i) = (desc : Text) → (q : Progress) × (initialise p i desc ≡ some q)
CanGo p (holding i) = Held p i
CanGo p (leaving i) = (q : Progress) × (send p i ≡ some q) × (q.free ≡ p.free ++ i ∷ [])

-- The index of a holder is in range, and a slot fewer than there are is free.
held_in_range :
    (n : ℕ) (s : System) (before after : List Pc) (pc : Pc) (i : ℕ)
    → Inv n s
    → s.workers ≡ before ++ (pc ∷ after)
    → slot_of pc ≡ some i
    → (i < length s.progress.slots) × (length s.progress.free < length s.progress.slots)
held_in_range n s before after pc i inv is has =
    let one : has_slot i (slot_of pc) ≡ 1 = rw (has) (ground arith) in
    let some_one : some_slot (slot_of pc) ≡ 1 = rw (has) refl in
    let once = rw (is) at (inv.once i) in
    let kept = rw (is) at inv.kept in
    (
      ground (arith, once, holders-append i before (pc ∷ after), inv.lines),
      omega (arith, kept, busy-append before (pc ∷ after), inv.lines),
    )

change_with :
    (p : Progress) (f : Slot → Slot) (i : ℕ)
    → i < length p.slots
    → (q : Progress) × (with_slots p (change f i p.slots) ≡ some q)
change_with p f i h =
    let (slots, e) = change_in_range f i p.slots h in (record p { slots = slots }, rw (e) refl)

Held-of_range : (p : Progress) (i : ℕ) → i < length p.slots → Held p i
unfolding mark_idle update_slot done_slot fail_slot
Held-of_range p i h = record {
  releases = change_with p made_idle i h;
  updates = λ msg. change_with p (λ s. record s { msg = msg }) i h;
  succeeds = λ msg. change_with p (λ s. record s { msg = msg; status = done }) i h;
  fails = λ msg. change_with p (λ s. record s { msg = msg; status = failed }) i h;
}

-- Whatever the workers have done: one that has taken a line never faults and never waits. The rest
-- of Acquire, Update, Done, Fail and the first part of Release find its index in range, whatever the
-- text, and the send of Release finds room in the channel and puts the index at its end.
pub CanGo-of_holder :
    (n : ℤ) (s : System) (before after : List Pc) (pc : Pc) (i : ℕ)
    → Reach n s
    → s.workers ≡ before ++ (pc ∷ after)
    → slot_of pc ≡ some i
    → CanGo s.progress pc
unfolding initialise send
CanGo-of_holder n s before after outside i r is has = absurd (cc)
CanGo-of_holder n s before after (received j) i r is has =
    let (low, room) =
      held_in_range (at_least_one n) s before after (received j) j (Reach-Inv n s r) is refl in
    λ desc. change_with s.progress (begun desc) j low
CanGo-of_holder n s before after (holding j) i r is has =
    let (low, room) =
      held_in_range (at_least_one n) s before after (holding j) j (Reach-Inv n s r) is refl in
    Held-of_range s.progress j low
CanGo-of_holder n s before after (leaving j) i r is has =
    let (low, room) =
      held_in_range (at_least_one n) s before after (leaving j) j (Reach-Inv n s r) is refl in
    let test : ltb (length s.progress.free) (length s.progress.slots) ≡ true =
      ground (arith, room) in
    (record s.progress { free = s.progress.free ++ j ∷ [] }, rw (test) refl, refl)
