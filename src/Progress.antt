-- ===== src/Progress.antt =====
-- cli/progress.go: the pool of terminal lines. The channel `freeCh` is the queue of free indices;
-- an operation of a worker is one critical section, or one send or receive.
pub mod Workers
pub mod Exclusive
pub mod Gate
pub mod Lines
pub mod Lifecycle
pub mod Examples
use gobox.Base.{
  ℕ, zero, suc, ◌+◌, Bool, true, false, Option, none, some, List, [], ◌∷◌, ◌++◌, ltb, if◌then◌else◌,
  length,
}
use gobox.Base.Int.{ℤ, pos_part, is_pos}
use gobox.Base.Text.{Text, codes}

-- `lineStatus`
pub data Status : Type 0 where
  idle running done failed : Status

-- `slot`, with the frame that its spinner shows next.
pub record Slot : Type 0 where
  pub spinner : ℕ
  pub desc : Text
  pub msg : Text
  pub status : Status

-- The part of `Progress` that the mutex and `freeCh` guard.
pub record Progress : Type 0 where
  pub slots : List Slot
  pub free : List ℕ
  pub started : Bool

abbrev new_slot : Slot
new_slot = record { spinner = 0; desc = []; msg = []; status = idle }

abbrev pub replicate {ℓ} : {A : Type ℓ} → ℕ → A → List A
replicate zero x = []
replicate (suc n) x = x ∷ replicate n x

-- first, first + 1, … : n numbers.
abbrev pub count_up : ℕ → ℕ → List ℕ
count_up first zero = []
count_up first (suc n) = first ∷ count_up (suc first) n

-- `numSlots`, which is at least 1.
abbrev pub at_least_one : ℤ → ℕ
at_least_one n = if is_pos n then pos_part n else 1

unfoldable pub new_progress : ℤ → Progress
new_progress n = record {
  slots = replicate (at_least_one n) new_slot;
  free = count_up 0 (at_least_one n);
  started = false;
}

-- p.slots[i] changed; an index out of range is a fault.
unfoldable pub change : (Slot → Slot) → ℕ → List Slot → Option (List Slot)
change f i [] = none
change f zero (s ∷ slots) = some (f s ∷ slots)
change f (suc i) (s ∷ slots) = elim (change f i slots) [ none ↦ none | some rest ↦ some (s ∷ rest) ]

abbrev with_slots : Progress → Option (List Slot) → Option Progress
with_slots p none = none
with_slots p (some slots) = some (record p { slots = slots })

-- The slot of a worker that starts, and that of one that has left.
abbrev pub begun : Text → Slot → Slot
begun desc s = record s { desc = desc; msg = codes "Starting..."; status = running }

abbrev pub made_idle : Slot → Slot
made_idle s = record s { status = idle }

-- `Acquire`: the receive, and the critical section that follows it.
unfoldable pub receive : Progress → Option (Progress × ℕ)
receive p = elim p.free [ [] ↦ none | i ∷ rest ↦ some (record p { free = rest }, i) ]

unfoldable pub initialise : Progress → ℕ → Text → Option Progress
unfolding change
initialise p i desc = with_slots p (change (begun desc) i p.slots)

-- `Update`, `Done` and `Fail`
unfoldable pub update_slot : Progress → ℕ → Text → Option Progress
unfolding change
update_slot p i msg = with_slots p (change (λ s. record s { msg = msg }) i p.slots)

unfoldable pub done_slot : Progress → ℕ → Text → Option Progress
unfolding change
done_slot p i msg = with_slots p (change (λ s. record s { msg = msg; status = done }) i p.slots)

unfoldable pub fail_slot : Progress → ℕ → Text → Option Progress
unfolding change
fail_slot p i msg = with_slots p (change (λ s. record s { msg = msg; status = failed }) i p.slots)

-- `Release`: the critical section, and the send, which blocks (`none`) on a full channel; its
-- capacity is the number of slots.
unfoldable pub mark_idle : Progress → ℕ → Option Progress
unfolding change
mark_idle p i = with_slots p (change made_idle i p.slots)

unfoldable pub send : Progress → ℕ → Option Progress
send p i =
    if ltb (length p.free) (length p.slots)
    then some (record p { free = p.free ++ i ∷ [] })
    else none
