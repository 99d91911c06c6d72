-- ===== src/Progress/Examples.antt =====
-- Runs of cli/progress.go: two workers on two lines.
use gobox.Base.{ℕ, ◌≢◌, refl, true, false, some, [], ◌∷◌}
use gobox.Base.Int.{pos}
use gobox.Base.Text.{Text, codes}
use gobox.Progress.{Progress, new_progress, receive, initialise, idle, running}
use gobox.Progress.Workers.{
  outside, received, holding, take, begin, System, step, Reach, start, later,
}
use gobox.Progress.Exclusive.{slot_of, slot_of_exclusive}
use gobox.Progress.Gate.{Held, CanGo-of_holder}

abbrev two_lines : Progress
unfolding new_progress
two_lines = new_progress (pos 2)

abbrev one_taken : System
one_taken = record {
  progress = record two_lines { free = 1 ∷ [] };
  workers = received 0 ∷ outside ∷ [];
}

abbrev both_taken : System
both_taken = record {
  progress = record two_lines { free = [] };
  workers = received 0 ∷ received 1 ∷ [];
}

one_taken_reached : Reach (pos 2) one_taken
unfolding new_progress receive
one_taken_reached =
    later
      (start {s = record { progress = two_lines; workers = outside ∷ outside ∷ [] }} refl
        (refl, (refl, tt)))
      (step [] (outside ∷ []) outside (received 0) refl refl (take 0 refl refl refl))

both_taken_reached : Reach (pos 2) both_taken
unfolding new_progress receive
both_taken_reached =
    later one_taken_reached
      (step (received 0 ∷ []) [] outside (received 1) refl refl (take 1 refl refl refl))

slot_of_exclusive_example : slot_of (received 1) ≢ some 0
slot_of_exclusive_example =
    slot_of_exclusive (pos 2) both_taken [] [] [] (received 0) (received 1) 0 both_taken_reached
      refl refl

abbrev one_begun : System
one_begun = record {
  progress = record {
    slots =
        record { spinner = 0; desc = []; msg = []; status = idle }
        ∷ record { spinner = 0; desc = codes "b"; msg = codes "Starting..."; status = running }
        ∷ [];
    free = [];
    started = false;
  };
  workers = received 0 ∷ holding 1 ∷ [];
}

one_begun_reached : Reach (pos 2) one_begun
unfolding new_progress initialise
one_begun_reached = later both_taken_reached (
    step (received 0 ∷ []) [] (received 1) (holding 1) refl refl
      (begin 1 (codes "b") refl refl refl))

CanGo-of_holder_example : Held one_begun.progress 1
CanGo-of_holder_example =
    CanGo-of_holder (pos 2) one_begun (received 0 ∷ []) [] (holding 1) 1 one_begun_reached refl refl

abbrev shown : Progress
shown = record {
  slots =
      record { spinner = 0; desc = codes "a"; msg = codes "b"; status = running }
      ∷ record { spinner = 0; desc = []; msg = []; status = idle }
      ∷ [];
  free = 1 ∷ [];
  started = true;
}

abbrev digit : ℕ → Text
digit n = codes "2"

abbrev dash : ℕ → Text
dash k = codes "-"
