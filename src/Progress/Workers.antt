-- ===== src/Progress/Workers.antt =====
-- Workers that share a `Progress` of cli/progress.go and run in any order.
use gobox.Base.{ℕ, ◌≡◌, some, List, [], ◌∷◌, ◌++◌}
use gobox.Base.Int.{ℤ}
use gobox.Base.Text.{Text}
use gobox.Progress.{
  Progress, new_progress, receive, initialise, update_slot, done_slot, fail_slot, mark_idle, send,
}

-- Where a worker stands: outside, after the receive of `Acquire`, between `Acquire` and `Release`,
-- or before the send of `Release`.
pub data Pc : Type 0 where
  outside : Pc
  received holding leaving : ℕ → Pc

-- A worker calls Update, Done, Fail and Release with the index that Acquire gave it.
pub data Move (p : Progress) (pc : Pc) (q : Progress) (qc : Pc) : Type 0 where
  take : (i : ℕ) → pc ≡ outside → receive p ≡ some (q, i) → qc ≡ received i → Move p pc q qc
  begin :
      (i : ℕ) (desc : Text)
      → pc ≡ received i
      → initialise p i desc ≡ some q
      → qc ≡ holding i
      → Move p pc q qc
  update :
      (i : ℕ) (msg : Text)
      → pc ≡ holding i
      → update_slot p i msg ≡ some q
      → qc ≡ holding i
      → Move p pc q qc
  succeed :
      (i : ℕ) (msg : Text)
      → pc ≡ holding i
      → done_slot p i msg ≡ some q
      → qc ≡ holding i
      → Move p pc q qc
  fail :
      (i : ℕ) (msg : Text)
      → pc ≡ holding i
      → fail_slot p i msg ≡ some q
      → qc ≡ holding i
      → Move p pc q qc
  release : (i : ℕ) → pc ≡ holding i → mark_idle p i ≡ some q → qc ≡ leaving i → Move p pc q qc
  give_back : (i : ℕ) → pc ≡ leaving i → send p i ≡ some q → qc ≡ outside → Move p pc q qc

pub record System : Type 0 where
  pub progress : Progress
  pub workers : List Pc

-- One worker, between others that stand still, makes a move.
pub data Step (s t : System) : Type 0 where
  step :
      (before after : List Pc) (pc qc : Pc)
      → s.workers ≡ before ++ (pc ∷ after)
      → t.workers ≡ before ++ (qc ∷ after)
      → Move s.progress pc t.progress qc
      → Step s t

abbrev pub AllOutside : List Pc → Type 0
AllOutside [] = Unit
AllOutside (pc ∷ workers) = (pc ≡ outside) × AllOutside workers

pub data Reach (n : ℤ) : System → Type 0 where
  start : {s : System} → s.progress ≡ new_progress n → AllOutside s.workers → Reach n s
  later : {s t : System} → Reach n s → Step s t → Reach n t
