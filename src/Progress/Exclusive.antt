-- ===== src/Progress/Exclusive.antt =====
-- Who holds which line of cli/progress.go, whatever the order of the workers.
use gobox.Base.{
  ℕ, zero, suc, ◌+◌, ◌≡◌, ◌≢◌, refl, Option, none, some, List, [], ◌∷◌, ◌++◌, arith, ltb, ◌==◌,
  if◌then◌else◌, length, length-append, Option-cases, Bool-cases, ◌⊎◌, ◌∙◌, inl, inr,
}
use gobox.Base.Int.{ℤ}
use gobox.Progress.{
  Slot, Progress, new_progress, at_least_one, replicate, count_up, change, with_slots, receive,
  initialise, update_slot, done_slot, fail_slot, mark_idle, send,
}
use gobox.Progress.Workers.{
  Pc, outside, received, holding, leaving, Move, take, begin, update, succeed, fail, release,
  give_back, System, Step, step, AllOutside, Reach, start, later,
}

abbrev pub count : ℕ → List ℕ → ℕ
count i [] = 0
count i (j ∷ js) = (if j == i then 1 else 0) + count i js

-- The index that a worker has taken from the channel.
abbrev pub slot_of : Pc → Option ℕ
slot_of outside = none
slot_of (received i) = some i
slot_of (holding i) = some i
slot_of (leaving i) = some i

abbrev pub has_slot : ℕ → Option ℕ → ℕ
has_slot i none = 0
has_slot i (some j) = if j == i then 1 else 0

abbrev pub some_slot : Option ℕ → ℕ
some_slot none = 0
some_slot (some j) = 1

abbrev pub holders : ℕ → List Pc → ℕ
holders i [] = 0
holders i (pc ∷ workers) = has_slot i (slot_of pc) + holders i workers

-- The number of workers that hold a line.
abbrev pub busy : List Pc → ℕ
busy [] = 0
busy (pc ∷ workers) = some_slot (slot_of pc) + busy workers

count-append : (i : ℕ) (xs ys : List ℕ) → count i (xs ++ ys) ≡ count i xs + count i ys
count-append i [] ys = omega arith
count-append i (x ∷ xs) ys = omega (arith, count-append i xs ys)

pub holders-append : (i : ℕ) (xs ys : List Pc) → holders i (xs ++ ys) ≡ holders i xs + holders i ys
holders-append i [] ys = omega arith
holders-append i (x ∷ xs) ys = omega (arith, holders-append i xs ys)

pub busy-append : (xs ys : List Pc) → busy (xs ++ ys) ≡ busy xs + busy ys
busy-append [] ys = omega arith
busy-append (x ∷ xs) ys = omega (arith, busy-append xs ys)

-- Each line is free or has one holder, and no other index is about.
pub record Inv (n : ℕ) (s : System) : Type 0 where
  pub lines : length s.progress.slots ≡ n
  pub kept : length s.progress.free + busy s.workers ≡ n
  pub once : (i : ℕ) → count i s.progress.free + holders i s.workers ≡ (if ltb i n then 1 else 0)

-- What a move leaves as it is.
record Keeps (p : Progress) (pc : Pc) (q : Progress) (qc : Pc) : Type 0 where
  lines : length q.slots ≡ length p.slots
  kept : length q.free + some_slot (slot_of qc) ≡ length p.free + some_slot (slot_of pc)
  once :
      (i : ℕ) → count i q.free + has_slot i (slot_of qc) ≡ count i p.free + has_slot i (slot_of pc)

length-change :
    (f : Slot → Slot) (i : ℕ) (slots rest : List Slot)
    → change f i slots ≡ some rest
    → length rest ≡ length slots
unfolding change
length-change f i [] rest e = absurd (cc)
length-change f zero (s ∷ slots) rest e = ground (arith, e)
length-change f (suc i) (s ∷ slots) rest e = elim (Option-cases (change f i slots)) [
  | inl none_ ↦ let x = rw (none_, change) at e in absurd (cc)
  | inr (more, some_) ↦
      let x = rw (some_, change) at e in
      let same : s ∷ more ≡ rest = (cc) in
      rw (← same) (omega (arith, length-change f i slots more some_))
]

-- A change of one slot by a worker that keeps its index.
change-Keeps :
    (p q : Progress) (pc qc : Pc) (f : Slot → Slot) (i : ℕ)
    → with_slots p (change f i p.slots) ≡ some q
    → slot_of pc ≡ slot_of qc
    → Keeps p pc q qc
change-Keeps p q pc qc f i e same = elim (Option-cases (change f i p.slots)) [
  | inl none_ ↦ let x = rw (none_) at e in absurd (cc)
  | inr (rest, some_) ↦
      let x = rw (some_) at e in
      let is : record p { slots = rest } ≡ q = (cc) in
      rw (← is) (record {
        lines = length-change f i p.slots rest some_;
        kept = rw (same) refl;
        once = λ j. rw (same) refl;
      })
]

pub List-cases : (xs : List ℕ) → (xs ≡ []) ⊎ ((x : ℕ) × (rest : List ℕ) × (xs ≡ x ∷ rest))
List-cases [] = inl refl
List-cases (x ∷ rest) = inr (x, rest, refl)

receive-Keeps : (p q : Progress) (i : ℕ) → receive p ≡ some (q, i) → Keeps p outside q (received i)
unfolding receive
receive-Keeps p q i e = elim (List-cases p.free) [
  | inl empty ↦ let x = rw (empty, receive) at e in absurd (cc)
  | inr (j, rest, is) ↦
      let x = rw (is, receive) at e in
      let this : record p { free = rest } ≡ q = (cc) in
      let that : j ≡ i = (cc) in
      rw (← this) (record {
        lines = refl;
        kept = rw (is) (omega arith);
        once = λ k. rw (is, that) (omega arith);
      })
]

send-Keeps : (p q : Progress) (i : ℕ) → send p i ≡ some q → Keeps p (leaving i) q outside
unfolding send
send-Keeps p q i e = elim (Bool-cases (ltb (length p.free) (length p.slots))) [
  | inr full ↦ let x = rw (full, send) at e in absurd (cc)
  | inl room ↦
      let x = rw (room, send) at e in
      let this : record p { free = p.free ++ i ∷ [] } ≡ q = (cc) in
      rw (← this) (record {
        lines = refl;
        kept = omega (arith, length-append {0} p.free (i ∷ []));
        once = λ k. omega (arith, count-append k p.free (i ∷ []));
      })
]

Move-Keeps : (p q : Progress) (pc qc : Pc) → Move p pc q qc → Keeps p pc q qc
unfolding initialise update_slot done_slot fail_slot mark_idle
Move-Keeps p q pc qc (take i a e b) = rw (a, b) (receive-Keeps p q i e)
Move-Keeps p q pc qc (begin i desc a e b) = change-Keeps p q pc qc _ i e (rw (a, b) refl)
Move-Keeps p q pc qc (update i msg a e b) = change-Keeps p q pc qc _ i e (rw (a, b) refl)
Move-Keeps p q pc qc (succeed i msg a e b) = change-Keeps p q pc qc _ i e (rw (a, b) refl)
Move-Keeps p q pc qc (fail i msg a e b) = change-Keeps p q pc qc _ i e (rw (a, b) refl)
Move-Keeps p q pc qc (release i a e b) = change-Keeps p q pc qc _ i e (rw (a, b) refl)
Move-Keeps p q pc qc (give_back i a e b) = rw (a, b) (send-Keeps p q i e)

Step-Inv : (n : ℕ) (s t : System) → Step s t → Inv n s → Inv n t
Step-Inv n s t (step before after pc qc a b move) inv =
    let k = Move-Keeps s.progress t.progress pc qc move in
    record {
      lines = k.lines ∙ inv.lines;
      kept = rw (b) (
          omega (
            arith,
            busy-append before (pc ∷ after),
            busy-append before (qc ∷ after),
            k.kept,
            rw (a) at inv.kept,
          ));
      once = λ i. rw (b) (
          omega (
            arith,
            holders-append i before (pc ∷ after),
            holders-append i before (qc ∷ after),
            k.once i,
            rw (a) at (inv.once i),
          ));
    }

length-replicate : (n : ℕ) (x : Slot) → length (replicate n x) ≡ n
length-replicate zero x = refl
length-replicate (suc n) x = omega (arith, length-replicate n x)

length-count_up : (first n : ℕ) → length (count_up first n) ≡ n
length-count_up first zero = refl
length-count_up first (suc n) = omega (arith, length-count_up (suc first) n)

count-count_up :
    (i first n : ℕ)
    → count i (count_up first n) ≡ (if ltb i first then 0 else if ltb i (first + n) then 1 else 0)
count-count_up i first zero = ground arith
count-count_up i first (suc n) = ground (arith, count-count_up i (suc first) n)

busy-outside : (workers : List Pc) → AllOutside workers → busy workers ≡ 0
busy-outside [] h = refl
busy-outside (pc ∷ workers) (a, h) = rw (a) (omega (arith, busy-outside workers h))

holders-outside : (i : ℕ) (workers : List Pc) → AllOutside workers → holders i workers ≡ 0
holders-outside i [] h = refl
holders-outside i (pc ∷ workers) (a, h) = rw (a) (omega (arith, holders-outside i workers h))

pub Reach-Inv : (n : ℤ) (s : System) → Reach n s → Inv (at_least_one n) s
unfolding new_progress
Reach-Inv n s (start e h) = record {
  lines = rw (e) (length-replicate (at_least_one n) _);
  kept = rw (e) (omega (arith, length-count_up 0 (at_least_one n), busy-outside s.workers h));
  once = λ i.
      rw (e) (ground (arith, count-count_up i 0 (at_least_one n), holders-outside i s.workers h));
}
Reach-Inv n s (later {s = t} r st) = Step-Inv (at_least_one n) t s st (Reach-Inv n t r)

-- In every state that workers can reach, two of them never hold the same line.
pub slot_of_exclusive :
    (n : ℤ) (s : System) (a b c : List Pc) (pc qc : Pc) (i : ℕ)
    → Reach n s
    → s.workers ≡ a ++ (pc ∷ (b ++ (qc ∷ c)))
    → slot_of pc ≡ some i
    → slot_of qc ≢ some i
slot_of_exclusive n s a b c pc qc i r is one other =
    let inv = Reach-Inv n s r in
    let once = rw (is) at (inv.once i) in
    let p : has_slot i (slot_of pc) ≡ 1 = rw (one) (ground arith) in
    let q : has_slot i (slot_of qc) ≡ 1 = rw (other) (ground arith) in
    absurd
      (ground (arith, once, holders-append i a (pc ∷ (b ++ (qc ∷ c))), holders-append i b (qc ∷ c)))
