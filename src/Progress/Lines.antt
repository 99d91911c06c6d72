-- ===== src/Progress/Lines.antt =====
-- `render` of cli/progress.go: what it writes to the terminal.
use gobox.Base.{
  ℕ, suc, ◌+◌, ◌≡◌, refl, true, List, [], ◌∷◌, ◌++◌, arith, ◌==◌, if◌then◌else◌, length, All,
  Bool-cases, inl, inr,
}
use gobox.Base.Text.{Text, codes}
use gobox.Progress.{Status, idle, running, done, failed, Slot, Progress}

abbrev newline : Text
newline = 10 ∷ []

-- "\033[%dA" and "\r\033[K"
abbrev pub cursor_up : (ℕ → Text) → ℕ → Text
cursor_up decimal n = 27 ∷ (codes "[" ++ (decimal n ++ codes "A"))

abbrev clear_line : Text
clear_line = 13 ∷ 27 ∷ codes "[K"

-- [mark] desc - msg
abbrev line_of : Text → Slot → Text
line_of mark s =
    clear_line
    ++ (codes "[" ++ (mark ++ (codes "] " ++ (s.desc ++ (codes " - " ++ (s.msg ++ newline))))))

-- The line of a slot, by the frames of its spinner, which turns while the worker runs.
abbrev drawn : (ℕ → Text) → Status → Slot → Text × Slot
drawn frame idle s = (clear_line ++ (codes "    -" ++ newline), s)
drawn frame done s = (line_of (codes "✓") s, s)
drawn frame failed s = (line_of (codes "✗") s, s)
drawn frame running s = (line_of (frame s.spinner) s, record s { spinner = suc s.spinner })

unfoldable pub render_slot : (ℕ → Text) → Slot → Text × Slot
render_slot frame s = drawn frame s.status s

unfoldable pub render_slots : (ℕ → Text) → List Slot → Text × List Slot
unfolding render_slot
render_slots frame [] = ([], [])
render_slots frame (s ∷ slots) =
    let (line, t) = render_slot frame s in
    let (rest, after) = render_slots frame slots in (line ++ rest, t ∷ after)

-- The text written, and the slots and the flag that are left.
unfoldable pub render : (ℕ → Text) → (ℕ → Text) → Progress → Text × Progress
unfolding render_slots
render decimal frame p =
    if length p.slots == 0
    then ([], p)
    else let (lines, after) = render_slots frame p.slots in
      let up = if p.started then cursor_up decimal (length p.slots) else [] in
      (up ++ lines, record p { slots = after; started = true })

abbrev pub newlines : Text → ℕ
newlines [] = 0
newlines (c ∷ s) = (if c == 10 then 1 else 0) + newlines s

newlines-append : (s t : Text) → newlines (s ++ t) ≡ newlines s + newlines t
newlines-append [] t = omega arith
newlines-append (c ∷ s) t = omega (arith, newlines-append s t)

-- What a slot shows is on one line.
abbrev pub IsOneLine : Slot → Type 0
IsOneLine s = (newlines s.desc ≡ 0) × (newlines s.msg ≡ 0)

newlines-line_of :
    (mark : Text) (s : Slot) → newlines mark ≡ 0 → IsOneLine s → newlines (line_of mark s) ≡ 1
newlines-line_of mark s m (d, g) = omega (
  arith,
  newlines-append mark (codes "] " ++ (s.desc ++ (codes " - " ++ (s.msg ++ newline)))),
  newlines-append s.desc (codes " - " ++ (s.msg ++ newline)),
  newlines-append s.msg newline,
)

module _ (frame : ℕ → Text) (flat : (k : ℕ) → newlines (frame k) ≡ 0) where
  newlines-drawn :
      (status : Status) (s : Slot) → IsOneLine s → newlines (drawn frame status s).0 ≡ 1
  newlines-drawn idle s h = refl
  newlines-drawn done s h = newlines-line_of (codes "✓") s refl h
  newlines-drawn failed s h = newlines-line_of (codes "✗") s refl h
  newlines-drawn running s h = newlines-line_of (frame s.spinner) s (flat s.spinner) h

  newlines-render_slot : (s : Slot) → IsOneLine s → newlines (render_slot frame s).0 ≡ 1
  unfolding render_slot
  newlines-render_slot s h = newlines-drawn s.status s h

  newlines-render_slots :
      (slots : List Slot)
      → All IsOneLine slots
      → (newlines (render_slots frame slots).0 ≡ length slots)
        × (length (render_slots frame slots).1 ≡ length slots)
  unfolding render_slots
  newlines-render_slots [] h = (refl, refl)
  newlines-render_slots (s ∷ slots) (a, h) =
      let (lines, same) = newlines-render_slots slots h in
      (
        omega (
          arith,
          newlines-append (render_slot frame s).0 (render_slots frame slots).0,
          newlines-render_slot s a,
          lines,
        ),
        omega (arith, same),
      )

-- If no description, message or frame holds a line break, render writes one line for each slot, after
-- it has gone up by as many if it was called before: the cursor ends where it was.
newlines-render :
    (decimal frame : ℕ → Text) (p : Progress)
    → ((k : ℕ) → newlines (frame k) ≡ 0)
    → All IsOneLine p.slots
    → (lines : Text) × ((render decimal frame p).0 ≡ (
        if length p.slots == 0
        then []
        else if p.started
        then cursor_up decimal (length p.slots) ++ lines
        else lines))
      × (newlines lines ≡ length p.slots)
      × (length (render decimal frame p).1.slots ≡ length p.slots)
unfolding render
newlines-render decimal frame p flat h =
    let (lines, same) = newlines-render_slots frame flat p.slots h in
    elim (Bool-cases (length p.slots == 0)) [
      | inl zero_ ↦
          let empty : length p.slots ≡ 0 = ground (arith, zero_) in
          ([], rw (render, zero_) refl, rw (empty) refl, rw (render, zero_) refl)
      | inr some_ ↦ (
        (render_slots frame p.slots).0,
        elim (Bool-cases p.started) [
          | inl yes_ ↦ rw (render, some_, yes_) refl
          | inr no_ ↦ rw (render, some_, no_) refl
        ],
        lines,
        rw (render, some_) same,
      )
    ]
