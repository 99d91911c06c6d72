-- ===== src/Spreadsheet/Filling.antt =====
-- The cells that spreadsheet/excelize.go writes.
use gobox.Base.{
  ℕ, suc, ◌≡◌, refl, Bool, Option, none, some, List, [], ◌∷◌, map, length, inl, inr, Option-cases,
  ◌∙◌, ap, sym, subst,
}
use gobox.Base.Text.{Text}
use gobox.Base.Errors.{Error, ok, Result-cases}
use gobox.Spreadsheet.{
  Sheet, Options, Excel, then_, write_cell, write_values, write_xlsx_rows, write_xlsx_headers,
  style_headers, open_tab, write_sheet, resolve_sheet_name,
}

then_-none :
    {W : Type 0} (y : W × Option Error) (f : W → W × Option Error) (after : W)
    → then_ y f ≡ (after, none)
    → (w : W) × (y ≡ (w, none)) × (f w ≡ (after, none))
then_-none (w, none) f after h = (w, refl, h)
then_-none (w, some e) f after h = absurd (cc)

failed_none :
    {W : Type 0} (y : W × Option Error) (w after : W) (e : Error)
    → y ≡ (after, none)
    → y ≡ (w, some e)
    → ⊥
failed_none y w after e h is = cc

same :
    {W : Type 0} {y : W × Option Error} {after : W × Option Error} (z : W × Option Error)
    → y ≡ z
    → y ≡ after
    → z ≡ after
same z is h = sym is ∙ h

module _ {W V S : Type 0} (x : Excel W V S) where
  -- The cells of a row from a column on, set one after the other to the values.
  pub data Filled (sheet : Text) (row : ℕ) : W → ℕ → List V → W → Type 0 where
    filled : {w : W} {col : ℕ} → Filled sheet row w col [] w
    next :
        {w between after : W} {col : ℕ} {value : V} {values : List V} {cell : Text}
        → x.cell_name col row ≡ ok cell
        → x.set_cell w sheet cell value ≡ (between, none)
        → Filled sheet row between (suc col) values after
        → Filled sheet row w col (value ∷ values) after

  -- Rows below each other, each filled from the first column on.
  pub data Rows (sheet : Text) : W → ℕ → List (List V) → W → Type 0 where
    all_filled : {w : W} {row : ℕ} → Rows sheet w row [] w
    below :
        {w between after : W} {row : ℕ} {values : List V} {rows : List (List V)}
        → Filled sheet row w 1 values between
        → Rows sheet between (suc row) rows after
        → Rows sheet w row (values ∷ rows) after

  write_cell-none :
      (sheet : Text) (col row : ℕ) (value : V) (w after : W)
      → write_cell x sheet col row value w ≡ (after, none)
      → (cell : Text) × (x.cell_name col row ≡ ok cell)
        × (x.set_cell w sheet cell value ≡ (after, none))
  unfolding write_cell
  write_cell-none sheet col row value w after h = elim (Option-cases (x.ctx_err w)) [
    | inr (e, is) ↦
        absurd
          (failed_none (write_cell x sheet col row value w) w after e h (rw (write_cell, is) refl))
    | inl alive ↦ elim (Result-cases (x.cell_name col row)) [
      | inr (e, is) ↦ absurd (
          failed_none (write_cell x sheet col row value w) w after e h
            (rw (write_cell, alive, is) refl))
      | inl (cell, is) ↦
          (cell, is, same (x.set_cell w sheet cell value) (rw (write_cell, alive, is) refl) h)
    ]
  ]

  write_values-Filled :
      (sheet : Text) (row col : ℕ) (values : List V) (w after : W)
      → write_values x sheet col row values w ≡ (after, none)
      → Filled sheet row w col values after
  unfolding write_values
  write_values-Filled sheet row col [] w after h =
      subst (λ y. Filled sheet row w col [] y) (ap (λ y. y.0) h) filled
  write_values-Filled sheet row col (value ∷ values) w after h =
      let (between, set, rest) =
        then_-none (write_cell x sheet col row value w) (write_values x sheet (suc col) row values)
          after h in
      let (cell, named, put) = write_cell-none sheet col row value w between set in
      next named put (write_values-Filled sheet row (suc col) values between after rest)

  write_xlsx_rows-Rows :
      (sheet : Text) (row : ℕ) (rows : List (List V)) (w after : W)
      → write_xlsx_rows x sheet row rows w ≡ (after, none)
      → Rows sheet w row rows after
  unfolding write_xlsx_rows
  write_xlsx_rows-Rows sheet row [] w after h =
      subst (λ y. Rows sheet w row [] y) (ap (λ y. y.0) h) all_filled
  write_xlsx_rows-Rows sheet row (values ∷ rows) w after h =
      let (between, set, rest) =
        then_-none (write_values x sheet 1 row values w) (write_xlsx_rows x sheet (suc row) rows)
          after h in
      below (write_values-Filled sheet row 1 values w between set)
        (write_xlsx_rows-Rows sheet (suc row) rows between after rest)

  -- A sheet that is written: its tab is opened, the first row has the headers, which get their style, and
  -- the rows stand from the second on.
  abbrev pub IsWritten : Options S → Bool → Sheet V → W → W → Type 0
  IsWritten o first s w after =
      let name = resolve_sheet_name s.name o.default_sheet_name in
      (opened headed styled : W) × (open_tab x first name w ≡ (opened, none))
      × Filled name 1 opened 1 (map x.of_text s.headers) headed
      × (style_headers x o.header_style name (length s.headers) headed ≡ (styled, none))
      × Rows name styled 2 s.rows after

  -- A sheet that is written without an error has all its headers in the first row of its tab, all its
  -- values in the rows below, each in the column of its position, and nothing else is set.
  pub write_sheet-IsWritten :
      (o : Options S) (first : Bool) (s : Sheet V) (w after : W)
      → write_sheet x o first s w ≡ (after, none)
      → IsWritten o first s w after
  unfolding write_sheet write_xlsx_headers
  write_sheet-IsWritten o first s w after h = elim (Option-cases (x.ctx_err w)) [
    | inr (e, is) ↦
        absurd (failed_none (write_sheet x o first s w) w after e h (rw (write_sheet, is) refl))
    | inl alive ↦
        let name = resolve_sheet_name s.name o.default_sheet_name in
        let (styled, up, rows) =
          then_-none (then_ (open_tab x first name w) (write_xlsx_headers x o name s.headers))
            (write_xlsx_rows x name 2 s.rows) after (same _ (rw (write_sheet, alive) refl) h) in
        let (opened, tab, head) =
          then_-none (open_tab x first name w) (write_xlsx_headers x o name s.headers) styled up in
        let (headed, values, style) =
          then_-none (write_values x name 1 1 (map x.of_text s.headers) opened)
            (style_headers x o.header_style name (length s.headers)) styled head in
        (
          opened,
          headed,
          styled,
          tab,
          write_values-Filled name 1 1 (map x.of_text s.headers) opened headed values,
          style,
          write_xlsx_rows-Rows name 2 s.rows styled after rows,
        )
  ]
