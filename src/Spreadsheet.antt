-- ===== src/Spreadsheet.antt =====
-- spreadsheet/excelize.go: the writer. `W` is the world: the file that is built and the context. `V` is a value of
-- type any, `S` a style of excelize.
pub mod Filling
pub mod Examples
use gobox.Base.{
  ℕ, zero, suc, Bool, true, false, not, ◌&&◌, ◌||◌, Option, none, some, List, [], ◌∷◌, ◌++◌, map,
  any, length, if◌then◌else◌,
}
use gobox.Base.Text.{Text, codes, is_empty, text_eq, trim_space}
use gobox.Base.Errors.{Error, Result, ok, err, errorf}
use gobox.Base.Utf8.{Bytes}

pub record Sheet (V : Type 0) : Type 0 where
  pub name : Text
  pub headers : List Text
  pub rows : List (List V)

-- `Options`; a nil style is `none`.
pub record Options (S : Type 0) : Type 0 where
  pub default_sheet_name : Text
  pub header_style : Option S

-- What is used of the context, of excelize, of encoding/csv and of fmt: `bold` is the style of the
-- package, `style_id` registers a style, `record_` is a line of CSV, and `sprint` prints a value.
pub record Excel (W V S : Type 0) : Type 0 where
  pub ctx_err : W → Option Error
  pub new_file : W → W
  pub default_tab : W → Text
  pub set_sheet_name : W → Text → Text → W
  pub new_sheet : W → Text → W × Option Error
  pub cell_name : ℕ → ℕ → Result Text
  pub set_cell : W → Text → Text → V → W × Option Error
  pub of_text : Text → V
  pub bold : S
  pub style_id : W → S → W × Result ℕ
  pub set_style : W → Text → Text → Text → ℕ → W × Option Error
  pub encode : W → W × Result Bytes
  pub sprint : V → Text
  pub record_ : W → List Text → W × Result Bytes

-- `resolveSheetName`
unfoldable pub resolve_sheet_name : Text → Text → Text
unfolding trim_space
resolve_sheet_name name fallback =
    let n = trim_space name in if not (is_empty n) then n else fallback

-- `valid`
unfoldable pub valid : Text → Bool
unfolding text_eq
valid format = text_eq format (codes "xlsx") || text_eq format (codes "csv")

abbrev pub then_ : {W : Type 0} → W × Option Error → (W → W × Option Error) → W × Option Error
then_ (w, some e) f = (w, some e)
then_ (w, none) f = f w

module _ {W V S : Type 0} (x : Excel W V S) where
  -- `applyDefaults`, and `New` with it
  unfoldable pub apply_defaults : Options S → Options S
  apply_defaults o = record {
    default_sheet_name =
        if is_empty o.default_sheet_name then codes "Sheet1" else o.default_sheet_name;
    header_style = elim o.header_style [ none ↦ some x.bold | some s ↦ some s ];
  }

  -- A pass of the loops over the headers and over the values of a row.
  unfoldable pub write_cell : Text → ℕ → ℕ → V → W → W × Option Error
  write_cell sheet col row value w = elim (x.ctx_err w) [
    | some e ↦ (w, some e)
    | none ↦ elim (x.cell_name col row) [
      | err e ↦ (w, some e)
      | ok cell ↦ x.set_cell w sheet cell value
    ]
  ]

  -- The values of a row from a column on.
  unfoldable pub write_values : Text → ℕ → ℕ → List V → W → W × Option Error
  unfolding write_cell
  write_values sheet col row [] w = (w, none)
  write_values sheet col row (value ∷ values) w =
      then_ (write_cell sheet col row value w) (write_values sheet (suc col) row values)

  -- `writeXLSXRows`, from a row on
  unfoldable pub write_xlsx_rows : Text → ℕ → List (List V) → W → W × Option Error
  unfolding write_values
  write_xlsx_rows sheet row [] w = (w, none)
  write_xlsx_rows sheet row (values ∷ rows) w =
      then_ (write_values sheet 1 row values w) (write_xlsx_rows sheet (suc row) rows)

  abbrev cell_or_empty : Result Text → Text
  cell_or_empty (ok cell) = cell
  cell_or_empty (err e) = []

  abbrev styled : Text → ℕ → W × Result ℕ → W × Option Error
  styled sheet columns (w, err e) = (w, some e)
  styled sheet columns (w, ok id) =
      x.set_style w sheet (cell_or_empty (x.cell_name 1 1)) (cell_or_empty (x.cell_name columns 1))
        id

  abbrev pub style_headers : Option S → Text → ℕ → W → W × Option Error
  style_headers none sheet columns w = styled sheet columns (x.style_id w x.bold)
  style_headers (some style) sheet columns w = styled sheet columns (x.style_id w style)

  -- `writeXLSXHeaders`
  unfoldable pub write_xlsx_headers : Options S → Text → List Text → W → W × Option Error
  unfolding write_values
  write_xlsx_headers o sheet headers w =
      then_ (write_values sheet 1 1 (map x.of_text headers) w)
        (style_headers o.header_style sheet (length headers))

  -- The tab of a sheet: the first renames the tab of a new file.
  abbrev pub open_tab : Bool → Text → W → W × Option Error
  open_tab true name w = (
    if text_eq (x.default_tab w) name then w else x.set_sheet_name w (x.default_tab w) name,
    none,
  )
  open_tab false name w = x.new_sheet w name

  -- A pass of the loop of `writeXLSX`
  unfoldable pub write_sheet : Options S → Bool → Sheet V → W → W × Option Error
  unfolding resolve_sheet_name write_xlsx_headers write_xlsx_rows
  write_sheet o first s w = elim (x.ctx_err w) [
    | some e ↦ (w, some e)
    | none ↦
        let name = resolve_sheet_name s.name o.default_sheet_name in
        then_ (then_ (open_tab first name w) (write_xlsx_headers o name s.headers))
          (write_xlsx_rows name 2 s.rows)
  ]

  unfoldable pub write_sheets : Options S → Bool → List (Sheet V) → W → W × Option Error
  unfolding write_sheet
  write_sheets o first [] w = (w, none)
  write_sheets o first (s ∷ sheets) w =
      then_ (write_sheet o first s w) (write_sheets o false sheets)

  abbrev encoded : W × Option Error → W × Result Bytes
  encoded (w, some e) = (w, err e)
  encoded (w, none) = x.encode w

  -- `writeXLSX`
  unfoldable pub write_xlsx : Options S → List (Sheet V) → W → W × Result Bytes
  unfolding write_sheets
  write_xlsx o sheets w = encoded (write_sheets o true sheets (x.new_file w))

  abbrev joined : Bytes → W × Result Bytes → W × Result Bytes
  joined line (w, err e) = (w, err e)
  joined line (w, ok lines) = (w, ok (line ++ lines))

  abbrev line_then : W × Result Bytes → (W → W × Result Bytes) → W × Result Bytes
  line_then (w, err e) f = (w, err e)
  line_then (w, ok line) f = joined line (f w)

  -- The loop of `writeCSV`; what it writes is what the lines make up.
  unfoldable pub csv_rows : List (List V) → W → W × Result Bytes
  csv_rows [] w = (w, ok [])
  csv_rows (row ∷ rows) w = elim (x.ctx_err w) [
    | some e ↦ (w, err e)
    | none ↦ line_then (x.record_ w (map x.sprint row)) (csv_rows rows)
  ]

  -- `writeCSV`
  unfoldable pub write_csv : Sheet V → W → W × Result Bytes
  unfolding csv_rows
  write_csv s w = line_then (x.record_ w s.headers) (csv_rows s.rows)

  abbrev pub has_no_headers : Sheet V → Bool
  has_no_headers s = elim s.headers [ [] ↦ true | h ∷ headers ↦ false ]

  -- The goroutine of `Write`
  abbrev pub encode_format : Options S → Text → Sheet V → List (Sheet V) → W → W × Result Bytes
  encode_format o format s sheets w =
      if text_eq format (codes "xlsx") then write_xlsx o (s ∷ sheets) w else write_csv s w

  -- `Write`, when the goroutine ends before the context does.
  unfoldable pub write_spreadsheet : Options S → Text → List (Sheet V) → W → W × Result Bytes
  unfolding valid write_xlsx write_csv
  write_spreadsheet o format [] w = (w, err errorf)
  write_spreadsheet o format (s ∷ sheets) w =
      if not (valid format)
      then (w, err errorf)
      else if any has_no_headers (s ∷ sheets)
      then (w, err errorf)
      else encode_format o format s sheets w
