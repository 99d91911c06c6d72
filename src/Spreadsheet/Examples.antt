-- ===== src/Spreadsheet/Examples.antt =====
-- Runs of spreadsheet/excelize.go.
use gobox.Base.{ℕ, ◌+◌, ◌≡◌, refl, true, none, some, List, [], ◌∷◌, ◌++◌}
use gobox.Base.Text.{Text, codes, text_eq, join}
use gobox.Base.Errors.{ok, err, errorf}
use gobox.Spreadsheet.{Sheet, Options, Excel, write_sheet, write_xlsx, write_spreadsheet}
use gobox.Spreadsheet.Filling.{IsWritten, write_sheet-IsWritten}

abbrev Cells : Type 0
Cells = List (Text × Text × Text)

-- A file that is the list of the cells set, and a context that does not end. A tab that is there already
-- can be opened again.
abbrev listing : Excel Cells Text ℕ
listing = record {
  ctx_err = λ w. none;
  new_file = λ w. [];
  default_tab = λ w. codes "Sheet1";
  set_sheet_name = λ w old new. w;
  new_sheet = λ w name. (w, none);
  cell_name = λ col row. ok ((64 + col) ∷ (48 + row) ∷ []);
  set_cell = λ w sheet cell value. (w ++ (sheet, cell, value) ∷ [], none);
  of_text = λ s. s;
  bold = 0;
  style_id = λ w s. (w, ok 1);
  set_style = λ w sheet start end_ id. (w, none);
  encode = λ w. (w, ok []);
  sprint = λ s. s;
  record_ = λ w fields. (w, ok (join (codes ",") fields ++ codes "\n"));
}

abbrev options : Options ℕ
options = record { default_sheet_name = codes "Sheet1"; header_style = some 0 }

abbrev users : Sheet Text
users = record {
  name = [];
  headers = codes "Name" ∷ codes "Age" ∷ [];
  rows = (codes "Ana" ∷ codes "30" ∷ []) ∷ [];
}

abbrev cities : Sheet Text
cities = record { name = []; headers = codes "City" ∷ []; rows = [] }

as_csv :
    (write_spreadsheet listing options (codes "csv") (users ∷ cities ∷ []) []).1
    ≡ ok (codes "Name,Age\nAna,30\n")
unfolding write_spreadsheet text_eq
as_csv = refl

no_sheets : (write_spreadsheet listing options (codes "csv") [] []).1 ≡ err errorf
unfolding write_spreadsheet
no_sheets = refl

-- Two sheets without a name get one tab, so that the second writes over the first.
one_tab :
    (write_xlsx listing options (users ∷ cities ∷ []) []).0
    ≡ (codes "Sheet1", codes "A1", codes "Name")
      ∷ (codes "Sheet1", codes "B1", codes "Age")
      ∷ (codes "Sheet1", codes "A2", codes "Ana")
      ∷ (codes "Sheet1", codes "B2", codes "30")
      ∷ (codes "Sheet1", codes "A1", codes "City")
      ∷ []
unfolding write_xlsx text_eq
one_tab = refl

abbrev written_users : Cells
written_users =
    (codes "Sheet1", codes "A1", codes "Name")
    ∷ (codes "Sheet1", codes "B1", codes "Age")
    ∷ (codes "Sheet1", codes "A2", codes "Ana")
    ∷ (codes "Sheet1", codes "B2", codes "30")
    ∷ []

write_sheet-IsWritten_example : IsWritten listing options true users [] written_users
unfolding write_sheet text_eq
write_sheet-IsWritten_example =
    write_sheet-IsWritten listing options true users [] written_users refl
