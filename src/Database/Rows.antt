-- ===== src/Database/Rows.antt =====
-- What NewSQL and Query of database/sql/sql.go give.
use gobox.Base.{◌≡◌, refl, ◌↔◌, Option, none, some, List, [], ◌∷◌}
use gobox.Base.Text.{Text}
use gobox.Base.Errors.{Error, Result, ok, err}
use gobox.Database.Sql.{ScanFunc, Connector, Rows, Sql, with_item, scan_rows, query_sql}

-- The items that a function scans from rows, one from each.
abbrev pub AreScanned : {Row T : Type 0} → ScanFunc Row T → List Row → List T → Type 0
AreScanned scan [] [] = Unit
AreScanned scan [] (x ∷ xs) = ⊥
AreScanned scan (row ∷ rows) [] = ⊥
AreScanned scan (row ∷ rows) (x ∷ xs) = (scan row ≡ ok x) × AreScanned scan rows xs

with_item-ok :
    {T : Type 0} (r : Result T) (rest : Result (List T)) (items : List T)
    → with_item r rest ≡ ok items
    → (x : T) × (xs : List T) × (items ≡ x ∷ xs) × (r ≡ ok x) × (rest ≡ ok xs)
with_item-ok (err e) rest items h = absurd (cc)
with_item-ok (ok x) (err e) items h = absurd (cc)
with_item-ok (ok x) (ok xs) items h = (x, xs, cc, refl, refl)

scan_rows-AreScanned :
    {Row T : Type 0} (scan : ScanFunc Row T) (failed : Option Error) (rows : List Row)
    (items : List T)
    → scan_rows scan failed rows ≡ ok items
    → (failed ≡ none) × AreScanned scan rows items
unfolding scan_rows
scan_rows-AreScanned scan none [] [] h = (refl, tt)
scan_rows-AreScanned scan none [] (x ∷ xs) h = absurd (cc)
scan_rows-AreScanned scan (some e) [] items h = absurd (cc)
scan_rows-AreScanned scan failed (row ∷ rows) items h =
    let (x, xs, same, first, rest) = with_item-ok (scan row) (scan_rows scan failed rows) items h in
    let (finished, scanned_rest) = scan_rows-AreScanned scan failed rows xs rest in
    (finished, rw (same) (first, scanned_rest))

AreScanned-scan_rows :
    {Row T : Type 0} (scan : ScanFunc Row T) (rows : List Row) (items : List T)
    → AreScanned scan rows items
    → scan_rows scan none rows ≡ ok items
unfolding scan_rows
AreScanned-scan_rows scan [] [] h = refl
AreScanned-scan_rows scan [] (x ∷ xs) h = absurd h
AreScanned-scan_rows scan (row ∷ rows) [] h = absurd h
AreScanned-scan_rows scan (row ∷ rows) (x ∷ xs) (first, h) =
    rw (scan_rows, first, AreScanned-scan_rows scan rows xs h) refl

-- When the database gives rows, Query gives a list of items exactly if the iteration ends without an
-- error and the function scans every row, in the order of the rows, to the items of the list.
pub query_sql_iff :
    {W D Row T : Type 0} (v : Sql W D Row) (c : Connector D Row T) (w after : W) (query : Text)
    (r : Rows Row) (items : List T)
    → v.query w c.db query ≡ (after, ok r)
    → ((query_sql v c w query).1 ≡ ok items) ↔ ((r.err_ ≡ none) × AreScanned c.scan r.rows items)
unfolding query_sql
query_sql_iff v c w after query r items h =
    rw (query_sql, h)
      (
        scan_rows-AreScanned c.scan r.err_ r.rows items,
        λ (finished, given). rw (finished) (AreScanned-scan_rows c.scan r.rows items given),
      )
