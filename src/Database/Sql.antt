-- ===== src/Database/Sql.antt =====
-- database/sql/sql.go: the connector and its queries. `D` is a sql.DB, `Row` a row.
use gobox.Base.{Option, none, some, List, [], ◌∷◌, if◌then◌else◌}
use gobox.Base.Text.{Text, is_empty}
use gobox.Base.Errors.{Error, Result, ok, err, errorf}

pub record SqlConfig : Type 0 where
  pub driver : Text
  pub dsn : Text

-- `ScanFunc`, on the row that the cursor stands at.
abbrev pub ScanFunc : Type 0 → Type 0 → Type 0
ScanFunc Row T = Row → Result T

pub record Connector (D Row T : Type 0) : Type 0 where
  pub db : D
  pub scan : ScanFunc Row T

-- The rows that a query gives, one for each Next, and then the error of the iteration.
pub record Rows (Row : Type 0) : Type 0 where
  pub rows : List Row
  pub err_ : Option Error

-- What is used of database/sql; `ping` answers an error, and `close` closes the pool.
pub record Sql (W D Row : Type 0) : Type 0 where
  pub open_ : W → Text → Text → W × Result D
  pub ping : W → D → W × Option Error
  pub close : W → D → W × Option Error
  pub query : W → D → Text → W × Result (Rows Row)

module _ {W D Row T : Type 0} (v : Sql W D Row) where
  abbrev pinged : ScanFunc Row T → D → W × Option Error → W × Result (Connector D Row T)
  pinged scan db (w, none) = (w, ok (record { db = db; scan = scan }))
  pinged scan db (w, some e) = ((v.close w db).0, err e)

  abbrev opened : ScanFunc Row T → W × Result D → W × Result (Connector D Row T)
  opened scan (w, err e) = (w, err e)
  opened scan (w, ok db) = pinged scan db (v.ping w db)

  -- `NewSQL`; a nil function is `none`.
  unfoldable pub new_sql : SqlConfig → Option (ScanFunc Row T) → W → W × Result (Connector D Row T)
  new_sql cfg scan w =
      if is_empty cfg.driver
      then (w, err errorf)
      else if is_empty cfg.dsn
      then (w, err errorf)
      else elim scan [ none ↦ (w, err errorf) | some f ↦ opened f (v.open_ w cfg.driver cfg.dsn) ]

abbrev pub with_item : {T : Type 0} → Result T → Result (List T) → Result (List T)
with_item (err e) rest = err e
with_item (ok item) (err e) = err e
with_item (ok item) (ok items) = ok (item ∷ items)

-- The loop of `Query` over the rows that are left, and the error of the iteration.
unfoldable pub scan_rows :
    {Row T : Type 0} → ScanFunc Row T → Option Error → List Row → Result (List T)
scan_rows scan none [] = ok []
scan_rows scan (some e) [] = err e
scan_rows scan failed (row ∷ rows) = with_item (scan row) (scan_rows scan failed rows)

abbrev pub scanned :
    {W Row T : Type 0} → ScanFunc Row T → W × Result (Rows Row) → W × Result (List T)
scanned scan (w, err e) = (w, err e)
scanned scan (w, ok r) = (w, scan_rows scan r.err_ r.rows)

-- `Query`
unfoldable pub query_sql :
    {W D Row T : Type 0} → Sql W D Row → Connector D Row T → W → Text → W × Result (List T)
unfolding scan_rows
query_sql v c w query = scanned c.scan (v.query w c.db query)

-- `Close`
unfoldable pub close_sql :
    {W D Row T : Type 0} → Sql W D Row → Connector D Row T → W → W × Option Error
close_sql v c w = v.close w c.db
