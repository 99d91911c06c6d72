-- ===== src/HealthCheck/Probing.antt =====
-- `probeAllDBs` of healthcheck/check.go: a goroutine for each database, in any order.
use gobox.Base.{ℕ, zero, suc, ◌≡◌, List, [], ◌∷◌, ◌++◌}
use gobox.Base.Dict.{insert}
use gobox.Base.Int.{ℤ}
use gobox.Base.Text.{Text}
use gobox.HealthCheck.{Check, DbConn, DbReport, Pinger, probe_db}

-- The databases of the snapshot whose goroutine has not written its report, and the reports written.
pub record Probes (Db : Type 0) : Type 0 where
  pub timeout : ℤ
  pub pending : List (Text × DbConn Db)
  pub results : List (Text × DbReport)

module _ {Db : Type 0} where
  -- The snapshot is taken under the lock, so that what is registered later has no part in it.
  unfoldable pub begin_probes : Check Db → Probes Db
  begin_probes s = record { timeout = s.ping_timeout; pending = s.databases; results = [] }

module _ {Db : Type 0} (v : Pinger Db) where
  -- One goroutine writes its report under the mutex.
  pub data Step (s t : Probes Db) : Type 0 where
    finish :
        (before after : List (Text × DbConn Db)) (name : Text) (conn : DbConn Db)
        → s.pending ≡ before ++ ((name, conn) ∷ after)
        → t ≡ record s {
          pending = before ++ after;
          results = insert name (probe_db v s.timeout conn) s.results;
        }
        → Step s t

  -- So many goroutines have written.
  pub data Steps (s : Probes Db) : ℕ → Probes Db → Type 0 where
    begun : Steps s zero s
    and_then : {n : ℕ} {t u : Probes Db} → Steps s n t → Step t u → Steps s (suc n) u
