-- ===== src/HealthCheck.antt =====
-- healthcheck/check.go: the registered databases and the probe of each.
pub mod Probing
pub mod Reports
pub mod Examples
use gobox.Base.{ℕ, ◌-◌, ◌<◌, Bool, Option, none, some, List, [], ◌∷◌, ltb, if◌then◌else◌}
use gobox.Base.Dict.{insert, lookup, delete}
use gobox.Base.Errors.{Error, Result, ok, err, errorf}
use gobox.Base.Int.{ℤ, pos, is_pos}
use gobox.Base.Text.{Text, codes}

-- sql.DBStats, in what is read of it.
pub record DbStats : Type 0 where
  pub open_connections : ℤ
  pub in_use : ℤ
  pub idle : ℤ
  pub wait_count : ℤ
  pub wait_duration : ℤ

pub record DbReport : Type 0 where
  pub status : Text
  pub driver : Text
  pub error : Text
  pub stats : DbStats

abbrev no_stats : DbStats
no_stats = record {
  open_connections = pos 0;
  in_use = pos 0;
  idle = pos 0;
  wait_count = pos 0;
  wait_duration = pos 0;
}

abbrev pub default_ping_timeout : ℤ
default_ping_timeout = pos 5000000000

-- What is read of the runtime: `format_time` and `format_duration` print a time and a duration that is
-- rounded to seconds.
pub record Runtime : Type 0 where
  pub goos : Text
  pub goarch : Text
  pub num_cpu : ℕ
  pub num_goroutine : ℕ
  pub alloc : ℕ
  pub total_alloc : ℕ
  pub sys : ℕ
  pub num_gc : ℕ
  pub last_gc : ℕ
  pub format_time : ℕ → Text
  pub format_duration : ℕ → Text

pub record RuntimeReport : Type 0 where
  pub os : Text
  pub arch : Text
  pub num_cpu : ℕ
  pub num_goroutine : ℕ
  pub uptime : Text
  pub mem_allocated : ℕ
  pub mem_total_alloc : ℕ
  pub mem_sys : ℕ
  pub mem_num_gc : ℕ
  pub mem_last_gc : Text

module _ (Db : Type 0) where
  pub record DbEntry : Type 0 where
    pub name : Text
    pub driver : Text
    pub db : Db

  pub record DbConn : Type 0 where
    pub driver : Text
    pub db : Db

-- The `Pinger` interface: what a ping within a timeout and the statistics answer.
pub record Pinger (Db : Type 0) : Type 0 where
  pub ping : Db → ℤ → Option Text
  pub stats : Db → DbStats

pub record Check (Db : Type 0) : Type 0 where
  pub databases : List (Text × DbConn Db)
  pub started_at : ℕ
  pub ping_timeout : ℤ

module _ {Db : Type 0} where
  abbrev pub entries_of : List (DbEntry Db) → List (Text × DbConn Db) → List (Text × DbConn Db)
  entries_of [] dbs = dbs
  entries_of (e ∷ entries) dbs =
      entries_of entries (insert e.name (record { driver = e.driver; db = e.db }) dbs)

  unfoldable pub new_check : ℕ → List (DbEntry Db) → Check Db
  new_check now entries = record {
    databases = entries_of entries [];
    started_at = now;
    ping_timeout = default_ping_timeout;
  }

  unfoldable pub set_ping_timeout : ℤ → Check Db → Check Db
  set_ping_timeout d s = record s { ping_timeout = if is_pos d then d else default_ping_timeout }

  unfoldable pub add_db : Text → Text → Db → Check Db → Check Db
  add_db name driver db s = record s {
    databases = insert name (record { driver = driver; db = db }) s.databases;
  }

  unfoldable pub remove_db : Text → Check Db → Check Db
  remove_db name s = record s { databases = delete name s.databases }

  unfoldable pub runtime_report : Runtime → ℕ → Check Db → RuntimeReport
  runtime_report r now s = record {
    os = r.goos;
    arch = r.goarch;
    num_cpu = r.num_cpu;
    num_goroutine = r.num_goroutine;
    uptime = r.format_duration (now - s.started_at);
    mem_allocated = r.alloc;
    mem_total_alloc = r.total_alloc;
    mem_sys = r.sys;
    mem_num_gc = r.num_gc;
    mem_last_gc = if ltb 0 r.last_gc then r.format_time r.last_gc else codes "never";
  }

  unfoldable pub probe_db : Pinger Db → ℤ → DbConn Db → DbReport
  probe_db v timeout conn = elim (v.ping conn.db timeout) [
    | some e ↦ record {
      status = codes "unhealthy";
      driver = conn.driver;
      error = e;
      stats = no_stats;
    }
    | none ↦ record {
      status = codes "healthy";
      driver = conn.driver;
      error = [];
      stats = v.stats conn.db;
    }
  ]

  abbrev pub probed : Pinger Db → ℤ → Option (DbConn Db) → Option DbReport
  probed v timeout none = none
  probed v timeout (some conn) = some (probe_db v timeout conn)

  unfoldable pub check_db : Pinger Db → Text → Check Db → Result DbReport
  unfolding probe_db
  check_db v name s = elim (lookup name s.databases) [
    | none ↦ err errorf
    | some conn ↦ ok (probe_db v s.ping_timeout conn)
  ]
