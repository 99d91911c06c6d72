-- ===== src/Database/Gorm.antt =====
-- database/gorm/gorm.go: the configuration and the opening of a connection. `C` is a connection of gorm, `G` a
-- configuration of gorm, `P` a pool of database/sql.
use gobox.Base.{
  ℕ, zero, suc, ◌*◌, Bool, true, false, Option, none, some, List, [], ◌∷◌, if◌then◌else◌,
}
use gobox.Base.Text.{Text, codes, is_empty}
use gobox.Base.Dict.{lookup}
use gobox.Base.Errors.{Error, Result, ok, err, sentinel, wrap}
use gobox.Base.Int.{ℤ, pos, negsuc, is_pos}

pub record GormConfig (G : Type 0) : Type 0 where
  pub dsn : Text
  pub dialector : Text
  pub log_level : Text
  pub max_open_conns : ℤ
  pub max_idle_conns : ℤ
  pub skip_default_tx : Bool
  pub prepare_stmt : Bool
  pub dry_run : Bool
  pub conn_max_lifetime : ℤ
  pub conn_max_idle_time : ℤ
  pub slow_threshold : ℤ
  pub retry_attempts : ℤ
  pub retry_delay : ℤ
  pub gorm_config : Option G

abbrev milliseconds : ℕ → ℤ
milliseconds n = pos (n * 1000000)

-- `DefaultGormConfig`
unfoldable pub default_gorm_config : {G : Type 0} → GormConfig G
default_gorm_config = record {
  dsn = [];
  dialector = [];
  log_level = codes "info";
  max_open_conns = pos 50;
  max_idle_conns = pos 50;
  skip_default_tx = true;
  prepare_stmt = true;
  dry_run = false;
  conn_max_lifetime = milliseconds (60 * 60 * 1000);
  conn_max_idle_time = milliseconds (30 * 60 * 1000);
  slow_threshold = milliseconds 200;
  retry_attempts = pos 3;
  retry_delay = milliseconds 1000;
  gorm_config = none;
}

-- The packages of gorm's drivers.
pub data Driver : Type 0 where
  postgres : Driver
  mysql : Driver
  sqlite : Driver
  sqlserver : Driver

abbrev pub db_drivers : List (Text × Driver)
db_drivers =
    (codes "postgres", postgres)
    ∷ (codes "mysql", mysql)
    ∷ (codes "mariadb", mysql)
    ∷ (codes "sqlite", sqlite)
    ∷ (codes "sqlserver", sqlserver)
    ∷ (codes "mssql", sqlserver)
    ∷ []

-- `getDriverDialectorFunc`
unfoldable pub get_driver_dialector_func : Text → Result Driver
get_driver_dialector_func dialector = elim (lookup dialector db_drivers) [
  | some driver ↦ ok driver
  | none ↦ err (sentinel "ErrUnsupportedDialector")
]

-- glog.LogLevel
pub data LogLevel : Type 0 where
  silent : LogLevel
  info : LogLevel
  error : LogLevel
  warn : LogLevel

abbrev levels : List (Text × LogLevel)
levels =
    (codes "silent", silent)
    ∷ (codes "info", info)
    ∷ (codes "error", error)
    ∷ (codes "err", error)
    ∷ (codes "warning", warn)
    ∷ (codes "warn", warn)
    ∷ []

-- `ParseLoggerLevel`
unfoldable pub parse_logger_level : Text → LogLevel
parse_logger_level s = elim (lookup s levels) [ some level ↦ level | none ↦ info ]

-- gorm.Config, in what `buildGormConfig` sets of it, with its logger.
pub record BuiltConfig : Type 0 where
  pub slow_threshold : ℤ
  pub log_level : LogLevel
  pub ignore_record_not_found_error : Bool
  pub colorful : Bool
  pub skip_default_transaction : Bool
  pub prepare_stmt : Bool
  pub dry_run : Bool
  pub create_batch_size : ℕ
  pub full_save_associations : Bool

-- `buildGormConfig`
unfoldable pub build_gorm_config : {G : Type 0} → GormConfig G → BuiltConfig
unfolding parse_logger_level
build_gorm_config cfg = record {
  slow_threshold = cfg.slow_threshold;
  log_level = parse_logger_level cfg.log_level;
  ignore_record_not_found_error = true;
  colorful = false;
  skip_default_transaction = cfg.skip_default_tx;
  prepare_stmt = cfg.prepare_stmt;
  dry_run = cfg.dry_run;
  create_batch_size = 1000;
  full_save_associations = false;
}

-- `validateGormConfig`
unfoldable pub validate_gorm_config : {G : Type 0} → GormConfig G → Option Error
unfolding get_driver_dialector_func
validate_gorm_config cfg =
    if is_empty cfg.dsn
    then some (sentinel "ErrDatabaseDSNRequired")
    else if is_empty cfg.dialector
    then some (sentinel "ErrDatabaseDialectorRequired")
    else elim (get_driver_dialector_func cfg.dialector) [ ok driver ↦ none | err e ↦ some e ]

-- The settings of a sql.DB that a configuration sets.
pub record Pool : Type 0 where
  pub max_open_conns : ℤ
  pub max_idle_conns : ℤ
  pub conn_max_lifetime : ℤ
  pub conn_max_idle_time : ℤ

abbrev or_kept : ℤ → ℤ → ℤ
or_kept n kept = if is_pos n then n else kept

-- `configureConnectionPool`
unfoldable pub configure_connection_pool : {G : Type 0} → GormConfig G → Pool → Pool
configure_connection_pool cfg p = record {
  max_open_conns = or_kept cfg.max_open_conns p.max_open_conns;
  max_idle_conns = or_kept cfg.max_idle_conns p.max_idle_conns;
  conn_max_lifetime = or_kept cfg.conn_max_lifetime p.conn_max_lifetime;
  conn_max_idle_time = or_kept cfg.conn_max_idle_time p.conn_max_idle_time;
}

-- What is used of gorm: `convert` takes what is built for gorm.Config, `open_` opens at its i-th call, and
-- `pool` gives the sql.DB of a connection.
pub record Orm (G C : Type 0) : Type 0 where
  pub convert : BuiltConfig → G
  pub open_ : ℕ → Driver → Text → G → Result C
  pub pool : C → Result Pool
  pub with_pool : C → Pool → C

-- How `New` ends: with a result, or by a call on a connection that is nil.
pub data Ending (A : Type 0) : Type 0 where
  returned : A → Ending A
  panicked : Ending A

abbrev pub given_config : {G C : Type 0} → Orm G C → GormConfig G → G
given_config o cfg = elim cfg.gorm_config [ some g ↦ g | none ↦ o.convert (build_gorm_config cfg) ]

abbrev pub after_pass : {C : Type 0} → Result C → ℕ × Result C → ℕ × Result C
after_pass (ok conn) rest = (0, ok conn)
after_pass (err e) (sleeps, r) = (suc sleeps, r)

-- The loop of `New` from its i-th pass on, with so many passes left after it: the number of the sleeps,
-- and the connection or the last error.
unfoldable pub open_loop : {C : Type 0} → (ℕ → Result C) → ℕ → ℕ → ℕ × Result C
open_loop open_at zero i = (0, open_at i)
open_loop open_at (suc left) i =
    let rest = open_loop open_at left (suc i) in after_pass (open_at i) rest

-- The end of `New`, on the connection or the last error.
unfoldable pub configured : {G C : Type 0} → Orm G C → GormConfig G → Result C → Result C
unfolding configure_connection_pool
configured o cfg (err e) = err (wrap "ErrDatabaseConnectionFailed" e)
configured o cfg (ok conn) = elim (o.pool conn) [
  | err e ↦ err (wrap "ErrDatabasePoolAccessFailed" e)
  | ok p ↦ ok (o.with_pool conn (configure_connection_pool cfg p))
]

abbrev pub opened_by : {G C : Type 0} → Orm G C → GormConfig G → Driver → ℕ → Result C
opened_by o cfg driver i = o.open_ i driver cfg.dsn (given_config o cfg)

-- `New` on a configuration that is valid: with a negative RetryAttempts the loop has no pass.
unfoldable pub connect :
    {G C : Type 0} → Orm G C → GormConfig G → Driver → ℤ → ℕ × Ending (Result C)
unfolding open_loop configured
connect o cfg driver (negsuc n) = (0, panicked)
connect o cfg driver (pos n) =
    let (sleeps, r) = open_loop (opened_by o cfg driver) n 0 in
    (sleeps, returned (configured o cfg r))

-- `New`, with the number of the sleeps of RetryDelay; a nil configuration is `none`.
unfoldable pub new_gorm : {G C : Type 0} → Orm G C → Option (GormConfig G) → ℕ × Ending (Result C)
unfolding validate_gorm_config get_driver_dialector_func connect
new_gorm o none = (0, returned (err (sentinel "ErrInvalidDatabaseConfig")))
new_gorm o (some cfg) = elim (validate_gorm_config cfg) [
  | some e ↦ (0, returned (err e))
  | none ↦ elim (get_driver_dialector_func cfg.dialector) [
    | err e ↦ (0, returned (err e))
    | ok driver ↦ connect o cfg driver cfg.retry_attempts
  ]
]

-- `UpdateConnectionPool`
unfoldable pub update_connection_pool : {G C : Type 0} → Orm G C → C → GormConfig G → Result C
unfolding configure_connection_pool
update_connection_pool o conn cfg = elim (o.pool conn) [
  | err e ↦ err (wrap "ErrDatabasePoolAccessFailed" e)
  | ok p ↦ ok (o.with_pool conn (configure_connection_pool cfg p))
]
