-- ===== src/Database/Examples.antt =====
-- Runs of database/gorm, database/sql and database/migrate.
use gobox.Base.{
  ℕ, ◌≡◌, ◌↔◌, refl, true, false, Option, none, some, List, [], ◌∷◌, ◌++◌, ltb, if◌then◌else◌,
}
use gobox.Base.Text.{Text, codes, text_eq}
use gobox.Base.Dict.{lookup}
use gobox.Base.Paths.{ext}
use gobox.Base.Int.{pos, negsuc}
use gobox.Base.Errors.{Error, ok, err, sentinel}
use gobox.Database.Gorm.{
  GormConfig, Pool, Orm, returned, panicked, new_gorm, postgres, validate_gorm_config,
  get_driver_dialector_func,
}
use gobox.Database.Opening.{new_gorm_negative}
use gobox.Database.Sql.{Sql, ScanFunc, Connector, query_sql}
use gobox.Database.Rows.{AreScanned, query_sql_iff}
use gobox.Database.Migrations.{Migrator, DirEntry, Env, populate, migrate}
use gobox.Database.Populating.{Migrated, migrate-Migrated}

abbrev no_limits : Pool
no_limits = record {
  max_open_conns = pos 0;
  max_idle_conns = pos 2;
  conn_max_lifetime = pos 0;
  conn_max_idle_time = pos 0;
}

-- A database that is up from the third opening on.
abbrev late : Orm Unit Pool
late = record {
  convert = λ c. tt;
  open_ = λ i driver dsn g. if ltb i 2 then err (sentinel "down") else ok no_limits;
  pool = λ c. ok c;
  with_pool = λ c p. p;
}

abbrev local : GormConfig Unit
local = record {
  dsn = codes "host=localhost";
  dialector = codes "postgres";
  log_level = codes "info";
  max_open_conns = pos 50;
  max_idle_conns = pos 0;
  skip_default_tx = true;
  prepare_stmt = true;
  dry_run = false;
  conn_max_lifetime = pos 0;
  conn_max_idle_time = pos 0;
  slow_threshold = pos 0;
  retry_attempts = pos 3;
  retry_delay = pos 1;
  gorm_config = some tt;
}

connected :
    new_gorm late (some local) ≡ (2, returned (ok (record no_limits { max_open_conns = pos 50 })))
unfolding new_gorm text_eq lookup
connected = refl

given_up :
    new_gorm late (some (record local { retry_attempts = pos 1 }))
    ≡ (1, returned (err (record { wraps = "ErrDatabaseConnectionFailed" ∷ "down" ∷ [] })))
unfolding new_gorm text_eq lookup
given_up = refl

new_gorm_negative_test :
    new_gorm late (some (record local { retry_attempts = negsuc 0 })) ≡ (0, panicked)
unfolding validate_gorm_config get_driver_dialector_func text_eq lookup
new_gorm_negative_test =
    new_gorm_negative late (record local { retry_attempts = negsuc 0 }) postgres 0 (refl, refl) refl

-- A database of two rows.
abbrev two_rows : Sql Unit Unit ℕ
two_rows = record {
  open_ = λ w driver dsn. (w, ok tt);
  ping = λ w d. (w, none);
  close = λ w d. (w, none);
  query = λ w d q. (w, ok (record { rows = 1 ∷ 2 ∷ []; err_ = none }));
}

abbrev no_error : Option Error
no_error = none

abbrev numbers : List ℕ
numbers = 1 ∷ 2 ∷ []

abbrev as_they_are : ScanFunc ℕ ℕ
as_they_are row = ok row

abbrev connector : Connector Unit ℕ ℕ
connector = record { db = tt; scan = as_they_are }

query_sql_iff_example :
    ((query_sql two_rows connector tt []).1 ≡ ok numbers)
    ↔ ((no_error ≡ none) × AreScanned as_they_are numbers numbers)
query_sql_iff_example =
    query_sql_iff two_rows connector tt tt [] (record { rows = numbers; err_ = none }) numbers refl

-- A world that is the list of what was executed, with two files of which one is for SQL.
abbrev seeds : List DirEntry
seeds =
    record { name = codes "a.sql"; is_dir = false }
    ∷ record { name = codes "notes.md"; is_dir = false }
    ∷ []

abbrev env : Env (List Text) Unit Unit
env = record {
  ctx_err = λ w. none;
  exists_ = λ w path. true;
  abs = λ w path. ok path;
  read_dir = λ w path. ok seeds;
  read_file = λ w path. ok path;
  join = λ folder name. folder ++ codes "/" ++ name;
  open_ = λ w driver dsn. (w, ok tt);
  ping = λ w d. (w, none);
  close = λ w d. w;
  exec = λ w d content. (content ∷ w, none);
  with_instance = λ w dialect d. (w, ok tt);
  new_instance = λ w path dialect d. (w, ok tt);
  version = λ w m. (3, true, none);
  up = λ w m. (w, none);
}

abbrev migrator : Migrator Unit Unit
migrator = record {
  db = tt;
  migrate_ = tt;
  config = record {
    dsn = codes "dsn";
    dialector = codes "mysql";
    migrations_path = codes "migrations";
    population_path = codes "seeds";
  };
}

seeded : populate env migrator [] ≡ (codes "seeds/a.sql" ∷ [], none)
unfolding populate text_eq ext
seeded = refl

dirty_refused : migrate env migrator [] ≡ ([], some (sentinel "ErrDatabaseDirtyState"))
unfolding migrate
dirty_refused = refl

migrate-Migrated_test : Migrated env migrator [] (migrate env migrator [])
migrate-Migrated_test = migrate-Migrated env migrator []
