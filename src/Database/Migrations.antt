-- ===== src/Database/Migrations.antt =====
-- database/migrate/migrator.go: the migrator. `W` is the world: the database, the files and the context.
use gobox.Base.{ℕ, Bool, not, ◌||◌, Option, none, some, List, [], ◌∷◌, ◌++◌, if◌then◌else◌}
use gobox.Base.Text.{Text, codes, is_empty, text_eq}
use gobox.Base.Errors.{Error, Result, ok, err, sentinel, wrap, error_is}
use gobox.Base.Paths.{ext}

pub record MigrateConfig : Type 0 where
  pub dsn : Text
  pub dialector : Text
  pub migrations_path : Text
  pub population_path : Text

pub record Migrator (D M : Type 0) : Type 0 where
  pub db : D
  pub migrate_ : M
  pub config : MigrateConfig

-- The drivers of golang-migrate.
pub data Dialect : Type 0 where
  postgres : Dialect
  mysql : Dialect
  sqlite3 : Dialect

-- An entry of a folder.
pub record DirEntry : Type 0 where
  pub name : Text
  pub is_dir : Bool

-- What is used of the context, of os, of database/sql and of golang-migrate: `M` is its instance.
-- `exists_` is false if os.Stat answers that there is no such file, and `version` answers the version,
-- whether it is dirty, and an error.
pub record Env (W D M : Type 0) : Type 0 where
  pub ctx_err : W → Option Error
  pub exists_ : W → Text → Bool
  pub abs : W → Text → Result Text
  pub read_dir : W → Text → Result (List DirEntry)
  pub read_file : W → Text → Result Text
  pub join : Text → Text → Text
  pub open_ : W → Text → Text → W × Result D
  pub ping : W → D → W × Option Error
  pub close : W → D → W
  pub exec : W → D → Text → W × Option Error
  pub with_instance : W → Dialect → D → W × Result D
  pub new_instance : W → Text → Text → D → W × Result M
  pub version : W → M → ℕ × Bool × Option Error
  pub up : W → M → W × Option Error

abbrev pub dialect_of : Text → Option Dialect
dialect_of s =
    if text_eq s (codes "postgres")
    then some postgres
    else if text_eq s (codes "mysql")
    then some mysql
    else if text_eq s (codes "sqlite3")
    then some sqlite3
    else none

abbrev pub is_skipped : DirEntry → Bool
is_skipped file = file.is_dir || not (text_eq (ext file.name) (codes ".sql"))

-- After a pass of the loop of `Populate`: the rest, unless the pass has failed.
abbrev pub continued : {W : Type 0} → W × Option Error → W × Option Error → W × Option Error
continued (w, some e) rest = (w, some e)
continued (w, none) rest = rest

abbrev pub version_error : Option Error → Option Error
version_error none = none
version_error (some e) =
    if error_is e "ErrNilVersion" then none else some (wrap "ErrGetVersionFailed" e)

module _ {W D M : Type 0} (v : Env W D M) where
  -- `validateMigrateConfig`
  unfoldable pub validate_migrate_config : W → MigrateConfig → Option Error
  validate_migrate_config w config =
      if is_empty config.dsn
      then some (sentinel "ErrDSNRequired")
      else if is_empty config.dialector
      then some (sentinel "ErrDialectorRequired")
      else elim (dialect_of config.dialector) [
        | none ↦ some (sentinel "ErrUnsupportedDialect")
        | some dialect ↦
            if is_empty config.migrations_path
            then some (sentinel "ErrMigrationsPathRequired")
            else if not (v.exists_ w config.migrations_path)
            then some (sentinel "ErrInvalidMigrationsPath")
            else none
      ]

  -- `createDatabaseDriver`
  unfoldable pub create_database_driver : W → Text → D → W × Result D
  create_database_driver w dialector db = elim (dialect_of dialector) [
    | some dialect ↦ v.with_instance w dialect db
    | none ↦ (w, err (sentinel "ErrUnsupportedDialect"))
  ]

  abbrev instance_of : W × Result M → W × Result M
  instance_of (w, ok m) = (w, ok m)
  instance_of (w, err e) = (w, err (wrap "ErrMigrateInstanceFailed" e))

  abbrev with_driver : MigrateConfig → W × Result D → W × Result M
  with_driver config (w, err e) = (w, err e)
  with_driver config (w, ok driver) = elim (v.abs w config.migrations_path) [
    | err e ↦ (w, err (wrap "ErrAbsolutePathFailed" e))
    | ok path ↦ instance_of (v.new_instance w (codes "file://" ++ path) config.dialector driver)
  ]

  -- `initMigrate`
  unfoldable pub init_migrate : W → MigrateConfig → D → W × Result M
  unfolding create_database_driver
  init_migrate w config db = with_driver config (create_database_driver w config.dialector db)

  abbrev initialised : MigrateConfig → D → W × Result M → W × Result (Migrator D M)
  initialised config db (w, err e) = (v.close w db, err e)
  initialised config db (w, ok m) = (w, ok (record { db = db; migrate_ = m; config = config }))

  abbrev pinged : MigrateConfig → D → W × Option Error → W × Result (Migrator D M)
  pinged config db (w, some e) = (v.close w db, err (wrap "ErrDatabasePingFailed" e))
  pinged config db (w, none) = initialised config db (init_migrate w config db)

  abbrev opened : MigrateConfig → W × Result D → W × Result (Migrator D M)
  opened config (w, err e) = (w, err (wrap "ErrDatabaseConnectionFailed" e))
  opened config (w, ok db) = pinged config db (v.ping w db)

  -- `New`
  unfoldable pub new_migrator : W → MigrateConfig → W × Result (Migrator D M)
  unfolding validate_migrate_config init_migrate
  new_migrator w config = elim (validate_migrate_config w config) [
    | some e ↦ (w, err (wrap "ErrInvalidConfig" e))
    | none ↦ opened config (v.open_ w config.dialector config.dsn)
  ]

  -- The end of `Migrate`, on what Up answers.
  abbrev pub after_up : W × Option Error → W × Option Error
  after_up (w, some e) =
      (w, if error_is e "ErrNoChange" then none else some (wrap "ErrMigrationFailed" e))
  after_up (w, none) = elim (v.ctx_err w) [ none ↦ (w, none) | some e ↦ (w, some e) ]

  abbrev pub versioned : Migrator D M → W → ℕ × Bool × Option Error → W × Option Error
  versioned m w (number, dirty, failed) = elim (version_error failed) [
    | some e ↦ (w, some e)
    | none ↦
        if dirty then (w, some (sentinel "ErrDatabaseDirtyState")) else after_up (v.up w m.migrate_)
  ]

  -- `Migrate`
  unfoldable pub migrate : Migrator D M → W → W × Option Error
  migrate m w = elim (v.ctx_err w) [
    | some e ↦ (w, some e)
    | none ↦ versioned m w (v.version w m.migrate_)
  ]

  abbrev pub executed : W × Option Error → W × Option Error
  executed (w, some e) = (w, some (wrap "ErrPopulateExecutionFailed" e))
  executed (w, none) = (w, none)

  -- A pass of the loop of `Populate` for a file that is not skipped.
  abbrev pub run_file : Migrator D M → W → DirEntry → W × Option Error
  run_file m w file = elim (v.ctx_err w) [
    | some e ↦ (w, some e)
    | none ↦ elim (v.read_file w (v.join m.config.population_path file.name)) [
      | err e ↦ (w, some (wrap "ErrReadPopulateFile" e))
      | ok content ↦ executed (v.exec w m.db content)
    ]
  ]

  -- The loop of `Populate` over the entries that are left.
  unfoldable pub run_files : Migrator D M → List DirEntry → W → W × Option Error
  run_files m [] w = (w, none)
  run_files m (file ∷ files) w =
      let x = run_file m w file in
      let skipping = run_files m files w in
      let rest = run_files m files x.0 in if is_skipped file then skipping else continued x rest

  -- `Populate`
  unfoldable pub populate : Migrator D M → W → W × Option Error
  unfolding run_files
  populate m w =
      if is_empty m.config.population_path
      then (w, none)
      else elim (v.read_dir w m.config.population_path) [
        | err e ↦ (w, some (wrap "ErrReadPopulationDirectory" e))
        | ok files ↦ run_files m files w
      ]
