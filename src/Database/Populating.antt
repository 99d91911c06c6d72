-- ===== src/Database/Populating.antt =====
-- What Migrate and Populate of database/migrate/migrator.go do to the database.
use gobox.Base.{
  ℕ, ◌≡◌, refl, Bool, false, Option, none, some, List, [], ◌∷◌, if◌then◌else◌, ap, inl, inr,
  Bool-cases, Option-cases, ◌∙◌,
}
use gobox.Base.Text.{Text}
use gobox.Base.Errors.{Error, ok, sentinel}
use gobox.Database.Migrations.{
  Migrator, DirEntry, Env, is_skipped, run_file, migrate, version_error, after_up, versioned,
}

-- The files that Populate takes of a folder: those that end in .sql, in the folder's order.
abbrev pub sql_files : List DirEntry → List DirEntry
sql_files [] = []
sql_files (file ∷ files) = if is_skipped file then sql_files files else file ∷ sql_files files

module _ {W D M : Type 0} (v : Env W D M) (m : Migrator D M) where
  -- Files that are executed one after the other, each while the context lives, to the end or to the
  -- first that fails.
  pub data Executed : W → List DirEntry → W × Option Error → Type 0 where
    finished : {w : W} → Executed w [] (w, none)
    next :
        {w after : W} {file : DirEntry} {files : List DirEntry} {x : W × Option Error}
        {content : Text}
        → v.ctx_err w ≡ none
        → v.read_file w (v.join m.config.population_path file.name) ≡ ok content
        → v.exec w m.db content ≡ (after, none)
        → Executed after files x
        → Executed w (file ∷ files) x
    failed :
        {w after : W} {file : DirEntry} {files : List DirEntry} {e : Error}
        → run_file v m w file ≡ (after, some e)
        → Executed w (file ∷ files) (after, some e)

  -- What Migrate ends with: before Up, at a database as it was, or by Up on a database that is not
  -- dirty, while the context lived.
  pub data Migrated (w : W) : W × Option Error → Type 0 where
    refused : (e : Error) → Migrated w (w, some e)
    upgraded :
        {number : ℕ} {failure : Option Error}
        → v.ctx_err w ≡ none
        → v.version w m.migrate_ ≡ (number, false, failure)
        → version_error failure ≡ none
        → Migrated w (after_up v (v.up w m.migrate_))

  versioned-Migrated :
      (w : W) (x : ℕ × Bool × Option Error)
      → v.ctx_err w ≡ none
      → v.version w m.migrate_ ≡ x
      → Migrated w (versioned v m w x)
  versioned-Migrated w (number, dirty, failure) alive is =
      elim (Option-cases (version_error failure)) [
        | inr (e, bad) ↦ rw (versioned, bad) (refused e)
        | inl good ↦ elim (Bool-cases dirty) [
          | inl is_dirty ↦
              rw (versioned, good, is_dirty) (refused (sentinel "ErrDatabaseDirtyState"))
          | inr is_clean ↦
              rw (versioned, good, is_clean)
                (upgraded alive (is ∙ ap (λ b. (number, b, failure)) is_clean) good)
        ]
      ]

  -- Migrate never touches a database that is dirty, whose version cannot be read, or after its context
  -- has ended: it answers an error there, and otherwise what comes of Up.
  pub migrate-Migrated : (w : W) → Migrated w (migrate v m w)
  unfolding migrate
  migrate-Migrated w = elim (Option-cases (v.ctx_err w)) [
    | inr (e, is) ↦ rw (migrate, is) (refused e)
    | inl alive ↦ rw (migrate, alive) (versioned-Migrated w (v.version w m.migrate_) alive refl)
  ]
