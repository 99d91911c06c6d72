-- ===== src/Database/Opening.antt =====
-- How New of database/gorm/gorm.go opens a connection.
use gobox.Base.{ℕ, ◌+◌, ◌≤◌, ◌<◌, ◌≡◌, refl, none, some}
use gobox.Base.Errors.{Error, Result, ok, err}
use gobox.Base.Int.{negsuc}
use gobox.Database.Gorm.{
  GormConfig, Driver, Orm, panicked, connect, new_gorm, validate_gorm_config,
  get_driver_dialector_func,
}

abbrev pub Fails : {C : Type 0} → Result C → Type 0
Fails {C} r = (e : Error) × (r ≡ err e)

-- The passes from the i-th on, when so many are left after it: the last of them is the first that
-- succeeds, or all fail.
abbrev pub IsTried : {C : Type 0} → (ℕ → Result C) → ℕ → ℕ → ℕ × Result C → Type 0
IsTried open_at left i (sleeps, r) =
    (sleeps ≤ left)
    × (r ≡ open_at (i + sleeps))
    × ((k : ℕ) → k < sleeps → Fails (open_at (i + k)))
    × (Fails (open_at (i + sleeps)) → sleeps ≡ left)

-- A configuration that passes the checks, with the driver of its dialector.
abbrev pub IsOpenable : {G : Type 0} → GormConfig G → Driver → Type 0
IsOpenable cfg driver =
    (validate_gorm_config cfg ≡ none) × (get_driver_dialector_func cfg.dialector ≡ ok driver)

-- With a negative RetryAttempts, New of a valid configuration opens nothing and panics.
pub new_gorm_negative :
    {G C : Type 0} (o : Orm G C) (cfg : GormConfig G) (driver : Driver) (n : ℕ)
    → IsOpenable cfg driver
    → cfg.retry_attempts ≡ negsuc n
    → new_gorm o (some cfg) ≡ (0, panicked)
unfolding new_gorm connect
new_gorm_negative o cfg driver n (valid, known) h = rw (new_gorm, valid, known, h) refl
