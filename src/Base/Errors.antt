-- ===== src/Base/Errors.antt =====
-- Go errors: the sentinels that an error wraps, and results.
use Prim.Native.String.{String}
use mathlib.Core.Path.{◌≡◌, refl}
use mathlib.Core.Logic.{◌⊎◌, inl, inr}
use mathlib.Core.Bool.{Bool, true, false, ◌||◌}
use mathlib.Core.List.{List, [], ◌∷◌}
use native.Mathlib.Omega.{arith}
use text.Mathlib.Text.{◌==◌}
use text.Mathlib.TextPositions.{eq_refl}

-- An error is known by the sentinels that errors.Is finds in it; its text is left out.
-- A sentinel is identified by the name of its variable.
pub record Error : Type 0 where
  pub wraps : List String

-- errors.Is
unfoldable pub wraps_any : List String → String → Bool
wraps_any [] s = false
wraps_any (t ∷ ts) s = (t == s) || wraps_any ts s

unfoldable pub error_is : Error → String → Bool
unfolding wraps_any
error_is e s = wraps_any e.wraps s

-- errors.New, and fmt.Errorf("…%w…", …) with one or two errors
abbrev pub sentinel : String → Error
sentinel s = record { wraps = s ∷ [] }

abbrev pub errorf : Error
errorf = record { wraps = [] }

abbrev pub wrap : String → Error → Error
wrap s e = record { wraps = s ∷ e.wraps }

pub error_is-wrap : (s : String) (e : Error) → error_is (wrap s e) s ≡ true
unfolding error_is
error_is-wrap s e = ground (arith, eq_refl s)

pub data Result {ℓ} (A : Type ℓ) : Type ℓ where
  ok : A → Result A
  err : Error → Result A

pub Result-cases {ℓ} :
    {A : Type ℓ} (r : Result A) → ((a : A) × (r ≡ ok a)) ⊎ ((e : Error) × (r ≡ err e))
Result-cases (ok a) = inl (a, refl)
Result-cases (err e) = inr (e, refl)

infixl 5 ◌>>=◌
abbrev pub ◌>>=◌ {ℓ κ} : {A : Type ℓ} {B : Type κ} → Result A → (A → Result B) → Result B
ok a >>= f = f a
err e >>= f = err e
