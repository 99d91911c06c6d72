-- ===== src/Base/Dict/Distinct.antt =====
-- Maps in which each key stands once, and what a sweep over them leaves.
use mathlib.Core.Path.{◌≡◌, refl}
use mathlib.Core.Bool.{Bool}
use mathlib.Core.Option.{Option, none, some}
use mathlib.Core.List.{List, [], ◌∷◌}
use native.Mathlib.Omega.{arith}
use gobox.Base.Tests.{if◌then◌else◌}
use gobox.Base.Text.{Text, text_eq_iff}
use gobox.Base.Dict.{lookup, insert, delete, retain, lookup-insert, lookup-delete}

module _ {ℓ} {V : Type ℓ} where
  abbrev pub HasDistinctKeys : List (Text × V) → Type ℓ
  HasDistinctKeys [] = Unit
  HasDistinctKeys ((j, v) ∷ m) = (lookup j m ≡ none) × HasDistinctKeys m

  abbrev pub keep : (V → Bool) → Option V → Option V
  keep p none = none
  keep p (some v) = if p v then some v else none

  pub lookup-retain :
      (p : V → Bool) (k : Text) (m : List (Text × V))
      → HasDistinctKeys m
      → lookup k (retain p m) ≡ keep p (lookup k m)
  unfolding lookup retain
  lookup-retain p k [] h = refl
  lookup-retain p k ((j, v) ∷ m) h = ground (arith, text_eq_iff j k, lookup-retain p k m h.1)

  pub insert-HasDistinctKeys :
      (k : Text) (v : V) (m : List (Text × V)) → HasDistinctKeys m → HasDistinctKeys (insert k v m)
  unfolding insert
  insert-HasDistinctKeys k v [] h = (unfold lookup in refl, tt)
  insert-HasDistinctKeys k v ((j, w) ∷ m) h = ground (
    arith,
    text_eq_iff j k,
    text_eq_iff k j,
    lookup-insert k j v m,
    insert-HasDistinctKeys k v m h.1,
  )

  pub retain-HasDistinctKeys :
      (p : V → Bool) (m : List (Text × V)) → HasDistinctKeys m → HasDistinctKeys (retain p m)
  unfolding retain
  retain-HasDistinctKeys p [] h = h
  retain-HasDistinctKeys p ((j, w) ∷ m) h =
      ground (arith, lookup-retain p j m h.1, retain-HasDistinctKeys p m h.1)

  pub delete-HasDistinctKeys :
      (k : Text) (m : List (Text × V)) → HasDistinctKeys m → HasDistinctKeys (delete k m)
  unfolding delete
  delete-HasDistinctKeys k [] h = h
  delete-HasDistinctKeys k ((j, w) ∷ m) h =
      ground (arith, lookup-delete k j m, delete-HasDistinctKeys k m h.1)
