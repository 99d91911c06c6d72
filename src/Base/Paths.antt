-- ===== src/Base/Paths.antt =====
-- What the packages use of `path` and `path/filepath`, where `/` is the separator.
use Prim.Native.Nat.{ℕ}
use mathlib.Core.Bool.{Bool, ◌&&◌, not}
use mathlib.Core.List.{[], ◌∷◌}
use gobox.Base.Tests.{◌==◌, if◌then◌else◌}
use gobox.Base.Lists.{any}
use gobox.Base.Text.{Text, codes, is_empty}

-- `/`
abbrev pub slash : ℕ
slash = 47

abbrev pub is_slash : ℕ → Bool
is_slash c = c == slash

-- path.Base: the slashes at the end are left out, and then all up to the last slash.
unfoldable pub strip_slashes : Text → Text
strip_slashes [] = []
strip_slashes (c ∷ s) =
    let rest = strip_slashes s in if is_empty rest && is_slash c then [] else c ∷ rest

unfoldable pub last_element : Text → Text
last_element [] = []
last_element (c ∷ s) =
    let rest = last_element s in if any is_slash s then rest else if is_slash c then s else c ∷ s

abbrev pub or_slash : Text → Text
or_slash [] = codes "/"
or_slash (c ∷ s) = c ∷ s

unfoldable pub base : Text → Text
unfolding strip_slashes last_element
base [] = codes "."
base (c ∷ s) = or_slash (last_element (strip_slashes (c ∷ s)))

-- filepath.Ext: from the last dot of the last element.
unfoldable pub ext : Text → Text
ext [] = []
ext (c ∷ s) =
    let rest = ext s in
    if not (is_empty rest) then rest else if c == 46 && not (any is_slash s) then c ∷ s else []
