-- ===== src/Logger/Leveled.antt =====
-- The levels of the records that API of logger/zerolog.go makes.
use gobox.Base.{ℕ, ◌≡◌, ◌↔◌, ◌≤◌, ◌<◌, false, ◌||◌, List, arith}
use gobox.Base.Text.{Text, is_empty}
use gobox.Base.Int.{ℤ, pos}
use gobox.Logger.Levels.{Zero, Zerolog, Level, error, warn, info, get_status_level, api}

-- The level by the number of a status.
abbrev pub IsLevelOf : ℕ → Level → Type 0
IsLevelOf status level =
    ((level ≡ error) ↔ (500 ≤ status))
    × ((level ≡ warn) ↔ ((400 ≤ status) × (status < 500)))
    × (status < 400 → level ≡ info)

get_status_level-IsLevelOf : (status : ℕ) → IsLevelOf status (get_status_level (pos status))
unfolding get_status_level
get_status_level-IsLevelOf status = (ground arith, ground arith, ground arith)

-- The record that API makes of a request with a method and a path has the level error exactly for a
-- status from 500 on, warn exactly from 400 to 499, and info below.
pub api-IsLevelOf :
    (z : Zero) (zl : Zerolog) (method path remote_addr : Text) (status : ℕ) (duration : ℤ)
    (skip_frame_count : List ℤ)
    → is_empty method || is_empty path ≡ false
    → IsLevelOf status
        (api z zl method path remote_addr (pos status) duration skip_frame_count).level
unfolding api
api-IsLevelOf z zl method path remote_addr status duration skip_frame_count h =
    rw (api, h) (get_status_level-IsLevelOf status)
