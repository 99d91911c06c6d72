-- ===== src/Retry/Backoff.antt =====
-- The waiting times of retry/retry.go, without overflow.
use native.Mathlib.Nat.{pow-suc, one-le-pow}
use gobox.Base.{ℕ, zero, suc, ◌-◌, ◌*◌, ◌^◌, ◌≤◌, ◌<◌, min, ◌≡◌, refl, ap, arith}
use gobox.Base.Int.{pos}
use gobox.Retry.{double64, backoff_loop, backoff}

double64-pos : (d : ℕ) → d < 2 ^ 62 → double64 (pos d) ≡ pos (2 * d)
unfolding double64
double64-pos d h = ground arith

mul-pow-suc : (d rounds : ℕ) → d * 2 ^ suc rounds ≡ 2 * d * 2 ^ rounds
mul-pow-suc d rounds = rw pow-suc (omega arith)

le-mul-pow : (x rounds : ℕ) → x ≤ x * 2 ^ rounds
le-mul-pow x rounds = grind (arith, one-le-pow rounds 2 (omega arith))

backoff_loop-eq-min :
    (rounds d max : ℕ)
    → d ≤ max
    → max < 2 ^ 62
    → backoff_loop rounds (pos d) (pos max) ≡ pos (min (d * 2 ^ rounds) max)
unfolding backoff_loop
backoff_loop-eq-min zero d max h k = ap pos (omega arith)
backoff_loop-eq-min (suc rounds) d max h k =
    rw (double64-pos d (omega arith), backoff_loop)
      (ground (
        arith,
        mul-pow-suc d rounds,
        le-mul-pow (2 * d) rounds,
        backoff_loop-eq-min rounds (2 * d) max,
      ))

-- For 0 ≤ waitMin ≤ waitMax < 2^62, the wait before the retry that follows attempt number
-- `attempt` is waitMin * 2^(attempt - 1), capped at waitMax.
backoff-eq-min :
    (attempt wait_min wait_max : ℕ)
    → wait_min ≤ wait_max
    → wait_max < 2 ^ 62
    → backoff attempt (pos wait_min) (pos wait_max)
      ≡ pos (min (wait_min * 2 ^ (attempt - 1)) wait_max)
unfolding backoff
backoff-eq-min attempt wait_min wait_max h k =
    backoff_loop-eq-min (attempt - 1) wait_min wait_max h k

-- A waitMin above waitMax is returned as it is at the first attempt: the cap is only applied
-- after a doubling.
pub backoff_first : (wait_min wait_max : ℕ) → backoff 1 (pos wait_min) (pos wait_max) ≡ pos wait_min
unfolding backoff backoff_loop
backoff_first wait_min wait_max = refl
