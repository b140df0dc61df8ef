-- ===== src/Graphics/Frames/Average.antt =====
-- graphics/context.c: the average time of a frame.
use intense_logic.Base.{ℕ, ◌+◌, ◌*◌, ◌/◌, ◌%◌, ◌≤◌, ◌<◌, ◌≡◌, arith, dec_lt}
use native.Mathlib.Nat.{mul-le-mul_left, mul-div-le, lt-mul-div-succ, mod-lt, mod-add-div}
use intense_logic.Util.Timer.{Timeval, micros}
use intense_logic.Graphics.Frames.{average_of}

-- `q` and `r` divide the seconds, `b` and `c` are the quotients of the microseconds and of the
-- seconds that are left.
module _ (n q r b c sec usec : ℕ) where
  less_than_second : usec < 1000000 → r < n → n * b ≤ usec → n * c ≤ r * 1000000 → b + c < 1000000
  less_than_second h l f g = elim (dec_lt (b + c) 1000000) [
    | yes k ↦ k
    | no k ↦ absurd (grind (arith, mul-le-mul_left {m = 1000000} {n = b + c} n (omega arith)))
  ]

  scaled :
      usec < 1000000
      → r < n
      → r + n * q ≡ sec
      → n * b ≤ usec
      → usec < n * (b + 1)
      → n * c ≤ r * 1000000
      → r * 1000000 < n * (c + 1)
      → (b + c < 1000000)
        × (n * (q * 1000000 + (b + c)) ≤ sec * 1000000 + usec)
        × (sec * 1000000 + usec < n * (q * 1000000 + (b + c) + 2))
  scaled h l e f g f' g' = (less_than_second h l f f', grind arith, grind arith)

-- The average counts less than a second of microseconds. As many times the average as there are
-- frames is at most the sum, and misses less than two microseconds for each frame.
pub average_of_bounds :
    (sum : Timeval) (n : ℕ)
    → sum.tv_usec < 1000000
    → 0 < n
    → ((average_of sum n).tv_usec < 1000000)
      × (n * micros (average_of sum n) ≤ micros sum)
      × (micros sum < n * (micros (average_of sum n) + 2))
unfolding average_of
average_of_bounds sum n h p =
    scaled n (sum.tv_sec / n) (sum.tv_sec % n) (sum.tv_usec / n) (sum.tv_sec % n * 1000000 / n)
      sum.tv_sec sum.tv_usec h (mod-lt sum.tv_sec p) (mod-add-div sum.tv_sec n)
      (mul-div-le sum.tv_usec n) (lt-mul-div-succ sum.tv_usec p)
      (mul-div-le (sum.tv_sec % n * 1000000) n) (lt-mul-div-succ (sum.tv_sec % n * 1000000) p)
