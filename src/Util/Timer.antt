-- ===== src/Util/Timer.antt =====
-- util/timer.h: `struct timeval` as seconds and microseconds.
use intense_logic.Base.{
  ℕ, ◌+◌, ◌-◌, ◌*◌, ◌/◌, ◌%◌, ◌<◌, ◌≡◌, arith, ltb, if◌then◌else◌, ap₂, le→ltb_false, lt→ltb,
  dec_lt,
}

pub record Timeval : Type 0 where
  pub tv_sec : ℕ
  pub tv_usec : ℕ

-- `timeradd`
unfoldable pub timeradd : Timeval → Timeval → Timeval
timeradd a b = record {
  tv_sec = a.tv_sec + b.tv_sec + (a.tv_usec + b.tv_usec) / 1000000;
  tv_usec = (a.tv_usec + b.tv_usec) % 1000000;
}

-- `timersub`, of a time that is not before the other.
unfoldable pub timersub : Timeval → Timeval → Timeval
timersub a b =
    if ltb a.tv_usec b.tv_usec
    then record { tv_sec = a.tv_sec - b.tv_sec - 1; tv_usec = a.tv_usec + 1000000 - b.tv_usec }
    else record { tv_sec = a.tv_sec - b.tv_sec; tv_usec = a.tv_usec - b.tv_usec }

abbrev pub micros : Timeval → ℕ
micros t = t.tv_sec * 1000000 + t.tv_usec

-- A sum of two times that are normalised is normalised, and counts the microseconds of both; the
-- difference gives the first back.
pub timersub-timeradd :
    (a b : Timeval)
    → a.tv_usec < 1000000
    → b.tv_usec < 1000000
    → (micros (timeradd a b) ≡ micros a + micros b)
      × ((timeradd a b).tv_usec < 1000000)
      × (timersub (timeradd a b) b ≡ a)
unfolding timeradd timersub
timersub-timeradd a b h k = (
  omega arith,
  omega arith,
  elim (dec_lt ((a.tv_usec + b.tv_usec) % 1000000) b.tv_usec) [
    | yes borrow ↦
        rw (lt→ltb ((a.tv_usec + b.tv_usec) % 1000000) b.tv_usec borrow)
          (ap₂ (λ x y. record { tv_sec = x; tv_usec = y }) (omega arith) (omega arith))
    | no whole ↦
        rw (le→ltb_false ((a.tv_usec + b.tv_usec) % 1000000) b.tv_usec (omega arith))
          (ap₂ (λ x y. record { tv_sec = x; tv_usec = y }) (omega arith) (omega arith))
  ],
)
