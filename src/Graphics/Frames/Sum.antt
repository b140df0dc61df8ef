-- ===== src/Graphics/Frames/Sum.antt =====
-- graphics/context.c: the sum that is kept for the frames is that of the frames in the list.
use intense_logic.Base.{
  ℕ, ◌+◌, ◌-◌, ◌≤◌, ◌<◌, ◌≡◌, inl, inr, Option, none, some, List, [], ◌∷◌, ◌++◌, arith, length,
  Bool-cases,
}
use intense_logic.Base.{length-append}
use intense_logic.Util.Timer.{Timeval, timeradd, timersub, micros}
use intense_logic.Graphics.Frames.{
  Frame, Frames, pop_frame, is_old, drop_old, last_frame, elapsed_since, add_frame,
  measure_frametime,
}

unfoldable pub total : List Frame → ℕ
total [] = 0
total (x ∷ xs) = micros x.elapsed + total xs

unfoldable pub AllNormal : List Frame → Type 0
AllNormal [] = Unit {0}
AllNormal (x ∷ xs) = (x.start.tv_usec < 1000000) × (x.elapsed.tv_usec < 1000000) × AllNormal xs

-- The sum and the number of the frames in the list
pub record IsSummed (f : Frames) : Type 0 where
  pub summed : micros f.frames_sum ≡ total f.frames
  pub normal_sum : f.frames_sum.tv_usec < 1000000
  pub normal : AllNormal f.frames
  pub counted : f.num_frames ≡ length f.frames

total-append : (xs ys : List Frame) → total (xs ++ ys) ≡ total xs + total ys
unfolding total
total-append [] ys = omega arith
total-append (x ∷ xs) ys = omega (arith, total-append xs ys)

AllNormal-append : (xs ys : List Frame) → AllNormal xs → AllNormal ys → AllNormal (xs ++ ys)
unfolding AllNormal
AllNormal-append [] ys h k = k
AllNormal-append (x ∷ xs) ys h k = (h.0, h.1, AllNormal-append xs ys h.2 k)

-- A difference is normalised, and counts the microseconds that are left.
timersub_normal :
    (a b : Timeval) → a.tv_usec < 1000000 → b.tv_usec < 1000000 → (timersub a b).tv_usec < 1000000
unfolding timersub
timersub_normal a b h k = ground arith

micros-timersub :
    (a b : Timeval)
    → a.tv_usec < 1000000
    → b.tv_usec < 1000000
    → micros b ≤ micros a
    → micros (timersub a b) ≡ micros a - micros b
unfolding timersub
micros-timersub a b h k l = ground arith

abbrev IsNormalStart : Option Frame → Type 0
IsNormalStart none = Unit {0}
IsNormalStart (some x) = x.start.tv_usec < 1000000

last_of_cons :
    (x : Frame) (o : Option Frame)
    → x.start.tv_usec < 1000000
    → IsNormalStart o
    → IsNormalStart (elim o [ none ↦ some x | some y ↦ some y ])
last_of_cons x none h k = h
last_of_cons x (some y) h k = k

last_frame_normal : (xs : List Frame) → AllNormal xs → IsNormalStart (last_frame xs)
unfolding AllNormal last_frame
last_frame_normal [] h = tt
last_frame_normal (x ∷ xs) h = last_of_cons x (last_frame xs) h.0 (last_frame_normal xs h.2)

elapsed_normal :
    (time : Timeval) (o : Option Frame)
    → time.tv_usec < 1000000
    → IsNormalStart o
    → (elapsed_since time o).tv_usec < 1000000
elapsed_normal time none h k = omega arith
elapsed_normal time (some x) h k = timersub_normal time x.start h k

abbrev frames_of : List Frame → Timeval → Timeval → ℕ → Frames
frames_of l s a n = record { frames = l; frames_sum = s; frames_average = a; num_frames = n }

pop_list :
    (l : List Frame) (s a : Timeval) (n : ℕ)
    → IsSummed (frames_of l s a n)
    → IsSummed (pop_frame (frames_of l s a n))
unfolding pop_frame total AllNormal
pop_list [] s a n v = v
pop_list (x ∷ xs) s a n v =
    let e = micros-timersub s x.elapsed v.normal_sum (v.normal).1 (omega (arith, v.summed)) in
    record {
      summed = omega (arith, e, v.summed);
      normal_sum = timersub_normal s x.elapsed v.normal_sum (v.normal).1;
      normal = (v.normal).2;
      counted = omega (arith, v.counted);
    }

drop_old-IsSummed :
    (time : Timeval) (l : List Frame) (f : Frames) → IsSummed f → IsSummed (drop_old time l f)
unfolding drop_old
drop_old-IsSummed time [] f v = v
drop_old-IsSummed time (x ∷ xs) f v = elim (Bool-cases (is_old time x)) [
  | inl e ↦ rw e (
      drop_old-IsSummed time xs (pop_frame f)
        (pop_list f.frames f.frames_sum f.frames_average f.num_frames v))
  | inr e ↦ rw e (drop_old-IsSummed time xs f v)
]

add_frame-IsSummed :
    (time : Timeval) (f : Frames)
    → time.tv_usec < 1000000
    → IsSummed f
    → IsSummed (add_frame time f)
unfolding add_frame total AllNormal timeradd
add_frame-IsSummed time f h v =
    let n = elapsed_normal time (last_frame f.frames) h (last_frame_normal f.frames v.normal) in
    let frame : Frame = record {
      start = time;
      elapsed = elapsed_since time (last_frame f.frames);
    } in
    record {
      summed = omega (arith, v.summed, v.normal_sum, n, total-append f.frames (frame ∷ []));
      normal_sum = omega arith;
      normal = AllNormal-append f.frames _ v.normal (h, n, tt);
      counted = omega (arith, v.counted, length-append f.frames (frame ∷ []));
    }

-- Measuring a frame keeps the sum of the times of the frames in the list and their number, and
-- there is a frame to divide by.
pub measure_frametime-IsSummed :
    (time : Timeval) (f : Frames)
    → time.tv_usec < 1000000
    → IsSummed f
    → IsSummed (measure_frametime time f) × (0 < (measure_frametime time f).num_frames)
unfolding measure_frametime add_frame
measure_frametime-IsSummed time f h v =
    let w =
      add_frame-IsSummed time (drop_old time f.frames f) h (drop_old-IsSummed time f.frames f v) in
    (
      record {
        summed = w.summed;
        normal_sum = w.normal_sum;
        normal = w.normal;
        counted = w.counted;
      },
      omega arith,
    )
