-- ===== src/Graphics/Frames.antt =====
-- graphics/context.c: the frames of the last second and their average time. The linked list of
-- frames is the list of its items; `none` is a division by zero.
pub mod Sum
pub mod Average
use intense_logic.Base.{
  ℕ, zero, suc, ◌+◌, ◌-◌, ◌*◌, ◌/◌, ◌%◌, ◌^◌, ◌≤◌, ◌<◌, min, ◌≡◌, refl, sym, ap, ap₂, ◌∙◌, ◌≢◌, ◌↔◌,
  ◌⊎◌, inl, inr, Bool, true, false, not, ◌&&◌, ◌||◌, Option, none, some, List, [], ◌∷◌, ◌++◌, map,
  append-nil, append_assoc, arith, ltb, leb, ◌==◌, if◌then◌else◌, length, get_elem?, get_or, set,
  take, drop, replicate, copy_at, Bool-cases, dec_lt, ℕ_discrete,
}
use intense_logic.Util.Timer.{Timeval, timeradd, timersub}

-- `struct ilG_frame`, without its links
pub record Frame : Type 0 where
  pub start : Timeval
  pub elapsed : Timeval

-- The fields of `ilG_context` for frame times
pub record Frames : Type 0 where
  pub frames : List Frame
  pub frames_sum : Timeval
  pub frames_average : Timeval
  pub num_frames : ℕ

abbrev pub zero_time : Timeval
zero_time = record { tv_sec = 0; tv_usec = 0 }

-- `IL_LIST_POPHEAD` and what follows it, in the loop of `measure_frametime`
unfoldable pub pop_frame : Frames → Frames
pop_frame f = elim (f.frames) [
  | [] ↦ f
  | frame ∷ rest ↦ record f {
    frames = rest;
    frames_sum = timersub f.frames_sum frame.elapsed;
    num_frames = f.num_frames - 1;
  }
]

-- `tv.tv_sec > 0`, for the time since the start of a frame
abbrev pub is_old : Timeval → Frame → Bool
is_old time frame = ltb 0 (timersub time frame.start).tv_sec

-- The loop of `measure_frametime` over the frames that are left to look at: it takes the frame at
-- the head away for each old one.
unfoldable pub drop_old : Timeval → List Frame → Frames → Frames
drop_old time [] f = f
drop_old time (frame ∷ rest) f = drop_old time rest (if is_old time frame then pop_frame f else f)

unfoldable pub last_frame : List Frame → Option Frame
last_frame [] = none
last_frame (x ∷ xs) = elim (last_frame xs) [ none ↦ some x | some y ↦ some y ]

-- The time since the last frame
abbrev pub elapsed_since : Timeval → Option Frame → Timeval
elapsed_since time none = zero_time
elapsed_since time (some last) = timersub time last.start

-- `IL_LIST_APPEND` and what follows it
unfoldable pub add_frame : Timeval → Frames → Frames
add_frame time f =
    let frame : Frame = record {
      start = time;
      elapsed = elapsed_since time (last_frame f.frames);
    } in
    record f {
      frames = f.frames ++ (frame ∷ []);
      frames_sum = timeradd frame.elapsed f.frames_sum;
      num_frames = f.num_frames + 1;
    }

-- The last lines of `measure_frametime`
unfoldable pub average_of : Timeval → ℕ → Timeval
average_of sum n = record {
  tv_sec = sum.tv_sec / n;
  tv_usec = sum.tv_usec / n + sum.tv_sec % n * 1000000 / n;
}

-- `measure_frametime`, at the time that `gettimeofday` gives
unfoldable pub measure_frametime : Timeval → Frames → Frames
measure_frametime time f =
    let g = add_frame time (drop_old time f.frames f) in
    record g { frames_average = average_of g.frames_sum g.num_frames }
