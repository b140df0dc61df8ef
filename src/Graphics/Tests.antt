-- ===== src/Graphics/Tests.antt =====
-- graphics/ on a few messages, frames and entries.
use intense_logic.Base.{
  ℕ, ◌+◌, ◌-◌, ◌*◌, ◌≤◌, ◌<◌, ◌≡◌, refl, ◌≢◌, true, false, some, List, [], ◌∷◌, ◌++◌, arith, ltb,
  ◌==◌, if◌then◌else◌,
}
use mathlib.Core.Option
use intense_logic.Array.{Array, fastremove, find}
use intense_logic.Util.Timer.{Timeval, micros, timersub, timeradd}
use intense_logic.Graphics.Queue.{
  Consumer, Producer, Msg, resize, Queue, waiting, filled, allocate, queue_init, System, link_tail,
  move_tail, send, link, publish, reclaiming, by_producer, Reach, start, later, initial,
}
use intense_logic.Graphics.Queue.Safety.{no_broken_access, handled_in_order}
use intense_logic.Graphics.Queue.Drain.{Runs, Drained, all_handled, at}
use intense_logic.Graphics.Context.{context_new, round}
use intense_logic.Graphics.Context.Round.{has_stop, round_lem}
use intense_logic.Base.{not, false}
use intense_logic.Graphics.Heightmap.{Vertex, heightmap_mesh}
use intense_logic.Graphics.Heightmap.Cells.{heightmap_mesh_lem}
use intense_logic.Base.{Option, length, get_elem?}
use intense_logic.Graphics.Frames.{
  Frames, measure_frametime, average_of, drop_old, add_frame, last_frame,
}
use intense_logic.Graphics.Frames.Sum.{IsSummed, total, AllNormal, measure_frametime-IsSummed}
use intense_logic.Graphics.Frames.Average.{average_of_bounds}
use intense_logic.Graphics.Passes.{Light, del_entry}
use intense_logic.Graphics.Passes.Delete.{del_entry_lem}
use intense_logic.Graphics.Passes.Kinds.{light_eq, lights_del_light}
use intense_logic.Graphics.Passes.Lights.{lights_del_light_wrong}

-- One message is sent.
sending : Reach (record initial { queue = allocate queue_init (resize 8 6); producer = filled 1 })
sending = later start (by_producer (send (resize 8 6)))

no_broken_access_example : (filled 1 ≢ Producer.broken) × (waiting ≢ Consumer.broken)
no_broken_access_example = no_broken_access sending

handled_in_order_example : (rest : List Msg) × (◌≡◌ {A = List Msg} [] ([] ++ rest))
handled_in_order_example = handled_in_order sending

-- The message is in the queue.
abbrev one_queued : Queue
one_queued = move_tail (link_tail (allocate queue_init (resize 8 6)) 1) 1

sent_one : Reach (at one_queued reclaiming waiting (resize 8 6 ∷ []) [])
unfolding allocate
sent_one =
    later (later sending (by_producer (link {n = 1} refl)))
      (by_producer (publish {q = link_tail (allocate queue_init (resize 8 6)) 1} {n = 1}))

all_handled_example :
    (n : ℕ) × (t : System) × (n ≤ 4 * (one_queued.tail - one_queued.head))
    × Runs n (at one_queued reclaiming waiting (resize 8 6 ∷ []) []) t
    × Drained (at one_queued reclaiming waiting (resize 8 6 ∷ []) []) t
all_handled_example = all_handled one_queued reclaiming (resize 8 6 ∷ []) [] sent_one

-- One frame, of 20 milliseconds
abbrev one_frame : Frames
one_frame = record {
  frames =
      record {
        start = record { tv_sec = 5; tv_usec = 0 };
        elapsed = record { tv_sec = 0; tv_usec = 20000 };
      }
      ∷ [];
  frames_sum = record { tv_sec = 0; tv_usec = 20000 };
  frames_average = record { tv_sec = 0; tv_usec = 20000 };
  num_frames = 1;
}

one_frame-IsSummed : IsSummed one_frame
unfolding total AllNormal
one_frame-IsSummed = record {
  summed = refl;
  normal_sum = omega arith;
  normal = (omega arith, omega arith, tt);
  counted = refl;
}

abbrev now : Timeval
now = record { tv_sec = 5; tv_usec = 30000 }

measure_frametime-IsSummed_example :
    IsSummed (measure_frametime now one_frame) × (0 < (measure_frametime now one_frame).num_frames)
measure_frametime-IsSummed_example =
    measure_frametime-IsSummed now one_frame (omega arith) one_frame-IsSummed

measured : (measure_frametime now one_frame).frames_average ≡ record { tv_sec = 0; tv_usec = 25000 }
unfolding measure_frametime drop_old timersub add_frame last_frame timeradd average_of
measured = refl

average_of_bounds_example :
    ((average_of now 3).tv_usec < 1000000)
    × (3 * micros (average_of now 3) ≤ micros now)
    × (micros now < 3 * (micros (average_of now 3) + 2))
average_of_bounds_example = average_of_bounds now 3 (omega arith) (omega arith)

abbrev two_entries : Array ℕ
two_entries = record { mem = 4 ∷ 6 ∷ []; length = 2; capacity = 2 }

del_entry_lem_example : del_entry (λ x. x == 4) two_entries ≡ (
    if ltb (find (λ x. x == 4) two_entries) 2
    then Option.map (λ b. (true, b)) (fastremove two_entries (find (λ x. x == 4) two_entries))
    else some (false, two_entries))
del_entry_lem_example =
    del_entry_lem (λ x. x == 4) two_entries (record { storage = refl; fits = omega arith })
      (omega arith)

abbrev light_at : ℕ → Light
light_at n = record { positionable = record { id = n; world = 1 }; bytes = 7 ∷ [] }

abbrev two_lights : Array Light
two_lights = record { mem = light_at 4 ∷ light_at 6 ∷ []; length = 2; capacity = 2 }

lights_del_light_wrong_example :
    (light_eq (light_at 4) (light_at 6) ≡ false
      → lights_del_light two_lights (light_at 6) ≡ fastremove two_lights 0)
    × (light_eq (light_at 4) (light_at 6) ≡ true
        → ◌≡◌ {A = List Light} (light_at 6 ∷ []) []
        → lights_del_light two_lights (light_at 6) ≡ some two_lights)
lights_del_light_wrong_example =
    lights_del_light_wrong two_lights (light_at 6) (light_at 4) (light_at 6 ∷ [])
      (record { storage = refl; fits = omega arith }) refl

-- The size that is asked for is not the window's.
round_lem_example :
    let (go, c, out) = round true context_new (resize 8 6 ∷ []) 4 3 in
    (go ≡ not (has_stop (resize 8 6 ∷ [])))
    × ((if has_stop (resize 8 6 ∷ []) then 4 else c.width) ≡ 4)
    × ((if has_stop (resize 8 6 ∷ []) then 3 else c.height) ≡ 3)
round_lem_example = round_lem true context_new (resize 8 6 ∷ []) 4 3

heightmap_mesh_lem_example :
    (mesh : List (Option Vertex)) × (heightmap_mesh 3 2 ≡ some ((2 - 1) * ((3 - 1) * 6), mesh))
    × (length mesh ≡ 3 * 2 * 6)
    × ((v : Vertex) × (get_elem? mesh 11 ≡ some (some v)))
heightmap_mesh_lem_example = heightmap_mesh_lem 3 2 11 (omega arith) (omega arith)
