-- ===== src/Graphics/Gui/Tests.antt =====
-- graphics/gui/frame.c on a frame with one child.
use intense_logic.Base.{
  ℕ, zero, suc, ◌-◌, ◌≡◌, refl, ap, true, false, none, some, List, [], ◌∷◌, arith,
}
use intense_logic.Base.{ℤ, pos, int_add, int_add_zero, some-injective}
use mathlib.Core.Path.{subst}
use intense_logic.Array.{contents}
use intense_logic.Graphics.Gui.{
  Floats, Coord, Rect, Frame, FrameStore, override, frame_abs, is_inside, gui_draw, click,
  click_children, frame_contains, compute_rect_abs, compute_coord_abs, place_at,
}
use intense_logic.Graphics.Gui.Place.{
  numbers, with_draw, frames_below, all_below, AllChildren, IsForest, AllPlaced, gui_draw_lem,
  IsWhole, is_inside_lem,
}
use intense_logic.Graphics.Gui.Click.{highest_action, frames_at, click_lem}

-- Integers in place of floats, where a percentage is 0
abbrev whole : Floats ℤ
whole = record {
  zero_f = pos 0;
  add = int_add;
  mul = λ a b. pos 0;
  of_int = λ a. a;
  to_int = λ a. a;
}

abbrev at : ℕ → ℕ → Coord ℤ
at x y = record { x = pos x; y = pos y; xp = pos 0; yp = pos 0 }

abbrev outer_rect : Rect ℤ
outer_rect = record { a = at 10 20; b = at 50 60 }

abbrev outer : Frame ℤ
outer = record {
  parent = none;
  rect = outer_rect;
  click = none;
  draws = false;
  build = none;
  message = false;
  children = record { mem = 1 ∷ []; length = 1; capacity = 1 };
  context = none;
  complete = true;
}

abbrev inner : Frame ℤ
inner = record outer {
  parent = some 0;
  rect = record { a = at 1 2; b = at 5 6 };
  click = some (λ x y button. override);
  draws = true;
  children = record { mem = []; length = 0; capacity = 0 };
}

abbrev frames : FrameStore ℤ
frames zero = some outer
frames (suc zero) = some inner
frames (suc (suc n)) = none

abbrev rank : ℕ → ℕ
rank n = 1 - n

frames-IsForest : IsForest rank frames
unfolding IsForest AllChildren
frames-IsForest zero fr e =
    let same : outer ≡ fr = some-injective e in
    subst (λ fr. AllChildren rank frames 0 (contents fr.children)) same
      ((inner, refl, refl, omega arith), tt)
frames-IsForest (suc zero) fr e =
    subst (λ fr. AllChildren rank frames 1 (contents fr.children)) (some-injective e) tt
frames-IsForest (suc (suc n)) fr e = cc

outer_place : frame_abs whole 2 frames 0 ≡ some outer_rect
unfolding frame_abs
outer_place = refl

gui_draw_lem_example :
    (out : List (ℕ × Rect ℤ)) × (gui_draw whole 2 frames 0 ≡ some out)
    × (numbers out ≡ with_draw frames (frames_below 2 frames 0))
    × AllPlaced whole frames out
gui_draw_lem_example =
    gui_draw_lem whole frames rank 2 0 outer outer_rect frames-IsForest refl (omega arith)
      outer_place

-- Of the two frames, it is the inner one.
drawn_frames : with_draw frames (frames_below 2 frames 0) ≡ 1 ∷ []
unfolding with_draw frames_below all_below
drawn_frames = refl

whole-IsWhole : IsWhole whole
unfolding IsWhole place_at
whole-IsWhole coord size parent = ap (λ a. int_add a parent) (int_add_zero coord)

is_inside_lem_example :
    is_inside whole outer_rect (record { x = pos 5; y = pos 5; xp = pos 0; yp = pos 0 }) ≡ true
is_inside_lem_example = is_inside_lem whole outer_rect (pos 5) (pos 5) whole-IsWhole

all_placed :
    (f : ℕ) (fr : Frame ℤ)
    → frames f ≡ some fr
    → (rect : Rect ℤ) × (frame_abs whole 2 frames f ≡ some rect)
unfolding frame_abs
all_placed zero fr e = (outer_rect, refl)
all_placed (suc zero) fr e = (compute_rect_abs whole inner.rect outer_rect, refl)
all_placed (suc (suc n)) fr e = cc

-- The inner frame takes the click, in the middle of the outer one.
click_lem_example :
    click whole 2 2 frames (pos 3) (pos 3) 1 0
    ≡ some (
        highest_action whole frames
          (pos 3)
          (pos 3)
          1
          (frames_at whole frames (pos 3) (pos 3) 2 2 0))
click_lem_example =
    click_lem whole 2 frames rank 2 (pos 3) (pos 3) 1 0 outer frames-IsForest all_placed refl
      (omega arith)

clicked : click whole 2 2 frames (pos 3) (pos 3) 1 0 ≡ some override
unfolding click frame_contains frame_abs is_inside compute_coord_abs compute_rect_abs place_at
    click_children
clicked = refl
