-- ===== src/Graphics/Gui.antt =====
-- graphics/gui/frame.c: frames inside frames, where they are, and the clicks and drawing that they
-- pass on. Callbacks are taken to leave the frames as they are, and an `int` not to overflow. `none`
-- is a fault of the program, or a recursion that does not end.
pub mod Place
pub mod Click
pub mod Members
mod Tests
use intense_logic.Base.{
  ℕ, zero, suc, ◌+◌, ◌-◌, ◌*◌, ◌/◌, ◌%◌, ◌^◌, ◌≤◌, ◌<◌, min, ◌≡◌, refl, sym, ap, ap₂, ◌∙◌, ◌≢◌, ◌↔◌,
  ◌⊎◌, inl, inr, Bool, true, false, not, ◌&&◌, ◌||◌, Option, none, some, List, [], ◌∷◌, ◌++◌, map,
  append-nil, append_assoc, arith, ltb, leb, ◌==◌, if◌then◌else◌, length, get_elem?, get_or, set,
  take, drop, replicate, copy_at, Bool-cases, dec_lt, ℕ_discrete,
}
use intense_logic.Base.{◌>>=◌, ℤ, pos, int_lt, int_add, int_sub}
use mathlib.Core.Option
use intense_logic.Array.{Array, Layout, contents, append, remove, find}

-- The arithmetic of C on floats, and the conversions from and to `int`
pub record Floats (F : Type 0) : Type 0 where
  pub zero_f : F
  pub add : F → F → F
  pub mul : F → F → F
  pub of_int : ℤ → F
  pub to_int : F → ℤ

-- `ilG_gui_coord`
pub record Coord (F : Type 0) : Type 0 where
  pub x : ℤ
  pub y : ℤ
  pub xp : F
  pub yp : F

-- `ilG_gui_rect`
pub record Rect (F : Type 0) : Type 0 where
  pub a : Coord F
  pub b : Coord F

-- `enum ilG_gui_inputaction`, and its order
pub data InputAction : Type 0 where
  unhandled : InputAction
  passthrough : InputAction
  override : InputAction

abbrev pub level : InputAction → ℕ
level unhandled = 0
level passthrough = 1
level override = 2

abbrev pub is_override : InputAction → Bool
is_override override = true
is_override _ = false

-- `ilG_gui_frame`; a frame is known by its number. `draws` says whether `draw` is set, `build` is
-- what that callback returns and `message` says whether it is set.
pub record Frame (F : Type 0) : Type 0 where
  pub parent : Option ℕ
  pub rect : Rect F
  pub click : Option (ℤ → ℤ → ℕ → InputAction)
  pub draws : Bool
  pub build : Option Bool
  pub message : Bool
  pub children : Array ℕ
  pub context : Option ℕ
  pub complete : Bool

abbrev pub FrameStore : Type 0 → Type 0
FrameStore F = ℕ → Option (Frame F)

-- The loop of `ilG_gui_click` over the children; `go` is the call for a child.
unfoldable pub click_children : (ℕ → Option InputAction) → List ℕ → InputAction → Option InputAction
click_children go [] res = some res
click_children go (f ∷ fs) res = go f >>= λ res2.
    (let higher = if ltb (level res) (level res2) then res2 else res in
      if is_override higher then some override else click_children go fs higher)

-- What the frame's own callback returns
abbrev pub own_click : {F : Type 0} → Frame F → ℤ → ℤ → ℕ → InputAction
own_click fr x y button = elim (fr.click) [ some h ↦ h x y button | none ↦ unhandled ]

module _ {F : Type 0} (c : Floats F) where
  -- One line of `computecoordabs`: `coord + size * percent + parent`, in floats
  unfoldable pub place_at : ℤ → ℤ → F → ℤ → ℤ
  place_at coord size percent parent =
      c.to_int (c.add (c.add (c.of_int coord) (c.mul (c.of_int size) percent)) (c.of_int parent))

  -- `computecoordabs`
  unfoldable pub compute_coord_abs : Coord F → Rect F → Coord F
  compute_coord_abs coord parent = record {
    x = place_at coord.x (int_sub (parent.b).x (parent.a).x) coord.xp (parent.a).x;
    y = place_at coord.y (int_sub (parent.b).y (parent.a).y) coord.yp (parent.a).y;
    xp = c.zero_f;
    yp = c.zero_f;
  }

  -- `computerectabs`
  unfoldable pub compute_rect_abs : Rect F → Rect F → Rect F
  compute_rect_abs rect parent = record {
    a = compute_coord_abs rect.a parent;
    b = compute_coord_abs rect.b parent;
  }

  -- `ilG_gui_frame_abs`
  unfoldable pub frame_abs : ℕ → FrameStore F → ℕ → Option (Rect F)
  frame_abs zero s f = none
  frame_abs (suc n) s f = s f >>= λ fr. elim (fr.parent) [
    | some p ↦ frame_abs n s p >>= λ r. some (compute_rect_abs fr.rect r)
    | none ↦ some (record {
      a = record { x = (fr.rect).a.x; y = (fr.rect).a.y; xp = c.zero_f; yp = c.zero_f };
      b = record { x = (fr.rect).b.x; y = (fr.rect).b.y; xp = c.zero_f; yp = c.zero_f };
    })
  ]

  -- The test of `ilG_gui_frame_contains` with the frame's rectangle
  unfoldable pub is_inside : Rect F → Coord F → Bool
  is_inside rect coord =
      let p = compute_coord_abs coord rect in
      not (int_lt p.x (rect.a).x)
      && not (int_lt p.y (rect.a).y)
      && int_lt p.x (rect.b).x
      && int_lt p.y (rect.b).y

  -- `ilG_gui_frame_contains`
  unfoldable pub frame_contains : ℕ → FrameStore F → ℕ → Coord F → Option Bool
  frame_contains n s f coord = frame_abs n s f >>= λ rect. some (is_inside rect coord)

  -- `ilG_gui_click`; `depth` is the fuel for the way up from each frame.
  unfoldable pub click :
      (depth n : ℕ) → FrameStore F → ℤ → ℤ → (button top : ℕ) → Option InputAction
  click depth zero s x y button top = none
  click depth (suc n) s x y button top =
      frame_contains depth s top (record { x = x; y = y; xp = c.zero_f; yp = c.zero_f })
      >>= λ inside.
          if not inside
          then some unhandled
          else (s top >>= λ fr.
              (let res = own_click fr x y button in
                if is_override res
                then some res
                else click_children (click depth n s x y button) (contents fr.children) res))

  -- The loop of `draw` over the children; `go` is the call for a child.
  unfoldable pub draw_children :
      (ℕ → Rect F → Option (List (ℕ × Rect F)))
      → FrameStore F
      → List ℕ
      → Rect F
      → Option (List (ℕ × Rect F))
  draw_children go s [] rect = some []
  draw_children go s (f ∷ fs) rect = s f >>= λ fr. go f (compute_rect_abs fr.rect rect) >>= λ out.
      draw_children go s fs rect >>= λ rest. some (out ++ rest)

  -- `draw`: the calls of `draw` callbacks, in order
  unfoldable pub draw : ℕ → FrameStore F → ℕ → Rect F → Option (List (ℕ × Rect F))
  draw zero s top rect = none
  draw (suc n) s top rect = s top >>= λ fr.
      draw_children (draw n s) s (contents fr.children) rect >>= λ out.
      some (if fr.draws then (top, rect) ∷ out else out)

  -- `ilG_gui_draw`
  unfoldable pub gui_draw : ℕ → FrameStore F → ℕ → Option (List (ℕ × Rect F))
  gui_draw n s top = frame_abs n s top >>= λ rect. draw n s top rect
