-- ===== src/Graphics/Gui/Members.antt =====
-- graphics/gui/frame.c: building frames, and the changes of the children of a frame.
use intense_logic.Base.{
  ℕ, zero, suc, ◌-◌, Bool, true, not, Option, none, some, List, [], ◌∷◌, ltb, ◌==◌, if◌then◌else◌,
  get_elem?, set,
}
use mathlib.Core.Option
use intense_logic.Base.{◌>>=◌}
use intense_logic.Array.{Array, Layout, contents, append, remove, find}
use intense_logic.Graphics.Gui.{Frame, FrameStore}

abbrev with_frame : {F : Type 0} → FrameStore F → ℕ → Frame F → FrameStore F
with_frame s f fr = λ g. if g == f then some fr else s g

-- The loop of `ilG_gui_pop`, which moves the last child to the place of the one that goes
unfoldable pub pop_child : Array ℕ → ℕ → Option (Array ℕ)
pop_child a node =
    let i = find (λ x. x == node) a in
    if ltb i a.length
    then Option.map (λ x. record a { mem = set a.mem i x; length = a.length - 1 })
        (get_elem? a.mem (a.length - 1))
    else some a

module _ {F : Type 0} where
  -- The loop of `frame_build` over the children
  unfoldable pub build_children :
      (FrameStore F → ℕ → Option (FrameStore F × Bool))
      → FrameStore F
      → List ℕ
      → Option (FrameStore F)
  build_children go s [] = some s
  build_children go s (f ∷ fs) = go s f >>= λ (s', ok). build_children go s' fs

  -- `frame_build`: the result of the children is not looked at.
  unfoldable pub frame_build : ℕ → ℕ → FrameStore F → ℕ → Option (FrameStore F × Bool)
  frame_build zero context s f = none
  frame_build (suc n) context s f = s f >>= λ fr.
      (let ok : Bool = elim (fr.build) [ some b ↦ b | none ↦ true ] in
        let s1 = with_frame s f (record fr { context = some context; complete = ok }) in
        build_children (frame_build n context) s1 (contents fr.children) >>= λ s2.
        s2 f >>= λ fr2. some (s2, fr2.complete))

  -- `ilG_gui_addChild`
  unfoldable pub add_child : FrameStore F → ℕ → ℕ → Option (FrameStore F)
  add_child s parent child = s parent >>= λ p.
      (let s1 = with_frame s parent (record p { children = append 0 p.children child }) in
        s1 child >>= λ fr. some (with_frame s1 child (record fr { parent = some parent })))

  -- `ilG_gui_pop`; a frame without a parent is a fault.
  unfoldable pub pop : FrameStore F → ℕ → Option (FrameStore F)
  pop s node = s node >>= λ fr. fr.parent >>= λ parent. s parent >>= λ p.
      pop_child p.children node >>= λ a.
      (let s1 = with_frame s parent (record p { children = a }) in
        s1 node >>= λ fr1. some (with_frame s1 node (record fr1 { parent = none })))

  -- `frame_add_renderer`: the kind of the renderer is tested; the frame's parent is not set.
  unfoldable pub frame_add_renderer : ℕ → Frame F → ℕ × ℕ → Frame F
  frame_add_renderer frame_vtable fr (obj, vtable) =
      if not (vtable == frame_vtable) then fr else record fr { children = append 0 fr.children obj }

  -- `frame_del_renderer`, with `IL_REMOVE`
  unfoldable pub frame_del_renderer : Layout ℕ → Frame F → ℕ × ℕ → Option (Frame F)
  frame_del_renderer l fr (obj, vtable) =
      let i = find (λ x. x == obj) fr.children in
      if ltb i (fr.children).length
      then Option.map (λ a. record fr { children = a }) (remove l fr.children i)
      else some fr

  -- `frame_message`; any other message goes to the callback, which is taken to be set.
  unfoldable pub frame_message : Layout ℕ → ℕ → Frame F → ℕ → ℕ × ℕ → Option (Frame F)
  frame_message l frame_vtable fr type r =
      if type == 1
      then some (frame_add_renderer frame_vtable fr r)
      else if type == 2
      then frame_del_renderer l fr r
      else if fr.message
      then some fr
      else none

  -- `frame_push_msg`, with what goes to the render thread
  unfoldable pub frame_push_msg :
      Layout ℕ → ℕ → Frame F → ℕ → ℕ × ℕ → Option (Frame F × Option (ℕ × ℕ × ℕ × ℕ))
  frame_push_msg l frame_vtable fr type r = elim (fr.context) [
    | some ctx ↦ some (fr, some (ctx, type, r.0, r.1))
    | none ↦ Option.map (λ fr'. (fr', none)) (frame_message l frame_vtable fr type r)
  ]
