-- ===== src/Graphics/Context.antt =====
-- graphics/context.c: the settings of a context, its size, and what the render thread does with
-- messages. The calls of OpenGL and SDL are left out: `complete` says whether the framebuffer is
-- complete. Effects are what leaves the context.
pub mod Round
use intense_logic.Base.{
  ℕ, zero, suc, ◌+◌, ◌-◌, ◌*◌, ◌/◌, ◌%◌, ◌^◌, ◌≤◌, ◌<◌, min, ◌≡◌, refl, sym, ap, ap₂, ◌∙◌, ◌≢◌, ◌↔◌,
  ◌⊎◌, inl, inr, Bool, true, false, not, ◌&&◌, ◌||◌, Option, none, some, List, [], ◌∷◌, ◌++◌, map,
  append-nil, append_assoc, arith, ltb, leb, ◌==◌, if◌then◌else◌, length, get_elem?, get_or, set,
  take, drop, replicate, copy_at, Bool-cases, dec_lt, ℕ_discrete,
}
use intense_logic.Graphics.Queue.{Msg, upload, resize, stop, message}

-- `ilG_context`, the fields that the code here changes; `camera` and `world` say whether they are set.
-- `profile` is the number in `enum ilG_context_profile`. The int fields are taken not to be negative.
pub record Context : Type 0 where
  pub width : ℕ
  pub height : ℕ
  pub valid : Bool
  pub complete : Bool
  pub camera : Bool
  pub world : Bool
  pub context_major : ℕ
  pub context_minor : ℕ
  pub forward_compat : ℕ
  pub profile : ℕ
  pub debug_context : ℕ
  pub experimental : ℕ
  pub start_width : ℕ
  pub start_height : ℕ
  pub hdr : ℕ
  pub use_default_fb : Bool
  pub debug_render : ℕ
  pub vsync : ℕ

-- `ilG_context_new`, not on Apple's systems
abbrev pub context_new : Context
context_new = record {
  width = 0;
  height = 0;
  valid = false;
  complete = false;
  camera = false;
  world = false;
  context_major = 3;
  context_minor = 1;
  forward_compat = 0;
  profile = 0;
  debug_context = 0;
  experimental = 1;
  start_width = 800;
  start_height = 600;
  hdr = 0;
  use_default_fb = false;
  debug_render = 0;
  vsync = 0;
}

-- `enum ilG_context_hint`
pub data Hint : Type 0 where
  hint_major : Hint
  hint_minor : Hint
  hint_forward_compat : Hint
  hint_profile : Hint
  hint_debug_context : Hint
  hint_experimental : Hint
  hint_width : Hint
  hint_height : Hint
  hint_hdr : Hint
  hint_use_default_fb : Hint
  hint_debug_render : Hint
  hint_vsync : Hint

-- `ilG_context_hint`
unfoldable pub context_hint : Context → Hint → ℕ → Context
context_hint c hint_major p = record c { context_major = p }
context_hint c hint_minor p = record c { context_minor = p }
context_hint c hint_forward_compat p = record c { forward_compat = p }
context_hint c hint_profile p = record c { profile = p }
context_hint c hint_debug_context p = record c { debug_context = p }
context_hint c hint_experimental p = record c { experimental = p }
context_hint c hint_width p = record c { start_width = p }
context_hint c hint_height p = record c { start_height = p }
context_hint c hint_hdr p = record c { hdr = p }
context_hint c hint_use_default_fb p = record c { use_default_fb = not (p == 0) }
context_hint c hint_debug_render p = record c { debug_render = p }
context_hint c hint_vsync p = record c { vsync = p }

pub data Effect : Type 0 where
  resized : (w h : ℕ) → Effect
  called : (cb ptr : ℕ) → Effect
  delivered : (node type value : ℕ) → Effect
  ticked : Effect
  drawn : Effect

-- `context_resize`: the size is stored first; the handler is fired unless the framebuffer is not
-- complete.
unfoldable pub context_resize : Bool → Context → ℕ → ℕ → Context × List Effect
context_resize complete c w h =
    let sized : Context = record c { width = w; height = h } in
    if c.use_default_fb || complete
    then (record sized { valid = true }, resized w h ∷ [])
    else (sized, [])

-- `setup_context`: a valid profile is at most `ILG_CONTEXT_COMPAT`, which is 2; `window` says whether
-- SDL makes the window.
unfoldable pub setup_context : Bool → Context → Context
setup_context window c =
    if c.complete
    then c
    else if not (leb c.profile 2)
    then c
    else if not window
    then c
    else record c { width = c.start_width; height = c.start_height }

-- `ilG_context_start`: the thread is started only with a camera and a world; `created` says whether
-- it could be.
unfoldable pub context_start : Bool → Bool → Context → Context × Bool
context_start window created c =
    if not c.camera
    then (c, false)
    else if not c.world
    then (c, false)
    else (setup_context window c, created)

-- The messages of one round of `render_thread`; the result says whether to go on.
unfoldable pub process : Bool → Context → List Msg → Bool × Context × List Effect
process complete c [] = (true, c, [])
process complete c (upload cb ptr ∷ rest) =
    let (go, c', out) = process complete c rest in (go, c', called cb ptr ∷ out)
process complete c (resize w h ∷ rest) =
    let (c1, out1) = context_resize complete c w h in
    let (go, c', out) = process complete c1 rest in (go, c', out1 ++ out)
process complete c (stop ∷ rest) = (false, c, [])
process complete c (message node type value ∷ rest) =
    let (go, c', out) = process complete c rest in (go, c', delivered node type value ∷ out)

-- The end of a round: the size is that of the window, and the frame is drawn.
unfoldable pub follow_window : Bool → Context → ℕ → ℕ → Context × List Effect
follow_window complete c w h =
    if not (w == c.width) || not (h == c.height)
    then (let (c', out) = context_resize complete c w h in (c', out ++ (drawn ∷ [])))
    else (c, drawn ∷ [])

-- One round of the loop of `render_thread`, for a context that is valid, with the
-- messages in the queue and the window's size
unfoldable pub round : Bool → Context → List Msg → ℕ → ℕ → Bool × Context × List Effect
round complete c msgs w h =
    let (go, c1, out) = process complete c msgs in
    let (c2, out2) = follow_window complete c1 w h in
    if go then (true, c2, ticked ∷ (out ++ out2)) else (false, c1, ticked ∷ out)
