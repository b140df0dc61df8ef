-- ===== src/Graphics/Passes.antt =====
-- graphics/renderer.c and the passes of graphics/: lists of what is drawn, changed by messages. A
-- pass that has a context sends its messages to the render thread, else it handles them at once.
-- `none` is a fault of the program.
pub mod Delete
pub mod Kinds
pub mod Lights
use intense_logic.Base.{
  ℕ, zero, suc, ◌+◌, ◌-◌, ◌*◌, ◌/◌, ◌%◌, ◌^◌, ◌≤◌, ◌<◌, min, ◌≡◌, refl, sym, ap, ap₂, ◌∙◌, ◌≢◌, ◌↔◌,
  ◌⊎◌, inl, inr, Bool, true, false, not, ◌&&◌, ◌||◌, Option, none, some, List, [], ◌∷◌, ◌++◌, map,
  append-nil, append_assoc, arith, ltb, leb, ◌==◌, if◌then◌else◌, length, get_elem?, get_or, set,
  take, drop, replicate, copy_at, Bool-cases, dec_lt, ℕ_discrete,
}
use mathlib.Core.Option
use intense_logic.Base.{◌>>=◌}
use intense_logic.Array.{Array, contents, empty, append, fastremove, find_from, find}

-- `ilG_renderer`: the addresses of the object and of its table of functions
pub record Renderer : Type 0 where
  pub obj : ℕ
  pub vtable : ℕ

-- `il_positionable`, `ilG_light`, as far as the passes go
pub record PositionId : Type 0 where
  pub id : ℕ
  pub world : ℕ

pub record Light : Type 0 where
  pub positionable : PositionId
  pub bytes : List ℕ  -- the other fields, in memory

-- What a message is sent with
pub data Payload : Type 0 where
  positionable : PositionId → Payload
  renderer : Renderer → Payload
  light : Light → Payload

-- The numbers in `ilG_renderable`; 0 stands for those that are not positive.
pub record Renderable : Type 0 where
  pub add_positionable : ℕ
  pub del_positionable : ℕ
  pub add_renderer : ℕ
  pub del_renderer : ℕ
  pub add_light : ℕ
  pub del_light : ℕ

-- What is given to `push_msg`, `none` where the renderer does not implement it.
abbrev pub pushed : ℕ → Payload → Option (ℕ × Payload)
pushed type payload = if type == 0 then none else some (type, payload)

-- `ilG_renderer_addPositionable` and the like
unfoldable pub renderer_add_positionable : Renderable → PositionId → Option (ℕ × Payload)
renderer_add_positionable r p = pushed r.add_positionable (positionable p)

unfoldable pub renderer_del_positionable : Renderable → PositionId → Option (ℕ × Payload)
renderer_del_positionable r p = pushed r.del_positionable (positionable p)

unfoldable pub renderer_add_renderer : Renderable → Renderer → Option (ℕ × Payload)
renderer_add_renderer r n = pushed r.add_renderer (renderer n)

unfoldable pub renderer_del_renderer : Renderable → Renderer → Option (ℕ × Payload)
renderer_del_renderer r n = pushed r.del_renderer (renderer n)

unfoldable pub renderer_add_light : Renderable → Light → Option (ℕ × Payload)
renderer_add_light r l = pushed r.add_light (light l)

unfoldable pub renderer_del_light : Renderable → Light → Option (ℕ × Payload)
renderer_del_light r l = pushed r.del_light (light l)

module _ {A : Type 0} where
  -- The loop of `context_del_renderer` over all entries but the last, and its test of the last one;
  -- the result is whether it found the entry. The bound of the loop wraps for the empty list.
  unfoldable pub del_entry : (A → Bool) → Array A → Option (Bool × Array A)
  del_entry same a =
      let n = a.length - 1 in
      let i = find_from same (take n a.mem) 0 in
      if a.length == 0
      then none
      else if ltb i n
      then Option.map (λ b. (true, b)) (fastremove a i)
      else Option.map (λ y. if same y then (true, record a { length = n }) else (false, a))
          (get_elem? a.mem n)

-- A pass with its entries and its context, if it is built
pub record Pass (A : Type 0) : Type 0 where
  pub entries : Array A
  pub context : Option ℕ

-- A message in the queue of a context: the context, the number of the message and what it is about.
abbrev pub Sent : Type 0 → Type 0
Sent A = Option (ℕ × ℕ × A)

module _ {A : Type 0} (add : Array A → A → Array A) (del : Array A → A → Option (Array A)) where
  -- `geometry_message` and the like: 1 adds and 2 deletes, any other number is an error.
  unfoldable pub pass_message : Pass A → ℕ → A → Option (Pass A)
  pass_message p type v =
      if type == 1
      then some (record p { entries = add p.entries v })
      else if type == 2
      then Option.map (λ a. record p { entries = a }) (del p.entries v)
      else some p

  -- `geometry_push_msg` and the like
  unfoldable pub pass_push_msg : Pass A → ℕ → A → Option (Pass A × Sent A)
  pass_push_msg p type v = elim (p.context) [
    | some ctx ↦ some (p, some (ctx, type, v))
    | none ↦ Option.map (λ q. (q, none)) (pass_message p type v)
  ]
