-- ===== src/Graphics/Passes/Kinds.antt =====
-- graphics/context_renderer.c, geometrypass.c, transparencypass.c, legacyrenderer.c, lightpass.c: the
-- lists of the passes. Lights are compared byte by byte.
use intense_logic.Base.{◌=b◌}
use intense_logic.Base.{ℕ, Bool, not, ◌&&◌, Option, some, [], ltb, ◌==◌, if◌then◌else◌}
use mathlib.Core.Option
use intense_logic.Array.{Array, append, fastremove, find}
use intense_logic.Graphics.Passes.{
  Renderer, PositionId, Light, Pass, Sent, del_entry, pass_message, pass_push_msg,
}

-- An entry of zero bytes
abbrev no_renderer : Renderer
no_renderer = record { obj = 0; vtable = 0 }

abbrev pub no_position : PositionId
no_position = record { id = 0; world = 0 }

abbrev no_light : Light
no_light = record { positionable = no_position; bytes = [] }

abbrev same_obj : Renderer → Renderer → Bool
same_obj node r = r.obj == node.obj

abbrev pub deleted : {A : Type 0} → Option (Bool × Array A) → Option (Array A)
deleted o = Option.map (λ r. r.1) o

-- graphics/context_renderer.c
unfoldable pub context_add_renderer : Array Renderer → Renderer → Array Renderer
context_add_renderer a r = append no_renderer a r

unfoldable pub context_del_renderer : Array Renderer → Renderer → Option (Bool × Array Renderer)
context_del_renderer a node = del_entry (same_obj node) a

unfoldable pub context_message : Pass Renderer → ℕ → Renderer → Option (Pass Renderer)
context_message p type v =
    pass_message context_add_renderer (λ a r. deleted (context_del_renderer a r)) p type v

unfoldable pub context_push_msg :
    Pass Renderer → ℕ → Renderer → Option (Pass Renderer × Sent Renderer)
context_push_msg p type v =
    pass_push_msg context_add_renderer (λ a r. deleted (context_del_renderer a r)) p type v

-- graphics/geometrypass.c
unfoldable pub geometry_add_renderer : Array Renderer → Renderer → Array Renderer
geometry_add_renderer a r = append no_renderer a r

unfoldable pub geometry_del_renderer : Array Renderer → Renderer → Option (Bool × Array Renderer)
geometry_del_renderer a node = del_entry (same_obj node) a

unfoldable pub geometry_message : Pass Renderer → ℕ → Renderer → Option (Pass Renderer)
geometry_message p type v =
    pass_message geometry_add_renderer (λ a r. deleted (geometry_del_renderer a r)) p type v

unfoldable pub geometry_push_msg :
    Pass Renderer → ℕ → Renderer → Option (Pass Renderer × Sent Renderer)
geometry_push_msg p type v =
    pass_push_msg geometry_add_renderer (λ a r. deleted (geometry_del_renderer a r)) p type v

-- graphics/transparencypass.c
unfoldable pub trans_add_renderer : Array Renderer → Renderer → Array Renderer
trans_add_renderer a r = append no_renderer a r

unfoldable pub trans_del_renderer : Array Renderer → Renderer → Option (Bool × Array Renderer)
trans_del_renderer a node = del_entry (same_obj node) a

unfoldable pub trans_message : Pass Renderer → ℕ → Renderer → Option (Pass Renderer)
trans_message p type v =
    pass_message trans_add_renderer (λ a r. deleted (trans_del_renderer a r)) p type v

unfoldable pub trans_push_msg :
    Pass Renderer → ℕ → Renderer → Option (Pass Renderer × Sent Renderer)
trans_push_msg p type v =
    pass_push_msg trans_add_renderer (λ a r. deleted (trans_del_renderer a r)) p type v

-- graphics/legacyrenderer.c
abbrev pub pos_eq : PositionId → PositionId → Bool
pos_eq p q = p.id == q.id && p.world == q.world

unfoldable pub legacy_add_positionable : Array PositionId → PositionId → Array PositionId
legacy_add_positionable a p = append no_position a p

unfoldable pub legacy_del_positionable :
    Array PositionId → PositionId → Option (Bool × Array PositionId)
legacy_del_positionable a p = del_entry (λ q. pos_eq q p) a

unfoldable pub legacy_message : Pass PositionId → ℕ → PositionId → Option (Pass PositionId)
legacy_message p type v =
    pass_message legacy_add_positionable (λ a r. deleted (legacy_del_positionable a r)) p type v

unfoldable pub legacy_push_msg :
    Pass PositionId → ℕ → PositionId → Option (Pass PositionId × Sent PositionId)
legacy_push_msg p type v =
    pass_push_msg legacy_add_positionable (λ a r. deleted (legacy_del_positionable a r)) p type v

-- graphics/lightpass.c
abbrev pub light_eq : Light → Light → Bool
light_eq l k = pos_eq l.positionable k.positionable && l.bytes =b k.bytes

unfoldable pub lights_add_light : Array Light → Light → Array Light
lights_add_light a l = append no_light a l

-- `memcmp` gives 0 for equal lights, so the search stops at the first light that differs.
unfoldable pub lights_del_light : Array Light → Light → Option (Array Light)
lights_del_light a l =
    let i = find (λ var. not (light_eq var l)) a in
    if ltb i a.length then fastremove a i else some a

unfoldable pub lights_message : Pass Light → ℕ → Light → Option (Pass Light)
lights_message p type v = pass_message lights_add_light lights_del_light p type v

unfoldable pub lights_push_msg : Pass Light → ℕ → Light → Option (Pass Light × Sent Light)
lights_push_msg p type v = pass_push_msg lights_add_light lights_del_light p type v
