-- ===== src/Common/Event.antt =====
-- common/event.c: handlers with callbacks in the order of their priorities, and the pending events.
-- The event loop itself is libevent's. `none` is a fault of the program.
pub mod Register
pub mod Fire
pub mod Forget
pub mod Pending
use intense_logic.Base.{
  ℕ, zero, suc, ◌+◌, ◌-◌, ◌*◌, ◌/◌, ◌%◌, ◌^◌, ◌≤◌, ◌<◌, min, ◌≡◌, refl, sym, ap, ap₂, ◌∙◌, ◌≢◌, ◌↔◌,
  ◌⊎◌, inl, inr, Bool, true, false, not, ◌&&◌, ◌||◌, Option, none, some, List, [], ◌∷◌, ◌++◌, map,
  append-nil, append_assoc, arith, ltb, leb, ◌==◌, if◌then◌else◌, length, get_elem?, get_or, set,
  take, drop, replicate, copy_at, Bool-cases, dec_lt, ℕ_discrete,
}
use intense_logic.Base.{ℤ, pos, int_lt, ◌>>=◌}
use mathlib.Core.Option
use intense_logic.Array.{Array, Layout, empty, contents, append, insert, remove, find}

-- `enum ilE_threading`
pub data Threading : Type 0 where
  any : Threading
  main : Threading
  tls : Threading

-- `enum ilE_fdevent`, a set of flags, as its number; `enum handler_type`, with the union `data`.
pub data HandlerType : Type 0 where
  normal_hnd : HandlerType
  file_hnd : (fd what : ℕ) → HandlerType
  timer_hnd : (tv_sec tv_usec : ℕ) → HandlerType

-- `struct callback`: a name is its bytes before the NUL. `C` is the type of the functions, `V` that
-- of the values.
pub record Callback (C V : Type 0) : Type 0 where
  pub callback : Option C
  pub priority : ℤ
  pub threading : Threading
  pub name : List ℕ
  pub handle : ℕ
  pub ctx : V

-- `struct ilE_handler`
pub record Handler (C V : Type 0) : Type 0 where
  pub callbacks : Array (Callback C V)
  pub type : HandlerType
  pub name : List ℕ
  pub cur_id : ℕ

-- "Normal Handler"
abbrev normal_name : List ℕ
normal_name = 78 ∷ 111 ∷ 114 ∷ 109 ∷ 97 ∷ 108 ∷ 32 ∷ 72 ∷ 97 ∷ 110 ∷ 100 ∷ 108 ∷ 101 ∷ 114 ∷ []

module _ {C V : Type 0} where
  -- `ilE_handler_new`
  unfoldable pub handler_new : Handler C V
  handler_new = record { callbacks = empty; type = normal_hnd; name = normal_name; cur_id = 0 }

  -- `ilE_handler_name`: `strcpy` to 128 bytes.
  unfoldable pub handler_name : Handler C V → List ℕ → Option (Handler C V)
  handler_name h name = if ltb (length name) 128 then some (record h { name = name }) else none

  -- `ilE_handler_new_with_name`
  unfoldable pub handler_new_with_name : List ℕ → Option (Handler C V)
  handler_new_with_name name = handler_name handler_new name

  -- `callbacks.data[i].priority > cb.priority`
  abbrev pub is_after : Callback C V → Callback C V → Bool
  is_after cb c = int_lt cb.priority c.priority

  -- The place of a new callback, for `ilE_register_real`.
  unfoldable pub place :
      Callback C V → Array (Callback C V) → Callback C V → Option (Array (Callback C V))
  place z a cb =
      let i = find (is_after cb) a in
      if ltb i a.length then insert z a i cb else some (append z a cb)

  -- `ilE_register_real`; `nil` is a value of zero bytes.
  unfoldable pub register_real :
      V → Handler C V → List ℕ → ℤ → Threading → Option C → V → Option (ℕ × Handler C V)
  register_real nil h name priority threads callback ctx =
      let z : Callback C V = record {
        callback = none;
        priority = pos 0;
        threading = any;
        name = [];
        handle = 0;
        ctx = nil;
      } in
      let cb : Callback C V = record {
        callback = callback;
        priority = priority;
        threading = threads;
        name = name;
        handle = h.cur_id;
        ctx = ctx;
      } in
      if ltb (length name) 128
      then Option.map (λ a. (h.cur_id, record h { callbacks = a; cur_id = h.cur_id + 1 }))
          (place z h.callbacks cb)
      else none

  -- `ilE_unregister`, and whether it found the callback
  unfoldable pub unregister : Layout (Callback C V) → Handler C V → ℕ → Option (Bool × Handler C V)
  unregister l h handle =
      let i = find (λ c. c.handle == handle) h.callbacks in
      if ltb i (h.callbacks).length
      then Option.map (λ a. (true, record h { callbacks = a })) (remove l h.callbacks i)
      else some (false, h)

  -- The calls of `ilE_handler_fire_forced`: `run` is what a callback does to its context and to
  -- the rest of the program. A callback that changes the handler itself is left out.
  unfoldable pub fire_list :
      {St : Type 0}
      → (C → V → V → St → V × St)
      → V
      → List (Callback C V)
      → St
      → List (Callback C V) × St
  fire_list run value [] st = ([], st)
  fire_list run value (c ∷ cs) st = elim (c.callback) [
    | none ↦ let rest = fire_list run value cs st in (c ∷ rest.0, rest.1)
    | some f ↦
        let r = run f value c.ctx st in
        let rest = fire_list run value cs (r.1) in (record c { ctx = r.0 } ∷ rest.0, rest.1)
  ]

  -- `ilE_handler_fire_forced`
  unfoldable pub fire_forced :
      {St : Type 0} → (C → V → V → St → V × St) → Handler C V → V → St → Handler C V × St
  fire_forced run h value st =
      let a = h.callbacks in
      let r = fire_list run value (contents a) st in
      (record h { callbacks = record a { mem = r.0 ++ drop a.length a.mem } }, r.1)

  -- `ilE_handler_fire`: only a normal handler can be fired by the user.
  unfoldable pub fire :
      {St : Type 0} → (C → V → V → St → V × St) → Handler C V → V → St → Handler C V × St
  fire run h value st = elim (h.type) [ normal_hnd ↦ fire_forced run h value st | _ ↦ (h, st) ]

abbrev pub is_null : Option ℕ → Bool
is_null none = true
is_null (some e) = false

-- The end of `ilE_handler_fireasync`: the event at the address `ev` takes the first free slot.
unfoldable pub add_pending : Array (Option ℕ) → ℕ → Array (Option ℕ)
add_pending a ev =
    let i = find is_null a in
    if ltb i a.length then record a { mem = set a.mem i (some ev) } else append none a (some ev)

abbrev pub cleared : ℕ → Option ℕ → Option ℕ
cleared ev none = none
cleared ev (some e) = if e == ev then none else some e

-- The start of `normal_dispatch`: the slots of the event are set to NULL.
unfoldable pub clear_pending : Array (Option ℕ) → ℕ → Array (Option ℕ)
clear_pending a ev = record a { mem = map (cleared ev) (contents a) ++ drop a.length a.mem }

-- The loop of `ilE_handler_destroy` over the persistent handlers, with `n` rounds left at index `i`.
unfoldable pub forget_from : ℕ → ℕ → Array ℕ → ℕ → Array ℕ
forget_from zero i a self = a
forget_from (suc n) i a self =
    let gone = record a {
      mem = set a.mem i (get_or a.mem (a.length - 1) 0);
      length = a.length - 1;
    } in
    let next = forget_from n (i + 1) (if get_or a.mem i 0 == self then gone else a) self in
    if ltb i a.length then next else a

-- `ilE_handler_destroy`, as far as the persistent handlers go
unfoldable pub forget : Array ℕ → ℕ → Array ℕ
forget a self = forget_from a.length 0 a self
