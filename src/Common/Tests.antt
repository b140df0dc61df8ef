-- ===== src/Common/Tests.antt =====
-- common/ on a small world and a small handler.
use intense_logic.Base.{◌⊎◌, contains}
use intense_logic.Base.{
  inr, inl, ◌≢◌, Bool-cases, some-injective, ℕ, zero, suc, ◌≡◌, refl, sym, ◌∙◌, true, false, Option,
  none, some, [], ◌∷◌, arith, ◌==◌, if◌then◌else◌, get_elem?,
}
use intense_logic.Base.{pos}
use intense_logic.Array.{Array, contents}
use intense_logic.Array.Valid.{IsValid, empty-IsValid}
use intense_logic.Math.Naturals.{naturals}
use intense_logic.Common.World.{step, next_on, World, positionable_new, next, destroy}
use intense_logic.Common.World.Live.{IsWorld, is_live, destroy_lem}
use intense_logic.Common.World.Take.{positionable_new_lem}
use intense_logic.Common.World.Next.{IsNext, next-IsNext}
use intense_logic.Common.Object.{Object, Cells, freed, calls, unref}
use intense_logic.Common.Object.Weak.{IsTracked, unref_last}
use intense_logic.Common.Event.{Callback, normal_hnd, Handler, any, register_real, handler_new}
use intense_logic.Common.Event.Register.{IsHandler, in_order, register_real_lem}
use intense_logic.Common.Event.Forget.{IsSingle}
use intense_logic.Common.Event.Fire.{functions}

abbrev slots : {A : Type 0} → A → Array A
slots a = record { mem = a ∷ a ∷ a ∷ []; length = 3; capacity = 3 }

slots-IsValid : {A : Type 0} (a : A) → IsValid (slots a)
slots-IsValid a = record { storage = refl; fits = omega arith }

-- Three slots, the second of which is free.
abbrev small : World ℕ ℕ
small = record {
  storage = 0;
  positions = slots (record { x = 0; y = 0; z = 0 });
  rotations = slots (record { x = 0; y = 0; z = 0; w = 1 });
  sizes = slots (record { x = 1; y = 1; z = 1 });
  velocities = slots (record { x = 0; y = 0; z = 0 });
  last_updates = slots (0, 0);
  storages = slots 0;
  free_list = record { mem = 1 ∷ []; length = 1; capacity = 1 };
}

only_one : (i id : ℕ) → get_elem? (1 ∷ []) i ≡ some id → (i ≡ 0) × (1 ≡ id)
only_one zero id e = (refl, some-injective e)
only_one (suc i) id e = absurd (ground arith)

small-IsWorld : IsWorld small
small-IsWorld = record {
  positions = slots-IsValid _;
  rotations = slots-IsValid _;
  sizes = slots-IsValid _;
  velocities = slots-IsValid _;
  last_updates = slots-IsValid _;
  storages = slots-IsValid _;
  rotations_length = refl;
  sizes_length = refl;
  velocities_length = refl;
  last_updates_length = refl;
  storages_length = refl;
  free_list = record {
    valid = record { storage = refl; fits = omega arith };
    in_range = λ i id e. omega (arith, only_one i id e);
    distinct = λ i j id e f. (only_one i id e).0 ∙ sym (only_one j id f).0;
  };
}

positionable_new_example :
    (id : ℕ) × (w' : World ℕ ℕ) × (positionable_new naturals 0 small ≡ some (id, w'))
    × IsWorld w'
    × (is_live small id ≡ false)
    × ((j : ℕ) → is_live w' j ≡ (if id == j then true else is_live small j))
positionable_new_example = positionable_new_lem naturals 0 small small-IsWorld

small_live : is_live small 2 ≡ true
unfolding is_live
small_live = refl

destroy_example :
    IsWorld (destroy small 2)
    × ((j : ℕ) → is_live (destroy small 2) j ≡ (if 2 == j then false else is_live small j))
destroy_example = destroy_lem small 2 small-IsWorld small_live

-- The walk goes from slot 0 over the free slot 1 to slot 2.
next-IsNext_example : (j : ℕ) × (next small 0 ≡ some j) × IsNext small 0 j
next-IsNext_example = next-IsNext small 0 small-IsWorld (omega arith) (omega arith)

next_of_0 : next small 0 ≡ some 2
unfolding next next_on step
next_of_0 = refl

handler_new-IsHandler : IsHandler {C = ℕ} {V = ℕ} handler_new
unfolding handler_new
handler_new-IsHandler = record { valid = empty-IsValid; sorted = tt; given = tt }

register_real_example :
    (h' : Handler ℕ ℕ) × (register_real 0 handler_new (65 ∷ []) (pos 100) any (some 7) 0
      ≡ some (0, h'))
    × IsHandler h'
    × (contents h'.callbacks
        ≡ record {
          callback = some 7;
          priority = pos 100;
          threading = any;
          name = 65 ∷ [];
          handle = 0;
          ctx = 0;
        }
          ∷ [])
unfolding handler_new in_order
register_real_example =
    register_real_lem 0 handler_new (65 ∷ []) (pos 100) any (some 7) 0 handler_new-IsHandler
      (omega arith)

-- A slot of the queue is free, and another holds the event 4.
abbrev waiting : Array (Option ℕ)
waiting = record { mem = none ∷ some 4 ∷ []; length = 2; capacity = 2 }

waiting-IsValid : IsValid waiting
waiting-IsValid = record { storage = refl; fits = omega arith }

-- An object with a destructor, one weak reference at the address 8.
abbrev widget : Object
widget = record {
  refs = 1;
  weak_refs = record { mem = 8 ∷ []; length = 1; capacity = 1 };
  type =
      record {
        constructor_fn = none;
        destructor_fn = some 3;
        copy_fn = none;
        name = 119 ∷ [];
        size = 96;
      }
      ∷ [];
}

-- The pointer at 8 is to the object at 50, that at 9 to another.
abbrev pointers : Cells
pointers p = if p == 8 then some 50 else if p == 9 then some 60 else none

pointers_tracked : (p : ℕ) → pointers p ≡ some 50 → contains (8 ∷ []) p ≡ true
pointers_tracked p e = elim (Bool-cases (p == 8)) [
  | inl f ↦ ground arith
  | inr f ↦ elim (Bool-cases (p == 9)) [
    | inl g ↦ absurd (ground (arith, some-injective (rw (f, g) at e)))
    | inr g ↦ absurd (ground (arith, (rw (f, g) at e)))
  ]
]

widget-IsTracked : IsTracked 50 widget pointers
widget-IsTracked = record {
  valid = record { storage = refl; fits = omega arith };
  tracked = pointers_tracked;
}

unref_last_example :
    ((unref widget pointers).0 ≡ freed (calls (λ t. t.destructor_fn) widget.type))
    × ((p : ℕ) → (unref widget pointers).1 p ≢ some 50)
    × ((p : ℕ) → contains (8 ∷ []) p ≡ false → (unref widget pointers).1 p ≡ pointers p)
unref_last_example = unref_last 50 widget pointers widget-IsTracked (omega arith)

abbrev noted : ℕ → ℕ → Callback ℕ ℕ
noted f p = record {
  callback = some f;
  priority = pos p;
  threading = any;
  name = [];
  handle = f;
  ctx = 0;
}

-- Two callbacks with a NULL between them.
abbrev busy : Handler ℕ ℕ
busy = record {
  callbacks = record {
    mem = noted 5 0 ∷ record (noted 1 0) { callback = none } ∷ noted 6 2 ∷ [];
    length = 3;
    capacity = 3;
  };
  type = normal_hnd;
  name = [];
  cur_id = 7;
}

functions_of_busy : functions (contents busy.callbacks) ≡ 5 ∷ 6 ∷ []
functions_of_busy = refl

-- Two persistent handlers.
abbrev watched : Array ℕ
watched = record { mem = 70 ∷ 80 ∷ []; length = 2; capacity = 2 }

two_cases :
    (i x : ℕ) → get_elem? (70 ∷ 80 ∷ []) i ≡ some x → ((i ≡ 0) × (70 ≡ x)) ⊎ ((i ≡ 1) × (80 ≡ x))
two_cases zero x e = inl (refl, some-injective e)
two_cases (suc zero) x e = inr (refl, some-injective e)
two_cases (suc (suc i)) x e = absurd (ground arith)

watched-IsSingle : IsSingle watched
unfolding IsSingle
watched-IsSingle i j x e f = omega (arith, two_cases i x e, two_cases j x f)
