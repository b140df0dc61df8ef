-- ===== src/Common/Event/Register.antt =====
-- common/event.c: the order in which callbacks run.
use intense_logic.Base.{
  le→ltb_false, lt→ltb, ℕ, suc, ◌+◌, ◌-◌, ◌<◌, ◌≡◌, refl, sym, ap, ◌∙◌, inl, inr, false, Option,
  none, some, List, [], ◌∷◌, ◌++◌, arith, if◌then◌else◌, length, take, drop, Bool-cases, dec_lt,
}
use intense_logic.Base.{ℤ, pos, lt→ltb, insert_at_end, int_lt, int_lt_asym}
use intense_logic.Array.Find.{find_from_bounds}
use intense_logic.Array.{Array, contents, append, find, find_from}
use intense_logic.Array.Valid.{IsValid, append-IsValid, contents-append, length-contents}
use intense_logic.Array.Insert.{contents-insert}
use intense_logic.Common.Event.{any, Threading, Callback, Handler, place, is_after, register_real}

module _ {C V : Type 0} where
  -- The callback goes in front of the first one of a greater priority number.
  unfoldable pub in_order : Callback C V → List (Callback C V) → List (Callback C V)
  in_order cb [] = cb ∷ []
  in_order cb (c ∷ cs) = if is_after cb c then cb ∷ c ∷ cs else c ∷ in_order cb cs

  -- No callback has a smaller priority number than one in front of it.
  abbrev pub Sorted : List (Callback C V) → Type 0
  Sorted [] = Unit
  Sorted (c ∷ []) = Unit
  Sorted (c ∷ d ∷ cs) = (int_lt d.priority c.priority ≡ false) × Sorted (d ∷ cs)

  -- All handles are below the next one to be given out.
  abbrev pub AllGiven : ℕ → List (Callback C V) → Type 0
  AllGiven n [] = Unit
  AllGiven n (c ∷ cs) = (c.handle < n) × AllGiven n cs

  more_given : (n : ℕ) (cs : List (Callback C V)) → AllGiven n cs → AllGiven (n + 1) cs
  more_given n [] g = tt
  more_given n (c ∷ cs) (g, gs) = (omega arith, more_given n cs gs)

  in_order_given :
      (cb : Callback C V) (n : ℕ) (cs : List (Callback C V))
      → cb.handle ≡ n
      → AllGiven n cs
      → AllGiven (n + 1) (in_order cb cs)
  unfolding in_order
  in_order_given cb n [] e g = (omega arith, tt)
  in_order_given cb n (c ∷ cs) e (g, gs) = elim (Bool-cases (is_after cb c)) [
    | inl f ↦ rw f (omega arith, (omega arith, more_given n cs gs))
    | inr f ↦ rw f (omega arith, in_order_given cb n cs e gs)
  ]

  in_order_lem :
      (cb : Callback C V) (xs : List (Callback C V)) (i : ℕ)
      → in_order cb xs
        ≡ take (find_from (is_after cb) xs i - i) xs
          ++ (cb ∷ drop (find_from (is_after cb) xs i - i) xs)
  unfolding in_order find_from
  in_order_lem cb [] i = ap (λ n. take n [] ++ (cb ∷ drop n [])) {x = 0} {y = i - i} (omega arith)
  in_order_lem cb (c ∷ cs) i = elim (Bool-cases (is_after cb c)) [
    | inl e ↦ rw e (ap (λ n. take n (c ∷ cs) ++ (cb ∷ drop n (c ∷ cs))) {x = 0} (omega arith))
    | inr e ↦ rw e (
        ap (λ l. c ∷ l) (in_order_lem cb cs (i + 1))
        ∙ ap (λ n. take n (c ∷ cs) ++ (cb ∷ drop n (c ∷ cs)))
            {x = suc (find_from (is_after cb) cs (i + 1) - (i + 1))}
            (omega (arith, find_from_bounds (is_after cb) cs (i + 1))))
  ]

  in_order_at :
      (cb : Callback C V) (xs : List (Callback C V))
      → in_order cb xs
        ≡ take (find_from (is_after cb) xs 0) xs ++ (cb ∷ drop (find_from (is_after cb) xs 0) xs)
  in_order_at cb xs = in_order_lem cb xs 0 ∙ ap (λ n. take n xs ++ (cb ∷ drop n xs)) (omega arith)

  in_order-Sorted :
      (cb : Callback C V) (xs : List (Callback C V)) → Sorted xs → Sorted (in_order cb xs)
  unfolding in_order
  in_order-Sorted cb [] s = tt
  in_order-Sorted cb (c ∷ []) s = elim (Bool-cases (is_after cb c)) [
    | inl e ↦ rw e (int_lt_asym cb.priority c.priority e, tt)
    | inr e ↦ rw e (e, tt)
  ]
  in_order-Sorted cb (c ∷ d ∷ cs) (s, t) = elim (Bool-cases (is_after cb c)) [
    | inl e ↦ rw e (int_lt_asym cb.priority c.priority e, (s, t))
    | inr e ↦ elim (Bool-cases (is_after cb d)) [
      | inl f ↦ rw (e, f) (e, (int_lt_asym cb.priority d.priority f, t))
      | inr f ↦ rw (e, f) (s, rw f at (in_order-Sorted cb (d ∷ cs) t))
    ]
  ]

  place_lem :
      (z : Callback C V) (a : Array (Callback C V)) (cb : Callback C V)
      → IsValid a
      → (b : Array (Callback C V)) × (place z a cb ≡ some b)
        × IsValid b
        × (contents b ≡ in_order cb (contents a))
  unfolding place find
  place_lem z a cb v =
      let i : ℕ = find_from (is_after cb) (contents a) 0 in
      let bound = find_from_bounds (is_after cb) (contents a) 0 in
      let n = length-contents a v in
      elim (dec_lt i a.length) [
        | yes h ↦
            let (b, run, vb, c) = contents-insert z a i cb v (omega arith) in
            (b, rw (lt→ltb i a.length h) run, vb, c ∙ sym (in_order_at cb (contents a)))
        | no h ↦ (
          append z a cb,
          rw (le→ltb_false i a.length (omega arith)),
          append-IsValid z a cb v,
          contents-append z a cb v
              ∙ sym (insert_at_end i (contents a) cb (omega (arith, bound, n)))
              ∙ sym (in_order_at cb (contents a)),
        )
      ]

  -- The state of a handler: its callbacks are in order, and their handles were all given out.
  pub record IsHandler (h : Handler C V) : Type 0 where
    pub valid : IsValid h.callbacks
    pub sorted : Sorted (contents h.callbacks)
    pub given : AllGiven h.cur_id (contents h.callbacks)

  -- Registering a callback of a short name succeeds with the handler's next handle, which stays above
  -- those of all its callbacks. The callback goes in front of the first one of a greater priority
  -- number, and the callbacks stay in order.
  pub register_real_lem :
      (nil : V) (h : Handler C V) (name : List ℕ) (priority : ℤ) (threads : Threading)
      (callback : Option C) (ctx : V)
      → IsHandler h
      → length name < 128
      → (h' : Handler C V) × (register_real nil h name priority threads callback ctx
          ≡ some (h.cur_id, h'))
        × IsHandler h'
        × (contents h'.callbacks
            ≡ in_order
                (record {
                  callback = callback;
                  priority = priority;
                  threading = threads;
                  name = name;
                  handle = h.cur_id;
                  ctx = ctx;
                })
                (contents h.callbacks))
  unfolding register_real
  register_real_lem nil h name priority threads callback ctx v s =
      let cb : Callback C V = record {
        callback = callback;
        priority = priority;
        threading = threads;
        name = name;
        handle = h.cur_id;
        ctx = ctx;
      } in
      let z : Callback C V = record {
        callback = none;
        priority = pos 0;
        threading = any;
        name = [];
        handle = 0;
        ctx = nil;
      } in
      let (a, run, va, c) = place_lem z h.callbacks cb v.valid in
      (
        record h { callbacks = a; cur_id = h.cur_id + 1 },
        rw (lt→ltb (length name) 128 s, run) refl,
        record {
          valid = va;
          sorted = rw c (in_order-Sorted cb (contents h.callbacks) v.sorted);
          given = rw c (in_order_given cb h.cur_id (contents h.callbacks) refl v.given);
        },
        c,
      )
