-- ===== src/Common/Event/Fire.antt =====
-- common/event.c: firing an event.
use intense_logic.Base.{
  ◌≡◌, sym, ◌∙◌, inl, inr, none, some, List, [], ◌∷◌, ◌++◌, append-nil, append_assoc,
}
use intense_logic.Base.{Option-cases}
use intense_logic.Array.{contents}
use intense_logic.Common.Event.{Callback, Handler, fire_list, fire_forced}

-- The functions of callbacks, without those that are NULL.
abbrev pub functions : {C V : Type 0} → List (Callback C V) → List C
functions [] = []
functions (c ∷ cs) = elim (c.callback) [ none ↦ functions cs | some f ↦ f ∷ functions cs ]

-- Running a callback writes its function down, after what `step` does to its context.
abbrev pub traced : {C V : Type 0} → (C → V → V → V) → C → V → V → List C → V × List C
traced step f value ctx log = (step f value ctx, log ++ (f ∷ []))

module _ {C V : Type 0} (step : C → V → V → V) (value : V) where
  fire_list_runs :
      (cs : List (Callback C V)) (log : List C)
      → (fire_list (traced step) value cs log).1 ≡ log ++ functions cs
  unfolding fire_list
  fire_list_runs [] log = sym (append-nil log)
  fire_list_runs (c ∷ cs) log = elim (Option-cases c.callback) [
    | inl e ↦ rw e (fire_list_runs cs log)
    | inr (f, e) ↦
        rw e (fire_list_runs cs (log ++ (f ∷ [])) ∙ append_assoc log (f ∷ []) (functions cs))
  ]

-- Firing runs every callback of the handler once, in the order in which they stand.
pub fire_forced_runs :
    {C V : Type 0} (step : C → V → V → V) (h : Handler C V) (value : V) (log : List C)
    → (fire_forced (traced step) h value log).1 ≡ log ++ functions (contents h.callbacks)
unfolding fire_forced
fire_forced_runs step h value log = fire_list_runs step value (contents h.callbacks) log
