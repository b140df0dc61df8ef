-- ===== src/Common/Event/Forget.antt =====
-- common/event.c: a handler that is destroyed leaves the list of persistent handlers.
use intense_logic.Base.{
  get_elem?-set_self, get_elem?-set_ne, length-take, take-set, get_elem?-get_or, take-take,
  some-injective, get_elem?-take, ==_iff, ne→==_false, lt→ltb, get_or-set_ne, le→ltb_false, ℕ, zero,
  suc, ◌+◌, ◌-◌, ◌≤◌, ◌<◌, ◌≡◌, refl, sym, ap, ◌∙◌, ◌≢◌, inl, inr, true, false, some, List, arith,
  length, get_elem?, get_or, set, take, Bool-cases, dec_lt, ℕ_discrete,
}
use intense_logic.Base.{contains, contains-index}
use intense_logic.Array.{Array, contents}
use intense_logic.Array.Valid.{IsValid, length-contents}
use intense_logic.Common.World.Slots.{get_elem?-lt}
use intense_logic.Common.Object.Weak.{swap_keeps}
use intense_logic.Common.Event.{forget, forget_from}

-- The array without the element at `j`, in whose place the last has moved.
abbrev swapped : Array ℕ → ℕ → Array ℕ
swapped a j = record a { mem = set a.mem j (get_or a.mem (a.length - 1) 0); length = a.length - 1 }

-- No element from `i` on is `self`.
abbrev AbsentFrom : ℕ → Array ℕ → ℕ → Type 0
AbsentFrom i a self = (k : ℕ) → i ≤ k → k < a.length → get_or a.mem k 0 ≢ self

forget_absent :
    (n i : ℕ) (a : Array ℕ) (self : ℕ) → AbsentFrom i a self → forget_from n i a self ≡ a
unfolding forget_from
forget_absent zero i a self h = refl
forget_absent (suc n) i a self h = elim (dec_lt i a.length) [
  | no out ↦ rw (le→ltb_false i a.length (omega arith)) refl
  | yes in_range ↦
      rw
        (
          lt→ltb i a.length in_range,
          ne→==_false (get_or a.mem i 0) self (h i (omega arith) in_range),
        )
        (forget_absent n (i + 1) a self (λ k l m. h k (omega arith) m))
]

-- `self` stands at `j` and nowhere else.
record Once (a : Array ℕ) (self j : ℕ) : Type 0 where
  in_range : j < a.length
  here : get_or a.mem j 0 ≡ self
  only : (k : ℕ) → k < a.length → get_or a.mem k 0 ≡ self → k ≡ j

Once-gone :
    (a : Array ℕ) (self j : ℕ) → IsValid a → Once a self j → AbsentFrom (j + 1) (swapped a j) self
Once-gone a self j v o k l m e = absurd (
    omega (
      arith,
      l,
      o.only k (omega (arith, m))
          (sym (get_or-set_ne a.mem j k (get_or a.mem (a.length - 1) 0) 0 (omega (arith, l))) ∙ e),
    ))

forget_hit :
    (n i : ℕ) (a : Array ℕ) (self : ℕ)
    → i < a.length
    → get_or a.mem i 0 ≡ self
    → forget_from (suc n) i a self ≡ forget_from n (i + 1) (swapped a i) self
unfolding forget_from
forget_hit n i a self h e = rw (lt→ltb i a.length h, (==_iff (get_or a.mem i 0) self).1 e) refl

forget_miss :
    (n i : ℕ) (a : Array ℕ) (self : ℕ)
    → i < a.length
    → get_or a.mem i 0 ≢ self
    → forget_from (suc n) i a self ≡ forget_from n (i + 1) a self
unfolding forget_from
forget_miss n i a self h e = rw (lt→ltb i a.length h, ne→==_false (get_or a.mem i 0) self e) refl

forget-Once :
    (n i : ℕ) (a : Array ℕ) (self j : ℕ)
    → IsValid a
    → Once a self j
    → i ≤ j
    → j < i + n
    → forget_from n i a self ≡ swapped a j
forget-Once zero i a self j v o l m = absurd (omega arith)
forget-Once (suc n) i a self j v o l m = elim (ℕ_discrete j i) [
  | yes e ↦
      ap (λ k. forget_from (suc n) k a self) (sym e)
      ∙ forget_hit n j a self o.in_range o.here
      ∙ forget_absent n (j + 1) (swapped a j) self (Once-gone a self j v o)
  | no e ↦
      forget_miss n i a self (omega (arith, o.in_range))
        (λ h. e (sym (o.only i (omega (arith, o.in_range)) h)))
      ∙ forget-Once n (i + 1) a self j v o (omega arith) (omega arith)
]

-- The persistent handlers are all different.
unfoldable pub IsSingle : Array ℕ → Type 0
IsSingle a =
    (i j x : ℕ) → get_elem? (contents a) i ≡ some x → get_elem? (contents a) j ≡ some x → i ≡ j

at_index :
    (a : Array ℕ) (k : ℕ)
    → IsValid a
    → k < a.length
    → get_elem? (contents a) k ≡ some (get_or a.mem k 0)
at_index a k v h =
    get_elem?-take a.length k a.mem h
    ∙ get_elem?-get_or a.mem k 0 (omega (arith, v.storage, v.fits))

Once-of :
    (a : Array ℕ) (self j : ℕ)
    → IsValid a
    → IsSingle a
    → get_elem? (contents a) j ≡ some self
    → Once a self j
unfolding IsSingle
Once-of a self j v d e =
    let h : j < a.length = omega (arith, get_elem?-lt (contents a) j self e, length-contents a v) in
    record {
      in_range = h;
      here = some-injective (sym (at_index a j v h) ∙ e);
      only = λ k m f. d k j self (at_index a k v m ∙ ap some f) e;
    }

contents-swapped :
    (a : Array ℕ) (j : ℕ)
    → contents (swapped a j)
      ≡ take (a.length - 1) (set (contents a) j (get_or a.mem (a.length - 1) 0))
contents-swapped a j =
    sym (
      take-take (a.length - 1) a.length (set a.mem j (get_or a.mem (a.length - 1) 0)) (omega arith))
    ∙ ap (take (a.length - 1)) (take-set a.length j a.mem (get_or a.mem (a.length - 1) 0))

-- The element that was overwritten is nowhere.
swapped_gone :
    (ws : List ℕ) (j n self last : ℕ)
    → length ws ≡ suc n
    → get_elem? ws j ≡ some self
    → get_elem? ws n ≡ some last
    → ((k : ℕ) → get_elem? ws k ≡ some self → k ≡ j)
    → contains (take n (set ws j last)) self ≡ false
swapped_gone ws j n self last l e f only =
    elim (Bool-cases (contains (take n (set ws j last)) self)) [
      | inr h ↦ h
      | inl h ↦
          let (k, g) = contains-index (take n (set ws j last)) self h in
          let small = get_elem?-lt (take n (set ws j last)) k self g in
          let long = length-take n (set ws j last) in
          let there : get_elem? (set ws j last) k ≡ some self =
            sym (get_elem?-take n k (set ws j last) (omega (arith, small, long))) ∙ g in
          absurd (elim (ℕ_discrete j k) [
            | no m ↦ m (sym (only k (sym (get_elem?-set_ne ws j k last m) ∙ there)))
            | yes m ↦
                let same : last ≡ self = some-injective (
                  sym (get_elem?-set_self ws j last (get_elem?-lt ws j self e))
                  ∙ ap (get_elem? (set ws j last)) m
                  ∙ there) in
                omega (arith, small, long, m, only n (f ∙ ap some same))
          ])
    ]

-- When a persistent handler is destroyed, and the persistent handlers are all different, it is no
-- longer among them, and all the others still are.
pub contains-forget :
    (a : Array ℕ) (self : ℕ)
    → IsValid a
    → IsSingle a
    → contains (contents a) self ≡ true
    → (contains (contents (forget a self)) self ≡ false)
      × ((q : ℕ)
          → self ≢ q
          → contains (contents a) q ≡ true
          → contains (contents (forget a self)) q ≡ true)
unfolding forget IsSingle
contains-forget a self v d c =
    let (j, e) = contains-index (contents a) self c in
    let o = Once-of a self j v d e in
    let n = length-contents a v in
    let last : ℕ = get_or a.mem (a.length - 1) 0 in
    let left : contents (forget_from a.length 0 a self)
        ≡ take (a.length - 1) (set (contents a) j last) =
      ap contents (forget-Once a.length 0 a self j v o (omega arith) (omega (arith, o.in_range)))
      ∙ contents-swapped a j in
    let at_end = at_index a (a.length - 1) v (omega (arith, o.in_range)) in
    (
      ap (λ l. contains l self) left
          ∙ swapped_gone (contents a) j (a.length - 1) self last (omega (arith, o.in_range)) e
              at_end (λ k f. d k j self f e),
      λ q ne k.
          ap (λ l. contains l q) left
          ∙ swap_keeps (contents a) j (a.length - 1) self q last (omega (arith, o.in_range))
              (omega (arith, o.in_range)) e at_end ne k,
    )
