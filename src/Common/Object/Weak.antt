-- ===== src/Common/Object/Weak.antt =====
-- common/base.c: weak references do not outlive their object.
use intense_logic.Base.{contains, contains-append, contains-index, index-contains}
use intense_logic.Base.{
  take-set, take-take, ==_iff, get_elem?-set_self, get_elem?-get_or, get_elem?-set_ne, length-set,
  get_elem?-take, le→ltb_false, some-injective, lt→ltb, ℕ, suc, ◌-◌, ◌≤◌, ◌≡◌, refl, sym, ap, ◌∙◌,
  ◌≢◌, inl, inr, Bool, true, false, none, some, List, [], ◌∷◌, arith, ◌==◌, if◌then◌else◌, length,
  get_elem?, get_or, set, take, Bool-cases, dec_lt, ℕ_discrete,
}
use intense_logic.Array.{Array, contents, find, find_from}
use intense_logic.Array.Find.{find_from_lem}
use intense_logic.Array.Valid.{IsValid, append-IsValid, contents-append, length-contents}
use intense_logic.Common.World.Slots.{get_elem?-lt}
use intense_logic.Common.Object.{
  Object, Cells, write, clear_weak, unref, weakref, weakunref, drop_weak, freed, calls,
}

-- Every pointer to the object at `self` is one of its weak references.
pub record IsTracked (self : ℕ) (o : Object) (cells : Cells) : Type 0 where
  pub valid : IsValid o.weak_refs
  pub tracked : (p : ℕ) → cells p ≡ some self → contains (contents o.weak_refs) p ≡ true

clear_weak-none :
    (ps : List ℕ) (cells : Cells) (p : ℕ) → cells p ≡ none → clear_weak ps cells p ≡ none
unfolding clear_weak
clear_weak-none [] cells p e = e
clear_weak-none (q ∷ ps) cells p e = clear_weak-none ps (write cells q none) p (ground (arith, e))

clear_weak_lem :
    (ps : List ℕ) (cells : Cells) (p : ℕ)
    → clear_weak ps cells p ≡ (if contains ps p then none else cells p)
unfolding clear_weak
clear_weak_lem [] cells p = refl
clear_weak_lem (q ∷ ps) cells p = elim (Bool-cases (q == p)) [
  | inl e ↦ rw e (clear_weak-none ps (write cells q none) p (rw e refl))
  | inr e ↦ rw e (clear_weak_lem ps (write cells q none) p ∙ rw e refl)
]

cleared :
    (ps : List ℕ) (cells : Cells) (p : ℕ) → contains ps p ≡ true → clear_weak ps cells p ≡ none
cleared ps cells p c = clear_weak_lem ps cells p ∙ rw c refl

untouched :
    (ps : List ℕ) (cells : Cells) (p : ℕ) → contains ps p ≡ false → clear_weak ps cells p ≡ cells p
untouched ps cells p c = clear_weak_lem ps cells p ∙ rw c refl

none-ne-some : (n : ℕ) → ¬ (none ≡ some n)
none-ne-some n e = absurd (ground arith)

-- When the last reference is dropped, the object is freed after the destructors of its type and
-- its parents, no pointer to it is left, and the pointers to other objects that it did not know stay.
pub unref_last :
    (self : ℕ) (o : Object) (cells : Cells)
    → IsTracked self o cells
    → o.refs ≤ 1
    → ((unref o cells).0 ≡ freed (calls (λ t. t.destructor_fn) o.type))
      × ((p : ℕ) → (unref o cells).1 p ≢ some self)
      × ((p : ℕ) → contains (contents o.weak_refs) p ≡ false → (unref o cells).1 p ≡ cells p)
unfolding unref
unref_last self o cells t h = rw (lt→ltb (o.refs - 1) 1 (omega arith)) (
  refl,
  λ p e. elim (Bool-cases (contains (contents o.weak_refs) p)) [
    | inl c ↦ none-ne-some self (sym (cleared (contents o.weak_refs) cells p c) ∙ e)
    | inr c ↦
        absurd (ground (arith, t.tracked p (sym (untouched (contents o.weak_refs) cells p c) ∙ e)))
  ],
  λ p c. untouched (contents o.weak_refs) cells p c,
)

-- A new weak reference is tracked, and so are the others still.
pub weakref-IsTracked :
    (self : ℕ) (o : Object) (cells : Cells) (ptr : ℕ)
    → IsTracked self o cells
    → IsTracked self (weakref self o cells ptr).0 (weakref self o cells ptr).1
unfolding weakref
weakref-IsTracked self o cells ptr t = record {
  valid = append-IsValid 0 o.weak_refs ptr t.valid;
  tracked = λ p e.
      rw (contents-append 0 o.weak_refs ptr t.valid, contains-append (contents o.weak_refs) ptr p)
        (elim (Bool-cases (ptr == p)) [
          | inl f ↦ rw f refl
          | inr f ↦ rw f (t.tracked p (rw f at e))
        ]);
}

-- Moving the last element into the place of another keeps all elements but that one.
pub swap_keeps :
    (ws : List ℕ) (i n p q last : ℕ)
    → length ws ≡ suc n
    → i ≤ n
    → get_elem? ws i ≡ some p
    → get_elem? ws n ≡ some last
    → p ≢ q
    → contains ws q ≡ true
    → contains (take n (set ws i last)) q ≡ true
swap_keeps ws i n p q last l h e f ne c =
    let (j, g) = contains-index ws q c in
    let moved : i ≢ j = λ k. ne (some-injective (sym e ∙ ap (get_elem? ws) k ∙ g)) in
    elim (dec_lt j n) [
      | yes k ↦
          index-contains (take n (set ws i last)) j q
            (get_elem?-take n j (set ws i last) k ∙ get_elem?-set_ne ws i j last moved ∙ g)
      | no k ↦ elim (ℕ_discrete j n) [
        | yes m ↦ index-contains (take n (set ws i last)) i q (
            get_elem?-take n i (set ws i last) (omega (arith, moved))
            ∙ get_elem?-set_self ws i last (omega arith)
            ∙ sym f
            ∙ ap (get_elem? ws) (sym m)
            ∙ g)
        | no m ↦ absurd (omega (arith, get_elem?-lt ws j q g))
      ]
    ]

drop_weak_lem :
    (a : Array ℕ) (ptr : ℕ)
    → IsValid a
    → IsValid (drop_weak a ptr)
      × ((q : ℕ)
          → ptr ≢ q
          → contains (contents a) q ≡ true
          → contains (contents (drop_weak a ptr)) q ≡ true)
unfolding drop_weak find
drop_weak_lem a ptr v =
    let eq : ℕ → Bool = λ p. p == ptr in
    let i : ℕ = find_from eq (contents a) 0 in
    let n = length-contents a v in
    elim (dec_lt i a.length) [
      | no h ↦ rw (le→ltb_false i a.length (omega arith)) (v, λ q ne c. c)
      | yes h ↦ rw (lt→ltb i a.length h) (
        record { storage = length-set a.mem i _ ∙ v.storage; fits = omega (arith, v.fits) },
        λ q ne c. elim (find_from_lem eq (contents a) 0) [
          | inl e ↦ absurd (omega arith)
          | inr (p, e, t) ↦
              let last : ℕ = get_or a.mem (a.length - 1) 0 in
              let at_end : get_elem? (contents a) (a.length - 1) ≡ some last =
                get_elem?-take a.length (a.length - 1) a.mem (omega arith)
                ∙ get_elem?-get_or a.mem (a.length - 1) 0 (omega (arith, v.storage, v.fits)) in
              let kept =
                swap_keeps (contents a) i (a.length - 1) p q last (omega arith) (omega arith)
                  (ap (get_elem? (contents a)) (omega arith) ∙ e) at_end
                  (λ k. ne (sym ((==_iff p ptr).0 t) ∙ k)) c in
              ap (λ l. contains l q)
                (sym (take-take (a.length - 1) a.length (set a.mem i last) (omega arith))
                  ∙ ap (take (a.length - 1)) (take-set a.length i a.mem last))
              ∙ kept
        ],
      )
    ]

-- After a weak reference is taken back, the others are still tracked, and the pointer is NULL.
pub weakunref-IsTracked :
    (self : ℕ) (o : Object) (cells : Cells) (ptr : ℕ)
    → IsTracked self o cells
    → IsTracked self (weakunref o cells ptr).0 (weakunref o cells ptr).1
      × ((weakunref o cells ptr).1 ptr ≡ none)
unfolding weakunref
weakunref-IsTracked self o cells ptr t =
    let (v, keeps) = drop_weak_lem o.weak_refs ptr t.valid in
    (
      record {
        valid = v;
        tracked = λ p e. elim (Bool-cases (ptr == p)) [
          | inl f ↦ absurd (none-ne-some self (rw f at e))
          | inr f ↦ keeps p (λ k. absurd (ground (arith, k))) (t.tracked p (rw f at e))
        ];
      },
      ground arith,
    )
