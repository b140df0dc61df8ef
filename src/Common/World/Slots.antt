-- ===== src/Common/World/Slots.antt =====
-- common/world.c: which slots of a world are in use.
use intense_logic.Base.{contains-index, index-contains, contains}
use intense_logic.Base.{
  get_elem?-mid, get_elem?-append, ℕ, zero, suc, ◌-◌, ◌<◌, ◌≡◌, refl, sym, ap, ◌∙◌, ◌⊎◌, inl, inr,
  false, some, List, [], ◌∷◌, ◌++◌, arith, length, get_elem?, take, Bool-cases,
}
use intense_logic.Array.{Array, contents, append}
use intense_logic.Array.Valid.{IsValid, append-IsValid, contents-append}

take-get_elem? :
    (n : ℕ) (xs : List ℕ) (x : ℕ)
    → get_elem? xs n ≡ some x
    → take (suc n) xs ≡ take n xs ++ (x ∷ [])
take-get_elem? n [] x h = absurd (ground arith)
take-get_elem? zero (y ∷ xs) x h = ap (λ o. o ∷ []) (ground arith)
take-get_elem? (suc n) (y ∷ xs) x h = ap (λ l. y ∷ l) (take-get_elem? n xs x h)

-- An element of a list with one more at the end.
snoc-cases :
    (xs : List ℕ) (x i id : ℕ)
    → get_elem? (xs ++ (x ∷ [])) i ≡ some id
    → (get_elem? xs i ≡ some id) ⊎ ((i ≡ length xs) × (x ≡ id))
snoc-cases [] x zero id h = inr (refl, ground arith)
snoc-cases [] x (suc i) id h = absurd (ground arith)
snoc-cases (y ∷ xs) x zero id h = inl h
snoc-cases (y ∷ xs) x (suc i) id h = elim (snoc-cases xs x i id h) [
  | inl e ↦ inl e
  | inr (e, f) ↦ inr (ap suc e, f)
]

pub get_elem?-lt : (xs : List ℕ) (i id : ℕ) → get_elem? xs i ≡ some id → i < length xs
get_elem?-lt [] i id h = absurd (ground arith)
get_elem?-lt (x ∷ xs) zero id h = omega arith
get_elem?-lt (x ∷ xs) (suc i) id h = omega (arith, get_elem?-lt xs i id h)

-- The free list holds distinct slots below `n`.
pub record IsFreeList (a : Array ℕ) (n : ℕ) : Type 0 where
  pub valid : IsValid a
  pub in_range : (i id : ℕ) → get_elem? (contents a) i ≡ some id → id < n
  pub distinct :
      (i j id : ℕ) → get_elem? (contents a) i ≡ some id → get_elem? (contents a) j ≡ some id → i ≡ j

snoc_in_range :
    (a : Array ℕ) (n id : ℕ)
    → IsFreeList a n
    → id < n
    → (i k : ℕ) → get_elem? (contents a ++ (id ∷ [])) i ≡ some k
    → k < n
snoc_in_range a n id v h i k e = elim (snoc-cases (contents a) id i k e) [
  | inl f ↦ v.in_range i k f
  | inr (_, f) ↦ omega arith
]

snoc_distinct :
    (a : Array ℕ) (n id : ℕ)
    → IsFreeList a n
    → contains (contents a) id ≡ false
    → (i j k : ℕ) → get_elem? (contents a ++ (id ∷ [])) i ≡ some k
    → get_elem? (contents a ++ (id ∷ [])) j ≡ some k
    → i ≡ j
snoc_distinct a n id v h i j k e f = elim (snoc-cases (contents a) id i k e) [
  | inl e' ↦ elim (snoc-cases (contents a) id j k f) [
    | inl f' ↦ v.distinct i j k e' f'
    | inr (_, f') ↦ absurd (ground (arith, index-contains (contents a) i k e'))
  ]
  | inr (p, e') ↦ elim (snoc-cases (contents a) id j k f) [
    | inl f' ↦ absurd (ground (arith, index-contains (contents a) j k f'))
    | inr (q, f') ↦ p ∙ sym q
  ]
]

pub append-IsFreeList :
    (a : Array ℕ) (n id : ℕ)
    → IsFreeList a n
    → id < n
    → contains (contents a) id ≡ false
    → IsFreeList (append 0 a id) n
append-IsFreeList a n id v h f =
    let c = contents-append 0 a id v.valid in
    record {
      valid = append-IsValid 0 a id v.valid;
      in_range = rw c (snoc_in_range a n id v h);
      distinct = rw c (snoc_distinct a n id v f);
    }

-- The last slot of the free list is taken off.
abbrev pub pop : Array ℕ → Array ℕ
pop a = record a { length = a.length - 1 }

pub contents-pop :
    (a : Array ℕ) (id : ℕ)
    → 0 < a.length
    → get_elem? a.mem (a.length - 1) ≡ some id
    → contents a ≡ contents (pop a) ++ (id ∷ [])
contents-pop a id h e =
    ap (λ n. take n a.mem) {y = suc (a.length - 1)} (omega arith)
    ∙ take-get_elem? (a.length - 1) a.mem id e

pub pop-IsFreeList :
    (a : Array ℕ) (n id : ℕ)
    → IsFreeList a n
    → contents a ≡ contents (pop a) ++ (id ∷ [])
    → IsFreeList (pop a) n × (contains (contents (pop a)) id ≡ false) × (id < n)
pop-IsFreeList a n id v c =
    let old = λ (i k : ℕ) (e : get_elem? (contents (pop a)) i ≡ some k).
      ap (λ l. get_elem? l i) c
      ∙ get_elem?-append (contents (pop a)) (id ∷ []) i (get_elem?-lt (contents (pop a)) i k e)
      ∙ e in
    let last : get_elem? (contents a) (length (contents (pop a))) ≡ some id =
      ap (λ l. get_elem? l (length (contents (pop a)))) c
      ∙ get_elem?-mid (contents (pop a)) [] id (length (contents (pop a))) refl in
    (
      record {
        valid = record { storage = (v.valid).storage; fits = omega (arith, (v.valid).fits) };
        in_range = λ i k e. v.in_range i k (old i k e);
        distinct = λ i j k e f. v.distinct i j k (old i k e) (old j k f);
      },
      elim (Bool-cases (contains (contents (pop a)) id)) [
        | inr e ↦ e
        | inl e ↦
            let (i, f) = contains-index (contents (pop a)) id e in
            absurd (
              omega (
                arith,
                v.distinct i (length (contents (pop a))) id (old i id f) last,
                get_elem?-lt (contents (pop a)) i id f,
              ))
      ],
      v.in_range (length (contents (pop a))) id last,
    )
