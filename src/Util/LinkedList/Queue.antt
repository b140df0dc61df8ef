-- ===== src/Util/LinkedList/Queue.antt =====
-- util/list.h: appending and taking from the head make a queue.
use intense_logic.Base.{
  ne→==_false, some-injective, ℕ, ◌≡◌, refl, sym, ap, ◌∙◌, true, false, Option, none, some, List,
  [], ◌∷◌, ◌++◌, arith, ◌==◌, ℕ_discrete,
}
use intense_logic.Base.{contains, contains-append}
use intense_logic.Util.LinkedList.{Links, Ends, link, pop_head, list_append}

-- From `head`, the fields `next` lead through these items, and then to NULL.
abbrev pub Chain : (ℕ → Option ℕ) → Option ℕ → List ℕ → Type 0
Chain next head [] = head ≡ none
Chain next head (x ∷ xs) = (head ≡ some x) × Chain next (next x) xs

abbrev pub Distinct : List ℕ → Type 0
Distinct [] = Unit
Distinct (x ∷ xs) = (contains xs x ≡ false) × Distinct xs

abbrev pub last_of : List ℕ → Option ℕ
last_of [] = none
last_of (x ∷ []) = some x
last_of (x ∷ y ∷ xs) = last_of (y ∷ xs)

-- The list holds these items, in order.
pub record IsQueue (e : Ends) (l : Links) (items : List ℕ) : Type 0 where
  pub chain : Chain l.next e.head items
  pub tail : e.tail ≡ last_of items
  pub distinct : Distinct items

last_of-snoc : (xs : List ℕ) (x : ℕ) → last_of (xs ++ (x ∷ [])) ≡ some x
last_of-snoc [] x = refl
last_of-snoc (y ∷ []) x = refl
last_of-snoc (y ∷ z ∷ xs) x = last_of-snoc (z ∷ xs) x

Distinct-snoc :
    (xs : List ℕ) (x : ℕ) → Distinct xs → contains xs x ≡ false → Distinct (xs ++ (x ∷ []))
Distinct-snoc [] x d c = (refl, tt)
Distinct-snoc (y ∷ xs) x (n, d) c =
    (contains-append xs x y ∙ ground arith, Distinct-snoc xs x d (ground arith))

last_of-contains : (xs : List ℕ) (t : ℕ) → last_of xs ≡ some t → contains xs t ≡ true
last_of-contains [] t e = absurd (ground arith)
last_of-contains (x ∷ []) t e = ground (arith, some-injective e)
last_of-contains (x ∷ y ∷ xs) t e = ground (arith, last_of-contains (y ∷ xs) t e)

apart : (xs : List ℕ) (t x : ℕ) → contains xs t ≡ true → contains xs x ≡ false → (t == x) ≡ false
apart xs t x c d = elim (ℕ_discrete t x) [
  | yes e ↦ absurd (ground (arith, ap (contains xs) e))
  | no n ↦ ne→==_false t x n
]

-- Linking an item behind the last one adds it to the chain.
Chain-append :
    (next : ℕ → Option ℕ) (head : Option ℕ) (xs : List ℕ) (t item : ℕ)
    → last_of xs ≡ some t
    → Distinct xs
    → contains xs item ≡ false
    → next item ≡ none
    → Chain next head xs
    → Chain (link next t (some item)) head (xs ++ (item ∷ []))
Chain-append next head [] t item m d c n k = absurd (ground arith)
Chain-append next head (x ∷ []) t item m d c n (e, k) =
    let here : (t == x) ≡ true = ground (arith, some-injective m) in
    let there : (t == item) ≡ false = ground (arith, some-injective m) in
    (e, rw here (refl, rw there n))
Chain-append next head (x ∷ y ∷ xs) t item m (f, d) c n (e, k) =
    let ne = apart (y ∷ xs) t x (last_of-contains (y ∷ xs) t m) f in
    (e, rw ne (Chain-append next (next x) (y ∷ xs) t item m d (ground arith) n k))

last_of-some : (x : ℕ) (xs : List ℕ) → (t : ℕ) × (last_of (x ∷ xs) ≡ some t)
last_of-some x [] = (x, refl)
last_of-some x (y ∷ xs) = last_of-some y xs

-- A new item, of which `next` is NULL, is appended at the end of the queue.
pub list_append-IsQueue :
    (e : Ends) (l : Links) (items : List ℕ) (item : ℕ)
    → IsQueue e l items
    → contains items item ≡ false
    → l.next item ≡ none
    → IsQueue (list_append e l item).0 (list_append e l item).1 (items ++ (item ∷ []))
unfolding list_append
list_append-IsQueue e l [] item q c n =
    rw (q.tail, q.chain) (record { chain = (refl, n); tail = refl; distinct = (refl, tt) })
list_append-IsQueue e l (x ∷ items) item q c n =
    let (t, m) = last_of-some x items in
    rw (q.tail ∙ m, (q.chain).0)
      (record {
        chain =
            Chain-append l.next (some x) (x ∷ items) t item m q.distinct c n (refl, (q.chain).1);
        tail = sym (last_of-snoc (x ∷ items) item);
        distinct = Distinct-snoc (x ∷ items) item q.distinct c;
      })

-- The head of a queue is taken off, and what is left is a queue.
pub pop_head-IsQueue :
    (e : Ends) (l : Links) (x : ℕ) (items : List ℕ)
    → IsQueue e l (x ∷ items)
    → ((pop_head e l).0 ≡ some x) × IsQueue (pop_head e l).1 l items
unfolding pop_head
pop_head-IsQueue e l x [] q =
    rw ((q.chain).0) (rw ((q.chain).1) (refl, record { chain = refl; tail = refl; distinct = tt }))
pop_head-IsQueue e l x (y ∷ items) q =
    let (f, (g, k)) = q.chain in
    rw f (rw g (refl, record { chain = (refl, k); tail = q.tail; distinct = (q.distinct).1 }))
