-- ===== src/Common/Event/Pending.antt =====
-- common/event.c: the events that wait for the event loop.
use intense_logic.Base.{
  take-set, length-drop, length-set, length-append, lt→ltb, take-append_add, le→ltb_false,
  some-injective, ℕ, zero, suc, ◌≡◌, refl, ap, ◌∙◌, inl, inr, Bool, true, false, Option, none, some,
  List, [], ◌∷◌, ◌++◌, map, append-nil, arith, ◌==◌, if◌then◌else◌, length, get_elem?, set, take,
  drop, dec_lt,
}
use intense_logic.Array.{Array, contents, find, find_from}
use intense_logic.Array.Find.{find_from_lem}
use intense_logic.Array.Valid.{IsValid, append-IsValid, contents-append, length-contents}
use intense_logic.Common.Event.{add_pending, clear_pending, cleared, is_null}

-- Whether a slot holds the event.
abbrev pub holds : List (Option ℕ) → ℕ → Bool
holds [] ev = false
holds (none ∷ slots) ev = holds slots ev
holds (some e ∷ slots) ev = if e == ev then true else holds slots ev

holds-set :
    (slots : List (Option ℕ)) (i : ℕ) (o : Option ℕ) (ev x : ℕ)
    → get_elem? slots i ≡ some o
    → is_null o ≡ true
    → holds (set slots i (some ev)) x ≡ (if ev == x then true else holds slots x)
holds-set [] i o ev x e n = absurd (ground arith)
holds-set (none ∷ slots) zero o ev x e n = refl
holds-set (some y ∷ slots) zero o ev x e n = absurd (ground (arith, ap is_null (some-injective e)))
holds-set (none ∷ slots) (suc i) o ev x e n = holds-set slots i o ev x e n
holds-set (some y ∷ slots) (suc i) o ev x e n = ground (arith, holds-set slots i o ev x e n)

holds-append :
    (slots : List (Option ℕ)) (ev x : ℕ)
    → holds (slots ++ (some ev ∷ [])) x ≡ (if ev == x then true else holds slots x)
holds-append [] ev x = refl
holds-append (none ∷ slots) ev x = holds-append slots ev x
holds-append (some y ∷ slots) ev x = ground (arith, holds-append slots ev x)

holds-cleared :
    (slots : List (Option ℕ)) (ev x : ℕ)
    → holds (map (cleared ev) slots) x ≡ (if ev == x then false else holds slots x)
holds-cleared [] ev x = ground arith
holds-cleared (none ∷ slots) ev x = holds-cleared slots ev x
holds-cleared (some y ∷ slots) ev x = ground (arith, holds-cleared slots ev x)

length-map : {A B : Type 0} (f : A → B) (xs : List A) → length (map f xs) ≡ length xs
length-map f [] = refl
length-map f (x ∷ xs) = ap suc (length-map f xs)

-- Queueing an event keeps the slots valid, and makes that event pending beside those that were.
pub add_pending_lem :
    (a : Array (Option ℕ)) (ev : ℕ)
    → IsValid a
    → IsValid (add_pending a ev)
      × ((x : ℕ)
          → holds (contents (add_pending a ev)) x
            ≡ (if ev == x then true else holds (contents a) x))
unfolding add_pending find
add_pending_lem a ev v =
    let i : ℕ = find_from is_null (contents a) 0 in
    let n = length-contents a v in
    elim (dec_lt i a.length) [
      | no h ↦ rw (le→ltb_false i a.length (omega arith)) (
        append-IsValid none a (some ev) v,
        λ x. rw (contents-append none a (some ev) v) (holds-append (contents a) ev x),
      )
      | yes h ↦ rw (lt→ltb i a.length h) (
        record { storage = length-set a.mem i (some ev) ∙ v.storage; fits = v.fits },
        λ x. rw (take-set a.length i a.mem (some ev)) (elim (find_from_lem is_null (contents a) 0) [
          | inl e ↦ absurd (omega arith)
          | inr (o, e, t) ↦
              holds-set (contents a) i o ev x (ap (get_elem? (contents a)) (omega arith) ∙ e) t
        ]),
      )
    ]

-- Dispatching an event keeps the slots valid, and ends the wait of that event alone.
pub clear_pending_lem :
    (a : Array (Option ℕ)) (ev : ℕ)
    → IsValid a
    → IsValid (clear_pending a ev)
      × ((x : ℕ)
          → holds (contents (clear_pending a ev)) x
            ≡ (if ev == x then false else holds (contents a) x))
unfolding clear_pending
clear_pending_lem a ev v =
    let n = length-contents a v in
    let m = length-map (cleared ev) (contents a) in
    let front : take a.length (map (cleared ev) (contents a) ++ drop a.length a.mem)
        ≡ map (cleared ev) (contents a) =
      take-append_add a.length 0 (map (cleared ev) (contents a)) (drop a.length a.mem) (omega arith)
      ∙ append-nil (map (cleared ev) (contents a)) in
    (
      record {
        storage = omega (
          arith,
          length-append (map (cleared ev) (contents a)) (drop a.length a.mem),
          length-drop a.length a.mem,
          v.storage,
          v.fits,
        );
        fits = v.fits;
      },
      λ x. rw front (holds-cleared (contents a) ev x),
    )
