-- ===== src/Util/LinkedList.antt =====
-- util/list.h: linked lists in the items themselves. An item is its address; `none` is NULL.
pub mod Queue
use intense_logic.Base.{
  ℕ, zero, suc, ◌+◌, ◌-◌, ◌*◌, ◌/◌, ◌%◌, ◌^◌, ◌≤◌, ◌<◌, min, ◌≡◌, refl, sym, ap, ap₂, ◌∙◌, ◌≢◌, ◌↔◌,
  ◌⊎◌, inl, inr, Bool, true, false, not, ◌&&◌, ◌||◌, Option, none, some, List, [], ◌∷◌, ◌++◌, map,
  append-nil, append_assoc, arith, ltb, leb, ◌==◌, if◌then◌else◌, length, get_elem?, get_or, set,
  take, drop, replicate, copy_at, Bool-cases, dec_lt, ℕ_discrete,
}

-- The fields `next` and `last` of all items.
pub record Links : Type 0 where
  pub next : ℕ → Option ℕ
  pub last : ℕ → Option ℕ

-- `IL_LIST(T)` of the list itself: its first item and its last.
pub record Ends : Type 0 where
  pub head : Option ℕ
  pub tail : Option ℕ

abbrev pub link : (ℕ → Option ℕ) → ℕ → Option ℕ → ℕ → Option ℕ
link f p v q = if p == q then v else f q

-- `IL_LIST_NEXT`, `IL_LIST_PREV`, `IL_LIST_HEAD`, `IL_LIST_TAIL`
abbrev pub list_next : Links → ℕ → Option ℕ
list_next l item = l.next item

abbrev pub list_prev : Links → ℕ → Option ℕ
list_prev l item = l.last item

abbrev pub list_head : Ends → Option ℕ
list_head e = e.head

abbrev pub list_tail : Ends → Option ℕ
list_tail e = e.tail

-- `if (!end) other = NULL`
abbrev pub emptied : Option ℕ → Option ℕ → Option ℕ
emptied none other = none
emptied (some p) other = other

-- `IL_LIST_POPHEAD`, with what it gives out: the new head still points back to it.
unfoldable pub pop_head : Ends → Links → Option ℕ × Ends
pop_head e l = elim (e.head) [
  | none ↦ (none, record { head = none; tail = none })
  | some p ↦ (some p, record { head = l.next p; tail = emptied (l.next p) e.tail })
]

-- `IL_LIST_POPTAIL`: the new tail still points on to it.
unfoldable pub pop_tail : Ends → Links → Option ℕ × Ends
pop_tail e l = elim (e.tail) [
  | none ↦ (none, record { head = none; tail = none })
  | some p ↦ (some p, record { head = emptied (l.last p) e.head; tail = l.last p })
]

-- `IL_LIST_INDEX`
unfoldable pub list_index : ℕ → Links → Option ℕ → Option ℕ
list_index zero l out = out
list_index (suc id) l none = none
list_index (suc id) l (some p) = list_index id l (l.next p)

-- `(list).el.last->el.next = (item)`, if there is a last item
abbrev pub link_tail : Option ℕ → ℕ → (ℕ → Option ℕ) → ℕ → Option ℕ
link_tail none item f = f
link_tail (some t) item f = link f t (some item)

abbrev pub or_item : Option ℕ → ℕ → Option ℕ
or_item none item = some item
or_item (some p) item = some p

-- `IL_LIST_APPEND`: the item's own `next` stays.
unfoldable pub list_append : Ends → Links → ℕ → Ends × Links
list_append e l item = (
  record { head = or_item e.head item; tail = some item },
  record { next = link_tail e.tail item l.next; last = link l.last item e.tail },
)
