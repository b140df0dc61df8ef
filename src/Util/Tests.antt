-- ===== src/Util/Tests.antt =====
-- util/ on short strings, lists and times.
use intense_logic.Base.{ℕ, ◌+◌, ◌%◌, ◌<◌, ◌≤◌, ◌==◌, if◌then◌else◌, ne→==_false}
use intense_logic.Util.Alloc.{align_up, Heap, IsHeap, alloc_aligned, aligned_free}
use intense_logic.Util.Alloc.Aligned.{alloc_aligned_lem}
use intense_logic.Base.{none, ◌==◌, if◌then◌else◌, ◌≡◌, refl, true, some, [], ◌∷◌, ◌++◌, arith}
use intense_logic.Base.{pos, strnlen}
use intense_logic.Util.LinkedList.{Links, Ends, list_append, pop_head, pop_tail}
use intense_logic.Util.LinkedList.Queue.{IsQueue, list_append-IsQueue}
use intense_logic.Util.Timer.{Timeval}
use intense_logic.Util.IlString.{
  IlString, text, verify, string_new, string_cat, sealed, compute_canary,
}
use intense_logic.Util.IlString.Concat.{IsString, text-string_cat}

-- "hi" and "him", each with its NUL counted.
abbrev hi : IlString
hi = string_new 64 (some (104 ∷ 105 ∷ [])) (pos 3)

abbrev him : IlString
him = string_new 128 (some (104 ∷ 105 ∷ 109 ∷ [])) (pos 4)

hi-IsString : IsString hi
unfolding string_new verify sealed compute_canary
hi-IsString = record { verified = refl; owned = refl; storage = omega arith }

him_verified : verify him ≡ true
unfolding string_new verify sealed compute_canary
him_verified = refl

text-string_cat_example :
    (r : IlString) × (string_cat 256 hi him ≡ some (true, r))
    × IsString r
    × (text r ≡ text hi ++ text him)
unfolding string_new sealed
text-string_cat_example = text-string_cat 256 hi him hi-IsString him_verified refl refl refl

text_of_both : text hi ++ text him ≡ 104 ∷ 105 ∷ 104 ∷ 105 ∷ 109 ∷ []
unfolding string_new sealed strnlen
text_of_both = refl

-- "hi" without a NUL.
abbrev bare_hi : IlString
bare_hi = string_new 64 (some (104 ∷ 105 ∷ [])) (pos 2)

bare_hi_verified : verify bare_hi ≡ true
unfolding string_new verify sealed compute_canary
bare_hi_verified = refl

-- The items 10 and 20, and the item 30 that is in no list.
abbrev links : Links
links = record {
  next = λ p. if p == 10 then some 20 else none;
  last = λ p. if p == 20 then some 10 else none;
}

abbrev ends : Ends
ends = record { head = some 10; tail = some 20 }

ends-IsQueue : IsQueue ends links (10 ∷ 20 ∷ [])
ends-IsQueue = record { chain = (refl, (refl, refl)); tail = refl; distinct = (refl, (refl, tt)) }

list_append-IsQueue_example :
    IsQueue (list_append ends links 30).0 (list_append ends links 30).1 (10 ∷ 20 ∷ 30 ∷ [])
list_append-IsQueue_example =
    list_append-IsQueue ends links (10 ∷ 20 ∷ []) 30 ends-IsQueue refl refl

-- After 10 is taken from the head, taking 20 from the tail leaves 10 as the tail.
stale_tail : ((pop_tail (pop_head ends links).1 links).1).tail ≡ some 10
unfolding pop_head pop_tail
stale_tail = refl

abbrev half : Timeval
half = record { tv_sec = 1; tv_usec = 500000 }

-- A heap that never reuses memory: the next address, and the bytes.
abbrev simple_heap : Heap (ℕ × (ℕ → ℕ))
simple_heap = record {
  malloc = λ s n. ((s.0 + n, s.1), s.0);
  calloc = λ s n. ((s.0 + n, s.1), s.0);
  free = λ s p. s;
  read = λ s p. s.1 p;
  write = λ s p v. (s.0, λ q. if q == p then v else s.1 q);
}

simple_heap-IsHeap : IsHeap simple_heap
simple_heap-IsHeap = record {
  read-write = λ s p v. ground arith;
  read-write_other = λ s p q v h. rw (ne→==_false q p h) refl;
}

abbrev at_five : ℕ × (ℕ → ℕ)
at_five = (5, λ p. 7)

alloc_aligned_lem_example :
    ((alloc_aligned simple_heap 16 at_five 3).1 % 16 ≡ 0)
    × (5 < (alloc_aligned simple_heap 16 at_five 3).1)
    × ((alloc_aligned simple_heap 16 at_five 3).1 + 3 ≤ 5 + (3 + 16))
    × (simple_heap.read
          (alloc_aligned simple_heap 16 at_five 3).0
          ((alloc_aligned simple_heap 16 at_five 3).1 + 2)
        ≡ 0)
    × (aligned_free simple_heap
          (alloc_aligned simple_heap 16 at_five 3).0
          (alloc_aligned simple_heap 16 at_five 3).1
        ≡ simple_heap.free (alloc_aligned simple_heap 16 at_five 3).0 5)
alloc_aligned_lem_example =
    alloc_aligned_lem simple_heap simple_heap-IsHeap 16 4 3 at_five
      (alloc_aligned simple_heap 16 at_five 3).0 2 refl (omega arith) (omega arith) refl

-- An alignment that is no power of two: the block is at no multiple of it.
masked : align_up 3 240 ≡ 241
masked = refl
